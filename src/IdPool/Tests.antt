-- ===== src/IdPool/Tests.antt =====
-- Runs of the id pool, and the theorems at concrete inputs.
use dns_relay.Base.{◌≡◌, ◌⊎◌, refl, true, false, some, List, [], ◌∷◌, arith, update}
use dns_relay.IdPool.{id_pool_init, id_alloc, id_free}
use dns_relay.IdPool.History.{Call, run, Allocates, run-id_alloc, run-id_free}

abbrev calls : List Call
calls = Call.alloc ∷ Call.alloc ∷ Call.free 65535 (omega arith) ∷ []

-- Ids are handed out from the top, and a freed id is the next to be handed out.
reuse : (id_alloc (run id_pool_init calls)).1 ≡ some 65535
unfolding run id_alloc id_free id_pool_init
reuse = refl

run-id_alloc_example : Allocates (run id_pool_init calls) (id_alloc (run id_pool_init calls))
run-id_alloc_example = run-id_alloc calls

run-id_free_example :
    let p = run id_pool_init calls in
    ((p.st 65534 ≡ true)
      × ((id_free p 65534).st ≡ update p.st 65534 false)
      × ((id_alloc (id_free p 65534)).1 ≡ some 65534))
    ⊎ ((p.st 65534 ≡ false) × (id_free p 65534 ≡ p))
run-id_free_example = run-id_free calls 65534 (omega arith)
