-- ===== src/Stl/LinkedList/Ends.antt =====
-- The linked list refines a list: adding at both ends, and the walk over it.
use dns_relay.Base.{
  All, none, ℕ, zero, suc, ◌<◌, ◌≡◌, ◌≢◌, refl, ap, ◌∙◌, true, false, Option, some, List, [], ◌∷◌,
  length, map, ◌==◌, ◌>>=◌, update, arith,
}
use dns_relay.Stl.LinkedList.{
  clear_loop, LinkedNode, LinkedList, linked_list_add_first, foreach_loop,
}
use dns_relay.Stl.LinkedList.Cells.{
  first_of, AreLinked, AreFresh, Holds, Contains, frame, fresh_bounds, fresh_more, not_bound, apart,
  created_at, add_first_empty, add_first_linked,
}

module _ {A : Type 0} where
  pub update_at :
      (f : ℕ → Option (LinkedNode A)) (i j : ℕ) (v : Option (LinkedNode A))
      → (i == j) ≡ true
      → update f i v j ≡ v
  update_at f i j v e = rw e refl

  pub update_off :
      (f : ℕ → Option (LinkedNode A)) (i j : ℕ) (v : Option (LinkedNode A))
      → (i == j) ≡ false
      → update f i v j ≡ f j
  update_off f i j v e = rw e refl

  pub created_reads :
      (l : LinkedList A) (d : A) (p q : ℕ)
      → created_at l d p q l.next_address ≡ some (record { data_of = d; prev = p; next = q })
  unfolding created_at
  created_reads l d p q = ground arith

  pub created_keeps :
      (l : LinkedList A) (d : A) (p q i : ℕ)
      → i ≢ l.next_address
      → created_at l d p q i ≡ l.memory i
  unfolding created_at
  created_keeps l d p q i h = ground arith

  pub record Extends (l : LinkedList A) (items : List A) (r : Option (LinkedList A)) : Type 0 where
    pub after : LinkedList A
    pub returns : r ≡ some after
    pub contains : Contains after items

  pub add_first-Extends :
      (l : LinkedList A) (d : A) (cells : List (ℕ × A))
      → Holds l cells
      → Extends l (d ∷ map (λ c. c.1) cells) (linked_list_add_first l d)
  add_first-Extends l d [] h =
      let n = l.next_address in
      let empty : (l.head == 0) ≡ true = ground (arith, h.first) in
      record {
        after = _;
        returns = add_first_empty l d empty;
        contains = record {
          cells = (n, d) ∷ [];
          holds = record {
            linked = (
              created_reads l d 0 l.head
                  ∙ ap (λ q. some (record { data_of = d; prev = 0; next = q })) h.first,
              tt,
            );
            fresh = (h.positive, omega arith, tt, tt);
            first = refl;
            last = refl;
            counted = ap suc h.counted;
            positive = omega arith;
          };
          values = refl;
        };
      }
  add_first-Extends l d ((a, x) ∷ cells) h =
      let n = l.next_address in
      let fresh = h.fresh in
      let node : LinkedNode A = record { data_of = x; prev = 0; next = first_of cells } in
      let full : (l.head == 0) ≡ false = ground (arith, h.first, fresh.0) in
      let other : (n == l.head) ≡ false = ground (arith, h.first, fresh.1) in
      let at : l.memory l.head ≡ some node = ap l.memory h.first ∙ h.linked.0 in
      let marked : Option (LinkedNode A) = some (record node { prev = n }) in
      let linked' = update (created_at l d 0 l.head) l.head marked in
      let here : linked' n ≡ some (record { data_of = d; prev = 0; next = a }) =
        update_off (created_at l d 0 l.head) l.head n marked (ground (arith, other))
        ∙ created_reads l d 0 l.head
        ∙ ap (λ q. some (record { data_of = d; prev = 0; next = q })) h.first in
      let there : linked' a ≡ some (record { data_of = x; prev = n; next = first_of cells }) =
        update_at (created_at l d 0 l.head) l.head a marked (ground (arith, h.first)) in
      let same : (i : ℕ) → i ≢ n → i ≢ a → linked' i ≡ l.memory i = λ i p q.
        update_off (created_at l d 0 l.head) l.head i marked (ground (arith, h.first, q))
        ∙ created_keeps l d 0 l.head i p in
      record {
        after = _;
        returns = add_first_linked l d node full other at;
        contains = record {
          cells = (n, d) ∷ (a, x) ∷ cells;
          holds = record {
            linked = (
              here,
              (
                there,
                frame l.memory linked' a cells
                    (apart l.memory linked' n a cells same
                      (not_bound n cells (fresh_bounds n cells fresh.3)) fresh.2)
                    h.linked.1,
              ),
            );
            fresh = (
              h.positive,
              omega arith,
              not_bound n ((a, x) ∷ cells) (fresh_bounds n ((a, x) ∷ cells) fresh),
              fresh_more n ((a, x) ∷ cells) fresh,
            );
            first = refl;
            last = h.last;
            counted = ap suc h.counted;
            positive = omega arith;
          };
          values = refl;
        };
      }

  foreach_step :
      (fuel : ℕ) (l : LinkedList A) (a : ℕ) (node : LinkedNode A)
      → (a == 0) ≡ false
      → l.memory a ≡ some node
      → foreach_loop (suc fuel) l a
        ≡ (foreach_loop fuel l node.next >>= λ rest. some (node.data_of ∷ rest))
  unfolding foreach_loop
  foreach_step fuel l a node e at = rw (e, at, foreach_loop) refl

  pub foreach_loop-cells :
      (fuel : ℕ) (l : LinkedList A) (p bound : ℕ) (cells : List (ℕ × A))
      → length cells < fuel
      → AreFresh bound cells
      → AreLinked l.memory p cells
      → foreach_loop fuel l (first_of cells) ≡ some (map (λ c. c.1) cells)
  unfolding foreach_loop
  foreach_loop-cells zero l p bound cells lt f h = absurd (omega arith)
  foreach_loop-cells (suc fuel) l p bound [] lt f h = refl
  foreach_loop-cells (suc fuel) l p bound ((a, x) ∷ cells) lt f h =
      foreach_step fuel l a (record { data_of = x; prev = p; next = first_of cells })
        (ground (arith, f.0)) h.0
      ∙ ap (λ o. o >>= λ rest. some (x ∷ rest))
          (foreach_loop-cells fuel l a bound cells (omega arith) f.3 h.1)

  clear_step :
      (fuel : ℕ) (m : ℕ → Option (LinkedNode A)) (a : ℕ) (node : LinkedNode A)
      → (a == 0) ≡ false
      → m a ≡ some node
      → clear_loop (suc fuel) m a ≡ clear_loop fuel (update m a none) node.next
  unfolding clear_loop
  clear_step fuel m a node e at = rw (e, at, clear_loop) refl

  off_all :
      (m : ℕ → Option (LinkedNode A)) (a : ℕ) (cells : List (ℕ × A))
      → All (λ c. c.0 ≢ a) cells
      → All (λ c. update m a none c.0 ≡ m c.0) cells
  off_all m a [] h = tt
  off_all m a (c ∷ cells) (h, hs) =
      (update_off m a c.0 none (ground (arith, h)), off_all m a cells hs)

  pub clear_loop-ends :
      (fuel : ℕ) (m : ℕ → Option (LinkedNode A)) (p bound : ℕ) (cells : List (ℕ × A))
      → length cells < fuel
      → AreFresh bound cells
      → AreLinked m p cells
      → (m' : ℕ → Option (LinkedNode A)) × (clear_loop fuel m (first_of cells) ≡ some m')
        × All (λ c. m' c.0 ≡ none) cells
        × ((i : ℕ) → All (λ c. c.0 ≢ i) cells → m' i ≡ m i)
  unfolding clear_loop
  clear_loop-ends zero m p bound cells lt f h = absurd (omega arith)
  clear_loop-ends (suc fuel) m p bound [] lt f h = (m, refl, tt, λ i o. refl)
  clear_loop-ends (suc fuel) m p bound ((a, x) ∷ cells) lt f h =
      let (m', e, freed, kept) =
        clear_loop-ends fuel (update m a none) a bound cells (omega arith) f.3
          (frame m (update m a none) a cells (off_all m a cells f.2) h.1) in
      (
        m',
        clear_step fuel m a (record { data_of = x; prev = p; next = first_of cells })
              (ground (arith, f.0)) h.0
            ∙ e,
        (kept a f.2 ∙ update_at m a a none (ground arith), freed),
        λ i o. kept i o.1 ∙ update_off m a i none (ground (arith, o.0)),
      )
