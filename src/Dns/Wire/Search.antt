-- ===== src/Dns/Wire/Search.antt =====
-- `find_previous_name`: it does not read past the memory, and what it finds is the name.
use dns_relay.Base.{
  ℕ, zero, suc, ◌+◌, ◌-◌, ◌<◌, ◌≤◌, ◌≡◌, refl, ap, sym, subst, ◌∙◌, Bool, true, false, Option, none,
  some, List, [], ◌∷◌, ◌++◌, length, drop, ◌==◌, arith, inl, inr, Bool-cases, length-append,
  length-drop, ==_iff,
}
use dns_relay.Dns.Wire.Memory.{Output}
use dns_relay.Dns.Wire.Name.{equals, find_loop, find_previous_name}
use dns_relay.Dns.Wire.Place.{At, drop-At, At-offset}

-- The comparison.
equals_head :
    (m c : ℕ) (mem name : List ℕ) → (m == c) ≡ true → equals (m ∷ mem) (c ∷ name) ≡ equals mem name
unfolding equals
equals_head m c mem name e = rw (e, equals) refl

equals_other :
    (m c : ℕ) (mem name : List ℕ) → (m == c) ≡ false → equals (m ∷ mem) (c ∷ name) ≡ some false
unfolding equals
equals_other m c mem name e = rw (e, equals) refl

abbrev Starts : List ℕ → List ℕ → Type 0
Starts mem s = (r : List ℕ) × (mem ≡ s ++ r)

equals_sound : (mem name : List ℕ) → equals mem name ≡ some true → Starts mem (name ++ 0 ∷ [])
unfolding equals
equals_sound [] name h = ground arith
equals_sound (m ∷ mem) [] h = (mem, ap (λ b. b ∷ mem) ((==_iff m 0).0 (ground (arith, h))))
equals_sound (m ∷ mem) (c ∷ name) h = elim (Bool-cases (m == c)) [
  | inl e ↦
      let (r, p) = equals_sound mem name (sym (equals_head m c mem name e) ∙ h) in
      (r, rw ((==_iff m c).0 e, p) refl)
  | inr e ↦ ground (arith, equals_other m c mem name e, h)
]

-- No overrun.
equals_decides :
    (mem name : List ℕ) → length name < length mem → (b : Bool) × (equals mem name ≡ some b)
unfolding equals
equals_decides [] name lt = absurd (omega arith)
equals_decides (m ∷ mem) [] lt = (m == 0, refl)
equals_decides (m ∷ mem) (c ∷ name) lt = elim (Bool-cases (m == c)) [
  | inl e ↦
      let (b, p) = equals_decides mem name (omega arith) in (b, equals_head m c mem name e ∙ p)
  | inr e ↦ (false, equals_other m c mem name e)
]

-- The search.
find_same :
    (left : ℕ) (mem name : List ℕ) (k : ℕ)
    → equals mem name ≡ some true
    → find_loop (suc left) mem name k ≡ some (some k)
unfolding find_loop
find_same left mem name k e = rw (e, find_loop) refl

find_other :
    (left : ℕ) (mem name : List ℕ) (k : ℕ)
    → equals mem name ≡ some false
    → find_loop (suc left) mem name k ≡ find_loop left (drop 1 mem) name (suc k)
unfolding find_loop
find_other left mem name k e = rw (e, find_loop) refl

find_last :
    (mem name : List ℕ) (k : ℕ) (b : Bool)
    → equals mem name ≡ some b
    → find_loop zero mem name k ≡ some none
unfolding find_loop
find_last mem name k b e = rw (e, find_loop) refl

record Found (left : ℕ) (mem name : List ℕ) (k off : ℕ) : Type 0 where
  pub skipped : ℕ
  pub place : off ≡ k + skipped
  pub before : skipped < left
  pub there : Starts (drop skipped mem) (name ++ 0 ∷ [])

Found-later :
    {left : ℕ} {m : ℕ} {mem name : List ℕ} {k off : ℕ}
    → Found left mem name (suc k) off
    → Found (suc left) (m ∷ mem) name k off
Found-later f = record {
  skipped = suc f.skipped;
  place = omega (arith, f.place);
  before = omega (arith, f.before);
  there = f.there;
}

find_loop-Found :
    (left : ℕ) (mem name : List ℕ) (k off : ℕ)
    → left + length name < length mem
    → find_loop left mem name k ≡ some (some off)
    → Found left mem name k off
find_loop-Found left [] name k off room h = absurd (omega arith)
find_loop-Found zero (m ∷ mem) name k off room h =
    let (b, e) = equals_decides (m ∷ mem) name (omega arith) in
    ground (arith, find_last (m ∷ mem) name k b e, h)
find_loop-Found (suc left) (m ∷ mem) name k off room h =
    let (b, e) = equals_decides (m ∷ mem) name (omega arith) in
    elim b as (λ b. equals (m ∷ mem) name ≡ some b → Found (suc left) (m ∷ mem) name k off) [
      | true ↦ λ e. record {
        skipped = 0;
        place = ground (arith, find_same left (m ∷ mem) name k e, h);
        before = omega arith;
        there = equals_sound (m ∷ mem) name e;
      }
      | false ↦ λ e. Found-later (
          find_loop-Found left mem name (suc k) off (omega arith)
            (sym (find_other left (m ∷ mem) name k e) ∙ h))
    ]
      e

find_loop_decides :
    (left : ℕ) (mem name : List ℕ) (k : ℕ)
    → left + length name < length mem
    → (r : Option ℕ) × (find_loop left mem name k ≡ some r)
find_loop_decides left [] name k room = absurd (omega arith)
find_loop_decides zero (m ∷ mem) name k room =
    let (b, e) = equals_decides (m ∷ mem) name (omega arith) in
    (none, find_last (m ∷ mem) name k b e)
find_loop_decides (suc left) (m ∷ mem) name k room =
    let (b, e) = equals_decides (m ∷ mem) name (omega arith) in
    elim b
        as (λ b.
          equals (m ∷ mem) name ≡ some b
          → (r : Option ℕ) × (find_loop (suc left) (m ∷ mem) name k ≡ some r)) [
            | true ↦ λ e. (some k, find_same left (m ∷ mem) name k e)
            | false ↦ λ e.
                let (r, p) = find_loop_decides left mem name (suc k) (omega arith) in
                (r, find_other left (m ∷ mem) name k e ∙ p)
          ]
      e

-- A name that is found lies in the memory, and starts before the cursor.
pub find_previous_name-finds :
    (o : Output) (name : List ℕ) (off : ℕ)
    → 12 ≤ length o.written
    → length name < length o.room
    → find_previous_name o name ≡ some (some off)
    → (12 + off < length o.written) × At (o.written ++ o.room) (12 + off) (name ++ 0 ∷ [])
unfolding find_previous_name
find_previous_name-finds o name off header room h =
    let mem = o.written ++ o.room in
    let total : length mem ≡ length o.written + length o.room = length-append o.written o.room in
    let f =
      find_loop-Found (length o.written - 12) (drop 12 mem) name 0 off
        (omega (arith, total, length-drop 12 mem)) h in
    let (r, there) = f.there in
    let k : 12 + f.skipped ≡ 12 + off = omega (arith, f.place) in
    (
      omega (arith, f.place, f.before),
      subst (λ n. At mem n (name ++ 0 ∷ [])) k
          (At-offset mem (name ++ 0 ∷ []) 12 f.skipped (omega (arith, total)) (
            drop-At (drop 12 mem) (name ++ 0 ∷ []) r f.skipped
              (omega (arith, f.before, total, length-drop 12 mem)) there)),
    )

pub find_previous_name_decides :
    (o : Output) (name : List ℕ)
    → 12 ≤ length o.written
    → length name < length o.room
    → (r : Option ℕ) × (find_previous_name o name ≡ some r)
unfolding find_previous_name
find_previous_name_decides o name header room =
    find_loop_decides (length o.written - 12) (drop 12 (o.written ++ o.room)) name 0
      (omega (arith, length-append o.written o.room, length-drop 12 (o.written ++ o.room)))
