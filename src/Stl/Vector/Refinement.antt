-- ===== src/Stl/Vector/Refinement.antt =====
-- The vector as a list.
use dns_relay.Base.{
  ℕ, zero, suc, ◌+◌, ◌-◌, ◌*◌, ◌≤◌, ◌<◌, ◌≡◌, refl, inl, inr, true, false, List, [], ◌∷◌, length,
  get_or, ◌&&◌, arith, ltb, leb, ◌==◌, if◌then◌else◌, update, Bool-cases,
}
use dns_relay.Stl.Vector.{
  Vector, double_until, vector_grow, vector_create, vector_add, shift_up, vector_insert,
  vector_remove, vector_get,
}

-- The elements of the list are in the first places, and there is room for them.
pub record Holds (v : Vector) (xs : List ℕ) : Type 0 where
  pub sized : v.size ≡ length xs
  pub room : v.size ≤ v.capacity
  pub elements : (k : ℕ) → k < v.size → v.elements k ≡ get_or xs k 0

abbrev pub insert_at : List ℕ → ℕ → ℕ → List ℕ
insert_at xs zero x = x ∷ xs
insert_at [] (suc i) x = []
insert_at (y ∷ ys) (suc i) x = y ∷ insert_at ys i x

abbrev pub erase_at : List ℕ → ℕ → List ℕ
erase_at [] i = []
erase_at (y ∷ ys) zero = ys
erase_at (y ∷ ys) (suc i) = y ∷ erase_at ys i

length-insert_at :
    (xs : List ℕ) (i x : ℕ) → i ≤ length xs → length (insert_at xs i x) ≡ length xs + 1
length-insert_at xs zero x h = omega arith
length-insert_at [] (suc i) x h = absurd (omega arith)
length-insert_at (y ∷ ys) (suc i) x h = omega (arith, length-insert_at ys i x (omega arith))

get_or-insert_at :
    (xs : List ℕ) (i x k : ℕ)
    → i ≤ length xs
    → get_or (insert_at xs i x) k 0
      ≡ (if ltb k i then get_or xs k 0 else if k == i then x else get_or xs (k - 1) 0)
get_or-insert_at xs zero x zero h = ground arith
get_or-insert_at xs zero x (suc k) h = ground arith
get_or-insert_at [] (suc i) x k h = absurd (omega arith)
get_or-insert_at (y ∷ ys) (suc i) x zero h = ground arith
get_or-insert_at (y ∷ ys) (suc i) x (suc zero) h =
    ground (arith, get_or-insert_at ys i x 0 (omega arith))
get_or-insert_at (y ∷ ys) (suc i) x (suc (suc k)) h =
    ground (arith, get_or-insert_at ys i x (suc k) (omega arith))

length-erase_at : (xs : List ℕ) (i : ℕ) → i < length xs → length (erase_at xs i) ≡ length xs - 1
length-erase_at [] i h = absurd (omega arith)
length-erase_at (y ∷ ys) zero h = omega arith
length-erase_at (y ∷ ys) (suc i) h = omega (arith, length-erase_at ys i (omega arith))

get_or-erase_at :
    (xs : List ℕ) (i k : ℕ)
    → i < length xs
    → get_or (erase_at xs i) k 0 ≡ (if ltb k i then get_or xs k 0 else get_or xs (k + 1) 0)
get_or-erase_at [] i k h = absurd (omega arith)
get_or-erase_at (y ∷ ys) zero k h = ground arith
get_or-erase_at (y ∷ ys) (suc i) zero h = ground arith
get_or-erase_at (y ∷ ys) (suc i) (suc k) h = ground (arith, get_or-erase_at ys i k (omega arith))

double_until-ge :
    (fuel min_capacity c : ℕ)
    → 0 < c
    → min_capacity ≤ c + fuel
    → min_capacity ≤ double_until fuel min_capacity c
unfolding double_until
double_until-ge zero m c p h = omega arith
double_until-ge (suc fuel) m c p h = elim (Bool-cases (ltb c m)) [
  | inl less ↦ rw (less, double_until) (double_until-ge fuel m (c * 2) (omega arith) (omega arith))
  | inr enough ↦ rw (enough, double_until) (ground arith)
]

vector_grow-Holds :
    (v : Vector) (m : ℕ) (xs : List ℕ)
    → Holds v xs
    → Holds (vector_grow v m) xs × (m ≤ (vector_grow v m).capacity)
unfolding vector_grow
vector_grow-Holds v m xs h =
    let c = if v.capacity == 0 then 1 else v.capacity in
    let ge = double_until-ge m m c (ground arith) (omega arith) in
    elim (Bool-cases (leb m v.capacity)) [
      | inl fits ↦ rw fits (h, ground arith)
      | inr grows ↦
          rw grows (
            record { sized = h.sized; room = ground (arith, h.room, ge); elements = h.elements },
            ge,
          )
    ]

shift_up_lem :
    (count index : ℕ) (e : ℕ → ℕ) (k : ℕ)
    → shift_up count index e k ≡ (if ltb index k && leb k (index + count) then e (k - 1) else e k)
unfolding shift_up
shift_up_lem zero index e k = ground arith
shift_up_lem (suc count) index e k =
    ground (arith, shift_up_lem count index (update e (index + count + 1) (e (index + count))) k)

vector_grow-size : (v : Vector) (m : ℕ) → (vector_grow v m).size ≡ v.size
unfolding vector_grow
vector_grow-size v m = ground arith

-- The operations on the list that a vector holds.
pub record Refines (v : Vector) (xs : List ℕ) : Type 0 where
  pub added : (x : ℕ) → Holds (vector_add v x) (insert_at xs (length xs) x)
  pub inserted : (x i : ℕ) → i ≤ length xs → Holds (vector_insert v x i) (insert_at xs i x)
  pub not_inserted : (x i : ℕ) → length xs < i → vector_insert v x i ≡ v
  pub removed : (i : ℕ) → i < length xs → Holds (vector_remove v i) (erase_at xs i)
  pub not_removed : (i : ℕ) → length xs ≤ i → vector_remove v i ≡ v
  pub got : (i : ℕ) → vector_get v i ≡ get_or xs i 0

add-Holds :
    (v : Vector) (xs : List ℕ) (x : ℕ)
    → Holds v xs
    → Holds (vector_add v x) (insert_at xs (length xs) x)
unfolding vector_add
add-Holds v xs x h =
    let (g, roomy) = vector_grow-Holds v (v.size + 1) xs h in
    let same = vector_grow-size v (v.size + 1) in
    let n = length-insert_at xs (length xs) x (omega arith) in
    record {
      sized = omega (arith, n, same, h.sized);
      room = omega (arith, same, roomy);
      elements = λ k b.
          ground (arith, get_or-insert_at xs (length xs) x k, g.elements k, g.sized, h.sized);
    }

insert-Holds :
    (v : Vector) (xs : List ℕ) (x i : ℕ)
    → i ≤ length xs
    → Holds v xs
    → Holds (vector_insert v x i) (insert_at xs i x)
unfolding vector_insert
insert-Holds v xs x i b h =
    let grown = vector_grow v (v.size + 1) in
    let (g, roomy) = vector_grow-Holds v (v.size + 1) xs h in
    let same = vector_grow-size v (v.size + 1) in
    let n = length-insert_at xs i x b in
    let inside : ltb v.size i ≡ false = ground (arith, h.sized) in
    rw inside (record {
      sized = omega (arith, n, same, h.sized);
      room = omega (arith, same, roomy);
      elements = λ k c. ground (
        arith,
        get_or-insert_at xs i x k b,
        shift_up_lem (grown.size - i) i grown.elements k,
        g.elements k,
        g.elements (k - 1),
        g.sized,
      );
    })

remove-Holds :
    (v : Vector) (xs : List ℕ) (i : ℕ)
    → i < length xs
    → Holds v xs
    → Holds (vector_remove v i) (erase_at xs i)
unfolding vector_remove
remove-Holds v xs i b h =
    let n = length-erase_at xs i b in
    let inside : leb v.size i ≡ false = ground (arith, h.sized) in
    rw inside (record {
      sized = omega (arith, n, h.sized);
      room = omega (arith, h.room);
      elements = λ k c. ground (arith, get_or-erase_at xs i k b, h.elements k, h.elements (k + 1));
    })

get_or_past : (xs : List ℕ) (i : ℕ) → length xs ≤ i → get_or xs i 0 ≡ 0
get_or_past [] i h = refl
get_or_past (x ∷ xs) zero h = absurd (omega arith)
get_or_past (x ∷ xs) (suc i) h = get_or_past xs i (omega arith)

-- On a vector whose first elements are those of a list, its size and with room for them,
-- vector_add appends to the list, vector_insert inserts at an index up to the length and
-- vector_remove erases at an index below it, with the vector then holding the new list; other
-- indices change nothing, and vector_get reads the list, with NULL out of range.
pub vector-Refines : (v : Vector) (xs : List ℕ) → Holds v xs → Refines v xs
unfolding vector_insert vector_remove vector_get
vector-Refines v xs h = record {
  added = λ x. add-Holds v xs x h;
  inserted = λ x i b. insert-Holds v xs x i b h;
  not_inserted = λ x i b. let out : ltb v.size i ≡ true = ground (arith, h.sized) in rw out refl;
  removed = λ i b. remove-Holds v xs i b h;
  not_removed = λ i b. let out : leb v.size i ≡ true = ground (arith, h.sized) in rw out refl;
  got = λ i. ground (arith, h.sized, h.elements i, get_or_past xs i);
}

pub vector_create-Holds : (n : ℕ) → Holds (vector_create n) []
unfolding vector_create
vector_create-Holds n = record {
  sized = refl;
  room = omega arith;
  elements = λ k b. absurd (omega arith);
}
