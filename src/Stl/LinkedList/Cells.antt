-- ===== src/Stl/LinkedList/Cells.antt =====
-- The linked list as a list of cells: addresses with their data.
use dns_relay.Base.{
  ℕ, suc, ◌<◌, ◌≡◌, ◌≢◌, refl, ◌∙◌, true, false, Option, some, List, [], ◌∷◌, length, map, All,
  ◌==◌, ◌>>=◌, update, arith,
}
use dns_relay.Stl.LinkedList.{LinkedNode, LinkedList, set_prev, set_next, linked_list_add_first}

module _ {A : Type 0} where
  abbrev pub first_of : List (ℕ × A) → ℕ
  first_of [] = 0
  first_of ((a, d) ∷ cells) = a

  abbrev pub last_of : ℕ → List (ℕ × A) → ℕ
  last_of p [] = p
  last_of p ((a, d) ∷ cells) = last_of a cells

  -- The nodes in the store have the data and the neighbours of the cells; `p` precedes them.
  abbrev pub AreLinked : (ℕ → Option (LinkedNode A)) → ℕ → List (ℕ × A) → Type 0
  AreLinked memory p [] = Unit
  AreLinked memory p ((a, d) ∷ cells) =
      (memory a ≡ some (record { data_of = d; prev = p; next = first_of cells }))
      × AreLinked memory a cells

  -- Addresses from 1 below a bound, no two alike.
  abbrev pub AreFresh : ℕ → List (ℕ × A) → Type 0
  AreFresh bound [] = Unit
  AreFresh bound ((a, d) ∷ cells) =
      (0 < a) × (a < bound) × All (λ c. c.0 ≢ a) cells × AreFresh bound cells

  pub record Holds (l : LinkedList A) (cells : List (ℕ × A)) : Type 0 where
    pub linked : AreLinked l.memory 0 cells
    pub fresh : AreFresh l.next_address cells
    pub first : l.head ≡ first_of cells
    pub last : l.tail ≡ last_of 0 cells
    pub counted : l.size ≡ length cells
    pub positive : 0 < l.next_address

  -- The list that a linked list stands for.
  pub record Contains (l : LinkedList A) (items : List A) : Type 0 where
    pub cells : List (ℕ × A)
    pub holds : Holds l cells
    pub values : map (λ c. c.1) cells ≡ items

  -- A change of the store at other addresses.
  pub frame :
      (m m' : ℕ → Option (LinkedNode A)) (p : ℕ) (cells : List (ℕ × A))
      → All (λ c. m' c.0 ≡ m c.0) cells
      → AreLinked m p cells
      → AreLinked m' p cells
  frame m m' p [] h l = tt
  frame m m' p ((a, d) ∷ cells) (h, hs) (l, ls) = (h ∙ l, frame m m' a cells hs ls)

  pub fresh_bounds :
      (bound : ℕ) (cells : List (ℕ × A)) → AreFresh bound cells → All (λ c. c.0 < bound) cells
  fresh_bounds bound [] f = tt
  fresh_bounds bound ((a, d) ∷ cells) f = (f.1, fresh_bounds bound cells f.3)

  pub fresh_more :
      (bound : ℕ) (cells : List (ℕ × A)) → AreFresh bound cells → AreFresh (suc bound) cells
  fresh_more bound [] f = tt
  fresh_more bound ((a, d) ∷ cells) f = (f.0, omega (arith, f.1), f.2, fresh_more bound cells f.3)

  pub not_bound :
      (bound : ℕ) (cells : List (ℕ × A))
      → All (λ c. c.0 < bound) cells
      → All (λ c. c.0 ≢ bound) cells
  not_bound bound [] h = tt
  not_bound bound ((a, d) ∷ cells) (h, hs) = ((λ e. omega (arith, h, e)), not_bound bound cells hs)

  -- A store that differs at two addresses only.
  pub apart :
      (m m' : ℕ → Option (LinkedNode A)) (a b : ℕ) (cells : List (ℕ × A))
      → ((i : ℕ) → i ≢ a → i ≢ b → m' i ≡ m i)
      → All (λ c. c.0 ≢ a) cells
      → All (λ c. c.0 ≢ b) cells
      → All (λ c. m' c.0 ≡ m c.0) cells
  apart m m' a b [] h x y = tt
  apart m m' a b (c ∷ cells) h (x, xs) (y, ys) = (h c.0 x y, apart m m' a b cells h xs ys)

  -- The results of addFirst.
  unfoldable pub created_at : LinkedList A → A → ℕ → ℕ → ℕ → Option (LinkedNode A)
  created_at l d p q =
      update (update l.memory l.next_address (some (record { data_of = d; prev = 0; next = 0 })))
        l.next_address (some (record { data_of = d; prev = p; next = q }))

  pub add_first_empty :
      (l : LinkedList A) (d : A)
      → (l.head == 0) ≡ true
      → linked_list_add_first l d
        ≡ some (record l {
          memory = created_at l d 0 l.head;
          next_address = suc l.next_address;
          head = l.next_address;
          tail = l.next_address;
          size = suc l.size;
        })
  unfolding linked_list_add_first set_next created_at
  add_first_empty l d e =
      let same : (l.next_address == l.next_address) ≡ true = ground arith in
      rw (same, ◌>>=◌, e) refl

  pub add_first_linked :
      (l : LinkedList A) (d : A) (node : LinkedNode A)
      → (l.head == 0) ≡ false
      → (l.next_address == l.head) ≡ false
      → l.memory l.head ≡ some node
      → linked_list_add_first l d
        ≡ some (record l {
          memory =
              update
                (created_at l d 0 l.head)
                l.head
                (some (record node { prev = l.next_address }));
          next_address = suc l.next_address;
          head = l.next_address;
          tail = l.tail;
          size = suc l.size;
        })
  unfolding linked_list_add_first set_next set_prev created_at
  add_first_linked l d node e other at =
      let same : (l.next_address == l.next_address) ≡ true = ground arith in
      rw (same, ◌>>=◌, e, other, at) refl
