-- ===== src/Stl/LinkedList/Last.antt =====
-- The linked list refines a list: adding at the end, and all operations together.
use dns_relay.Base.{
  ℕ, suc, ◌<◌, ◌≡◌, ◌≢◌, refl, ap, sym, ◌∙◌, subst, true, false, Option, none, some, List, [], ◌∷◌,
  ◌++◌, length, map, All, All-append, ◌==◌, ◌>>=◌, update, arith, length-append, length-map,
}
use dns_relay.Stl.LinkedList.{
  LinkedNode, LinkedList, linked_list_create, set_prev, set_next, linked_list_add_first,
  linked_list_add_last, linked_list_is_empty, foreach_loop, linked_list_foreach, clear_loop,
  linked_list_clear,
}
use dns_relay.Stl.LinkedList.Cells.{last_of, AreLinked, AreFresh, Holds, Contains, created_at}
use dns_relay.Stl.LinkedList.Ends.{
  Extends, update_at, update_off, created_reads, created_keeps, foreach_loop-cells,
  add_first-Extends, clear_loop-ends,
}

module _ {A : Type 0} where
  last_differs :
      (p a : ℕ) (c : ℕ × A) (cells : List (ℕ × A))
      → All (λ c. c.0 ≢ a) (c ∷ cells)
      → last_of p (c ∷ cells) ≢ a
  last_differs p a (b, x) [] (h, hs) = h
  last_differs p a (b, x) (c ∷ cells) (h, hs) = last_differs b a c cells hs

  pub record LastCell (m : ℕ → Option (LinkedNode A)) (bound last : ℕ) : Type 0 where
    pub node : LinkedNode A
    pub there : m last ≡ some node
    pub positive : 0 < last
    pub below : last < bound

  last_cell :
      (m : ℕ → Option (LinkedNode A)) (p bound : ℕ) (c : ℕ × A) (cells : List (ℕ × A))
      → AreFresh bound (c ∷ cells)
      → AreLinked m p (c ∷ cells)
      → LastCell m bound (last_of p (c ∷ cells))
  last_cell m p bound (a, x) [] f h = record {
    node = record { data_of = x; prev = p; next = 0 };
    there = h.0;
    positive = f.0;
    below = f.1;
  }
  last_cell m p bound (a, x) (c ∷ cells) f h = last_cell m a bound c cells f.3 h.1

  with_next : ℕ → Option (LinkedNode A) → Option (LinkedNode A)
  with_next n none = none
  with_next n (some node) = some (record node { next = n })

  -- One node more behind the last one.
  link_last :
      (m m' : ℕ → Option (LinkedNode A)) (p n : ℕ) (d : A) (c : ℕ × A) (cells : List (ℕ × A))
      → AreFresh n (c ∷ cells)
      → AreLinked m p (c ∷ cells)
      → ((node : LinkedNode A)
          → m (last_of p (c ∷ cells)) ≡ some node
          → m' (last_of p (c ∷ cells)) ≡ some (record node { next = n }))
      → m' n ≡ some (record { data_of = d; prev = last_of p (c ∷ cells); next = 0 })
      → ((i : ℕ) → i ≢ n → i ≢ last_of p (c ∷ cells) → m' i ≡ m i)
      → AreLinked m' p ((c ∷ cells) ++ (n, d) ∷ [])
  link_last m m' p n d (a, x) [] f h last new same = (last _ h.0, (new, tt))
  link_last m m' p n d (a, x) (c ∷ cells) f h last new same = (
    same a (λ e. omega (arith, f.1, e)) (λ e. last_differs a a c cells f.2 (sym e)) ∙ h.0,
    link_last m m' a n d c cells f.3 h.1 last new same,
  )

  fresh_end :
      (n : ℕ) (d : A) (cells : List (ℕ × A))
      → 0 < n
      → AreFresh n cells
      → AreFresh (suc n) (cells ++ (n, d) ∷ [])
  fresh_end n d [] pos f = (pos, omega arith, tt, tt)
  fresh_end n d ((a, x) ∷ cells) pos f = (
    f.0,
    omega (arith, f.1),
    All-append (λ c. c.0 ≢ a) cells ((n, d) ∷ []) f.2 ((λ e. omega (arith, f.1, e)), tt),
    fresh_end n d cells pos f.3,
  )

  last-append : (p n : ℕ) (d : A) (cells : List (ℕ × A)) → last_of p (cells ++ (n, d) ∷ []) ≡ n
  last-append p n d [] = refl
  last-append p n d ((a, x) ∷ cells) = last-append a n d cells

  values-append :
      (n : ℕ) (d : A) (cells : List (ℕ × A))
      → map (λ c. c.1) (cells ++ (n, d) ∷ []) ≡ map (λ c. c.1) cells ++ d ∷ []
  values-append n d [] = refl
  values-append n d (c ∷ cells) = ap (λ xs. c.1 ∷ xs) (values-append n d cells)

  add_last_empty :
      (l : LinkedList A) (d : A)
      → (l.tail == 0) ≡ true
      → linked_list_add_last l d
        ≡ some (record l {
          memory = created_at l d l.tail 0;
          next_address = suc l.next_address;
          head = l.next_address;
          tail = l.next_address;
          size = suc l.size;
        })
  unfolding linked_list_add_last set_prev created_at
  add_last_empty l d e =
      let same : (l.next_address == l.next_address) ≡ true = ground arith in
      rw (same, ◌>>=◌, e) refl

  add_last_linked :
      (l : LinkedList A) (d : A) (node : LinkedNode A)
      → (l.tail == 0) ≡ false
      → (l.next_address == l.tail) ≡ false
      → l.memory l.tail ≡ some node
      → linked_list_add_last l d
        ≡ some (record l {
          memory =
              update
                (created_at l d l.tail 0)
                l.tail
                (some (record node { next = l.next_address }));
          next_address = suc l.next_address;
          head = l.head;
          tail = l.next_address;
          size = suc l.size;
        })
  unfolding linked_list_add_last set_next set_prev created_at
  add_last_linked l d node e other at =
      let same : (l.next_address == l.next_address) ≡ true = ground arith in
      rw (same, ◌>>=◌, e, other, at) refl

  add_last-Extends :
      (l : LinkedList A) (d : A) (cells : List (ℕ × A))
      → Holds l cells
      → Extends l (map (λ c. c.1) cells ++ d ∷ []) (linked_list_add_last l d)
  unfolding with_next
  add_last-Extends l d [] h =
      let n = l.next_address in
      record {
        after = _;
        returns = add_last_empty l d (ground (arith, h.last));
        contains = record {
          cells = (n, d) ∷ [];
          holds = record {
            linked = (
              created_reads l d l.tail 0
                  ∙ ap (λ p. some (record { data_of = d; prev = p; next = 0 })) h.last,
              tt,
            );
            fresh = (h.positive, omega arith, tt, tt);
            first = refl;
            last = refl;
            counted = ap suc h.counted;
            positive = omega arith;
          };
          values = refl;
        };
      }
  add_last-Extends l d (c ∷ cells) h =
      let n = l.next_address in
      let w = last_cell l.memory 0 n c cells h.fresh h.linked in
      let t : last_of 0 (c ∷ cells) ≡ l.tail = sym h.last in
      let full : (l.tail == 0) ≡ false = ground (arith, w.positive, t) in
      let other : (n == l.tail) ≡ false = ground (arith, w.below, t) in
      let marked : Option (LinkedNode A) = some (record (w.node) { next = n }) in
      let linked' = update (created_at l d l.tail 0) l.tail marked in
      record {
        after = _;
        returns = add_last_linked l d w.node full other (ap l.memory h.last ∙ w.there);
        contains = record {
          cells = (c ∷ cells) ++ (n, d) ∷ [];
          holds = record {
            linked =
                link_last l.memory linked' 0 n d c cells h.fresh h.linked
                  (λ node at.
                    update_at (created_at l d l.tail 0) l.tail (last_of 0 (c ∷ cells)) marked
                      (ground (arith, t))
                    ∙ ap (with_next n) (sym w.there ∙ at))
                  (update_off (created_at l d l.tail 0) l.tail n marked (ground (arith, other))
                    ∙ created_reads l d l.tail 0
                    ∙ ap (λ p. some (record { data_of = d; prev = p; next = 0 })) h.last)
                  (λ i x y.
                    update_off (created_at l d l.tail 0) l.tail i marked (ground (arith, t, y))
                    ∙ created_keeps l d l.tail 0 i x);
            fresh = fresh_end n d (c ∷ cells) h.positive h.fresh;
            first = h.first;
            last = sym (last-append 0 n d (c ∷ cells));
            counted = omega (arith, h.counted, length-append cells ((n, d) ∷ []));
            positive = omega arith;
          };
          values = values-append n d (c ∷ cells);
        };
      }

  -- The list is empty, the nodes of the cells are freed, and no other.
  pub record Clears (l : LinkedList A) (cells : List (ℕ × A)) (r : Option (LinkedList A))
      : Type 0 where
    pub after : LinkedList A
    pub returns : r ≡ some after
    pub contains : Contains after []
    pub freed : All (λ c. after.memory c.0 ≡ none) cells
    pub kept : (a : ℕ) → All (λ c. c.0 ≢ a) cells → after.memory a ≡ l.memory a

  clear-Clears :
      (l : LinkedList A) (cells : List (ℕ × A))
      → Holds l cells
      → Clears l cells (linked_list_clear l)
  unfolding linked_list_clear
  clear-Clears l cells h =
      let (m, e, freed, kept) =
        clear_loop-ends (suc l.size) l.memory 0 l.next_address cells (omega (arith, h.counted))
          h.fresh h.linked in
      record {
        after = record l { memory = m; head = 0; tail = 0; size = 0 };
        returns =
            ap
              (λ a. clear_loop (suc l.size) l.memory a >>= λ memory.
                some (record l { memory = memory; head = 0; tail = 0; size = 0 }))
              h.first
            ∙ rw e refl;
        contains = record {
          cells = [];
          holds = record {
            linked = tt;
            fresh = tt;
            first = refl;
            last = refl;
            counted = refl;
            positive = h.positive;
          };
          values = refl;
        };
        freed = freed;
        kept = kept;
      }

  -- What the list promises.
  pub record Refines (l : LinkedList A) (items : List A) (h : Contains l items) : Type 0 where
    pub added_first : (d : A) → Extends l (d ∷ items) (linked_list_add_first l d)
    pub added_last : (d : A) → Extends l (items ++ d ∷ []) (linked_list_add_last l d)
    pub empty : linked_list_is_empty l ≡ (length items == 0)
    pub walked : linked_list_foreach l ≡ some items
    pub cleared : Clears l h.cells (linked_list_clear l)

  -- On a linked list whose nodes, from head to tail and back, hold the elements of a list, at
  -- distinct addresses, linked_list_addFirst and linked_list_addLast succeed and leave such a
  -- linked list for the list with the element in front or at the end, linked_list_is_empty is true
  -- exactly for the empty list, and linked_list_foreach calls its consumer with the elements in
  -- their order, following no pointer to a freed node; linked_list_clear frees exactly the nodes
  -- of the list and leaves an empty one.
  pub linked_list-Refines :
      (l : LinkedList A) (items : List A) (h : Contains l items) → Refines l items h
  unfolding linked_list_is_empty linked_list_foreach
  linked_list-Refines l items h =
      let values = h.values in
      record {
        added_first = λ d.
            subst (λ xs. Extends l (d ∷ xs) (linked_list_add_first l d)) values
              (add_first-Extends l d h.cells h.holds);
        added_last = λ d.
            subst (λ xs. Extends l (xs ++ d ∷ []) (linked_list_add_last l d)) values
              (add_last-Extends l d h.cells h.holds);
        empty =
            ap (λ k. k == 0)
              (h.holds.counted ∙ sym (length-map h.cells (λ c. c.1)) ∙ ap length values);
        walked =
            ap (foreach_loop (suc l.size) l) h.holds.first
            ∙ foreach_loop-cells (suc l.size) l 0 l.next_address h.cells
                (omega (arith, h.holds.counted)) h.holds.fresh h.holds.linked
            ∙ ap some values;
        cleared = clear-Clears l h.cells h.holds;
      }

  pub linked_list_create-Contains : Contains (linked_list_create {A = A}) []
  unfolding linked_list_create
  linked_list_create-Contains = record {
    cells = [];
    holds = record {
      linked = tt;
      fresh = tt;
      first = refl;
      last = refl;
      counted = refl;
      positive = omega arith;
    };
    values = refl;
  }
