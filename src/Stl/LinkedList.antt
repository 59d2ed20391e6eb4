-- ===== src/Stl/LinkedList.antt =====
-- src/infra/stl.c, from `linked_node_create` on: the doubly linked list. Nodes live in a store, 0 is
-- NULL, and an address that is not allocated or was freed reads `none`.
pub mod Cells
pub mod Ends
pub mod Last
mod Tests
use dns_relay.Base.{
  ℕ, zero, suc, ◌+◌, ◌-◌, Bool, true, false, Option, none, some, List, [], ◌∷◌, ◌==◌, if◌then◌else◌,
  ◌>>=◌, update,
}

pub record LinkedNode (A : Type 0) : Type 0 where
  pub data_of : A
  pub prev : ℕ
  pub next : ℕ

pub record LinkedList (A : Type 0) : Type 0 where
  pub memory : ℕ → Option (LinkedNode A)
  pub next_address : ℕ
  pub head : ℕ
  pub tail : ℕ
  pub size : ℕ

module _ {A : Type 0} where
  unfoldable pub linked_list_create : LinkedList A
  linked_list_create = record { memory = λ a. none; next_address = 1; head = 0; tail = 0; size = 0 }

  -- `a->prev = p` and `a->next = p`.
  unfoldable pub set_prev : (ℕ → Option (LinkedNode A)) → ℕ → ℕ → Option (ℕ → Option (LinkedNode A))
  set_prev memory a p = do node ← memory a; some (update memory a (some (record node { prev = p })))

  unfoldable pub set_next : (ℕ → Option (LinkedNode A)) → ℕ → ℕ → Option (ℕ → Option (LinkedNode A))
  set_next memory a p = do node ← memory a; some (update memory a (some (record node { next = p })))

  abbrev pub linked_node_create : LinkedList A → A → LinkedList A
  linked_node_create l d = record l {
    memory = update l.memory l.next_address (some (record { data_of = d; prev = 0; next = 0 }));
    next_address = suc l.next_address;
  }

  unfoldable pub linked_list_add_first : LinkedList A → A → Option (LinkedList A)
  unfolding set_prev set_next
  linked_list_add_first l d =
      let node = l.next_address in
      let l1 = linked_node_create l d in
      do
        memory ← set_next l1.memory node l.head
        linked ← (if l.head == 0 then some memory else set_prev memory l.head node)
        some (record l1 {
          memory = linked;
          head = node;
          tail = if l.head == 0 then node else l.tail;
          size = suc l.size;
        })

  unfoldable pub linked_list_add_last : LinkedList A → A → Option (LinkedList A)
  unfolding set_prev set_next
  linked_list_add_last l d =
      let node = l.next_address in
      let l1 = linked_node_create l d in
      do
        memory ← set_prev l1.memory node l.tail
        linked ← (if l.tail == 0 then some memory else set_next memory l.tail node)
        some (record l1 {
          memory = linked;
          head = if l.tail == 0 then node else l.head;
          tail = node;
          size = suc l.size;
        })

  -- A node is taken out of the list and freed.
  unfoldable pub unlink_node : LinkedList A → ℕ → LinkedNode A → Option (LinkedList A)
  unfolding set_prev set_next
  unlink_node l a node = do
    m1 ← (if node.prev == 0 then some l.memory else set_next l.memory node.prev node.next)
    m2 ← (if node.next == 0 then some m1 else set_prev m1 node.next node.prev)
    some (record l {
      memory = update m2 a none;
      head = if node.prev == 0 then node.next else l.head;
      tail = if node.next == 0 then node.prev else l.tail;
      size = l.size - 1;
    })

  -- The loop of `linked_list_remove` over the nodes from `a` on; the fuel bounds the rounds.
  unfoldable pub remove_loop : ℕ → (A → Bool) → LinkedList A → ℕ → Option (LinkedList A)
  unfolding unlink_node
  remove_loop zero same l a = none
  remove_loop (suc fuel) same l a = elim (a == 0) [
    | true ↦ some l
    | false ↦ do
      node ← l.memory a
      elim (same node.data_of) [
        | true ↦ do l1 ← unlink_node l a node; remove_loop fuel same l1 node.next
        | false ↦ remove_loop fuel same l node.next
      ]
  ]

  -- `same d` stands for `comparator(d, data) == 0`.
  unfoldable pub linked_list_remove : (A → Bool) → LinkedList A → Option (LinkedList A)
  unfolding remove_loop
  linked_list_remove same l = remove_loop (suc l.size) same l l.head

  unfoldable pub linked_list_is_empty : LinkedList A → Bool
  linked_list_is_empty l = l.size == 0

  -- The data that `consumer` is called with, in order.
  unfoldable pub foreach_loop : ℕ → LinkedList A → ℕ → Option (List A)
  foreach_loop zero l a = none
  foreach_loop (suc fuel) l a = elim (a == 0) [
    | true ↦ some []
    | false ↦ do node ← l.memory a; rest ← foreach_loop fuel l node.next; some (node.data_of ∷ rest)
  ]

  unfoldable pub linked_list_foreach : LinkedList A → Option (List A)
  unfolding foreach_loop
  linked_list_foreach l = foreach_loop (suc l.size) l l.head

  unfoldable pub clear_loop :
      ℕ → (ℕ → Option (LinkedNode A)) → ℕ → Option (ℕ → Option (LinkedNode A))
  clear_loop zero memory a = none
  clear_loop (suc fuel) memory a = elim (a == 0) [
    | true ↦ some memory
    | false ↦ do node ← memory a; clear_loop fuel (update memory a none) node.next
  ]

  unfoldable pub linked_list_clear : LinkedList A → Option (LinkedList A)
  unfolding clear_loop
  linked_list_clear l = do
    memory ← clear_loop (suc l.size) l.memory l.head
    some (record l { memory = memory; head = 0; tail = 0; size = 0 })
