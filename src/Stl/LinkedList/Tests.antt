-- ===== src/Stl/LinkedList/Tests.antt =====
-- The theorem on the linked list at a list of two.
use dns_relay.Base.{ℕ, [], ◌∷◌}
use dns_relay.Stl.LinkedList.{LinkedList, linked_list_create}
use dns_relay.Stl.LinkedList.Cells.{Contains}
use dns_relay.Stl.LinkedList.Last.{Refines, linked_list-Refines, linked_list_create-Contains}

one : (l : LinkedList ℕ) × Contains l (7 ∷ [])
one =
    let r = (linked_list-Refines linked_list_create [] linked_list_create-Contains).added_first 7 in
    (r.after, r.contains)

two : (l : LinkedList ℕ) × Contains l (7 ∷ 9 ∷ [])
two = let r = (linked_list-Refines one.0 (7 ∷ []) one.1).added_last 9 in (r.after, r.contains)

linked_list-Refines_example : Refines two.0 (7 ∷ 9 ∷ []) two.1
linked_list-Refines_example = linked_list-Refines two.0 (7 ∷ 9 ∷ []) two.1
