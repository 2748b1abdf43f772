-- ===== src/DoublyLinkedList/Tests.antt =====
-- The theorems on doubly linked lists at concrete nodes, and runs of functions beside them.
use libgimbal.Common.{[], ◌∷◌, arith}
use libgimbal.Memory.{update}
use libgimbal.DoublyLinkedList.{Links, join_back}
use libgimbal.DoublyLinkedList.Cycle.{IsList}
use libgimbal.DoublyLinkedList.Join.{join_back-IsList}

-- The head 1 with the elements 2, 3 and 4, the head 6 with the element 7; 5 is a list of its own.
abbrev links : Links
links = record {
  next = update (update (update (update (update (update (λ p. p) 1 2) 2 3) 3 4) 4 1) 6 7) 7 6;
  prev = update (update (update (update (update (update (λ p. p) 1 4) 2 1) 3 2) 4 3) 6 7) 7 6;
}

links-IsList : IsList links 1 (2 ∷ 3 ∷ 4 ∷ [])
unfolding update
links-IsList = omega arith

other-IsList : IsList links 6 (7 ∷ [])
unfolding update
other-IsList = omega arith

join_back-IsList_example :
    IsList (join_back 1 6 links) 1 (2 ∷ 3 ∷ 4 ∷ 7 ∷ []) × IsList (join_back 1 6 links) 6 []
join_back-IsList_example =
    join_back-IsList links 1 6 7 (2 ∷ 3 ∷ 4 ∷ []) [] links-IsList other-IsList (omega arith)
      (omega arith)
