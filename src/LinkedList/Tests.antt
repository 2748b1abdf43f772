-- ===== src/LinkedList/Tests.antt =====
-- The theorems on lists at concrete nodes, and runs of the functions that no theorem covers.
use mathlib.Core.List.{reverse}
use libgimbal.Common.{List, refl, ltb, ◌≡◌, true, [], ◌∷◌, arith}
use libgimbal.Memory.{Ptr, Field, Run, update, ok, fault, out_of_fuel}
use libgimbal.LinkedList
use libgimbal.LinkedList.{
  join_back, move, find, contains, at, erase, remove, insert, push_back, pop_front, pop_back, clear,
  clear_from, swap, swap_first, swap_second,
}
use libgimbal.LinkedList.Sort.{merge_sort, join_sorted, join_sorted_from}
use libgimbal.LinkedList.Inv.{IsList}
use libgimbal.LinkedList.Remove.{remove-middle}
use libgimbal.LinkedList.Reverse.{reverse-reverse}

-- The head 1 with the elements 2, 3 and 4; the node 5 is a list of its own.
abbrev heap : Field
heap = update (update (update (update (λ p. p) 1 2) 2 3) 3 4) 4 1

heap-IsList : IsList heap 1 (2 ∷ 3 ∷ 4 ∷ [])
unfolding update
heap-IsList = omega arith

remove-middle_example :
    (h' : Field) × (remove 9 1 3 heap ≡ ok (true, h')) × IsList h' 1 (2 ∷ 4 ∷ []) × (h' 3 ≡ 3)
remove-middle_example = remove-middle heap 1 3 9 (2 ∷ []) (4 ∷ []) heap-IsList (omega arith)

reverse-reverse_example :
    (h' : Field) × (LinkedList.reverse 9 1 heap ≡ ok h') × IsList h' 1 (reverse (2 ∷ 3 ∷ 4 ∷ []))
reverse-reverse_example = reverse-reverse heap 1 9 (2 ∷ 3 ∷ 4 ∷ []) heap-IsList (omega arith)

-- The head 6 with the element 7 beside it.
abbrev heap2 : Field
heap2 = update (update heap 6 7) 7 6

heap2-IsList : IsList heap2 1 (2 ∷ 3 ∷ 4 ∷ []) × IsList heap2 6 (7 ∷ [])
unfolding update
heap2-IsList = (omega arith, omega arith)

-- The heads 1 and 6 with the elements 2 and 4, and 3.
abbrev heap3 : Field
heap3 = update (update (update (update (update (λ p. p) 1 2) 2 4) 4 1) 6 3) 3 6

-- The first three elements of the list at 1.
abbrev first_three : Run Field → List Ptr
first_three (ok h) = h 1 ∷ h (h 1) ∷ h (h (h 1)) ∷ []
first_three fault = []
first_three out_of_fuel = []

merge_sort-run :
    first_three (merge_sort (λ a b. ltb b a) 9 1 ((11, 12) ∷ (13, 14) ∷ []) heap) ≡ 4 ∷ 3 ∷ 2 ∷ []
unfolding merge_sort join_sorted join_sorted_from LinkedList.count LinkedList.count_from
    LinkedList.init LinkedList.before_middle LinkedList.before_middle_from LinkedList.split_after
    LinkedList.join_back LinkedList.empty LinkedList.back LinkedList.last_from LinkedList.move
    LinkedList.splice update
merge_sort-run = refl
