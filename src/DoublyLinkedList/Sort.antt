-- ===== src/DoublyLinkedList/Sort.antt =====
-- Joining at an index, merging and sorting: GblDoublyLinkedList_join, GblDoublyLinkedList_joinSorted
-- and GblDoublyLinkedList_mergeSort.
--
-- The nodes that the functions keep on the stack are arguments: `dst` of a merge, and for a sort one
-- pair of them for each depth of its recursion. `before` tells whether the comparison function
-- returns a negative number.
use libgimbal.Common.{
  ℕ, zero, suc, Bool, true, false, List, [], ◌∷◌, Option, none, some, ltb, ◌==◌, if◌then◌else◌,
}
use libgimbal.Common.Int.{ℤ, pos, negsuc}
use libgimbal.Memory.{Ptr, Run, ok, fault, out_of_fuel, ◌>>=◌}
use libgimbal.DoublyLinkedList.{
  Links, set_next, set_prev, init, empty, at, count, before_middle, split_after, push_back, remove,
  join_back, join_front, move,
}

-- The elements of `list` before the element `node`, or behind it.
pub join_at : (list node : Ptr) → ℤ → Links → Links
join_at list node (pos idx) l =
    let l = set_next (l.prev node) (l.next list) l in
    let l = set_prev (l.next list) (l.prev node) l in
    let l = set_prev node (l.prev list) l in set_next (l.prev list) node l
join_at list node (negsuc n) l =
    let l = set_prev (l.next node) (l.prev list) l in
    let l = set_next (l.prev list) (l.next node) l in
    let l = set_next node (l.next list) l in set_prev (l.next list) node l

-- Past the ends: `count` behind the last element, `-(count + 1)` before the first.
pub join_end : (self list : Ptr) → ℤ → (count : ℕ) → Links → Option Links
join_end self list (pos idx) count l = if idx == count then some (join_back self list l) else none
join_end self list (negsuc n) count l = if n == count then some (join_front self list l) else none

pub join : ℕ → (self : Ptr) → ℤ → (list : Ptr) → Links → Run (Bool × Links)
join k self idx list l = do
  node ← at k self idx l
  n ← count k self l
  let joined : Option Links = elim node [
    | some node ↦ some (join_at list node idx l)
    | none ↦ join_end self list idx n l
  ]
  ok (
      if empty list l
      then (false, l)
      else elim joined [ some l' ↦ (true, init list l') | none ↦ (false, l) ])

module _ (before : Ptr → Ptr → Bool) where
  pub join_sorted_from : ℕ → (self list dst src1 src2 : Ptr) → Links → Run Links
  join_sorted_from zero self list dst src1 src2 l = out_of_fuel
  join_sorted_from (suc k) self list dst src1 src2 l =
      let rest1 =
        join_sorted_from k self list dst (l.next src1) src2 (push_back dst src1 (remove src1 l)) in
      let rest2 =
        join_sorted_from k self list dst src1 (l.next src2) (push_back dst src2 (remove src2 l)) in
      if src1 == self
      then ok (join_back dst list l)
      else if src2 == list
      then ok (join_back dst self l)
      else if before src1 src2
      then rest1
      else rest2

  -- The assertions that both lists are empty are left out.
  pub join_sorted : ℕ → (self list dst : Ptr) → Links → Run Links
  join_sorted k self list dst l = do
    let l = init dst l
    l ← join_sorted_from k self list dst (l.next self) (l.next list) l
    ok (move self dst l)

  pub merge_sort : ℕ → (self : Ptr) → (stack : List (Ptr × Ptr)) → Links → Run Links
  merge_sort k self [] l = do n ← count k self l; if ltb n 2 then ok l else out_of_fuel
  merge_sort k self ((half, dst) ∷ stack) l =
      let sort = (λ (head : Ptr) (l : Links). merge_sort k head stack l) in
      let halves : Run Links = do
        let l = init half l
        middle ← before_middle k self l
        elim middle [ none ↦ fault | some m ↦ split_after self half m l ]
      in do
        n ← count k self l
        if ltb n 2
            then ok l
            else do l ← halves; l ← sort self l; l ← sort half l; join_sorted k self half dst l
