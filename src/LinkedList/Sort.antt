-- ===== src/LinkedList/Sort.antt =====
-- Merging and sorting: GblLinkedList_joinSorted and GblLinkedList_mergeSort.
--
-- The nodes that the functions keep on the stack are arguments: `dst` of a merge, and for a sort one
-- pair of them for each depth of its recursion. `before` tells whether the comparison function
-- returns a negative number.
use libgimbal.Common.{ℕ, zero, suc, Bool, List, [], ◌∷◌, none, some, ltb, ◌==◌, if◌then◌else◌}
use libgimbal.Memory.{Ptr, Field, update, Run, ok, fault, out_of_fuel, ◌>>=◌}
use libgimbal.LinkedList.{init, move, count, before_middle, split_after, join_back}

module _ (before : Ptr → Ptr → Bool) where
  -- The loop. `*ppDst` is the link of the node `link`.
  unfoldable pub join_sorted_from : ℕ → ℕ → (self list dst link src1 src2 : Ptr) → Field → Run Field
  join_sorted_from fuel zero self list dst link src1 src2 h = out_of_fuel
  join_sorted_from fuel (suc k) self list dst link src1 src2 h =
      let h1 = (let h = update h self (h src1) in update h link src1) in
      let h2 = (let h = update h list (h src2) in update h link src2) in
      let rest1 = join_sorted_from fuel k self list dst src1 (h1 src1) src2 h1 in
      let rest2 = join_sorted_from fuel k self list dst src2 src1 (h2 src2) h2 in
      let ended = update h link dst in
      if src1 == self
      then join_back fuel dst list (update ended self self)
      else if src2 == list
      then join_back fuel dst self ended
      else if before src1 src2
      then rest1
      else rest2

  unfoldable pub join_sorted : ℕ → (self list dst : Ptr) → Field → Run Field
  join_sorted k self list dst h = do
    let h = init dst h
    h ← join_sorted_from k k self list dst dst (h self) (h list) h
    move k self dst h

  unfoldable pub merge_sort : ℕ → (self : Ptr) → (stack : List (Ptr × Ptr)) → Field → Run Field
  merge_sort k self [] h = do n ← count k self h; if ltb n 2 then ok h else out_of_fuel
  merge_sort k self ((half, dst) ∷ stack) h =
      let sort = (λ (head : Ptr) (h : Field). merge_sort k head stack h) in
      let halves : Run Field = do
        let h = init half h
        middle ← before_middle k self h
        elim middle [ none ↦ fault | some m ↦ split_after k self half m h ]
      in do
        n ← count k self h
        if ltb n 2
            then ok h
            else do h ← halves; h ← sort self h; h ← sort half h; join_sorted k self half dst h
