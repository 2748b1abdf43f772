-- ===== src/Sorting/Tests.antt =====
-- The sorts on an array of four numbers.
use libgimbal.Common.{ℕ, ◌≡◌, refl, ltb, ◌==◌, if◌then◌else◌, arith, [], ◌∷◌, List}
use libgimbal.Common.Int.{ℤ, pos, negsuc}
use libgimbal.Memory.{Run, ok, ◌>>=◌}
use libgimbal.ArrayList.Room.{segment}
use libgimbal.Sorting.{
  shift, insertion_loop, sort_insertion, sort_selection, sort_bubble, sort_shell, sort_merge,
  sort_comb, sort_heap, comb_loop, comb_pass, next_gap, exchange, build_heap, extract_loop, heapify,
  largest_of,
}
use libgimbal.Sorting.Order.{IsOrder, IsSorting}
use libgimbal.Sorting.Insertion.{sort_insertion-IsSorting}
use libgimbal.Sorting.Selection.{sort_selection-IsSorting}
use libgimbal.Sorting.Bubble.{sort_bubble-IsSorting}
use libgimbal.Sorting.Shell.{sort_shell-IsSorting}
use libgimbal.Sorting.MergeSort.{IsSortingFrom, sort_merge-IsSortingFrom}
use libgimbal.Sorting.Comb.{sort_comb-IsSorting}
use libgimbal.Sorting.HeapSort.{sort_heap-IsSorting}

abbrev compare_numbers : ℕ → ℕ → ℤ
compare_numbers a b = if ltb a b then negsuc 0 else if ltb b a then pos 1 else pos 0

compare_numbers-IsOrder : IsOrder compare_numbers
compare_numbers-IsOrder = record {
  flip = λ x y. ground arith;
  asym = λ x y e. ground arith;
  trans = λ x y z p q. ground arith;
}

abbrev numbers : ℕ → ℕ
numbers i = if i == 0 then 7 else if i == 2 then 9 else 3

abbrev steps : ℕ → ℕ
steps i = i

abbrev listed : Run (ℕ → ℕ) → Run (List ℕ)
listed run = run >>= (λ s. ok (segment s 0 5))

insertion_run : listed (sort_insertion compare_numbers numbers 4) ≡ ok (3 ∷ 3 ∷ 7 ∷ 9 ∷ 3 ∷ [])
unfolding segment sort_insertion insertion_loop shift libgimbal.Memory.update
insertion_run = refl

comb_run : listed (sort_comb compare_numbers 9 numbers 4) ≡ ok (3 ∷ 3 ∷ 7 ∷ 9 ∷ 3 ∷ [])
unfolding segment sort_comb comb_loop comb_pass next_gap exchange libgimbal.Memory.update
comb_run = refl

heap_run : listed (sort_heap compare_numbers 5 numbers 4) ≡ ok (3 ∷ 3 ∷ 7 ∷ 9 ∷ 3 ∷ [])
unfolding segment sort_heap build_heap extract_loop heapify largest_of exchange
    libgimbal.Memory.update
heap_run = refl

sort_insertion-IsSorting_example :
    (r : ℕ → ℕ) × (sort_insertion compare_numbers numbers 4 ≡ ok r)
    × IsSorting compare_numbers numbers r 4
sort_insertion-IsSorting_example =
    sort_insertion-IsSorting compare_numbers compare_numbers-IsOrder numbers 4 (omega arith)

sort_selection-IsSorting_example :
    IsSorting compare_numbers numbers (sort_selection compare_numbers numbers 4) 4
sort_selection-IsSorting_example =
    sort_selection-IsSorting compare_numbers compare_numbers-IsOrder numbers 4

sort_bubble-IsSorting_example :
    IsSorting compare_numbers numbers (sort_bubble compare_numbers numbers 4) 4
sort_bubble-IsSorting_example =
    sort_bubble-IsSorting compare_numbers compare_numbers-IsOrder numbers 4

sort_shell-IsSorting_example :
    (r : ℕ → ℕ) × (sort_shell compare_numbers 5 numbers 4 ≡ ok r)
    × IsSorting compare_numbers numbers r 4
sort_shell-IsSorting_example =
    sort_shell-IsSorting compare_numbers compare_numbers-IsOrder 5 numbers 4 (omega arith)
      (omega arith)

sort_merge-IsSortingFrom_example :
    (r : ℕ → ℕ) × (sort_merge compare_numbers 5 numbers 0 4 numbers ≡ ok r)
    × IsSortingFrom compare_numbers numbers r 0 4
sort_merge-IsSortingFrom_example =
    sort_merge-IsSortingFrom compare_numbers compare_numbers-IsOrder 5 numbers 0 4 numbers
      (omega arith)

sort_comb-IsSorting_example :
    (r : ℕ → ℕ) × (sort_comb compare_numbers 9 numbers 4 ≡ ok r)
    × IsSorting compare_numbers numbers r 4
sort_comb-IsSorting_example =
    sort_comb-IsSorting compare_numbers compare_numbers-IsOrder 9 numbers 4 (omega arith)
      (omega arith)

sort_heap-IsSorting_example :
    (r : ℕ → ℕ) × (sort_heap compare_numbers 5 numbers 4 ≡ ok r)
    × IsSorting compare_numbers numbers r 4
sort_heap-IsSorting_example =
    sort_heap-IsSorting compare_numbers compare_numbers-IsOrder 5 numbers 4 (omega arith)
      (omega arith)
