-- ===== src/Sorting.antt =====
-- Sorting and searching arrays: lib/source/algorithms/gimbal_sort.c.
--
-- An array is a function from the index of an element to the element, with the number of elements,
-- and a comparator is a function into the integers, of whose result the code reads the sign. The
-- buffers on the stack are variables of the model. A `size_t` that goes into an `int` is taken modulo
-- 2 ^ 32, as a number of two's complement, and an `int` that would reach 2 ^ 31 is a fault. An `int`
-- that runs down to -1 is counted as one more.
pub mod Order
mod Ints
mod Selection
mod Insertion
mod Bubble
pub mod Heap
mod HeapSort
mod Shell
mod Merge
mod MergeSort
mod CombPass
mod Comb
mod Tests
mod Search
use libgimbal.Common.{
  ℕ, zero, suc, ◌+◌, ◌-◌, ◌*◌, ◌/◌, ◌%◌, ◌^◌, Bool, true, false, not, ◌&&◌, ◌||◌, Option, none,
  some, ltb, leb, ◌==◌, if◌then◌else◌,
}
use libgimbal.Common.Int.{ℤ, pos, negsuc, is_zero, is_negative, is_positive}
use libgimbal.Memory.{update, Run, ok, fault, out_of_fuel, ◌>>=◌}

-- a `size_t` converted to an `int`
abbrev pub to_int : ℕ → ℤ
to_int n = let low = n % 2 ^ 32 in if ltb low (2 ^ 31) then pos low else negsuc (2 ^ 32 - 1 - low)

-- the number of rounds of `for(int i = z; i >= 0; i--)`
abbrev pub rounds : ℤ → ℕ
rounds (pos n) = suc n
rounds (negsuc n) = zero

-- the next gap of gblSortComb
unfoldable pub next_gap : ℕ → Run ℕ
next_gap gap =
    let next = gap * 10 / 13 in
    if ltb (gap * 10) (2 ^ 31) then ok (if ltb next 1 then 1 else next) else fault

module _ {A : Type 0} where
  -- The three `memcpy` through a temporary element.
  unfoldable pub exchange : (ℕ → A) → ℕ → ℕ → ℕ → A
  exchange s i j = update (update s i (s j)) j (s i)

  -- `n` elements of `t` from `from` on, copied to `to`.
  unfoldable pub copy_elements : ℕ → (ℕ → A) → ℕ → (ℕ → A) → ℕ → ℕ → A
  copy_elements zero s to t from = s
  copy_elements (suc n) s to t from = copy_elements n (update s to (t from)) (to + 1) t (from + 1)

module _ {A : Type 0} (cmp : A → A → ℤ) where
  -- The three `while` of a merge, of the elements from `first` to `mid` and from `second` to `end`, of
  -- which there are `n`, into the buffer at `at`.
  unfoldable pub merge_into :
      (n first mid second end : ℕ) → (ℕ → A) → (buffer : ℕ → A) → (at : ℕ) → ℕ → A
  merge_into zero first mid second end s buffer at = buffer
  merge_into (suc n) first mid second end s buffer at =
      let take_first =
        merge_into n (first + 1) mid second end s (update buffer at (s first)) (at + 1) in
      let take_second =
        merge_into n first mid (second + 1) end s (update buffer at (s second)) (at + 1) in
      let take = if is_negative (cmp (s first) (s second)) then take_first else take_second in
      let drained = copy_elements (mid - first) buffer at s first in
      if ltb first mid && ltb second end
      then take
      else copy_elements (end - second) drained (at + (mid - first)) s second

  -- `lo` is where the elements begin, and `buffer` what the buffer on the stack holds.
  unfoldable pub sort_merge : (fuel : ℕ) → (ℕ → A) → (lo count : ℕ) → (buffer : ℕ → A) → Run (ℕ → A)
  sort_merge zero s lo count buffer = out_of_fuel
  sort_merge (suc fuel) s lo count buffer =
      let half = count / 2 in
      let halves = (do
        s' ← sort_merge fuel s lo half buffer
        s'' ← sort_merge fuel s' (lo + half) (count - half) buffer
        let mid = lo + half
        let merged = merge_into count lo mid mid (lo + count) s'' buffer 0
        ok (copy_elements count s'' lo merged 0)) in
      if leb count 1 then ok s else halves

  -- the `for` over `j`, of which `n` rounds are left
  unfoldable pub select_min : (n j min : ℕ) → (ℕ → A) → ℕ
  select_min zero j min s = min
  select_min (suc n) j min s =
      select_min n (j + 1) (if is_negative (cmp (s j) (s min)) then j else min) s

  unfoldable pub selection_loop : (n i : ℕ) → (ℕ → A) → ℕ → A
  selection_loop zero i s = s
  selection_loop (suc n) i s = selection_loop n (i + 1) (exchange s (select_min n (i + 1) i s) i)

  unfoldable pub sort_selection : (ℕ → A) → ℕ → ℕ → A
  sort_selection s count = selection_loop count 0 s

  -- the `while` over `j`, which is one less than the first argument
  unfoldable pub shift : ℕ → A → (ℕ → A) → ℕ → A
  shift zero temp s = update s 0 temp
  shift (suc j) temp s =
      let shifted = shift j temp (update s (suc j) (s j)) in
      if is_positive (cmp (s j) temp) then shifted else update s (suc j) temp

  -- the `for` over the `int` `i`, of which `n` rounds are left
  unfoldable pub insertion_loop : (n i : ℕ) → (ℕ → A) → Run (ℕ → A)
  insertion_loop zero i s = ok s
  insertion_loop (suc n) i s =
      let rest = insertion_loop n (i + 1) (shift i (s i) s) in
      if ltb (i + 1) (2 ^ 31) then rest else fault

  unfoldable pub sort_insertion : (ℕ → A) → ℕ → Run (ℕ → A)
  sort_insertion s count = insertion_loop (count - 1) 1 s

  -- the `for` over `k`, which goes down by `i` until it is negative
  unfoldable pub shell_sift : (fuel i k : ℕ) → (ℕ → A) → Run (ℕ → A)
  shell_sift zero i k s = out_of_fuel
  shell_sift (suc fuel) i k s =
      let s' = exchange s k (k + i) in
      let rest = shell_sift fuel i (k - i) s' in
      if is_negative (cmp (s (k + i)) (s k)) then (if ltb k i then ok s' else rest) else ok s

  unfoldable pub shell_pass : (n i j : ℕ) → (ℕ → A) → Run (ℕ → A)
  shell_pass zero i j s = ok s
  shell_pass (suc n) i j s = do s' ← shell_sift (suc j) i (j - i) s; shell_pass n i (j + 1) s'

  -- `count` is what the conversion to an `int` gives, so it is below 2 ^ 31. The counters `i`, `j` and
  -- `k`, and `k + i`, which is `j` at most, do not go beyond it.
  unfoldable pub shell_loop : (fuel count i : ℕ) → (ℕ → A) → Run (ℕ → A)
  shell_loop zero count i s = out_of_fuel
  shell_loop (suc fuel) count i s =
      let rest = (do s' ← shell_pass (count - i) i i s; shell_loop fuel count (i / 2) s') in
      if ltb 0 i then rest else ok s

  unfoldable pub sort_shell : (fuel : ℕ) → (ℕ → A) → ℕ → Run (ℕ → A)
  sort_shell fuel s count = elim (to_int count) [
    | pos n ↦ shell_loop fuel n (n / 2) s
    | negsuc n ↦ ok s
  ]

  -- the `for` over `j`, which is one more than the second argument
  unfoldable pub bubble_pass : (n k : ℕ) → (ℕ → A) → ℕ → A
  bubble_pass zero k s = s
  bubble_pass (suc n) k s =
      bubble_pass n (suc k)
        (if is_positive (cmp (s k) (s (suc k))) then exchange s k (suc k) else s)

  -- the `for` over `i`, which ends at 1
  unfoldable pub bubble_loop : (i : ℕ) → (ℕ → A) → ℕ → A
  bubble_loop zero s = s
  bubble_loop (suc i) s = bubble_loop i (bubble_pass i 0 s)

  unfoldable pub sort_bubble : (ℕ → A) → ℕ → ℕ → A
  sort_bubble s count = bubble_loop count s

  -- The `for` over `i`, of which `n` rounds are left. As `gap` is not 0, `i + gap` is the largest `int`.
  unfoldable pub comb_pass : (n gap i : ℕ) → Bool → (ℕ → A) → Run ((ℕ → A) × Bool)
  comb_pass zero gap i swapped s = ok (s, swapped)
  comb_pass (suc n) gap i swapped s =
      let test = is_positive (cmp (s i) (s (i + gap))) in
      let rest =
        comb_pass n gap (i + 1) (test || swapped) (if test then exchange s i (i + gap) else s) in
      if ltb (i + gap) (2 ^ 31) then rest else fault

  unfoldable pub comb_loop : (fuel count gap : ℕ) → Bool → (ℕ → A) → Run (ℕ → A)
  comb_loop zero count gap swapped s = out_of_fuel
  comb_loop (suc fuel) count gap swapped s =
      let round = (do
        gap' ← next_gap gap
        pass ← comb_pass (count - gap') gap' 0 false s
        comb_loop fuel count gap' pass.1 pass.0) in
      if not (gap == 1) || swapped then round else ok s

  -- A count whose conversion is negative begins with a gap that is not 1, and after which the next is
  -- 1, unless the multiplication by 10 overflows. So does 0.
  unfoldable pub sort_comb : (fuel : ℕ) → (ℕ → A) → ℕ → Run (ℕ → A)
  sort_comb fuel s count =
      let sorted : Run (ℕ → A) = elim (to_int count) [
        | pos gap ↦ comb_loop fuel count gap true s
        | negsuc n ↦ if leb ((n + 1) * 10) (2 ^ 31) then comb_loop fuel count 0 true s else fault
      ] in
      if leb count 1 then ok s else sorted

  -- the child of `i` that is larger than `i` and its other child, or `i`
  unfoldable pub largest_of : (ℕ → A) → (n i : ℕ) → ℕ
  largest_of s n i =
      let left = 2 * i + 1 in
      let right = 2 * i + 2 in
      let largest = if ltb left n && is_positive (cmp (s left) (s i)) then left else i in
      if ltb right n && is_positive (cmp (s right) (s largest)) then right else largest

  unfoldable pub heapify : (fuel : ℕ) → (ℕ → A) → (n i : ℕ) → Run (ℕ → A)
  heapify zero s n i = out_of_fuel
  heapify (suc fuel) s n i =
      let largest = largest_of s n i in
      let rest = heapify fuel (exchange s i largest) n largest in
      if ltb (2 * i + 2) (2 ^ 31) then (if largest == i then ok s else rest) else fault

  -- the two `for` of gblSortHeap, over `i`, which is one less than the number
  unfoldable pub build_heap : (fuel : ℕ) → (i : ℕ) → (n : ℕ) → (ℕ → A) → Run (ℕ → A)
  build_heap fuel zero n s = ok s
  build_heap fuel (suc i) n s = do s' ← heapify fuel s n i; build_heap fuel i n s'

  unfoldable pub extract_loop : (fuel : ℕ) → (i : ℕ) → (ℕ → A) → Run (ℕ → A)
  extract_loop fuel zero s = ok s
  extract_loop fuel (suc i) s = do s' ← heapify fuel (exchange s 0 i) i 0; extract_loop fuel i s'

  unfoldable pub sort_heap : (fuel : ℕ) → (ℕ → A) → ℕ → Run (ℕ → A)
  sort_heap fuel s count = do
    heap ← build_heap fuel (rounds (to_int ((count / 2 + (2 ^ 64 - 1)) % 2 ^ 64))) count s
    extract_loop fuel (rounds (to_int ((count + (2 ^ 64 - 1)) % 2 ^ 64))) heap

  -- The interval ends before `r`: what the source calls `r` is one less, an `int` that may be -1.
  -- `l` is not negative. The result is the position, or none for GBL_NPOS.
  unfoldable pub search_binary : (fuel : ℕ) → (ℕ → A) → (l r : ℕ) → A → Run (Option ℕ)
  search_binary zero s l r target = out_of_fuel
  search_binary (suc fuel) s l r target =
      let mid = l + (r - 1 - l) / 2 in
      let lower = search_binary fuel s l mid target in
      let above = search_binary fuel s (mid + 1) r target in
      let upper = if ltb (mid + 1) (2 ^ 31) then above else fault in
      let further = if is_positive (cmp (s mid) target) then lower else upper in
      let search = if is_zero (cmp (s mid) target) then ok (some mid) else further in
      if ltb l r then search else ok none
