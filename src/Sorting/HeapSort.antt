-- ===== src/Sorting/HeapSort.antt =====
-- gblSortHeap.
use mathlib.Core.Path.{subst}
use libgimbal.Common.{
  ℕ, zero, suc, ◌^◌, ◌/◌, ◌≤◌, ◌<◌, ◌≡◌, refl, sym, ◌∙◌, inl, inr, arith, Bool-cases, ==_iff, ◌==◌,
  ltb,
}
use libgimbal.Common.Int.{ℤ}
use libgimbal.Memory.{ok}
use libgimbal.Sorting.{exchange, extract_loop, sort_heap}
use libgimbal.Sorting.Order.{
  IsLe, IsOrder, IsTopped, IsLe-refl, IsRearranged-refl, IsRearranged-trans, IsRearranged-more,
  exchange_at, exchange-IsRearranged, IsSorting,
}
use libgimbal.Sorting.Heap.{
  parent, IsHeapFrom, IsSinking, heapify-IsSifted, build_heap-IsSifted, root_largest,
}
use libgimbal.Sorting.Ints.{rounds_from}

module _ {A : Type 0} (cmp : A → A → ℤ) (order : IsOrder cmp) where
  module _ (s : ℕ → A) (i count : ℕ) (heap : IsHeapFrom cmp 0 s (suc i)) where
    exchanged-IsSinking : IsSinking cmp 0 (exchange s 0 i) i 0
    exchanged-IsSinking = record {
      edges =
          λ c p q r t. ground (arith, exchange_at s 0 i c, exchange_at s 0 i (parent c), heap c);
      bridged = λ c p q r t u. absurd (omega arith);
    }

    exchanged_bound : (c : ℕ) → c ≤ i → IsLe cmp (exchange s 0 i c) (s 0)
    exchanged_bound c h = ground (
      arith,
      exchange_at s 0 i c,
      root_largest cmp order s (suc i) c heap,
      root_largest cmp order s (suc i) i heap,
      IsLe-refl cmp order (s 0),
    )

    -- The root goes behind the heap.
    sifted-IsTopped :
        (r : ℕ → A)
        → i < count
        → IsTopped cmp s (suc i) count
        → ((b : A)
            → ((c : ℕ) → c < i → IsLe cmp (exchange s 0 i c) b)
            → (c : ℕ) → c < i
            → IsLe cmp (r c) b)
        → ((c : ℕ) → i ≤ c → r c ≡ exchange s 0 i c)
        → IsTopped cmp r i count
    sifted-IsTopped r h t bound frame a b l k f = elim (Bool-cases (b == i)) [
      | inl e ↦ rw ((==_iff b i).0 e) (
          subst (IsLe cmp (r a)) {x = s 0} {y = r i}
            (sym (frame i (omega arith) ∙ (ground (arith, exchange_at s 0 i i))))
            (bound (s 0) (λ c j. exchanged_bound c (omega arith)) a (ground arith)))
      | inr e ↦
          let same : r b ≡ s b = frame b (ground arith) ∙ (ground (arith, exchange_at s 0 i b)) in
          let later : (c : ℕ) → c ≤ i → IsLe cmp (exchange s 0 i c) (s b) =
            (λ c j. ground (arith, exchange_at s 0 i c, t c b, t i b, t 0 b)) in
          rw same (elim (Bool-cases (ltb a i)) [
            | inl g ↦ bound (s b) (λ c j. later c (omega arith)) a (ground arith)
            | inr g ↦ ground (arith, frame a, exchange_at s 0 i a, t a b, t 0 b)
          ])
    ]

  extract_loop-IsSorting :
      (fuel i count : ℕ) (s : ℕ → A)
      → i ≤ count
      → i < fuel
      → count < 2 ^ 30
      → IsHeapFrom cmp 0 s i
      → IsTopped cmp s i count
      → (r : ℕ → A) × (extract_loop cmp fuel i s ≡ ok r) × IsSorting cmp s r count
  unfolding extract_loop
  extract_loop-IsSorting fuel zero count s h f w heap t = (
    s,
    refl,
    record {
      in_order = λ a b l k. t a b l k (omega arith);
      rearranged = IsRearranged-refl s count;
    },
  )
  extract_loop-IsSorting fuel (suc i) count s h f w heap t =
      let (r, run, is) =
        heapify-IsSifted cmp order fuel 0 (exchange s 0 i) i 0 (omega arith) (omega arith)
          (omega arith) (exchanged-IsSinking s i count heap) in
      let topped = sifted-IsTopped s i count heap r (omega arith) t is.bound is.rearranged.frame in
      let (r', run', is') =
        extract_loop-IsSorting fuel i count r (omega arith) (omega arith) w is.heap topped in
      let first = exchange-IsRearranged s 0 i count (omega arith) (omega arith) in
      let more = IsRearranged-more (exchange s 0 i) r i count (omega arith) is.rearranged in
      (
        r',
        rw run run',
        record {
          in_order = is'.in_order;
          rearranged = IsRearranged-trans first (IsRearranged-trans more is'.rearranged);
        },
      )

  -- On a total preorder and an array of fewer than 2 ^ 30 elements, so that the `int` of a right
  -- child does not overflow, `gblSortHeap` ends, with more calls of `heapify_` inside one another
  -- allowed than there are elements. It puts the elements of the array in order. They are the
  -- elements that there were, and what lies behind the array is unchanged.
  pub sort_heap-IsSorting :
      (fuel : ℕ) (s : ℕ → A) (count : ℕ)
      → count < fuel
      → count < 2 ^ 30
      → (r : ℕ → A) × (sort_heap cmp fuel s count ≡ ok r) × IsSorting cmp s r count
  unfolding sort_heap
  sort_heap-IsSorting fuel s count f w =
      let (h, run, is) =
        build_heap-IsSifted cmp order fuel (count / 2) s count f w (omega arith)
          (λ c p q r. absurd (omega arith)) in
      let (r, run', is') =
        extract_loop-IsSorting fuel count count h (omega arith) f w is.heap
          (λ a b l k m. absurd (omega arith)) in
      (
        r,
        rw (sort_heap, rounds_from (count / 2) (omega arith), run, rounds_from count (omega arith))
            run',
        record {
          in_order = is'.in_order;
          rearranged = IsRearranged-trans is.rearranged is'.rearranged;
        },
      )
