-- ===== src/Sorting/Heap.antt =====
-- heapify_ of gimbal_sort.c, and the heap that it makes of an array.
use mathlib.Core.Path.{subst}
use libgimbal.Common.{
  ℕ, zero, suc, ◌^◌, ◌*◌, ◌/◌, ◌+◌, ◌-◌, ◌≤◌, ◌<◌, ◌≡◌, ◌≢◌, refl, true, inl, inr, arith,
  if◌then◌else◌, Bool-cases, ==_iff, ◌==◌, ltb, ◌&&◌, ◌⊎◌,
}
use libgimbal.Common.Int.{ℤ, is_positive}
use libgimbal.Memory.{ok}
use libgimbal.Sorting.{exchange, largest_of, heapify, build_heap}
use libgimbal.Sorting.Order.{
  IsLe, IsOrder, IsLe-refl, IsRearranged, IsRearranged-refl, IsRearranged-trans, exchange_at,
  exchange-IsRearranged,
}

abbrev pub parent : ℕ → ℕ
parent c = (c - 1) / 2

module _ {A : Type 0} (cmp : A → A → ℤ) where
  -- Of `n` elements, no child of an element from `lo` on is larger than its parent.
  abbrev pub IsHeapFrom : ℕ → (ℕ → A) → ℕ → Type 0
  IsHeapFrom lo s n = (c : ℕ) → 0 < c → c < n → lo ≤ parent c → IsLe cmp (s c) (s (parent c))

  -- Only the children of `i` may be too large, and not for its parent.
  pub record IsSinking (lo : ℕ) (s : ℕ → A) (n i : ℕ) : Type 0 where
    pub edges :
        (c : ℕ) → 0 < c → c < n → lo ≤ parent c → parent c ≢ i → IsLe cmp (s c) (s (parent c))
    pub bridged :
        (c : ℕ)
        → 0 < c
        → c < n
        → parent c ≡ i
        → 0 < i
        → lo ≤ parent i
        → IsLe cmp (s c) (s (parent i))

  pub record IsSifted (lo : ℕ) (s r : ℕ → A) (n : ℕ) : Type 0 where
    pub heap : IsHeapFrom lo r n
    pub rearranged : IsRearranged s r n
    pub bound : (b : A) → ((c : ℕ) → c < n → IsLe cmp (s c) b) → (c : ℕ) → c < n → IsLe cmp (r c) b

  -- `m` is `i` or a child of it, and no child of `i` and not `i` is larger.
  record IsLargest (s : ℕ → A) (n i m : ℕ) : Type 0 where
    place : (m ≡ i) ⊎ ((m < n) × (0 < m) × (parent m ≡ i))
    top : IsLe cmp (s i) (s m)
    largest : (c : ℕ) → 0 < c → c < n → parent c ≡ i → IsLe cmp (s c) (s m)

  module _ (order : IsOrder cmp) where
    -- One more child is looked at, of which the test is `t`.
    larger :
        (s : ℕ → A) (n i j m : ℕ)
        → IsLe cmp (s i) (s m)
        → let m' = (if ltb j n && is_positive (cmp (s j) (s m)) then j else m) in
          ((m' ≡ m) ⊎ ((m' ≡ j) × (j < n)))
          × IsLe cmp (s i) (s m')
          × IsLe cmp (s m) (s m')
          × (j < n → IsLe cmp (s j) (s m'))
    larger s n i j m le = elim (Bool-cases (ltb j n)) [
      | inl e ↦ elim (Bool-cases (is_positive (cmp (s j) (s m)))) [
        | inl f ↦
            let up : IsLe cmp (s m) (s j) = order.asym (s j) (s m) f in
            rw (e, f)
              (
                inr (refl, ground arith),
                order.trans (s i) (s m) (s j) le up,
                up,
                λ h. IsLe-refl cmp order (s j),
              )
        | inr f ↦ rw (e, f) (inl refl, le, IsLe-refl cmp order (s m), λ h. f)
      ]
      | inr e ↦ rw e (inl refl, le, IsLe-refl cmp order (s m), λ h. absurd (ground arith))
    ]

    largest_of-IsLargest : (s : ℕ → A) (n i : ℕ) → IsLargest s n i (largest_of cmp s n i)
    unfolding largest_of
    largest_of-IsLargest s n i =
        let left = 2 * i + 1 in
        let m = (if ltb left n && is_positive (cmp (s left) (s i)) then left else i) in
        let (where_m, top_m, top_m', left_m) = larger s n i left i (IsLe-refl cmp order (s i)) in
        let (where_r, top_r, m_r, right_r) = larger s n i (2 * i + 2) m top_m in
        let r = largest_of cmp s n i in
        let left_r : left < n → IsLe cmp (s left) (s r) =
          (λ h. order.trans (s left) (s m) (s r) (left_m h) m_r) in
        record {
          place = ground arith;
          top = top_r;
          largest = λ c p q e. elim (Bool-cases (c == left)) [
            | inl f ↦
                subst (λ d. IsLe cmp (s d) (s r)) {x = left} {y = c} (ground arith)
                  (left_r (ground arith))
            | inr f ↦
                subst (λ d. IsLe cmp (s d) (s r)) {x = 2 * i + 2} {y = c} (ground arith)
                  (right_r (ground arith))
          ];
        }

    exchange-IsSinking :
        (lo : ℕ) (s : ℕ → A) (n i m : ℕ)
        → IsSinking lo s n i
        → IsLargest s n i m
        → m ≢ i
        → IsSinking lo (exchange s i m) n m
    exchange-IsSinking lo s n i m v l d = record {
      edges = λ c p q r t. ground (
        arith,
        exchange_at s i m c,
        exchange_at s i m (parent c),
        v.edges c,
        v.bridged m,
        l.largest c,
        l.top,
        l.place,
      );
      bridged = λ c p q r t u.
          ground (arith, exchange_at s i m c, exchange_at s i m (parent m), v.edges c, l.place);
    }

    pub heapify-IsSifted :
        (fuel lo : ℕ) (s : ℕ → A) (n i : ℕ)
        → n - i < fuel
        → n < 2 ^ 30
        → i + 1 < 2 ^ 30
        → IsSinking lo s n i
        → (r : ℕ → A) × (heapify cmp fuel s n i ≡ ok r) × IsSifted lo s r n
    unfolding heapify
    heapify-IsSifted zero lo s n i f w u v = absurd (omega arith)
    heapify-IsSifted (suc fuel) lo s n i f w u v =
        let fits : ltb (2 * i + 2) (2 ^ 31) ≡ true = ground arith in
        let m = largest_of cmp s n i in
        let l = largest_of-IsLargest s n i in
        elim (Bool-cases (m == i)) [
          | inl e ↦
              let same : m ≡ i = (==_iff m i).0 e in
              (
                s,
                rw (fits, e) refl,
                record {
                  heap = λ c p q r. elim (Bool-cases (parent c == i)) [
                    | inl g ↦
                        subst (λ d. IsLe cmp (s c) (s d)) {x = m} {y = parent c} (ground arith)
                          (l.largest c p q (ground arith))
                    | inr g ↦ v.edges c p q r (ground arith)
                  ];
                  rearranged = IsRearranged-refl s n;
                  bound = λ b k c j. k c j;
                },
              )
          | inr e ↦
              let moved : m ≢ i = ground arith in
              let inside : (i < m) × (m < n) = ground (arith, l.place) in
              let (r, run, is) =
                heapify-IsSifted fuel lo (exchange s i m) n m (omega arith) w (omega arith)
                  (exchange-IsSinking lo s n i m v l moved) in
              let swapped = exchange-IsRearranged s i m n (omega arith) (omega arith) in
              (
                r,
                rw (fits, e) run,
                record {
                  heap = is.heap;
                  rearranged = IsRearranged-trans swapped is.rearranged;
                  bound =
                      λ b k. is.bound b (λ c j. ground (arith, exchange_at s i m c, k c, k i, k m));
                },
              )
        ]

    pub build_heap-IsSifted :
        (fuel i : ℕ) (s : ℕ → A) (n : ℕ)
        → n < fuel
        → n < 2 ^ 30
        → i < 2 ^ 30
        → IsHeapFrom i s n
        → (r : ℕ → A) × (build_heap cmp fuel i n s ≡ ok r) × IsSifted 0 s r n
    unfolding build_heap
    build_heap-IsSifted fuel zero s n f w u h =
        (s, refl, record { heap = h; rearranged = IsRearranged-refl s n; bound = λ b k c j. k c j })
    build_heap-IsSifted fuel (suc i) s n f w u h =
        let sinking : IsSinking i s n i = record {
          edges = λ c p q r t. h c p q (omega arith);
          bridged = λ c p q r t u. absurd (omega arith);
        } in
        let (r, run, is) = heapify-IsSifted fuel i s n i (omega arith) w (omega arith) sinking in
        let (r', run', is') = build_heap-IsSifted fuel i r n f w (omega arith) is.heap in
        (
          r',
          rw run run',
          record {
            heap = is'.heap;
            rearranged = IsRearranged-trans is.rearranged is'.rearranged;
            bound = λ b k. is'.bound b (is.bound b k);
          },
        )

    root_largest_below :
        (k : ℕ) (s : ℕ → A) (n c : ℕ) → IsHeapFrom 0 s n → c < k → c < n → IsLe cmp (s c) (s 0)
    root_largest_below zero s n c h f p = absurd (omega arith)
    root_largest_below (suc k) s n c h f p = elim (Bool-cases (c == 0)) [
      | inl e ↦
          subst (λ d. IsLe cmp (s d) (s 0)) {x = 0} {y = c} (ground arith)
            (IsLe-refl cmp order (s 0))
      | inr e ↦
          order.trans (s c) (s (parent c)) (s 0) (h c (ground arith) p (omega arith))
            (root_largest_below k s n (parent c) h (ground arith) (ground arith))
    ]

    -- No element of a heap is larger than its root.
    pub root_largest : (s : ℕ → A) (n c : ℕ) → IsHeapFrom 0 s n → c < n → IsLe cmp (s c) (s 0)
    root_largest s n c h p = root_largest_below (suc c) s n c h (omega arith) p
