-- ===== src/Sorting/Bubble.antt =====
-- gblSortBubble.
use mathlib.Core.Path.{subst}
use libgimbal.Common.{
  ℕ, zero, suc, ◌+◌, ◌≤◌, ◌<◌, ◌≡◌, refl, true, inl, inr, arith, Bool-cases, ==_iff, ◌==◌,
}
use libgimbal.Common.Int.{ℤ, is_positive}
use libgimbal.Sorting.{exchange, bubble_pass, bubble_loop, sort_bubble}
use libgimbal.Sorting.Order.{
  IsLe, IsOrder, IsTopped, IsLe-refl, IsRearranged, IsRearranged-refl, IsRearranged-trans,
  exchange_at, exchange-IsRearranged, IsSorting,
}

module _ {A : Type 0} (cmp : A → A → ℤ) (order : IsOrder cmp) where
  -- A pass has taken the largest of the elements up to `k` to their end.
  abbrev pub IsLast : (ℕ → A) → ℕ → Type 0
  IsLast s k = (a : ℕ) → a ≤ k → IsLe cmp (s a) (s k)

  record IsPassed (s r : ℕ → A) (m n : ℕ) : Type 0 where
    topped : IsTopped cmp r m n
    last : (k : ℕ) → suc k ≡ m → IsLast r k
    rearranged : IsRearranged s r n

  module _ (s : ℕ → A) (k : ℕ) where
    pub exchange-IsTopped :
        (m n : ℕ) → suc k < m → IsTopped cmp s m n → IsTopped cmp (exchange s k (suc k)) m n
    exchange-IsTopped m n h t a b l p f =
        ground
          (arith, exchange_at s k (suc k) a, exchange_at s k (suc k) b, t a b, t k b, t (suc k) b)

    pub exchange-IsLast :
        IsLast s k
        → is_positive (cmp (s k) (s (suc k))) ≡ true
        → IsLast (exchange s k (suc k)) (suc k)
    exchange-IsLast l e a h = ground (
      arith,
      exchange_at s k (suc k) a,
      exchange_at s k (suc k) (suc k),
      l a,
      order.asym (s k) (s (suc k)) e,
      IsLe-refl cmp order (s k),
    )

    pub kept-IsLast : IsLast s k → IsLe cmp (s k) (s (suc k)) → IsLast s (suc k)
    kept-IsLast l e a h = elim (Bool-cases (a == suc k)) [
      | inl f ↦ rw ((==_iff a (suc k)).0 f) (IsLe-refl cmp order (s (suc k)))
      | inr f ↦ order.trans (s a) (s k) (s (suc k)) (l a (ground arith)) e
    ]

  bubble_pass-IsPassed :
      (n k m count : ℕ) (s : ℕ → A)
      → suc k + n ≡ m
      → m ≤ count
      → IsTopped cmp s m count
      → IsLast s k
      → IsPassed s (bubble_pass cmp n k s) m count
  unfolding bubble_pass
  bubble_pass-IsPassed zero k m count s e h t l = record {
    topped = t;
    last = λ j f. subst (IsLast s) {x = k} {y = j} (omega arith) l;
    rearranged = IsRearranged-refl s count;
  }
  bubble_pass-IsPassed (suc n) k m count s e h t l =
      elim (Bool-cases (is_positive (cmp (s k) (s (suc k))))) [
        | inl f ↦
            let rest =
              bubble_pass-IsPassed n (suc k) m count (exchange s k (suc k)) (omega arith) h
                (exchange-IsTopped s k m count (omega arith) t) (exchange-IsLast s k l f) in
            let first = exchange-IsRearranged s k (suc k) count (omega arith) (omega arith) in
            rw f (record {
              topped = rest.topped;
              last = rest.last;
              rearranged = IsRearranged-trans first rest.rearranged;
            })
        | inr f ↦
            rw f (bubble_pass-IsPassed n (suc k) m count s (omega arith) h t (kept-IsLast s k l f))
      ]

  bubble_loop-IsSorting :
      (i count : ℕ) (s : ℕ → A)
      → i ≤ count
      → IsTopped cmp s i count
      → IsSorting cmp s (bubble_loop cmp i s) count
  unfolding bubble_loop
  bubble_loop-IsSorting zero count s h t = record {
    in_order = λ a b l k. t a b l k (omega arith);
    rearranged = IsRearranged-refl s count;
  }
  bubble_loop-IsSorting (suc i) count s h t =
      let one = bubble_pass-IsPassed i 0 (suc i) count s (omega arith) h t (λ a l.
        subst (λ b. IsLe cmp (s b) (s 0)) {x = 0} {y = a} (omega arith)
          (IsLe-refl cmp order (s 0))) in
      let topped : IsTopped cmp (bubble_pass cmp i 0 s) i count = (λ a b l k f.
        elim (Bool-cases (b == i)) [
          | inl g ↦ rw ((==_iff b i).0 g) (one.last i refl a (ground arith))
          | inr g ↦ one.topped a b l k (ground arith)
        ]) in
      let rest = bubble_loop-IsSorting i count (bubble_pass cmp i 0 s) (omega arith) topped in
      record {
        in_order = rest.in_order;
        rearranged = IsRearranged-trans one.rearranged rest.rearranged;
      }

  -- On a total preorder, `gblSortBubble` puts the elements of an array in order. They are the
  -- elements that there were, and what lies behind the array is unchanged.
  pub sort_bubble-IsSorting :
      (s : ℕ → A) (count : ℕ) → IsSorting cmp s (sort_bubble cmp s count) count
  unfolding sort_bubble
  sort_bubble-IsSorting s count =
      bubble_loop-IsSorting count count s (omega arith) (λ a b l k f. absurd (omega arith))
