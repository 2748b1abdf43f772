-- ===== src/Sorting/Selection.antt =====
-- gblSortSelection.
use mathlib.Core.Path.{subst}
use libgimbal.Common.{
  ℕ, zero, suc, ◌+◌, ◌≤◌, ◌<◌, ◌≡◌, sym, ◌∙◌, inl, inr, arith, if◌then◌else◌, Bool-cases, ==_iff,
  ◌==◌,
}
use libgimbal.Common.Int.{ℤ, is_negative}
use libgimbal.Sorting.{exchange, select_min, selection_loop, sort_selection}
use libgimbal.Sorting.Order.{
  IsLe, IsOrder, IsLe-refl, IsRearranged-refl, IsRearranged-trans, exchange_at,
  exchange-IsRearranged, IsSorting,
}

module _ {A : Type 0} (cmp : A → A → ℤ) (order : IsOrder cmp) where
  -- `m` holds the least of the elements from `lo` on, before `hi`.
  record IsLeast (s : ℕ → A) (lo hi m : ℕ) : Type 0 where
    from : lo ≤ m
    below : m < hi
    least : (c : ℕ) → lo ≤ c → c < hi → IsLe cmp (s m) (s c)

  one_more :
      (s : ℕ → A) (lo j min : ℕ)
      → IsLeast s lo j min
      → IsLeast s lo (j + 1) (if is_negative (cmp (s j) (s min)) then j else min)
  one_more s lo j min i = elim (Bool-cases (is_negative (cmp (s j) (s min)))) [
    | inl e ↦
        let le : IsLe cmp (s j) (s min) =
          order.asym (s min) (s j) (sym (order.flip (s j) (s min)) ∙ e) in
        rw e (record {
          from = omega (arith, i.from, i.below);
          below = omega arith;
          least = λ c p q. elim (Bool-cases (c == j)) [
            | inl f ↦ rw ((==_iff c j).0 f) (IsLe-refl cmp order (s j))
            | inr f ↦ order.trans (s j) (s min) (s c) le (i.least c p (ground arith))
          ];
        })
    | inr e ↦
        let le : IsLe cmp (s min) (s j) = sym (order.flip (s j) (s min)) ∙ e in
        rw e (record {
          from = i.from;
          below = omega (arith, i.below);
          least = λ c p q. elim (Bool-cases (c == j)) [
            | inl f ↦ rw ((==_iff c j).0 f) le
            | inr f ↦ i.least c p (ground arith)
          ];
        })
  ]

  select_min-IsLeast :
      (s : ℕ → A) (lo n j hi min : ℕ)
      → j + n ≡ hi
      → IsLeast s lo j min
      → IsLeast s lo hi (select_min cmp n j min s)
  unfolding select_min
  select_min-IsLeast s lo zero j hi min e i =
      subst (λ k. IsLeast s lo k min) {x = j} {y = hi} (omega arith) i
  select_min-IsLeast s lo (suc n) j hi min e i =
      select_min-IsLeast s lo n (j + 1) hi _ (omega arith) (one_more s lo j min i)

  alone : (s : ℕ → A) (i : ℕ) → IsLeast s i (i + 1) i
  alone s i = record {
    from = omega arith;
    below = omega arith;
    least = λ c p q.
        subst (λ k. IsLe cmp (s i) (s k)) {x = i} {y = c} (omega arith) (IsLe-refl cmp order (s i));
  }

  -- The first `i` of `n` elements are in their places.
  abbrev IsSettled : (ℕ → A) → (i n : ℕ) → Type 0
  IsSettled s i n = (a b : ℕ) → a < b → b < n → a < i → IsLe cmp (s a) (s b)

  exchange-IsSettled :
      (s : ℕ → A) (i n m : ℕ)
      → IsLeast s i n m
      → IsSettled s i n
      → IsSettled (exchange s m i) (i + 1) n
  exchange-IsSettled s i n m l p a b h k f = ground (
    arith,
    exchange_at s m i a,
    exchange_at s m i b,
    l.least b,
    p a b,
    p a i,
    p a m,
    l.least i,
    l.from,
    l.below,
  )

  selection_loop-IsSorting :
      (n i count : ℕ) (s : ℕ → A)
      → i + n ≡ count
      → IsSettled s i count
      → IsSorting cmp s (selection_loop cmp n i s) count
  unfolding selection_loop
  selection_loop-IsSorting zero i count s e p = record {
    in_order = λ a b h k. p a b h k (omega arith);
    rearranged = IsRearranged-refl s count;
  }
  selection_loop-IsSorting (suc n) i count s e p =
      let m = select_min cmp n (i + 1) i s in
      let least : IsLeast s i count m =
        select_min-IsLeast s i n (i + 1) count i (omega arith) (alone s i) in
      let inside : m < count = least.below in
      let rest =
        selection_loop-IsSorting n (i + 1) count (exchange s m i) (omega arith)
          (exchange-IsSettled s i count m least p) in
      record {
        in_order = rest.in_order;
        rearranged =
            IsRearranged-trans (exchange-IsRearranged s m i count inside (omega arith))
              rest.rearranged;
      }

  -- On a total preorder, `gblSortSelection` puts the elements of an array in order. They are the
  -- elements that there were, and what lies behind the array is unchanged.
  pub sort_selection-IsSorting :
      (s : ℕ → A) (count : ℕ) → IsSorting cmp s (sort_selection cmp s count) count
  unfolding sort_selection
  sort_selection-IsSorting s count =
      selection_loop-IsSorting count 0 count s (omega arith) (λ a b h k f. absurd (omega arith))
