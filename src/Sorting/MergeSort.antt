-- ===== src/Sorting/MergeSort.antt =====
-- gblSortMerge.
use mathlib.Core.List.{Perm}
use mathlib.Core.List.Perm
use libgimbal.Common.{
  ℕ, zero, suc, ◌+◌, ◌-◌, ◌/◌, ◌≤◌, ◌<◌, ◌≡◌, refl, ap, ap₂, sym, ◌∙◌, inl, inr, arith,
  if◌then◌else◌, Bool-cases, ltb, leb, ◌==◌, ◌&&◌, [], ◌++◌, ◌⊎◌, append-nil,
}
use libgimbal.Common.Int.{ℤ}
use libgimbal.Memory.{update, ok}
use libgimbal.ArrayList.Room.{segment, segment-ext, segment-append}
use libgimbal.Sorting.{copy_elements, merge_into, sort_merge}
use libgimbal.Sorting.Order.{IsOrder}
use libgimbal.Sorting.Merge.{InOrderFrom, IsMerging, merge_into-IsMerging, left_over}

module _ {A : Type 0} where
  copied_at :
      (n : ℕ) (s : ℕ → A) (to : ℕ) (t : ℕ → A) (from c : ℕ)
      → copy_elements n s to t from c
        ≡ (if leb to c && ltb c (to + n) then t (from + (c - to)) else s c)
  unfolding copy_elements update
  copied_at zero s to t from c = ground arith
  copied_at (suc n) s to t from c =
      copied_at n (update s to (t from)) (to + 1) t (from + 1) c ∙ elim (Bool-cases (c == to)) [
        | inl e ↦ ground (arith, ap t {x = from} {y = from + (c - to)} (ground arith))
        | inr e ↦ ground (arith, ap t {x = from + 1 + (c - (to + 1))} {y = from + (c - to)})
      ]

  none_left : (s : ℕ → A) (m e : ℕ) → left_over s m m e e ≡ []
  unfolding segment
  none_left s m e =
      let no_first : m - m ≡ 0 = omega arith in
      let no_second : e - e ≡ 0 = omega arith in
      ap₂ (λ i j. segment s m i ++ segment s e j) no_first no_second

  halves :
      (s : ℕ → A) (lo half count : ℕ)
      → half ≤ count
      → segment s lo half ++ segment s (lo + half) (count - half) ≡ segment s lo count
  halves s lo half count h =
      sym (segment-append s lo half (count - half))
      ∙ ap (segment s lo) {x = half + (count - half)} {y = count} (omega arith)

  whole :
      (s : ℕ → A) (lo half count : ℕ)
      → half ≤ count
      → left_over s lo (lo + half) (lo + half) (lo + count) ≡ segment s lo count
  whole s lo half count h =
      let first : lo + half - lo ≡ half = omega arith in
      let second : lo + count - (lo + half) ≡ count - half = omega arith in
      ap₂ (λ i j. segment s lo i ++ segment s (lo + half) j) first second ∙ halves s lo half count h

module _ {A : Type 0} (cmp : A → A → ℤ) where
  -- What sorting the `n` elements from `lo` on promises.
  pub record IsSortingFrom (s r : ℕ → A) (lo n : ℕ) : Type 0 where
    pub in_order : InOrderFrom cmp r lo (lo + n)
    pub same : Perm (segment r lo n) (segment s lo n)
    pub frame : (c : ℕ) → (c < lo) ⊎ (lo + n ≤ c) → r c ≡ s c

  rearranged_halves :
      (s s' s'' : ℕ → A) (lo half count : ℕ)
      → half ≤ count
      → IsSortingFrom s s' lo half
      → IsSortingFrom s' s'' (lo + half) (count - half)
      → Perm (segment s'' lo count) (segment s lo count)
  rearranged_halves s s' s'' lo half count h is is' =
      let first : segment s'' lo half ≡ segment s' lo half =
        segment-ext s'' s' lo lo half (λ m l. is'.frame (lo + m) (inl (omega arith))) in
      let second : segment s' (lo + half) (count - half) ≡ segment s (lo + half) (count - half) =
        segment-ext s' s (lo + half) (lo + half) (count - half)
          (λ m l. is.frame (lo + half + m) (inr (omega arith))) in
      rw (← halves s'' lo half count h, ← halves s lo half count h, first)
        (Perm.append is.same (rw second at is'.same))

  module _ (order : IsOrder cmp) where
    merged-IsSortingFrom :
        (s buffer : ℕ → A) (lo half count : ℕ)
        → half ≤ count
        → InOrderFrom cmp s lo (lo + half)
        → InOrderFrom cmp s (lo + half) (lo + count)
        → IsSortingFrom s
            (copy_elements count s lo
              (merge_into cmp count lo (lo + half) (lo + half) (lo + count) s buffer 0)
              0)
            lo
            count
    unfolding segment
    merged-IsSortingFrom s buffer lo half count h left right =
        let mid = lo + half in
        let end = lo + count in
        let all = left_over s lo mid mid end in
        let start : IsMerging cmp s all lo mid mid end buffer 0 = record {
          left = left;
          right = right;
          first_in = omega arith;
          second_in = omega arith;
          done = λ a b p q r. absurd (omega arith);
          below_first = λ a c p q r. absurd (omega arith);
          below_second = λ a c p q r. absurd (omega arith);
          same = Perm.rfl;
        } in
        let b = merge_into cmp count lo mid mid end s buffer 0 in
        let done : IsMerging cmp s all mid mid end end b (0 + count) =
          merge_into-IsMerging cmp order count s all lo mid mid end buffer 0 (omega arith) start in
        let r = copy_elements count s lo b 0 in
        let at : (c : ℕ) → lo ≤ c → c < lo + count → r c ≡ b (c - lo) = (λ c p q.
          copied_at count s lo b 0 c
          ∙ (ground (arith, ap b {x = 0 + (c - lo)} {y = c - lo} (omega arith)))) in
        let copied : segment r lo count ≡ segment b 0 (0 + count) =
          segment-ext r b lo 0 count
            (λ m l. at (lo + m) (omega arith) (omega arith) ∙ ap b (omega arith))
          ∙ ap (segment b 0) {x = count} {y = 0 + count} (omega arith) in
        record {
          in_order = λ c d p q l.
              rw (at c p (omega arith), at d (omega arith) l)
                (done.done (c - lo) (d - lo) (omega arith) (omega arith) (omega arith));
          same =
              rw (copied, ← whole s lo half count h)
                (rw (none_left s mid end, append-nil) at done.same);
          frame = λ c p. copied_at count s lo b 0 c ∙ (ground arith);
        }

    -- On a total preorder, `gblSortMerge` ends, with more calls inside one another allowed than there
    -- are elements. It puts the elements of the array that begins at `lo` in order. They are the
    -- elements that there were, and what lies in front of the array and behind it is unchanged.
    pub sort_merge-IsSortingFrom :
        (fuel : ℕ) (s : ℕ → A) (lo count : ℕ) (buffer : ℕ → A)
        → count < fuel
        → (r : ℕ → A) × (sort_merge cmp fuel s lo count buffer ≡ ok r) × IsSortingFrom s r lo count
    unfolding sort_merge
    sort_merge-IsSortingFrom zero s lo count buffer f = absurd (omega arith)
    sort_merge-IsSortingFrom (suc fuel) s lo count buffer f = elim (Bool-cases (leb count 1)) [
      | inl e ↦ (
        s,
        rw e refl,
        record {
          in_order = λ a b p q l. absurd (ground arith);
          same = Perm.rfl;
          frame = λ c p. refl;
        },
      )
      | inr e ↦
          let half = count / 2 in
          let (s', run, is) = sort_merge-IsSortingFrom fuel s lo half buffer (ground arith) in
          let (s'', run', is') =
            sort_merge-IsSortingFrom fuel s' (lo + half) (count - half) buffer (ground arith) in
          let left : InOrderFrom cmp s'' lo (lo + half) = (λ a b p q l.
            rw (is'.frame a (inl (omega arith)), is'.frame b (inl (omega arith)))
              (is.in_order a b p q l)) in
          let right : InOrderFrom cmp s'' (lo + half) (lo + count) =
            (λ a b p q l. is'.in_order a b p q (omega arith)) in
          let all = merged-IsSortingFrom s'' buffer lo half count (omega arith) left right in
          (
            copy_elements count s'' lo _ 0,
            rw (e, run, run') refl,
            record {
              in_order = all.in_order;
              same =
                  Perm.trans all.same
                    (rearranged_halves s s' s'' lo half count (omega arith) is is');
              frame = λ c p.
                  all.frame c p
                  ∙ (is'.frame c (elim p [ inl q ↦ inl (omega arith) | inr q ↦ inr (omega arith) ])
                      ∙ is.frame c (elim p [ inl q ↦ inl q | inr q ↦ inr (omega arith) ]));
            },
          )
    ]
