-- ===== src/Sorting/Comb.antt =====
-- gblSortComb: the gap shrinks to 1, and each pass with a gap of 1 takes one more element to its
-- place, until a pass exchanges nothing.
use mathlib.Core.Path.{subst}
use libgimbal.Common.{
  ℕ, zero, suc, ◌^◌, ◌*◌, ◌+◌, ◌-◌, ◌≤◌, ◌<◌, ◌≡◌, refl, sym, Bool, true, false, inl, inr, arith,
  Bool-cases, ==_iff, ◌==◌, leb,
}
use libgimbal.Common.Int.{ℤ}
use libgimbal.Memory.{ok}
use libgimbal.Sorting.{comb_loop, sort_comb}
use libgimbal.Sorting.Order.{
  IsLe, IsOrder, IsLe-refl, IsTopped, InOrder, IsRearranged-refl, IsRearranged-trans, IsSorting,
}
use libgimbal.Sorting.Bubble.{IsLast}
use libgimbal.Sorting.Ints.{to_int_small}
use libgimbal.Sorting.CombPass.{
  smaller, next_gap-smaller, combed, comb_pass-combed, combed-IsCombed, combed-IsTopped,
}

module _ {A : Type 0} (cmp : A → A → ℤ) (order : IsOrder cmp) where
  -- What a pass with a gap of 1 that exchanged nothing leaves is in order.
  abbrev IsQuiet : ℕ → Bool → (ℕ → A) → ℕ → Type 0
  IsQuiet gap swapped s count = swapped ≡ false → gap ≡ 1 → InOrder cmp s count

  -- Each element and the next in order.
  adjacent-InOrder :
      (s : ℕ → A) (count : ℕ)
      → ((c : ℕ) → c + 1 < count → IsLe cmp (s c) (s (c + 1)))
      → InOrder cmp s count
  adjacent-InOrder s count le a zero h l = absurd (omega arith)
  adjacent-InOrder s count le a (suc b) h l =
      let step : IsLe cmp (s b) (s (suc b)) =
        subst (λ c. IsLe cmp (s b) (s c)) {x = b + 1} {y = suc b} (omega arith)
          (le b (omega arith)) in
      elim (Bool-cases (a == b)) [
        | inl e ↦ rw ((==_iff a b).0 e) step
        | inr e ↦
            order.trans (s a) (s b) (s (suc b))
              (adjacent-InOrder s count le a b (ground arith) (omega arith)) step
      ]

  next-IsQuiet :
      (gap : ℕ) (s : ℕ → A) (count : ℕ)
      → gap < count
      → let r = combed cmp (count - gap) gap 0 false s in IsQuiet gap r.1 r.0 count
  next-IsQuiet gap s count h e g =
      let pass = combed-IsCombed cmp (count - gap) gap 0 false s count (omega arith) in
      let (same, le) = pass.settled e in
      adjacent-InOrder _ count (λ c l.
        rw (same c, same (c + 1))
          (subst (λ d. IsLe cmp (s c) (s (c + d))) g (le c (omega arith) (omega arith))))

  comb_loop-IsSorting :
      (fuel m count : ℕ) (swapped : Bool) (s : ℕ → A)
      → 1 < count
      → 10 * count < 2 ^ 31
      → m ≤ count
      → 0 < fuel
      → (swapped ≡ true → m + 1 < fuel)
      → IsTopped cmp s m count
      → IsQuiet 1 swapped s count
      → (r : ℕ → A) × (comb_loop cmp fuel count 1 swapped s ≡ ok r) × IsSorting cmp s r count
  unfolding comb_loop
  comb_loop-IsSorting zero m count swapped s b w h z f top quiet = absurd (omega arith)
  comb_loop-IsSorting (suc fuel) m count false s b w h z f top quiet =
      (s, refl, record { in_order = quiet refl refl; rearranged = IsRearranged-refl s count })
  comb_loop-IsSorting (suc fuel) m count true s b w h z f top quiet =
      let t = combed cmp (count - 1) 1 0 false s in
      let pass = combed-IsCombed cmp (count - 1) 1 0 false s count (omega arith) in
      let first : IsLast cmp order s 0 = (λ a l.
        subst (λ c. IsLe cmp (s c) (s 0)) {x = 0} {y = a} (omega arith)
          (IsLe-refl cmp order (s 0))) in
      let top' =
        combed-IsTopped cmp order (count - 1) 0 m false s count (omega arith) h
          (first, top, λ l a c p q n. top a c p q (omega arith)) in
      let still : t.1 ≡ true → 0 < m = (λ e. elim (Bool-cases (m == 0)) [
        | inl g ↦ absurd (
            ground (
              arith,
              pass.quiet (λ c k l. top c (c + 1) (omega arith) (omega arith) (ground arith)),
            ))
        | inr g ↦ ground arith
      ]) in
      let (r, run, is) =
        comb_loop-IsSorting fuel (m - 1) count t.1 t.0 b w (omega arith) (omega (arith, f refl))
          (λ e. omega (arith, f refl, still e)) top' (next-IsQuiet 1 s count b) in
      (
        r,
        rw
            (
              next_gap-smaller 1 (omega arith),
              comb_pass-combed cmp (count - 1) 1 0 false s (omega arith),
            )
            run,
        record {
          in_order = is.in_order;
          rearranged = IsRearranged-trans pass.rearranged is.rearranged;
        },
      )

  shrink-IsSorting :
      (fuel count gap : ℕ) (swapped : Bool) (s : ℕ → A)
      → 1 < gap
      → gap ≤ count
      → 10 * count < 2 ^ 31
      → gap + count < fuel
      → (r : ℕ → A) × (comb_loop cmp fuel count gap swapped s ≡ ok r) × IsSorting cmp s r count
  unfolding comb_loop
  shrink-IsSorting zero count gap swapped s h l w f = absurd (omega arith)
  shrink-IsSorting (suc fuel) count gap swapped s h l w f =
      let g = smaller gap in
      let some_gap : (0 < g) × (g < gap) = ground arith in
      let t = combed cmp (count - g) g 0 false s in
      let pass = combed-IsCombed cmp (count - g) g 0 false s count (omega arith) in
      let rest : (r : ℕ → A) × (comb_loop cmp fuel count g t.1 t.0 ≡ ok r)
          × IsSorting cmp t.0 r count =
        elim (Bool-cases (g == 1)) [
          | inl e ↦
              let one : g ≡ 1 = (==_iff g 1).0 e in
              let quiet : IsQuiet 1 t.1 t.0 count =
                (λ k n. next-IsQuiet g s count (omega arith) k one) in
              subst
                (λ d.
                  (r : ℕ → A) × (comb_loop cmp fuel count d t.1 t.0 ≡ ok r)
                  × IsSorting cmp t.0 r count)
                (sym one)
                (comb_loop-IsSorting fuel count count t.1 t.0 (omega arith) w (omega arith)
                  (omega arith) (λ k. omega arith) (λ a c p q n. absurd (omega arith)) quiet)
          | inr e ↦
              shrink-IsSorting fuel count g t.1 t.0 (ground arith) (omega arith) w (omega arith)
        ] in
      let more : (gap == 1) ≡ false = ground arith in
      let (r, run, is) = rest in
      (
        r,
        rw
            (
              more,
              next_gap-smaller gap (omega arith),
              comb_pass-combed cmp (count - g) g 0 false s (omega arith),
            )
            run,
        record {
          in_order = is.in_order;
          rearranged = IsRearranged-trans pass.rearranged is.rearranged;
        },
      )

  -- On a total preorder and an array of elements whose number times 10 is below 2 ^ 31, so that no
  -- `int` overflows, `gblSortComb` ends, with at most two rounds of its outer loop for each
  -- element. It puts the elements of the array in order. They are the elements that there were, and
  -- what lies behind the array is unchanged.
  pub sort_comb-IsSorting :
      (fuel : ℕ) (s : ℕ → A) (count : ℕ)
      → 2 * count < fuel
      → 10 * count < 2 ^ 31
      → (r : ℕ → A) × (sort_comb cmp fuel s count ≡ ok r) × IsSorting cmp s r count
  unfolding sort_comb
  sort_comb-IsSorting fuel s count f w = elim (Bool-cases (leb count 1)) [
    | inl e ↦ (
      s,
      rw e refl,
      record {
        in_order = λ a b h l. absurd (ground arith);
        rearranged = IsRearranged-refl s count;
      },
    )
    | inr e ↦
        let (r, run, is) =
          shrink-IsSorting fuel count count true s (ground arith) (omega arith) w (omega arith) in
        (r, rw (sort_comb, e, to_int_small count (omega arith)) run, is)
  ]
