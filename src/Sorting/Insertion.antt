-- ===== src/Sorting/Insertion.antt =====
-- gblSortInsertion.
use mathlib.Core.Path.{subst}
use mathlib.Core.List.{Perm}
use mathlib.Core.List.Perm
use libgimbal.Common.{
  ℕ, zero, suc, ◌^◌, ◌+◌, ◌-◌, ◌≤◌, ◌<◌, ◌≡◌, ◌∙◌, refl, true, inl, inr, arith, Bool-cases, ==_iff,
  ◌==◌, List, ◌∷◌, ltb,
}
use libgimbal.Common.Int.{ℤ, is_positive}
use libgimbal.Memory.{update, ok}
use libgimbal.ArrayList.Room.{segment}
use libgimbal.Sorting.{shift, insertion_loop, sort_insertion}
use libgimbal.Sorting.Order.{
  IsLe, IsOrder, InOrder, IsRearranged, IsRearranged-refl, IsRearranged-trans, update-perm,
  IsSorting,
}

module _ {A : Type 0} where
  update_behind : (s : ℕ → A) (j : ℕ) → update s (suc j) (s j) j ≡ s j
  unfolding update
  update_behind s j = ground arith

  -- Two trades, one after the other.
  perm_through :
      (x y z : A) (r s s' : List A)
      → Perm (y ∷ r) (z ∷ s')
      → Perm (x ∷ s') (y ∷ s)
      → Perm (x ∷ r) (z ∷ s)
  perm_through x y z r s s' p q =
      let first = Perm.trans (Perm.swap x y r) (Perm.cons x p) in
      let second = Perm.trans (Perm.swap z x s') (Perm.cons z q) in
      Perm.cons_inv (Perm.trans first (Perm.trans second (Perm.swap y z s)))

module _ {A : Type 0} (cmp : A → A → ℤ) (order : IsOrder cmp) where
  -- What inserting `temp` among the first `k` elements makes of `s`.
  record IsShifted (k : ℕ) (temp : A) (s r : ℕ → A) : Type 0 where
    in_order : InOrder cmp r (suc k)
    behind : (c : ℕ) → k < c → r c ≡ s c
    bound :
        (b : A)
        → IsLe cmp temp b
        → ((i : ℕ) → i < k → IsLe cmp (s i) b)
        → (i : ℕ) → i ≤ k
        → IsLe cmp (r i) b

  settled :
      (j : ℕ) (temp : A) (s : ℕ → A)
      → InOrder cmp s (suc j)
      → IsLe cmp (s j) temp
      → IsShifted (suc j) temp s (update s (suc j) temp)
  unfolding update
  settled j temp s o le = record {
    in_order = λ a b h k. ground (arith, o a b, o a j, order.trans (s a) (s j) temp);
    behind = λ c h. ground arith;
    bound = λ b t h i k. ground (arith, h i);
  }

  shift-IsShifted :
      (k : ℕ) (temp : A) (s : ℕ → A) → InOrder cmp s k → IsShifted k temp s (shift cmp k temp s)
  unfolding shift update
  shift-IsShifted zero temp s o = record {
    in_order = λ a b h k. absurd (omega arith);
    behind = λ c h. ground arith;
    bound = λ b t h i k. ground arith;
  }
  shift-IsShifted (suc j) temp s o = elim (Bool-cases (is_positive (cmp (s j) temp))) [
    | inl e ↦
        let s' = update s (suc j) (s j) in
        let rest = shift-IsShifted j temp s' (λ a b h k. ground (arith, o a b)) in
        let last : shift cmp j temp s' (suc j) ≡ s j =
          rest.behind (suc j) (omega arith) ∙ ground arith in
        let le : IsLe cmp temp (s j) = order.asym (s j) temp e in
        rw e (record {
          in_order = λ a b h k. elim (Bool-cases (b == suc j)) [
            | inl f ↦
                rw ((==_iff b (suc j)).0 f, last)
                  (rest.bound (s j) le (λ i l. ground (arith, o i j)) a (ground arith))
            | inr f ↦ rest.in_order a b h (ground arith)
          ];
          behind = λ c h. rest.behind c (omega arith) ∙ (ground arith);
          bound = λ b t h i k. elim (Bool-cases (i == suc j)) [
            | inl f ↦ rw ((==_iff i (suc j)).0 f, last) (h j (omega arith))
            | inr f ↦ rest.bound b t (λ i l. ground (arith, h i)) i (ground arith)
          ];
        })
    | inr e ↦ rw e (settled j temp s o e)
  ]

  -- `temp` takes the place of the element at `k`.
  shift-perm :
      (k n : ℕ) (temp : A) (s : ℕ → A)
      → k < n
      → Perm (s k ∷ segment (shift cmp k temp s) 0 n) (temp ∷ segment s 0 n)
  unfolding shift
  shift-perm zero n temp s h = update-perm s temp 0 0 n (omega arith) (omega arith)
  shift-perm (suc j) n temp s h = elim (Bool-cases (is_positive (cmp (s j) temp))) [
    | inl e ↦
        let s' = update s (suc j) (s j) in
        let kept : s' j ≡ s j = update_behind s j in
        let rest = rw kept at (shift-perm j n temp s' (omega arith)) in
        let here = update-perm s (s j) (suc j) 0 n (omega arith) (omega arith) in
        rw e (perm_through _ _ _ _ _ _ rest here)
    | inr e ↦ rw e (update-perm s temp (suc j) 0 n (omega arith) (omega arith))
  ]

  insertion_loop-IsSorting :
      (n i count : ℕ) (s : ℕ → A)
      → i + n ≡ count
      → count < 2 ^ 31
      → InOrder cmp s i
      → (r : ℕ → A) × (insertion_loop cmp n i s ≡ ok r) × IsSorting cmp s r count
  unfolding insertion_loop
  insertion_loop-IsSorting zero i count s e w p = (
    s,
    refl,
    record { in_order = λ a b h k. p a b h (omega arith); rearranged = IsRearranged-refl s count },
  )
  insertion_loop-IsSorting (suc n) i count s e w p =
      let fits : ltb (i + 1) (2 ^ 31) ≡ true = ground arith in
      let shifted = shift-IsShifted i (s i) s p in
      let (r, run, is) =
        insertion_loop-IsSorting n (i + 1) count (shift cmp i (s i) s) (omega arith) w
          (λ a b h k. shifted.in_order a b h (omega arith)) in
      let first : IsRearranged s (shift cmp i (s i) s) count = record {
        same = Perm.cons_inv (shift-perm i count (s i) s (omega arith));
        frame = λ c h. shifted.behind c (omega arith);
      } in
      (
        r,
        rw fits run,
        record { in_order = is.in_order; rearranged = IsRearranged-trans first is.rearranged },
      )

  -- On a total preorder and an array of fewer than 2 ^ 31 elements, so that no `int` overflows,
  -- `gblSortInsertion` succeeds. It puts the elements of the array in order. They are the elements
  -- that there were, and what lies behind the array is unchanged.
  pub sort_insertion-IsSorting :
      (s : ℕ → A) (count : ℕ)
      → count < 2 ^ 31
      → (r : ℕ → A) × (sort_insertion cmp s count ≡ ok r) × IsSorting cmp s r count
  unfolding sort_insertion insertion_loop
  sort_insertion-IsSorting s zero w =
      insertion_loop-IsSorting 0 0 0 s (omega arith) w (λ a b h k. absurd (omega arith))
  sort_insertion-IsSorting s (suc n) w =
      subst (λ k. (r : ℕ → A) × (insertion_loop cmp k 1 s ≡ ok r) × IsSorting cmp s r (suc n))
        {x = n} {y = suc n - 1} (omega arith)
        (insertion_loop-IsSorting n 1 (suc n) s (omega arith) w (λ a b h k. absurd (omega arith)))
