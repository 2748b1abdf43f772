-- ===== src/Sorting/Shell.antt =====
-- gblSortShell, whose last pass, with a gap of 1, puts the elements in order.
use mathlib.Core.Path.{subst}
use libgimbal.Common.{
  ℕ, zero, suc, ◌^◌, ◌/◌, ◌+◌, ◌-◌, ◌≤◌, ◌<◌, ◌≡◌, ◌≢◌, refl, sym, ◌∙◌, true, inl, inr, arith,
  Bool-cases, ==_iff, ◌==◌, ltb, ◌⊎◌,
}
use libgimbal.Common.Int.{ℤ, pos, is_negative}
use libgimbal.Memory.{ok}
use libgimbal.Sorting.{exchange, shell_sift, shell_pass, shell_loop, sort_shell, to_int}
use libgimbal.Sorting.Order.{
  IsLe, IsOrder, InOrder, IsRearranged, IsRearranged-refl, IsRearranged-trans, exchange_at,
  exchange-IsRearranged, IsSorting,
}
use libgimbal.Sorting.Ints.{to_int_small}

module _ {A : Type 0} (cmp : A → A → ℤ) (order : IsOrder cmp) where
  -- Of the first `m` elements only that at `p` may be smaller than one in front of it.
  abbrev IsSmallAt : (ℕ → A) → (p m : ℕ) → Type 0
  IsSmallAt s p m = (a b : ℕ) → a < b → b < m → b ≢ p → IsLe cmp (s a) (s b)

  record IsSwept (i k : ℕ) (s r : ℕ → A) (count : ℕ) : Type 0 where
    rearranged : IsRearranged s r count
    ordered : i ≡ 1 → (m : ℕ) → suc k < m → IsSmallAt s (suc k) m → InOrder cmp r m

  in_place :
      (s : ℕ → A) (k m : ℕ) → IsLe cmp (s k) (s (suc k)) → IsSmallAt s (suc k) m → InOrder cmp s m
  in_place s k m le small a b h l = elim (Bool-cases (b == suc k)) [
    | inl e ↦ rw ((==_iff b (suc k)).0 e) (elim (Bool-cases (a == k)) [
      | inl f ↦ rw ((==_iff a k).0 f) le
      | inr f ↦
          order.trans (s a) (s k) (s (suc k))
            (small a k (ground arith) (ground arith) (omega arith)) le
    ])
    | inr e ↦ small a b h l (ground arith)
  ]

  exchange-IsSmallAt :
      (s : ℕ → A) (k m : ℕ)
      → IsLe cmp (s (suc k)) (s k)
      → suc k < m
      → IsSmallAt s (suc k) m
      → IsSmallAt (exchange s k (suc k)) k m
  exchange-IsSmallAt s k m le h small a b l p d = ground (
    arith,
    exchange_at s k (suc k) a,
    exchange_at s k (suc k) b,
    small a b,
    small a k,
    small k b,
    small (suc k) b,
  )

  shell_sift-IsSwept :
      (fuel i k : ℕ) (s : ℕ → A) (count : ℕ)
      → 0 < i
      → k + i < count
      → k < fuel
      → (r : ℕ → A) × (shell_sift cmp fuel i k s ≡ ok r) × IsSwept i k s r count
  unfolding shell_sift
  shell_sift-IsSwept zero i k s count p h f = absurd (omega arith)
  shell_sift-IsSwept (suc fuel) i k s count p h f =
      let s' = exchange s k (k + i) in
      let small_next : is_negative (cmp (s (k + i)) (s k)) ≡ true
          → i ≡ 1
          → (m : ℕ) → suc k < m
          → IsSmallAt s (suc k) m
          → IsSmallAt s' k m =
        (λ e q m l small.
          subst (λ c. IsSmallAt (exchange s k c) k m) {x = suc k} {y = k + i} (omega arith)
            (exchange-IsSmallAt s k m
              (subst (λ c. IsLe cmp (s c) (s k)) {x = k + i} {y = suc k} (omega arith)
                (order.asym (s k) (s (k + i)) (sym (order.flip (s (k + i)) (s k)) ∙ e)))
              l small)) in
      let swapped = exchange-IsRearranged s k (k + i) count (omega arith) h in
      elim (Bool-cases (is_negative (cmp (s (k + i)) (s k)))) [
        | inl e ↦ elim (Bool-cases (ltb k i)) [
          | inl g ↦ (
            s',
            rw (e, g) refl,
            record {
              rearranged = swapped;
              ordered = λ q m l small. λ a b u v. small_next e q m l small a b u v (ground arith);
            },
          )
          | inr g ↦
              let (r, run, is) =
                shell_sift-IsSwept fuel i (k - i) s' count p (ground arith) (ground arith) in
              (
                r,
                rw (e, g) run,
                record {
                  rearranged = IsRearranged-trans swapped is.rearranged;
                  ordered = λ q m l small. is.ordered q m (ground arith) (
                      subst (λ c. IsSmallAt s' c m) {x = k} {y = suc (k - i)} (ground arith)
                        (small_next e q m l small));
                },
              )
        ]
        | inr e ↦ (
          s,
          rw e refl,
          record {
            rearranged = IsRearranged-refl s count;
            ordered = λ q m l small.
                in_place s k m
                  (subst (λ c. IsLe cmp (s k) (s c)) {x = k + i} {y = suc k} (omega arith)
                    (sym (order.flip (s (k + i)) (s k)) ∙ e))
                  small;
          },
        )
      ]

  record IsPassed (i j n : ℕ) (s r : ℕ → A) (count : ℕ) : Type 0 where
    rearranged : IsRearranged s r count
    ordered : i ≡ 1 → InOrder cmp s j → InOrder cmp r (j + n)

  shell_pass-IsPassed :
      (n i j : ℕ) (s : ℕ → A) (count : ℕ)
      → 0 < i
      → i ≤ j
      → j + n ≤ count
      → (r : ℕ → A) × (shell_pass cmp n i j s ≡ ok r) × IsPassed i j n s r count
  unfolding shell_pass
  shell_pass-IsPassed zero i j s count p h l = (
    s,
    refl,
    record {
      rearranged = IsRearranged-refl s count;
      ordered = λ q o a b u v. o a b u (omega arith);
    },
  )
  shell_pass-IsPassed (suc n) i j s count p h l =
      let (r, run, is) =
        shell_sift-IsSwept (suc j) i (j - i) s count p (omega arith) (omega arith) in
      let (r', run', is') = shell_pass-IsPassed n i (j + 1) r count p (omega arith) (omega arith) in
      (
        r',
        rw run run',
        record {
          rearranged = IsRearranged-trans is.rearranged is'.rearranged;
          ordered = λ q o a b u v.
              is'.ordered q
                (is.ordered q (j + 1) (omega arith) (λ c d x y z. o c d x (omega arith))) a b u
                (omega arith);
        },
      )

  shell_loop-IsSorting :
      (fuel count i : ℕ) (s : ℕ → A)
      → i < fuel
      → i ≤ count
      → (0 < i) ⊎ InOrder cmp s count
      → (r : ℕ → A) × (shell_loop cmp fuel count i s ≡ ok r) × IsSorting cmp s r count
  unfolding shell_loop
  shell_loop-IsSorting zero count i s f h o = absurd (omega arith)
  shell_loop-IsSorting (suc fuel) count i s f h o = elim (Bool-cases (ltb 0 i)) [
    | inl e ↦
        let (r, run, is) =
          shell_pass-IsPassed (count - i) i i s count (ground arith) (omega arith) (omega arith) in
        let next : (0 < i / 2) ⊎ InOrder cmp r count = elim (Bool-cases (i == 1)) [
          | inl g ↦ inr (λ a b u v.
              is.ordered (ground arith) (λ c d x y. absurd (ground arith)) a b u (omega arith))
          | inr g ↦ inl (ground arith)
        ] in
        let (r', run', is') =
          shell_loop-IsSorting fuel count (i / 2) r (ground arith) (omega arith) next in
        (
          r',
          rw (e, run) run',
          record {
            in_order = is'.in_order;
            rearranged = IsRearranged-trans is.rearranged is'.rearranged;
          },
        )
    | inr e ↦ (
      s,
      rw e refl,
      record {
        in_order = elim o [ inl p ↦ absurd (ground arith) | inr q ↦ q ];
        rearranged = IsRearranged-refl s count;
      },
    )
  ]

  -- On a total preorder and an array of fewer than 2 ^ 31 elements, so that no `int` overflows,
  -- `gblSortShell` ends, with at most as many rounds of its outer loop as there are elements. It
  -- puts the elements of the array in order. They are the elements that there were, and what lies
  -- behind the array is unchanged.
  pub sort_shell-IsSorting :
      (fuel : ℕ) (s : ℕ → A) (count : ℕ)
      → count < fuel
      → count < 2 ^ 31
      → (r : ℕ → A) × (sort_shell cmp fuel s count ≡ ok r) × IsSorting cmp s r count
  unfolding sort_shell
  sort_shell-IsSorting fuel s count f w =
      let fits : to_int count ≡ pos count = to_int_small count w in
      rw (sort_shell, fits)
        (shell_loop-IsSorting fuel count (count / 2) s (omega arith) (omega arith)
          (elim (Bool-cases (ltb count 2)) [
            | inl e ↦ inr (λ a b u v. absurd (ground arith))
            | inr e ↦ inl (ground arith)
          ]))
