-- ===== src/Sorting/Order.antt =====
-- What sorting promises, and what exchanging two elements does.
use mathlib.Core.List.{Perm}
use mathlib.Core.List.Perm
use libgimbal.Common.{
  ℕ, zero, suc, ◌+◌, ◌-◌, ◌≤◌, ◌<◌, ◌≡◌, refl, ap, ◌∙◌, true, false, ◌==◌, inl, inr, if◌then◌else◌,
  arith, ◌∷◌, ◌++◌, Bool-cases, ==_iff,
}
use libgimbal.Common.Int.{ℤ, is_negative, is_positive}
use libgimbal.Memory.{update}
use libgimbal.ArrayList.Room.{segment, segment-ext, segment-start}
use libgimbal.Sorting.{exchange}

module _ {A : Type 0} (cmp : A → A → ℤ) where
  abbrev pub IsLe : A → A → Type 0
  IsLe x y = is_positive (cmp x y) ≡ false

  -- The sign of the comparator is that of a total preorder.
  pub record IsOrder : Type 0 where
    pub flip : (x y : A) → is_negative (cmp x y) ≡ is_positive (cmp y x)
    pub asym : (x y : A) → is_positive (cmp x y) ≡ true → IsLe y x
    pub trans : (x y z : A) → IsLe x y → IsLe y z → IsLe x z

  pub IsLe-refl : IsOrder → (x : A) → IsLe x x
  IsLe-refl o x = elim (Bool-cases (is_positive (cmp x x))) [ inl e ↦ o.asym x x e | inr e ↦ e ]

  -- The elements from `m` on, before `n`, are in their places.
  abbrev pub IsTopped : (ℕ → A) → (m n : ℕ) → Type 0
  IsTopped s m n = (a b : ℕ) → a < b → b < n → m ≤ b → IsLe (s a) (s b)

  abbrev pub InOrder : (ℕ → A) → ℕ → Type 0
  InOrder s n = (i j : ℕ) → i < j → j < n → IsLe (s i) (s j)

module _ {A : Type 0} where
  -- The same elements, among the first `n`.
  pub record IsRearranged (s r : ℕ → A) (n : ℕ) : Type 0 where
    pub same : Perm (segment r 0 n) (segment s 0 n)
    pub frame : (c : ℕ) → n ≤ c → r c ≡ s c

  pub IsRearranged-refl : (s : ℕ → A) (n : ℕ) → IsRearranged s s n
  IsRearranged-refl s n = record { same = Perm.rfl; frame = λ c h. refl }

  pub IsRearranged-trans :
      {s t r : ℕ → A} {n : ℕ} → IsRearranged s t n → IsRearranged t r n → IsRearranged s r n
  IsRearranged-trans p q = record {
    same = Perm.trans q.same p.same;
    frame = λ c h. q.frame c h ∙ p.frame c h;
  }

  -- A write trades the old element for the new one.
  pub update-perm :
      (s : ℕ → A) (v : A) (at i n : ℕ)
      → i ≤ at
      → at < i + n
      → Perm (s at ∷ segment (update s at v) i n) (v ∷ segment s i n)
  unfolding segment update
  update-perm s v at i zero l h = absurd (omega arith)
  update-perm s v at i (suc n) l h = elim (Bool-cases (at == i)) [
    | inl e ↦
        let rest : segment (update s at v) (i + 1) n ≡ segment s (i + 1) n =
          segment-ext (update s at v) s (i + 1) (i + 1) n (λ m p. ground arith) in
        let written : update s at v i ≡ v = ground arith in
        rw (written, rest, ap s ((==_iff at i).0 e)) (Perm.swap v (s i) (segment s (i + 1) n))
    | inr e ↦
        let rest = update-perm s v at (i + 1) n (ground arith) (omega arith) in
        let kept : update s at v i ≡ s i = ground arith in
        rw kept (
          Perm.trans (Perm.swap (s i) (s at) _)
            (Perm.trans (Perm.cons (s i) rest) (Perm.swap v (s i) _)))
  ]

  update_again : (s : ℕ → A) (i j : ℕ) → update s i (s j) j ≡ s j
  unfolding update
  update_again s i j = elim (Bool-cases (j == i)) [ inl e ↦ ground arith | inr e ↦ ground arith ]

  pub exchange_at :
      (s : ℕ → A) (i j c : ℕ)
      → exchange s i j c ≡ (if c == j then s i else if c == i then s j else s c)
  unfolding exchange update
  exchange_at s i j c = refl

  -- Rearranging fewer elements.
  pub IsRearranged-more : (s r : ℕ → A) (m n : ℕ) → m ≤ n → IsRearranged s r m → IsRearranged s r n
  IsRearranged-more s r m n h i =
      let behind : segment r m (n - m) ≡ segment s m (n - m) =
        segment-ext r s m m (n - m) (λ c l. i.frame (m + c) (omega arith)) in
      let split : (t : ℕ → A) → segment t 0 n ≡ segment t 0 m ++ segment t m (n - m) = (λ t.
        ap (segment t 0) {x = n} {y = m + (n - m)} (omega arith) ∙ segment-start t m (n - m)) in
      record {
        same = rw (split r, split s, behind) (Perm.append i.same Perm.rfl);
        frame = λ c l. i.frame c (omega arith);
      }

  module _ (s : ℕ → A) (i j n : ℕ) (hi : i < n) (hj : j < n) where
    exchange-perm : Perm (segment (exchange s i j) 0 n) (segment s 0 n)
    unfolding exchange
    exchange-perm =
        let b = update s i (s j) in
        let kept : b j ≡ s j = update_again s i j in
        let second = rw kept at (update-perm b (s i) j 0 n (omega arith) (omega arith)) in
        Perm.cons_inv (Perm.trans second (update-perm s (s j) i 0 n (omega arith) (omega arith)))

    pub exchange-IsRearranged : IsRearranged s (exchange s i j) n
    exchange-IsRearranged = record {
      same = exchange-perm;
      frame = λ c h. ground (arith, exchange_at s i j c);
    }

-- What sorting the first `n` elements promises.
pub record IsSorting {A : Type 0} (cmp : A → A → ℤ) (s r : ℕ → A) (n : ℕ) : Type 0 where
  pub in_order : InOrder cmp r n
  pub rearranged : IsRearranged s r n
