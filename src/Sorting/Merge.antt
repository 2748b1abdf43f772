-- ===== src/Sorting/Merge.antt =====
-- The merge of gblSortMerge: what its buffer holds.
use mathlib.Core.Path.{subst}
use mathlib.Core.List.{Perm, perm_middle}
use mathlib.Core.List.Perm
use libgimbal.Common.{
  ℕ, zero, suc, ◌+◌, ◌-◌, ◌≤◌, ◌<◌, ◌≡◌, refl, ap, sym, ◌∙◌, inl, inr, arith, Bool-cases, ==_iff,
  ◌==◌, ltb, ◌&&◌, List, ◌∷◌, ◌++◌, append_assoc,
}
use libgimbal.Common.Int.{ℤ, is_negative}
use libgimbal.Memory.{update}
use libgimbal.ArrayList.Room.{segment, segment-last}
use libgimbal.Sorting.{copy_elements, merge_into}
use libgimbal.Sorting.Order.{IsLe, IsOrder}

module _ {A : Type 0} where
  -- The elements of both halves that are left.
  abbrev pub left_over : (ℕ → A) → (first mid second end : ℕ) → List A
  left_over s first mid second end =
      segment s first (mid - first) ++ segment s second (end - second)

  segment-suc :
      (s : ℕ → A) (i hi : ℕ)
      → i < hi
      → segment s i (hi - i) ≡ s i ∷ segment s (i + 1) (hi - (i + 1))
  unfolding segment
  segment-suc s i hi h = ap (segment s i) {x = hi - i} {y = suc (hi - (i + 1))} (omega arith)

module _ {A : Type 0} (cmp : A → A → ℤ) where
  abbrev pub InOrderFrom : (ℕ → A) → (lo hi : ℕ) → Type 0
  InOrderFrom s lo hi = (a b : ℕ) → lo ≤ a → a < b → b < hi → IsLe cmp (s a) (s b)

  -- The buffer is in order up to `at`, nothing that is left is smaller, and together they are `all`.
  pub record IsMerging (s : ℕ → A) (all : List A) (first mid second end : ℕ) (buffer : ℕ → A)
      (at : ℕ) : Type 0 where
    pub left : InOrderFrom s first mid
    pub right : InOrderFrom s second end
    pub first_in : first ≤ mid
    pub second_in : second ≤ end
    pub done : InOrderFrom buffer 0 at
    pub below_first : (a c : ℕ) → a < at → first ≤ c → c < mid → IsLe cmp (buffer a) (s c)
    pub below_second : (a c : ℕ) → a < at → second ≤ c → c < end → IsLe cmp (buffer a) (s c)
    pub same : Perm (segment buffer 0 at ++ left_over s first mid second end) all

module _ {A : Type 0} (cmp : A → A → ℤ) (order : IsOrder cmp) where
  -- What is not larger than the first element in order is not larger than any.
  at_least :
      (s : ℕ → A) (lo hi : ℕ) (x : A)
      → InOrderFrom cmp s lo hi
      → IsLe cmp x (s lo)
      → (c : ℕ) → lo ≤ c
      → c < hi
      → IsLe cmp x (s c)
  at_least s lo hi x o le c p q = elim (Bool-cases (c == lo)) [
    | inl e ↦ rw ((==_iff c lo).0 e) le
    | inr e ↦ order.trans x (s lo) (s c) le (o lo c (omega arith) (ground arith) q)
  ]

  module _ (s : ℕ → A) (all : List A) (first mid second end : ℕ) (buffer : ℕ → A) (at : ℕ)
      (m : IsMerging cmp s all first mid second end buffer at) where
    take_first :
        first < mid
        → ((c : ℕ) → second ≤ c → c < end → IsLe cmp (s first) (s c))
        → IsMerging cmp s all (first + 1) mid second end (update buffer at (s first)) (at + 1)
    unfolding update
    take_first h le = record {
      left = λ a b p q r. m.left a b (omega arith) q r;
      right = m.right;
      first_in = omega arith;
      second_in = m.second_in;
      done = λ a b p q r. ground (arith, m.done a b, m.below_first a first);
      below_first = λ a c p q r. ground (arith, m.below_first a c, m.left first c);
      below_second = λ a c p q r. ground (arith, m.below_second a c, le c);
      same =
          let parts = segment-suc s first mid h in
          rw (segment-last buffer at (s first), append_assoc) (rw parts at m.same);
    }

    take_second :
        second < end
        → ((c : ℕ) → first ≤ c → c < mid → IsLe cmp (s second) (s c))
        → IsMerging cmp s all first mid (second + 1) end (update buffer at (s second)) (at + 1)
    unfolding update
    take_second h le = record {
      left = m.left;
      right = λ a b p q r. m.right a b (omega arith) q r;
      first_in = m.first_in;
      second_in = omega arith;
      done = λ a b p q r. ground (arith, m.done a b, m.below_second a second);
      below_first = λ a c p q r. ground (arith, m.below_first a c, le c);
      below_second = λ a c p q r. ground (arith, m.below_second a c, m.right second c);
      same =
          let parts = segment-suc s second end h in
          let front = segment s first (mid - first) in
          let back = segment s (second + 1) (end - (second + 1)) in
          rw (segment-last buffer at (s second), append_assoc)
            (Perm.trans (Perm.append Perm.rfl (Perm.symm (perm_middle {a = s second} front back)))
              (rw parts at m.same));
    }

  drain_first :
      (n : ℕ) (s : ℕ → A) (all : List A) (first mid second end : ℕ) (buffer : ℕ → A) (at : ℕ)
      → n ≡ mid - first
      → (first < mid → end ≤ second)
      → IsMerging cmp s all first mid second end buffer at
      → IsMerging cmp s all mid mid second end (copy_elements n buffer at s first) (at + n)
  unfolding copy_elements
  drain_first zero s all first mid second end buffer at e h m =
      subst (λ f. IsMerging cmp s all f mid second end buffer (at + 0)) {x = first} {y = mid}
        (omega (arith, m.first_in))
        (subst (IsMerging cmp s all first mid second end buffer) {x = at} {y = at + 0} (omega arith)
          m)
  drain_first (suc n) s all first mid second end buffer at e h m =
      subst (IsMerging cmp s all mid mid second end (copy_elements (suc n) buffer at s first))
        {x = at + 1 + n} {y = at + suc n} (omega arith)
        (drain_first n s all (first + 1) mid second end (update buffer at (s first)) (at + 1)
          (omega arith) (λ l. h (omega arith))
          (take_first s all first mid second end buffer at m (omega arith)
            (λ c p q. absurd (omega (arith, h)))))

  drain_second :
      (n : ℕ) (s : ℕ → A) (all : List A) (mid second end : ℕ) (buffer : ℕ → A) (at : ℕ)
      → n ≡ end - second
      → IsMerging cmp s all mid mid second end buffer at
      → IsMerging cmp s all mid mid end end (copy_elements n buffer at s second) (at + n)
  unfolding copy_elements
  drain_second zero s all mid second end buffer at e m =
      subst (λ f. IsMerging cmp s all mid mid f end buffer (at + 0)) {x = second} {y = end}
        (omega (arith, m.second_in))
        (subst (IsMerging cmp s all mid mid second end buffer) {x = at} {y = at + 0} (omega arith)
          m)
  drain_second (suc n) s all mid second end buffer at e m =
      subst (IsMerging cmp s all mid mid end end (copy_elements (suc n) buffer at s second))
        {x = at + 1 + n} {y = at + suc n} (omega arith)
        (drain_second n s all mid (second + 1) end (update buffer at (s second)) (at + 1)
          (omega arith)
          (take_second s all mid mid second end buffer at m (omega arith)
            (λ c p q. absurd (omega arith))))

  pub merge_into-IsMerging :
      (n : ℕ) (s : ℕ → A) (all : List A) (first mid second end : ℕ) (buffer : ℕ → A) (at : ℕ)
      → n ≡ mid - first + (end - second)
      → IsMerging cmp s all first mid second end buffer at
      → IsMerging cmp s all mid mid end end
          (merge_into cmp n first mid second end s buffer at)
          (at + n)
  unfolding merge_into copy_elements
  merge_into-IsMerging zero s all first mid second end buffer at e m =
      drain_second zero s all mid second end buffer at (omega arith) (
        subst (λ f. IsMerging cmp s all f mid second end buffer at) {x = first} {y = mid}
          (omega (arith, m.first_in)) m)
  merge_into-IsMerging (suc n) s all first mid second end buffer at e m =
      elim (Bool-cases (ltb first mid && ltb second end)) [
        | inl b ↦ elim (Bool-cases (is_negative (cmp (s first) (s second)))) [
          | inl f ↦
              let le : IsLe cmp (s first) (s second) =
                order.asym (s second) (s first) (sym (order.flip (s first) (s second)) ∙ f) in
              let rest =
                merge_into-IsMerging n s all (first + 1) mid second end (update buffer at (s first))
                  (at + 1) (ground arith)
                  (take_first s all first mid second end buffer at m (ground arith)
                    (λ c p q. at_least s second end (s first) m.right le c p q)) in
              rw (b, f)
                (subst (IsMerging cmp s all mid mid end end _) {x = at + 1 + n} {y = at + suc n}
                  (omega arith) rest)
          | inr f ↦
              let le : IsLe cmp (s second) (s first) = sym (order.flip (s first) (s second)) ∙ f in
              let rest =
                merge_into-IsMerging n s all first mid (second + 1) end
                  (update buffer at (s second)) (at + 1) (ground arith)
                  (take_second s all first mid second end buffer at m (ground arith)
                    (λ c p q. at_least s first mid (s second) m.left le c p q)) in
              rw (b, f)
                (subst (IsMerging cmp s all mid mid end end _) {x = at + 1 + n} {y = at + suc n}
                  (omega arith) rest)
        ]
        | inr b ↦
            let drained =
              drain_first (mid - first) s all first mid second end buffer at refl
                (λ l. ground arith) m in
            let rest =
              drain_second (end - second) s all mid second end _ (at + (mid - first)) refl
                drained in
            rw b (
              subst (IsMerging cmp s all mid mid end end _)
                {x = at + (mid - first) + (end - second)} {y = at + suc n} (omega arith) rest)
      ]
