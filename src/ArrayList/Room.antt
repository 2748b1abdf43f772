-- ===== src/ArrayList/Room.antt =====
-- The invariant of an array list, its elements, and making room, which keeps them.
use libgimbal.Common.{
  ℕ, zero, suc, ◌+◌, ◌-◌, ◌≤◌, ◌<◌, ◌≡◌, refl, ap, ap₂, ◌∙◌, inl, inr, List, [], ◌∷◌, ◌++◌, Bool,
  true, false, if◌then◌else◌, arith, Bool-cases, length,
}
use libgimbal.Memory.{ok, update}
use libgimbal.ArrayList.{ArrayList, copied, terminate}

abbrev pub ending : Bool → ℕ
ending zero_terminated = if zero_terminated then 1 else 0

-- There is room for a terminator behind a full array, and a buffer behind the structure has none.
pub record IsArray {A : Type 0} (r : ArrayList A) : Type 0 where
  pub some_bytes : 0 < r.element_size
  pub fits : r.size ≤ r.capacity
  pub roomy : r.capacity + ending r.zero_terminated ≤ r.allocated
  pub not_both : r.stack ≡ true → r.zero_terminated ≡ false

module _ {A : Type 0} where
  -- The `n` elements from slot `i` on.
  unfoldable pub segment : (ℕ → A) → (i n : ℕ) → List A
  segment s i zero = []
  segment s i (suc n) = s i ∷ segment s (i + 1) n

  unfoldable pub elements : ArrayList A → List A
  elements r = segment r.slots 0 r.size

  pub segment-ext :
      (s t : ℕ → A) (i j n : ℕ)
      → ((m : ℕ) → m < n → s (i + m) ≡ t (j + m))
      → segment s i n ≡ segment t j n
  unfolding segment
  segment-ext s t i j zero h = refl
  segment-ext s t i j (suc n) h =
      ap₂ (◌∷◌) (ap s (omega arith) ∙ h 0 (omega arith) ∙ ap t (omega arith)) (
        segment-ext s t (i + 1) (j + 1) n
          (λ m l. ap s (omega arith) ∙ h (suc m) (omega arith) ∙ ap t (omega arith)))

  pub segment-append :
      (s : ℕ → A) (i m n : ℕ) → segment s i (m + n) ≡ segment s i m ++ segment s (i + m) n
  unfolding segment
  segment-append s i zero n =
      ap (segment s i) {x = 0 + n} {y = n} (omega arith)
      ∙ ap (λ j. segment s j n) {x = i} {y = i + 0} (omega arith)
  segment-append s i (suc m) n =
      ap (segment s i) {x = suc m + n} {y = suc (m + n)} (omega arith)
      ∙ ap (λ (xs : List A). s i ∷ xs)
          (segment-append s (i + 1) m n
            ∙ ap (λ j. segment s (i + 1) m ++ segment s j n) {x = i + 1 + m} {y = i + suc m}
                (omega arith))

  pub segment-start : (s : ℕ → A) (m n : ℕ) → segment s 0 (m + n) ≡ segment s 0 m ++ segment s m n
  segment-start s m n =
      segment-append s 0 m n
      ∙ ap (λ j. segment s 0 m ++ segment s j n) {x = 0 + m} {y = m} (omega arith)

  pub segment-shorter :
      (s t : ℕ → A) (i m n : ℕ)
      → m ≤ n
      → segment s i n ≡ segment t i n
      → segment s i m ≡ segment t i m
  unfolding segment
  segment-shorter s t i zero n h e = refl
  segment-shorter s t i (suc m) zero h e = absurd (omega arith)
  segment-shorter s t i (suc m) (suc n) h e =
      let first : s i ≡ t i = cc in
      let others : segment s (i + 1) n ≡ segment t (i + 1) n = cc in
      ap₂ (◌∷◌) first (segment-shorter s t (i + 1) m n (omega arith) others)

  pub length-segment : (s : ℕ → A) (i n : ℕ) → length (segment s i n) ≡ n
  unfolding segment
  length-segment s i zero = refl
  length-segment s i (suc n) = ap suc (length-segment s (i + 1) n)

  -- An element behind `n` is none of them.
  pub segment-update :
      (s : ℕ → A) (v : A) (at i n : ℕ) → i + n ≤ at → segment (update s at v) i n ≡ segment s i n
  unfolding update
  segment-update s v at i n h = segment-ext (update s at v) s i i n (λ m l. ground arith)

  -- An element written behind the others.
  pub segment-last :
      (s : ℕ → A) (n : ℕ) (v : A) → segment (update s n v) 0 (n + 1) ≡ segment s 0 n ++ v ∷ []
  unfolding segment update
  segment-last s n v =
      segment-start (update s n v) n 1
      ∙ ap₂ (◌++◌) (segment-update s v n 0 n (omega arith)) (ap (λ w. w ∷ []) (ground arith))

  pub segment-copied :
      (s : ℕ → A) (to : ℕ) (t : ℕ → A) (from n : ℕ)
      → segment (copied s to t from n) to n ≡ segment t from n
  segment-copied s to t from n =
      segment-ext (copied s to t from n) t to from n
        (λ m l. ground (arith, ap t {x = from + (to + m - to)} {y = from + m} (omega arith)))

  pub segment-before :
      (s : ℕ → A) (to : ℕ) (t : ℕ → A) (from n i m : ℕ)
      → i + m ≤ to
      → segment (copied s to t from n) i m ≡ segment s i m
  segment-before s to t from n i m h =
      segment-ext (copied s to t from n) s i i m (λ j l. ground arith)

  pub segment-behind :
      (s : ℕ → A) (to : ℕ) (t : ℕ → A) (from n i m : ℕ)
      → to + n ≤ i
      → segment (copied s to t from n) i m ≡ segment s i m
  segment-behind s to t from n i m h =
      segment-ext (copied s to t from n) s i i m (λ j l. ground arith)

  -- An array with a terminator at `at`, if it is to have one.
  abbrev pub ended : A → ArrayList A → ℕ → ArrayList A
  ended zeros r at = record r {
    slots = if r.zero_terminated then update r.slots at zeros else r.slots;
  }

  pub terminate_lem :
      (zeros : A) (r : ArrayList A) (at : ℕ)
      → at + ending r.zero_terminated ≤ r.allocated
      → terminate zeros r at ≡ ok (ended zeros r at)
  unfolding terminate
  terminate_lem zeros r at h = elim (Bool-cases r.zero_terminated) [
    | inl e ↦ ground arith
    | inr e ↦ ground arith
  ]

  pub segment-ended :
      (zeros : A) (r : ArrayList A) (at n : ℕ)
      → n ≤ at
      → segment (ended zeros r at).slots 0 n ≡ segment r.slots 0 n
  segment-ended zeros r at n h = elim (Bool-cases r.zero_terminated) [
    | inl e ↦
        ap (λ b. segment (if b then update r.slots at zeros else r.slots) 0 n) e
        ∙ segment-update r.slots zeros at 0 n (omega arith)
    | inr e ↦ ap (λ b. segment (if b then update r.slots at zeros else r.slots) 0 n) e
  ]

  -- What making room for `n` elements makes of an array list.
  pub record IsRoomy (r r' : ArrayList A) (n : ℕ) : Type 0 where
    pub array : IsArray r'
    pub room : n ≤ r'.capacity
    pub size : r'.size ≡ r.size
    pub terminated : r'.zero_terminated ≡ r.zero_terminated
    pub list : elements r' ≡ elements r

  pub ended-IsRoomy :
      (zeros : A) (r s : ArrayList A) (n : ℕ) → IsRoomy r s n → IsRoomy r (ended zeros s s.size) n
  unfolding elements
  ended-IsRoomy zeros r s n i = record {
    array = record {
      some_bytes = i.array.some_bytes;
      fits = i.array.fits;
      roomy = i.array.roomy;
      not_both = i.array.not_both;
    };
    room = i.room;
    size = i.size;
    terminated = i.terminated;
    list = segment-ended zeros s s.size s.size (omega arith) ∙ i.list;
  }
