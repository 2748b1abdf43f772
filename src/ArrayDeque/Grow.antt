-- ===== src/ArrayDeque/Grow.antt =====
-- The invariant of a deque, and growing its array, which keeps the elements in their order.
use mathlib.Core.Path.{subst}
use native.Mathlib.Nat.{mod-eq_of_lt}
use libgimbal.Common.{
  ℕ, zero, suc, ◌+◌, ◌-◌, ◌*◌, ◌/◌, ◌%◌, ◌^◌, ◌≤◌, ◌<◌, ◌≡◌, ◌≢◌, refl, ap, ap₂, sym, ◌∙◌, ◌⊎◌, inl,
  inr, ◌∷◌, arith,
}
use libgimbal.Memory.{ok}
use libgimbal.RingBuffer.Inv.{items, contents}
use libgimbal.RingBuffer.Refine.{front_lem}
use libgimbal.ArrayDeque.{ArrayDeque, end_size, realloc, memmove, reserved}

-- An array that is not allocated has 0 slots.
pub record IsDeque {A : Type 0} (r : ArrayDeque A) : Type 0 where
  pub small : r.capacity ≤ 2 ^ 63
  pub fits : r.size ≤ r.capacity
  pub front_in : r.front_pos ≤ r.capacity - 1
  pub storage : r.allocated ≡ r.capacity
  pub rounded : (r.capacity ≡ 0) ⊎ ((k : ℕ) × (r.capacity ≡ 2 ^ k))

mod-over : (a b : ℕ) → b ≤ a → a < b + b → a % b ≡ a - b
mod-over a b h l = grind arith

pub within_or_not : (a b : ℕ) → (a < b) ⊎ (b ≤ a)
within_or_not a b = ground arith

module _ {A : Type 0} where
  items-ext :
      (s t : ℕ → A) (c d f g n : ℕ)
      → ((i : ℕ) → i < n → s ((f + i) % c) ≡ t ((g + i) % d))
      → items s c f n ≡ items t d g n
  unfolding items
  items-ext s t c d f g zero h = refl
  items-ext s t c d f g (suc n) h =
      ap₂ (◌∷◌)
        (ap (λ i. s (i % c)) (omega arith) ∙ h 0 (omega arith) ∙ ap (λ i. t (i % d)) (omega arith))
        (items-ext s t c d (f + 1) (g + 1) n (λ i l.
          ap (λ j. s (j % c)) (omega arith)
          ∙ h (suc i) (omega arith)
          ∙ ap (λ j. t (j % d)) (omega arith)))

  module _ (s fresh : ℕ → A) (c f d n : ℕ) (some_front : f ≢ 0) (front_in : f < c) (more : c ≤ d)
      (fits : n ≤ c) where
    grown_slots : ℕ → A
    unfolding realloc memmove
    grown_slots = memmove (realloc s c fresh) (d - (c - f)) f (c - f)

    at_end : (i : ℕ) → i < c - f → grown_slots ((d - (c - f) + i) % d) ≡ s ((f + i) % c)
    unfolding grown_slots memmove realloc
    at_end i h = rw (mod-eq_of_lt {n = d - (c - f) + i} {m = d} (omega arith)) (
        rw (mod-eq_of_lt {n = f + i} {m = c} (omega arith)) (
          ground
            (arith, ap s {x = f + (d - (c - f) + i - (d - (c - f)))} {y = f + i} (omega arith))))

    at_begin : (i : ℕ) → c - f ≤ i → i < n → grown_slots ((d - (c - f) + i) % d) ≡ s ((f + i) % c)
    unfolding grown_slots memmove realloc
    at_begin i h l = rw (mod-over (d - (c - f) + i) d (omega arith) (omega arith)) (
        rw (mod-over (f + i) c (omega arith) (omega arith))
          (ground (arith, ap s {x = d - (c - f) + i - d} {y = f + i - c} (omega arith))))

    items-grown : items grown_slots d (d - (c - f)) n ≡ items s c f n
    items-grown =
        items-ext grown_slots s d c (d - (c - f)) f n
          (λ i l. elim (within_or_not i (c - f)) [ inl h ↦ at_end i h | inr h ↦ at_begin i h l ])

  items-realloc :
      (s fresh : ℕ → A) (c d n : ℕ)
      → n ≤ c
      → c ≤ d
      → items (realloc s c fresh) d 0 n ≡ items s c 0 n
  unfolding realloc
  items-realloc s fresh c d n h k = items-ext (realloc s c fresh) s d c 0 0 n (λ i l.
      rw (mod-eq_of_lt {n = 0 + i} {m = d} (omega arith))
        (rw (mod-eq_of_lt {n = 0 + i} {m = c} (omega arith)) (ground arith)))

  -- What growing the array to `d` slots makes of a deque.
  pub record IsGrown (r r' : ArrayDeque A) (d : ℕ) : Type 0 where
    pub capacity : r'.capacity ≡ d
    pub allocated : r'.allocated ≡ d
    pub size : r'.size ≡ r.size
    pub front : r'.front_pos ≤ d - 1
    pub list : contents r' ≡ contents r

  reserved-none :
      (r : ArrayDeque A) (fresh : ℕ → A) (d : ℕ)
      → IsDeque r
      → r.capacity ≡ 0
      → 0 < d
      → d * r.element_size % 2 ^ 64 / r.element_size ≡ d
      → (r' : ArrayDeque A) × (reserved r fresh d ≡ ok r') × IsGrown r r' d
  unfolding reserved contents items
  reserved-none r fresh d i e h w = (
    record r { slots = fresh; allocated = d; capacity = d },
    ground (arith, i.storage, w),
    record {
      capacity = refl;
      allocated = refl;
      size = refl;
      front = omega (arith, i.front_in);
      list =
          subst (λ n. items fresh d r.front_pos n ≡ items r.slots r.capacity r.front_pos n) {x = 0}
            (omega (arith, i.fits)) refl;
    },
  )

  reserved-straight :
      (r : ArrayDeque A) (fresh : ℕ → A) (d : ℕ)
      → IsDeque r
      → 0 < r.capacity
      → r.front_pos ≡ 0
      → r.capacity < d
      → d * r.element_size % 2 ^ 64 / r.element_size ≡ d
      → (r' : ArrayDeque A) × (reserved r fresh d ≡ ok r') × IsGrown r r' d
  unfolding reserved end_size contents
  reserved-straight r fresh d i e z h w = (
    record r { slots = realloc r.slots r.allocated fresh; allocated = d; capacity = d },
    ground (arith, i.storage, w),
    record {
      capacity = refl;
      allocated = refl;
      size = refl;
      front = omega arith;
      list =
          subst
            (λ f.
              items (realloc r.slots r.allocated fresh) d f r.size
              ≡ items r.slots r.capacity f r.size)
            (sym z)
            (ap (λ c. items (realloc r.slots c fresh) d 0 r.size) i.storage
              ∙ items-realloc r.slots fresh r.capacity d r.size i.fits (omega arith));
    },
  )

  pub end_size_lem :
      (r : ArrayDeque A) → IsDeque r → r.front_pos ≢ 0 → end_size r ≡ r.capacity - r.front_pos
  unfolding end_size
  end_size_lem r i f = ground (arith, i.front_in, i.small)

  reserved-round :
      (r : ArrayDeque A) (fresh : ℕ → A) (d : ℕ)
      → IsDeque r
      → r.front_pos ≢ 0
      → 0 < r.size
      → r.capacity < d
      → d ≤ 2 ^ 63
      → d * r.element_size % 2 ^ 64 / r.element_size ≡ d
      → (r' : ArrayDeque A) × (reserved r fresh d ≡ ok r') × IsGrown r r' d
  unfolding reserved contents grown_slots
  reserved-round r fresh d i f e h l w = (
    record r {
      slots =
          grown_slots r.slots fresh r.capacity r.front_pos d r.size f (omega (arith, i.front_in))
            (omega arith) i.fits;
      allocated = d;
      capacity = d;
      front_pos = d - (r.capacity - r.front_pos);
    },
    ground (
      arith,
      end_size_lem r i f,
      i.front_in,
      i.small,
      front_lem (record r { slots = realloc r.slots r.allocated fresh; allocated = d }) i.small
          (omega (arith, i.front_in)) e,
      i.storage,
      w,
    ),
    record {
      capacity = refl;
      allocated = refl;
      size = refl;
      front = omega (arith, i.front_in);
      list =
          items-grown r.slots fresh r.capacity r.front_pos d r.size f (omega (arith, i.front_in))
            (omega arith) i.fits;
    },
  )

  -- A deque without elements begins at the first slot.
  pub reserved-IsGrown :
      (r : ArrayDeque A) (fresh : ℕ → A) (d : ℕ)
      → IsDeque r
      → (r.size ≡ 0 → r.front_pos ≡ 0)
      → r.capacity < d
      → d ≤ 2 ^ 63
      → d * r.element_size % 2 ^ 64 / r.element_size ≡ d
      → (r' : ArrayDeque A) × (reserved r fresh d ≡ ok r') × IsGrown r r' d
  reserved-IsGrown r fresh d i f h l w = elim (within_or_not 0 r.capacity) [
    | inr none ↦ reserved-none r fresh d i (omega arith) (omega arith) w
    | inl several ↦ elim (within_or_not 0 r.front_pos) [
      | inr first ↦ reserved-straight r fresh d i several (omega arith) h w
      | inl later ↦ elim (within_or_not 0 r.size) [
        | inr empty ↦ reserved-straight r fresh d i several (f (omega arith)) h w
        | inl elements ↦ reserved-round r fresh d i (omega arith) elements h l w
      ]
    ]
  ]
