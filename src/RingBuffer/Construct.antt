-- ===== src/RingBuffer/Construct.antt =====
-- Making a ring from initial elements.
use libgimbal.Common.{
  ℕ, ◌*◌, ◌/◌, ◌%◌, ◌^◌, ◌≤◌, ◌<◌, ◌≡◌, refl, ap, ap₂, List, [], ◌∷◌, ◌++◌, arith, length,
  append_assoc, sym, ◌∙◌, append-nil,
}
use libgimbal.Common.Bytes.{slots_of-bytes}
use libgimbal.Memory.{ok}
use libgimbal.RingBuffer.{RingBuffer, success, push_all, construct}
use libgimbal.RingBuffer.Inv.{IsValid, contents, length-items}
use libgimbal.RingBuffer.Items.{latest, latest-small, latest-append}
use libgimbal.RingBuffer.Refine.{push_back-latest}

module _ {A : Type 0} where
  length-contents : (r : RingBuffer A) → IsValid r → length (contents r) ≤ r.capacity
  unfolding contents
  length-contents r i = omega (arith, length-items r.slots r.capacity r.front_pos r.size, i.fits)

  push_all-latest :
      (vs : List A) (r : RingBuffer A)
      → IsValid r
      → (r' : RingBuffer A) × (push_all r vs ≡ ok (success, r'))
        × IsValid r'
        × (r'.capacity ≡ r.capacity)
        × (contents r' ≡ latest r.capacity (contents r ++ vs))
  unfolding push_all
  push_all-latest [] r i = (
    r,
    refl,
    i,
    refl,
    sym (
        ap (latest r.capacity) (append-nil (contents r))
        ∙ latest-small r.capacity (contents r) (length-contents r i)),
  )
  push_all-latest (v ∷ vs) r i =
      let (r1, run1, valid1, cap1, list1) = push_back-latest r v i in
      let (r2, run2, valid2, cap2, list2) = push_all-latest vs r1 valid1 in
      (
        r2,
        ground arith,
        valid2,
        cap2 ∙ cap1,
        list2
            ∙ ap₂ (λ cap (xs : List A). latest cap (xs ++ vs)) cap1 list1
            ∙ latest-append r.capacity (contents r ++ v ∷ []) vs
            ∙ ap (latest r.capacity) (append_assoc (contents r) (v ∷ []) vs),
      )

  -- `GblRingBuffer_construct` with elements of at least one byte and from 1 to 2 ^ 63 slots, which have
  -- fewer than 2 ^ 64 bytes, succeeds
  -- and makes a ring of so many slots that satisfies the invariant and holds the last of the initial
  -- elements, as many as there are slots.
  pub construct-latest :
      (old : RingBuffer A) (fresh : ℕ → A) (element_size capacity : ℕ) (initial : List A)
      → 0 < element_size
      → 0 < capacity
      → capacity ≤ 2 ^ 63
      → capacity * element_size < 2 ^ 64
      → (r : RingBuffer A) × (construct old fresh element_size capacity initial ≡ ok (success, r))
        × IsValid r
        × (r.capacity ≡ capacity)
        × (contents r ≡ latest capacity initial)
  unfolding construct contents
  construct-latest old fresh element_size capacity initial h k l w =
      let made : RingBuffer A = record {
        slots = fresh;
        allocated = (capacity * element_size) % 2 ^ 64 / element_size;
        size = 0;
        capacity = capacity;
        front_pos = 0;
        element_size = element_size;
      } in
      let valid : IsValid made = record {
        some_slot = k;
        small = l;
        fits = omega arith;
        front_in = k;
        storage = slots_of-bytes capacity element_size h w;
      } in
      let (r, run, i, cap, list) = push_all-latest initial made valid in
      (r, ground (arith, run), i, cap, list)
