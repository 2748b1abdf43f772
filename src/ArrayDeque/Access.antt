-- ===== src/ArrayDeque/Access.antt =====
-- GblArrayDeque_at, which masks an index.
use mathlib.Core.Option
use Prim.Native.Nat.{bit_and}
use libgimbal.Common.{
  ℕ, zero, suc, ◌+◌, ◌-◌, ◌%◌, ◌^◌, ◌≤◌, ◌<◌, ◌≡◌, refl, ap, sym, ◌∙◌, inl, inr, List, [], ◌∷◌,
  arith, some, none, length, get_elem?,
}
use libgimbal.Common.Bits.{bit_and-mask}
use libgimbal.RingBuffer.{add_size}
use libgimbal.RingBuffer.Inv.{contents}
use libgimbal.RingBuffer.Items.{items-get_elem?}
use libgimbal.ArrayDeque.{ArrayDeque, at}
use libgimbal.ArrayDeque.Grow.{IsDeque, within_or_not}
use libgimbal.ArrayDeque.Ends.{length-contents}

mask_lem :
    (a c : ℕ)
    → 0 < c
    → c ≤ 2 ^ 63
    → ((k : ℕ) × (c ≡ 2 ^ k))
    → bit_and a (add_size c (2 ^ 64 - 1)) ≡ a % c
mask_lem a c h l (k, e) =
    ap (bit_and a) {y = 2 ^ k - 1} (omega (arith, e)) ∙ bit_and-mask k a ∙ ap (λ d. a % d) (sym e)

module _ {A : Type 0} where
  get_elem?-over : (xs : List A) (i : ℕ) → length xs ≤ i → get_elem? xs i ≡ none
  get_elem?-over [] i h = refl
  get_elem?-over (x ∷ xs) zero h = absurd (omega arith)
  get_elem?-over (x ∷ xs) (suc i) h = get_elem?-over xs i (omega arith)

  at-inside :
      (r : ArrayDeque A) (index : ℕ)
      → IsDeque r
      → index < r.size
      → at r index ≡ some ((r.front_pos + index) % r.capacity)
  unfolding at
  at-inside r index i l =
      let power : (k : ℕ) × (r.capacity ≡ 2 ^ k) = elim i.rounded [
        | inl z ↦ absurd (omega (arith, i.fits))
        | inr p ↦ p
      ] in
      let masked =
        mask_lem (add_size r.front_pos index) r.capacity (omega (arith, i.fits)) i.small power in
      let sum : add_size r.front_pos index ≡ r.front_pos + index =
        omega (arith, i.fits, i.front_in, i.small) in
      ground (arith, masked ∙ ap (λ x. x % r.capacity) sum)

  at-outside : (r : ArrayDeque A) (index : ℕ) → r.size ≤ index → at r index ≡ none
  unfolding at
  at-outside r index g = ground arith

  -- On a deque that satisfies the invariant, whose capacity is so a power of 2, the slot that
  -- `GblArrayDeque_at` finds by a mask holds the element at the index; for an index that is out of
  -- range it returns NULL.
  pub at_masked :
      (r : ArrayDeque A) (index : ℕ)
      → IsDeque r
      → Option.map r.slots (at r index) ≡ get_elem? (contents r) index
  unfolding contents
  at_masked r index i = elim (within_or_not index r.size) [
    | inl l ↦
        ap (Option.map r.slots) (at-inside r index i l)
        ∙ sym (items-get_elem? r.slots r.capacity r.front_pos r.size index l)
    | inr g ↦
        ap (Option.map r.slots) (at-outside r index g)
        ∙ sym (get_elem?-over (contents r) index (omega (arith, length-contents r)))
  ]
