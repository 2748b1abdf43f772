-- ===== src/ArrayList/Erase.antt =====
-- GblArrayList_erase against the list of the elements, and where a terminator does not fit.
use libgimbal.Common.{
  ℕ, zero, suc, ◌+◌, ◌-◌, ◌%◌, ◌^◌, ◌≤◌, ◌<◌, ◌≡◌, refl, ap, ap₂, sym, ◌∙◌, ◌⊎◌, List, ◌++◌, true,
  false, ltb, leb, ◌==◌, if◌then◌else◌, arith, length, length-append, append_assoc, ◌&&◌,
}
use libgimbal.Memory.{ok}
use libgimbal.ArrayList.{ArrayList, success, out_of_range, copied, move_slots, resize, erase}
use libgimbal.ArrayList.Room.{
  IsArray, segment, elements, segment-start, segment-copied, segment-before,
}
use libgimbal.ArrayList.Reserve.{resize-IsResized}
use libgimbal.ArrayList.Edit.{segment-split}

module _ {A : Type 0} where
  -- Moving `rest` elements from `from` back to `to`, if there are any.
  abbrev closed : (r : ArrayList A) (to from rest : ℕ) → ArrayList A
  closed r to from rest = record r {
    slots = if rest == 0 then r.slots else copied r.slots to r.slots from rest;
  }

  closed_lem :
      (r : ArrayList A) (to from rest : ℕ)
      → to ≤ from
      → from + rest ≤ r.allocated
      → (if rest == 0 then ok r else move_slots r to from rest) ≡ ok (closed r to from rest)
  unfolding move_slots
  closed_lem r to from zero h k = refl
  closed_lem r to from (suc rest) h k = ground arith

  closed-segment :
      (r : ArrayList A) (to from rest : ℕ)
      → segment (closed r to from rest).slots 0 (to + rest)
        ≡ segment r.slots 0 to ++ segment r.slots from rest
  unfolding segment
  closed-segment r to from zero = segment-start r.slots to 0
  closed-segment r to from (suc rest) =
      let slots = copied r.slots to r.slots from (suc rest) in
      ap (λ b. segment (if b then r.slots else slots) 0 (to + suc rest)) {x = suc rest == 0}
        {y = false} (ground arith)
      ∙ segment-start slots to (suc rest)
      ∙ ap₂ (◌++◌) (segment-before r.slots to r.slots from (suc rest) 0 to (omega arith))
          (segment-copied r.slots to r.slots from (suc rest))

module _ {A : Type 0} (zeros : A) (fresh : ℕ → A) where
  erase_lem :
      (r : ArrayList A) (n c : ℕ) (t : ArrayList A)
      → 0 < c
      → n + c ≤ r.size
      → r.size ≤ 2 ^ 63
      → r.size ≤ r.allocated
      → resize zeros fresh (closed r n (n + c) (r.size - (n + c))) (r.size - c) ≡ ok t
      → erase zeros fresh r n c ≡ ok (success, t)
  unfolding erase
  erase_lem r n c t h k l a run =
      let last : (n + c + (2 ^ 64 - 1)) % 2 ^ 64 ≡ n + c - 1 = omega arith in
      let behind : n + c - 1 + 1 ≡ n + c = omega arith in
      let remainder : r.size - 1 - (n + c - 1) ≡ r.size - (n + c) = omega arith in
      let accepted : (ltb n r.size && ltb (n + c - 1) r.size && leb n (n + c - 1)) ≡ true =
        ground arith in
      rw
        (
          last,
          accepted,
          behind,
          remainder,
          closed_lem r n (n + c) (r.size - (n + c)) (omega arith) (omega arith),
          run,
        )
        refl

  -- `GblArrayList_erase` of some elements of an array list that satisfies the invariant and has at most
  -- 2 ^ 63 succeeds, preserves the invariant and takes them out; the others keep their order.
  pub erase-middle :
      (r : ArrayList A) (xs zs ys : List A)
      → IsArray r
      → elements r ≡ xs ++ (zs ++ ys)
      → 0 < length zs
      → r.size ≤ 2 ^ 63
      → (r' : ArrayList A) × (erase zeros fresh r (length xs) (length zs) ≡ ok (success, r'))
        × IsArray r'
        × (elements r' ≡ xs ++ ys)
  unfolding elements
  erase-middle r xs zs ys i e h l =
      let (front, behind, total) = segment-split r.slots r.size xs (zs ++ ys) e in
      let (middle, last, rest_total) =
        segment-split r.slots r.size (xs ++ zs) ys (e ∙ sym (append_assoc xs zs ys)) in
      let n = length xs in
      let c = length zs in
      let rest = r.size - (n + c) in
      let sum : length (xs ++ zs) ≡ n + c = length-append xs zs in
      let s = closed r n (n + c) rest in
      let array : IsArray s = record {
        some_bytes = i.some_bytes;
        fits = i.fits;
        roomy = i.roomy;
        not_both = i.not_both;
      } in
      let (t, run, resized) =
        resize-IsResized zeros fresh s (r.size - c) array (λ m. absurd (omega (arith, i.fits))) in
      (
        t,
        erase_lem r n c t h (omega arith) l (omega (arith, i.fits, i.roomy)) run,
        resized.array,
        ap (segment t.slots 0) {x = t.size} {y = n + rest} (omega (arith, resized.size, rest_total))
            ∙ resized.list (n + rest) (omega (arith, rest_total)) (omega (arith, rest_total))
            ∙ closed-segment r n (n + c) rest
            ∙ ap₂ (◌++◌) front (
                ap (λ k. segment r.slots k (r.size - k)) {x = n + c} {y = length (xs ++ zs)}
                  (omega arith)
                ∙ last),
      )

  -- `GblArrayList_erase` of no elements, or of some that reach past the end, reports it and changes
  -- nothing. The index and the number are below 2 ^ 64, and there are at most 2 ^ 63 elements.
  pub erase-past :
      (r : ArrayList A) (begin count : ℕ)
      → begin < 2 ^ 64
      → count < 2 ^ 64
      → r.size ≤ 2 ^ 63
      → (count ≡ 0) ⊎ (r.size < begin + count)
      → erase zeros fresh r begin count ≡ ok (out_of_range, r)
  unfolding erase
  erase-past r begin count h k l o =
      let refused : (ltb begin r.size
            && ltb ((begin + count + (2 ^ 64 - 1)) % 2 ^ 64) r.size
            && leb begin ((begin + count + (2 ^ 64 - 1)) % 2 ^ 64))
          ≡ false =
        ground arith in
      rw refused refl
