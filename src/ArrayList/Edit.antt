-- ===== src/ArrayList/Edit.antt =====
-- GblArrayList_insert and GblArrayList_erase against the list of the elements.
use libgimbal.Common.{
  ℕ, zero, suc, ◌+◌, ◌*◌, ◌-◌, ◌^◌, ◌≤◌, ◌<◌, ◌≡◌, refl, ap, ap₂, sym, ◌∙◌, List, [], ◌∷◌, ◌++◌,
  false, ◌==◌, if◌then◌else◌, arith, length, length-append, some,
}
use libgimbal.Memory.{ok}
use libgimbal.ArrayList.{ArrayList, copied, or_zeros, fill, move_slots, resize, insert, add_size}
use libgimbal.ArrayList.Room.{
  IsArray, segment, elements, segment-ext, segment-append, segment-start, segment-copied,
  segment-before, segment-behind, length-segment,
}
use libgimbal.ArrayList.Reserve.{resize-IsResized}

module _ {A : Type 0} where
  append_inj :
      (xs ys zs ws : List A) → length xs ≡ length ys → xs ++ zs ≡ ys ++ ws → (xs ≡ ys) × (zs ≡ ws)
  append_inj [] [] zs ws h e = (refl, e)
  append_inj [] (y ∷ ys) zs ws h e = absurd (omega arith)
  append_inj (x ∷ xs) [] zs ws h e = absurd (omega arith)
  append_inj (x ∷ xs) (y ∷ ys) zs ws h e =
      let (same, rest) = append_inj xs ys zs ws (omega arith) cc in (cc, rest)

  -- The slots of the first and of the last elements.
  pub segment-split :
      (s : ℕ → A) (n : ℕ) (xs ys : List A)
      → segment s 0 n ≡ xs ++ ys
      → (segment s 0 (length xs) ≡ xs)
        × (segment s (length xs) (n - length xs) ≡ ys)
        × (length xs + length ys ≡ n)
  segment-split s n xs ys e =
      let total : length xs + length ys ≡ n =
        omega (arith, ap length e, length-append xs ys, length-segment s 0 n) in
      let (front, behind) =
        append_inj (segment s 0 (length xs)) xs (segment s (length xs) (n - length xs)) ys
          (length-segment s 0 (length xs))
          (sym (segment-start s (length xs) (n - length xs))
            ∙ ap (segment s 0) {x = length xs + (n - length xs)} {y = n} (omega arith)
            ∙ e) in
      (front, behind, total)

  segment-later :
      (s t : ℕ → A) (m n : ℕ)
      → segment s 0 (m + n) ≡ segment t 0 (m + n)
      → segment s m n ≡ segment t m n
  segment-later s t m n e =
      (append_inj (segment s 0 m) (segment t 0 m) (segment s m n) (segment t m n)
        (length-segment s 0 m ∙ sym (length-segment t 0 m))
        (sym (segment-start s m n) ∙ e ∙ segment-start t m n)).1

  -- `m` has `count` slots to spare at `index`, which `source` fills.
  filled-segment :
      (s m source : ℕ → A) (index count rest : ℕ)
      → segment m 0 index ≡ segment s 0 index
      → segment m (index + count) rest ≡ segment s index rest
      → segment (copied m index source 0 count) 0 (index + (count + rest))
        ≡ segment s 0 index ++ (segment source 0 count ++ segment s index rest)
  filled-segment s m source index count rest front behind =
      let filled = copied m index source 0 count in
      segment-start filled index (count + rest)
      ∙ ap₂ (◌++◌) (segment-before m index source 0 count 0 index (omega arith) ∙ front) (
          segment-append filled index count rest
          ∙ ap₂ (◌++◌) (segment-copied m index source 0 count)
              (segment-behind m index source 0 count (index + count) rest (omega arith) ∙ behind))

  -- Moving `rest` elements by `count`, if there are any.
  abbrev moved : (r : ArrayList A) (index count rest : ℕ) → ArrayList A
  moved r index count rest = record r {
    slots = if rest == 0 then r.slots else copied r.slots (index + count) r.slots index rest;
  }

  moved_lem :
      (r : ArrayList A) (index count rest : ℕ)
      → index + (count + rest) ≤ r.allocated
      → (if rest == 0 then ok r else move_slots r (index + count) index rest)
        ≡ ok (moved r index count rest)
  unfolding move_slots
  moved_lem r index count zero h = refl
  moved_lem r index count (suc rest) h = ground arith

  moved-front :
      (r : ArrayList A) (index count rest : ℕ)
      → segment (moved r index count rest).slots 0 index ≡ segment r.slots 0 index
  moved-front r index count zero = refl
  moved-front r index count (suc rest) =
      ap
        (λ b.
          segment (if b then r.slots else copied r.slots (index + count) r.slots index (suc rest)) 0
            index)
        {x = suc rest == 0} {y = false} (ground arith)
      ∙ segment-before r.slots (index + count) r.slots index (suc rest) 0 index (omega arith)

  moved-behind :
      (r : ArrayList A) (index count rest : ℕ)
      → segment (moved r index count rest).slots (index + count) rest ≡ segment r.slots index rest
  unfolding segment
  moved-behind r index count zero = refl
  moved-behind r index count (suc rest) =
      ap
        (λ b.
          segment (if b then r.slots else copied r.slots (index + count) r.slots index (suc rest))
            (index + count) (suc rest))
        {x = suc rest == 0} {y = false} (ground arith)
      ∙ segment-copied r.slots (index + count) r.slots index (suc rest)

module _ {A : Type 0} (zeros : A) (fresh : ℕ → A) where
  fill_lem :
      (r : ArrayList A) (to n : ℕ) (source : ℕ → A)
      → to + n ≤ r.allocated
      → fill zeros r to (some source) n
        ≡ ok (record r { slots = copied r.slots to (or_zeros zeros (some source)) 0 n })
  unfolding fill
  fill_lem r to n source h = ground arith

  segment-or_zeros :
      (source : ℕ → A) (n : ℕ) → segment (or_zeros zeros (some source)) 0 n ≡ segment source 0 n
  unfolding or_zeros
  segment-or_zeros source n = segment-ext (or_zeros zeros (some source)) source 0 0 n (λ m l. refl)

  -- `GblArrayList_insert` of some elements at an index that is not past the end, on an array list that
  -- satisfies the invariant and will have at most 2 ^ 63 elements, of fewer than 2 ^ 63 bytes if they
  -- are more than the capacity, succeeds, preserves the invariant, and puts them between those before
  -- the index and those from the index on.
  pub insert-between :
      (r : ArrayList A) (source : ℕ → A) (count : ℕ) (xs ys : List A)
      → IsArray r
      → elements r ≡ xs ++ ys
      → 0 < count
      → r.size + count ≤ 2 ^ 63
      → (r.capacity < r.size + count → (r.size + count) * r.element_size < 2 ^ 63)
      → (r' : ArrayList A) × (insert zeros fresh r (length xs) count (some source)
          ≡ ok (some (length xs), r'))
        × IsArray r'
        × (elements r' ≡ xs ++ (segment source 0 count ++ ys))
  unfolding insert elements
  insert-between r source count xs ys i e h l w =
      let (front, behind, total) = segment-split r.slots r.size xs ys e in
      let (s, run, resized) = resize-IsResized zeros fresh r (r.size + count) i w in
      let n = length xs in
      let rest = r.size - n in
      let m = moved s n count rest in
      let roomy = resized.array.roomy in
      let filled = copied m.slots n (or_zeros zeros (some source)) 0 count in
      (
        record s { slots = filled },
        ground (
          arith,
          ap (resize zeros fresh r) {x = add_size r.size count} {y = r.size + count} (omega arith)
              ∙ run,
          moved_lem s n count rest (omega (arith, resized.size, resized.array.fits)),
          fill_lem m n count source (omega (arith, resized.size, resized.array.fits)),
        ),
        record {
          some_bytes = resized.array.some_bytes;
          fits = resized.array.fits;
          roomy = resized.array.roomy;
          not_both = resized.array.not_both;
        },
        ap (segment filled 0) {x = s.size} {y = n + (count + rest)} (omega (arith, resized.size))
            ∙ filled-segment r.slots m.slots (or_zeros zeros (some source)) n count rest
                (moved-front s n count rest ∙ resized.list n (omega arith) (omega arith))
                (moved-behind s n count rest
                  ∙ segment-later s.slots r.slots n rest
                      (resized.list (n + rest) (omega arith) (omega arith)))
            ∙ ap₂ (◌++◌) front (ap₂ (◌++◌) (segment-or_zeros source count) behind),
      )
