-- ===== src/ArrayList/Reserve.antt =====
-- GblArrayList_reserve and GblArrayList_resize.
use native.Mathlib.Nat.{le-div_iff_mul-le, mod-eq_of_lt, mul-div_cancel}
use libgimbal.Common.{
  ℕ, Bool, ◌+◌, ◌*◌, ◌/◌, ◌%◌, ◌^◌, ◌≤◌, ◌<◌, ◌≡◌, refl, ap, sym, ◌∙◌, ◌⊎◌, inl, inr, true, false,
  ltb, leb, ◌==◌, if◌then◌else◌, arith, Bool-cases, not, ◌&&◌,
}
use libgimbal.Common.Bytes.{slots_of-bytes, bytes_below, count_below}
use libgimbal.Memory.{Run, ok}
use libgimbal.Numeric.{uint64, pow2_next}
use libgimbal.Numeric.Pow2.{pow2_next-IsNextPow2}
use libgimbal.ArrayList.{
  ArrayList, add_size, copied, terminate, alloc_slots, alloc_, reserve, resize,
}
use libgimbal.ArrayList.Room.{
  ending, IsArray, segment, elements, segment-ext, segment-copied, ended, terminate_lem,
  segment-ended, segment-shorter, IsRoomy, ended-IsRoomy,
}

pub within_or_not : (a b : ℕ) → (a < b) ⊎ (b ≤ a)
within_or_not a b = ground arith

alloc_slots_lem : (n es : ℕ) → 0 < es → n * es < 2 ^ 64 → n ≤ alloc_slots n es
unfolding alloc_slots
alloc_slots_lem n es h b =
    let bytes : (n * es) % 2 ^ 64 ≡ n * es = mod-eq_of_lt b in
    elim (within_or_not (n * es) 16) [
      | inl l ↦
          let few : ltb (n * es) 16 ≡ true = ground arith in
          rw (bytes, few) ((le-div_iff_mul-le {k = es} {x = n} {y = 16} h).1 (omega arith))
      | inr g ↦
          let many : ltb (n * es) 16 ≡ false = ground arith in
          rw (bytes, many) (omega (arith, mul-div_cancel n h))
    ]

-- The capacity that is asked for, or a power of 2.
abbrev raised : ℕ → Run ℕ
raised n = if ltb 2 n && not (n % 2 == 0) then pow2_next uint64 n else ok n

raised_lem : (n : ℕ) → 0 < n → n ≤ 2 ^ 63 → (c : ℕ) × (raised n ≡ ok c) × (n ≤ c) × (c + 1 ≤ 2 * n)
raised_lem n p l = elim (Bool-cases (ltb 2 n && not (n % 2 == 0))) [
  | inr e ↦ (n, rw e refl, omega arith, omega arith)
  | inl e ↦
      let several : 2 ≤ n = ground arith in
      let (c, run, next) = pow2_next-IsNextPow2 uint64 n several l in
      (c, rw (e, run) refl, next.2, omega (arith, next.3))
]

module _ {A : Type 0} (zeros : A) (fresh : ℕ → A) where
  abbrev on_stack : ArrayList A → ArrayList A
  on_stack r = record r {
    slots = if r.stack then r.slots else fresh;
    allocated = r.stack_capacity;
    stack = true;
    capacity = r.stack_capacity;
  }

  abbrev allocated_anew : ArrayList A → ℕ → ArrayList A
  allocated_anew r n = record r {
    slots = fresh;
    allocated = alloc_slots n r.element_size;
    stack = false;
    capacity = alloc_slots n r.element_size;
  }

  -- The elements go from the buffer behind the structure to the new one.
  abbrev carried : (r s : ArrayList A) → ArrayList A
  carried r s = record s { slots = copied s.slots 0 r.slots 0 r.size; size = r.size }

  carried-IsRoomy :
      (r s : ArrayList A) (n : ℕ)
      → IsArray r
      → IsArray s
      → r.size ≤ s.capacity
      → n ≤ s.capacity
      → s.zero_terminated ≡ r.zero_terminated
      → IsRoomy r (carried r s) n
  unfolding elements
  carried-IsRoomy r s n i j l m e = record {
    array = record { some_bytes = j.some_bytes; fits = l; roomy = j.roomy; not_both = j.not_both };
    room = m;
    size = refl;
    terminated = e;
    list = segment-copied s.slots 0 r.slots 0 r.size;
  }

  pub alloc_-IsArray :
      (r : ArrayList A) (n : ℕ)
      → IsArray r
      → r.zero_terminated ≡ false
      → n * r.element_size < 2 ^ 64
      → (s : ArrayList A) × (alloc_ zeros fresh r n ≡ ok s)
        × IsArray s
        × (n ≤ s.capacity)
        × (s.zero_terminated ≡ false)
  unfolding alloc_ terminate
  alloc_-IsArray r n i e w =
      elim (Bool-cases (not (r.stack_capacity == 0) && leb n r.stack_capacity)) [
        | inl b ↦ (
          record (on_stack r) { size = 0 },
          ground arith,
          record {
            some_bytes = i.some_bytes;
            fits = omega arith;
            roomy = ground arith;
            not_both = λ t. e;
          },
          ground arith,
          e,
        )
        | inr b ↦ (
          record (allocated_anew r n) { size = 0 },
          ground arith,
          record {
            some_bytes = i.some_bytes;
            fits = omega arith;
            roomy = ground arith;
            not_both = λ t. e;
          },
          alloc_slots_lem n r.element_size i.some_bytes w,
          e,
        )
      ]

  reserve-stack :
      (r : ArrayList A) (n : ℕ)
      → IsArray r
      → r.stack ≡ true
      → r.capacity < n
      → n * r.element_size < 2 ^ 63
      → (r' : ArrayList A) × (reserve zeros fresh r n ≡ ok r') × IsRoomy r r' n
  unfolding reserve
  reserve-stack r n i t h l =
      let plain = i.not_both t in
      let (c, raise, le, lt) =
        raised_lem n (omega arith) (omega (arith, count_below n r.element_size i.some_bytes l)) in
      let (s, run, array, room, same) =
        alloc_-IsArray r c i plain (bytes_below c n r.element_size (omega arith) l) in
      let roomy =
        carried-IsRoomy r s n i array (omega (arith, i.fits)) (omega arith) (same ∙ sym plain) in
      (
        ended zeros (carried r s) r.size,
        ground (
          arith,
          raise,
          run,
          terminate_lem zeros (carried r s) r.size (omega (arith, array.roomy, i.fits)),
        ),
        ended-IsRoomy zeros r (carried r s) n roomy,
      )

  abbrev lengthened : ArrayList A → ℕ → ArrayList A
  lengthened r n = record r {
    slots = (λ i. if ltb i r.allocated then r.slots i else fresh i);
    allocated = n + ending r.zero_terminated;
    capacity = n;
  }

  ending_one : (b : Bool) → ending b ≤ 1
  ending_one true = omega arith
  ending_one false = omega arith

  lengthened_slots :
      (c n e es : ℕ)
      → 0 < es
      → n < 2 ^ 63
      → e ≤ 1
      → c + 1 ≤ 2 * n
      → n * es < 2 ^ 63
      → add_size c e * es % 2 ^ 64 / es ≡ c + e
  lengthened_slots c n e es p few one le l =
      let sum : (c + e) % 2 ^ 64 ≡ c + e = omega arith in
      rw sum (slots_of-bytes (c + e) es p (bytes_below (c + e) n es (omega arith) l))

  reserve-heap :
      (r : ArrayList A) (n : ℕ)
      → IsArray r
      → r.stack ≡ false
      → r.capacity < n
      → n * r.element_size < 2 ^ 63
      → (r' : ArrayList A) × (reserve zeros fresh r n ≡ ok r') × IsRoomy r r' n
  unfolding reserve elements
  reserve-heap r n i t h l =
      let few = count_below n r.element_size i.some_bytes l in
      let (c, raise, le, lt) = raised_lem n (omega arith) (omega (arith, few)) in
      let s = lengthened r c in
      let roomy : IsRoomy r s n = record {
        array = record {
          some_bytes = i.some_bytes;
          fits = omega (arith, i.fits);
          roomy = omega arith;
          not_both = i.not_both;
        };
        room = le;
        size = refl;
        terminated = refl;
        list = segment-ext s.slots r.slots 0 0 r.size (λ m k. ground (arith, i.fits, i.roomy));
      } in
      let slots : add_size c (ending r.zero_terminated) * r.element_size % 2 ^ 64 / r.element_size
          ≡ c + ending r.zero_terminated =
        lengthened_slots c n (ending r.zero_terminated) r.element_size i.some_bytes few
          (ending_one _) lt l in
      (
        ended zeros s r.size,
        ground (arith, raise, slots, terminate_lem zeros s r.size (omega (arith, i.fits))),
        ended-IsRoomy zeros r s n roomy,
      )

  -- `GblArrayList_reserve` on an array list that satisfies the invariant, of a number of elements that
  -- have fewer than 2 ^ 63 bytes if they are more than the capacity, succeeds and keeps the elements
  -- and the invariant; there is room for as many as were asked for.
  pub reserve-IsRoomy :
      (r : ArrayList A) (n : ℕ)
      → IsArray r
      → (r.capacity < n → n * r.element_size < 2 ^ 63)
      → (r' : ArrayList A) × (reserve zeros fresh r n ≡ ok r') × IsRoomy r r' n
  unfolding reserve
  reserve-IsRoomy r n i l = elim (within_or_not r.capacity n) [
    | inr enough ↦ (
      r,
      ground arith,
      record { array = i; room = enough; size = refl; terminated = refl; list = refl },
    )
    | inl more ↦ elim (Bool-cases r.stack) [
      | inl t ↦ reserve-stack r n i t more (l more)
      | inr f ↦ reserve-heap r n i f more (l more)
    ]
  ]

  -- Resizing, and what it keeps of the elements.
  pub record IsResized (r r' : ArrayList A) (n : ℕ) : Type 0 where
    pub array : IsArray r'
    pub size : r'.size ≡ n
    pub list : (m : ℕ) → m ≤ r.size → m ≤ n → segment r'.slots 0 m ≡ segment r.slots 0 m

  resize-roomy :
      (r s : ArrayList A) (n : ℕ)
      → IsRoomy r s n
      → (r' : ArrayList A) × (terminate zeros s n ≡ ok r') × IsResized r (record r' { size = n }) n
  unfolding elements
  resize-roomy r s n i = (
    ended zeros s n,
    terminate_lem zeros s n (omega (arith, i.room, i.array.roomy)),
    record {
      array = record {
        some_bytes = i.array.some_bytes;
        fits = i.room;
        roomy = i.array.roomy;
        not_both = i.array.not_both;
      };
      size = refl;
      list = λ m k l.
          segment-ended zeros s n m l
          ∙ segment-shorter s.slots r.slots 0 m r.size k
              (ap (segment s.slots 0) (sym i.size) ∙ i.list);
    },
  )

  pub resize-IsResized :
      (r : ArrayList A) (n : ℕ)
      → IsArray r
      → (r.capacity < n → n * r.element_size < 2 ^ 63)
      → (r' : ArrayList A) × (resize zeros fresh r n ≡ ok r') × IsResized r r' n
  unfolding resize
  resize-IsResized r n i l = elim (within_or_not r.size n) [
    | inl more ↦
        let (s, run, roomy) = reserve-IsRoomy r n i l in
        let (t, run_2, resized) = resize-roomy r s n roomy in
        (record t { size = n }, ground (arith, run, run_2), resized)
    | inr fewer ↦
        let same : IsRoomy r r n = record {
          array = i;
          room = omega (arith, i.fits);
          size = refl;
          terminated = refl;
          list = refl;
        } in
        let (t, run, resized) = resize-roomy r r n same in
        (record t { size = n }, ground (arith, run), resized)
  ]
