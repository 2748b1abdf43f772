-- ===== src/RingBuffer/Refine.antt =====
-- The operations of a ring against the list of its elements, oldest first.
use mathlib.Core.Path.{subst}
use native.Mathlib.Nat.{mod-eq_of_lt}
use libgimbal.Common.{
  ℕ, suc, ◌+◌, ◌-◌, ◌%◌, ◌^◌, ◌≤◌, ◌<◌, ◌≡◌, refl, ap, List, [], ◌∷◌, ◌++◌, arith, some, none,
  false, length-append, sym, ◌∙◌, ◌⊎◌, inl, inr,
}
use libgimbal.Memory.{update, ok, ◌>>=◌}
use libgimbal.RingBuffer.{
  RingBuffer, success, out_of_range, add_size, empty, mapped_index, full, advance, at, front, back,
  emplace_back, store, push_back,
}
use libgimbal.RingBuffer.Inv.{IsValid, items, contents, length-items}
use libgimbal.RingBuffer.Items.{latest, latest-small, latest-over, items-round, items-write}

pub le-cases : (a b : ℕ) → a ≤ b → (a < b) ⊎ (a ≡ b)
le-cases a b h = ground arith

add_size_lem : (a b : ℕ) → a + b < 2 ^ 64 → add_size a b ≡ a + b
add_size_lem a b h = omega arith

module _ {A : Type 0} where
  abbrev grown : RingBuffer A → A → RingBuffer A
  grown r v = record r {
    size = r.size + 1;
    slots = update r.slots ((r.front_pos + r.size) % r.capacity) v;
  }

  abbrev next_front : RingBuffer A → ℕ
  next_front r = (r.front_pos + 1) % r.capacity

  abbrev turned : RingBuffer A → A → RingBuffer A
  turned r v = record r {
    front_pos = next_front r;
    slots = update r.slots ((next_front r + (r.size - 1)) % r.capacity) v;
  }

  advance-room :
      (r : RingBuffer A)
      → IsValid r
      → r.size < r.capacity
      → advance r ≡ ok (record r { size = r.size + 1 })
  unfolding advance full
  advance-room r i h = ground arith

  advance-full :
      (r : RingBuffer A)
      → IsValid r
      → r.size ≡ r.capacity
      → advance r ≡ ok (record r { front_pos = next_front r })
  unfolding advance full
  advance-full r i h = ground arith

  pub at_lem :
      (r : RingBuffer A) (index : ℕ)
      → IsValid r
      → index < r.size
      → at r index ≡ ok (some ((r.front_pos + index) % r.capacity))
  unfolding at mapped_index
  at_lem r index i h = ground arith

  pub at-over : (r : RingBuffer A) (index : ℕ) → r.size ≤ index → at r index ≡ ok none
  unfolding at
  at-over r index h = ground arith

  pub empty_lem : (r : RingBuffer A) → 0 < r.size → empty r ≡ false
  unfolding empty
  empty_lem r h = ground arith

  pub front-none : (r : RingBuffer A) → r.size ≡ 0 → front r ≡ ok none
  unfolding front
  front-none r z = at-over r 0 (omega arith)

  pub push_back_lem :
      (r : RingBuffer A) (v : A)
      → push_back r v ≡ (
          emplace_back r >>= (λ p.
            ok (elim p.0 [ some slot ↦ (success, store slot v p.1) | none ↦ (out_of_range, p.1) ])))
  unfolding push_back
  push_back_lem r v = refl

  pub front_lem :
      (r : RingBuffer A)
      → r.capacity ≤ 2 ^ 63
      → r.front_pos < r.capacity
      → 0 < r.size
      → front r ≡ ok (some r.front_pos)
  unfolding front at mapped_index
  front_lem r h k e = ground (
    arith,
    mod-eq_of_lt {n = r.front_pos} {m = r.capacity} k,
    ap (λ i. i % r.capacity) {x = add_size r.front_pos 0} {y = r.front_pos} (omega arith),
  )

  pub back_lem :
      (r : RingBuffer A)
      → IsValid r
      → 0 < r.size
      → back r ≡ ok (some ((r.front_pos + (r.size - 1)) % r.capacity))
  unfolding back
  back_lem r i h = ground (arith, at_lem r (r.size - 1) i (omega arith))

  push_back-room :
      (r : RingBuffer A) (v : A)
      → IsValid r
      → r.size < r.capacity
      → push_back r v ≡ ok (success, grown r v)
  unfolding push_back emplace_back store
  push_back-room r v i h =
      let made : RingBuffer A = record r { size = r.size + 1 } in
      let valid : IsValid made = record {
        some_slot = i.some_slot;
        small = i.small;
        fits = omega arith;
        front_in = i.front_in;
        storage = i.storage;
      } in
      ground (arith, advance-room r i h, back_lem made valid (omega arith))

  turned_IsValid : (r : RingBuffer A) → IsValid r → IsValid (record r { front_pos = next_front r })
  turned_IsValid r i = record {
    some_slot = i.some_slot;
    small = i.small;
    fits = i.fits;
    front_in = grind arith;
    storage = i.storage;
  }

  push_back-full :
      (r : RingBuffer A) (v : A)
      → IsValid r
      → r.size ≡ r.capacity
      → push_back r v ≡ ok (success, turned r v)
  unfolding push_back emplace_back store
  push_back-full r v i h =
      let made : RingBuffer A = record r { front_pos = next_front r } in
      ground (arith, advance-full r i h, back_lem made (turned_IsValid r i) (omega arith))

  grown-IsValid : (r : RingBuffer A) (v : A) → IsValid r → r.size < r.capacity → IsValid (grown r v)
  grown-IsValid r v i h = record {
    some_slot = i.some_slot;
    small = i.small;
    fits = omega arith;
    front_in = i.front_in;
    storage = i.storage;
  }

  turned-IsValid : (r : RingBuffer A) (v : A) → IsValid r → IsValid (turned r v)
  turned-IsValid r v i = record {
    some_slot = i.some_slot;
    small = i.small;
    fits = i.fits;
    front_in = (turned_IsValid r i).front_in;
    storage = i.storage;
  }

  grown-contents :
      (r : RingBuffer A) (v : A)
      → IsValid r
      → r.size < r.capacity
      → contents (grown r v) ≡ latest r.capacity (contents r ++ v ∷ [])
  unfolding contents
  grown-contents r v i h =
      ap (items (update r.slots ((r.front_pos + r.size) % r.capacity) v) r.capacity r.front_pos)
        {y = suc r.size} (omega arith)
      ∙ items-write r.slots v r.capacity r.front_pos r.size h
      ∙ sym (
          latest-small r.capacity (contents r ++ v ∷ []) (
            omega (
              arith,
              length-append (contents r) (v ∷ []),
              length-items r.slots r.capacity r.front_pos r.size,
            )))

  -- Behind the last slot comes the first.
  pub items-turned :
      (s : ℕ → A) (cap f n : ℕ) → f < cap → items s cap ((f + 1) % cap) n ≡ items s cap (f + 1) n
  items-turned s cap f n h = elim (le-cases (f + 1) cap (omega arith)) [
    | inr e ↦
        ap (λ g. items s cap g n) (grind arith)
        ∙ sym (items-round s cap 0 n (omega arith))
        ∙ ap (λ g. items s cap g n) (omega arith)
    | inl l ↦ ap (λ g. items s cap g n) (grind arith)
  ]

  items-full :
      (s : ℕ → A) (v : A) (cap f m : ℕ)
      → cap ≡ suc m
      → f < cap
      → items (update s (((f + 1) % cap + m) % cap) v) cap ((f + 1) % cap) (suc m)
        ≡ latest cap (items s cap f (suc m) ++ v ∷ [])
  unfolding items
  items-full s v cap f m e h =
      items-write s v cap ((f + 1) % cap) m (omega arith)
      ∙ ap (λ (xs : List A). xs ++ v ∷ []) (items-turned s cap f m h)
      ∙ sym (
          latest-over cap (s (f % cap)) (items s cap (f + 1) m ++ v ∷ []) (
            omega (
              arith,
              length-append (items s cap (f + 1) m) (v ∷ []),
              length-items s cap (f + 1) m,
            )))

  turned-contents :
      (r : RingBuffer A) (v : A)
      → IsValid r
      → r.size ≡ r.capacity
      → contents (turned r v) ≡ latest r.capacity (contents r ++ v ∷ [])
  unfolding contents
  turned-contents r v i h =
      subst
        (λ n.
          items (turned r v).slots r.capacity (next_front r) n
          ≡ latest r.capacity (items r.slots r.capacity r.front_pos n ++ v ∷ []))
        {x = suc (r.size - 1)} (omega arith)
        (items-full r.slots v r.capacity r.front_pos (r.size - 1) (omega arith) i.front_in)

  -- `GblRingBuffer_pushBack` on a ring that satisfies the invariant succeeds and appends the element;
  -- of more elements than slots, the ring keeps the last. It preserves the invariant.
  pub push_back-latest :
      (r : RingBuffer A) (v : A)
      → IsValid r
      → (r' : RingBuffer A) × (push_back r v ≡ ok (success, r'))
        × IsValid r'
        × (r'.capacity ≡ r.capacity)
        × (contents r' ≡ latest r.capacity (contents r ++ v ∷ []))
  push_back-latest r v i = elim (le-cases r.size r.capacity i.fits) [
    | inl l ↦
        (grown r v, push_back-room r v i l, grown-IsValid r v i l, refl, grown-contents r v i l)
    | inr e ↦
        (turned r v, push_back-full r v i e, turned-IsValid r v i, refl, turned-contents r v i e)
  ]
