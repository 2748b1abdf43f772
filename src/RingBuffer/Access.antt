-- ===== src/RingBuffer/Access.antt =====
-- Reading a ring, taking its oldest element, and copying it.
use mathlib.Core.Option
use libgimbal.Common.{
  ℕ, ◌/◌, ◌*◌, zero, suc, ◌+◌, ◌-◌, ◌%◌, ◌^◌, ◌≤◌, ◌<◌, ◌≡◌, refl, ap, List, [], ◌∷◌, arith, length,
  get_elem?, Option, some, none, leb, if◌then◌else◌, true, sym, ◌∙◌, ◌⊎◌, inl, inr,
}
use libgimbal.Memory.{ok}
use libgimbal.RingBuffer.{
  RingBuffer, success, add_size, empty, at, front, pop_front, construct, copy, destruct,
}
use libgimbal.RingBuffer.Inv.{IsValid, items, contents, length-items}
use libgimbal.RingBuffer.Items.{items-get_elem?}
use libgimbal.RingBuffer.Refine.{at_lem, at-over, items-turned, le-cases}

lt_or_ge : (a b : ℕ) → (a < b) ⊎ (b ≤ a)
lt_or_ge a b = ground arith

-- Taking the remainder and comparing with the capacity turn round in the same way.
next_lem :
    (f cap : ℕ)
    → f < cap
    → cap ≤ 2 ^ 63
    → (if leb cap (add_size f 1) then 0 else add_size f 1) ≡ (f + 1) % cap
next_lem f cap h k =
    let wrapped : f + 1 ≡ cap → (f + 1) % cap ≡ 0 = λ e. grind arith in
    let inside : f + 1 < cap → (f + 1) % cap ≡ f + 1 = λ l. grind arith in
    elim (le-cases (f + 1) cap (omega arith)) [
      | inr e ↦ ground (arith, wrapped e)
      | inl l ↦ ground (arith, inside l)
    ]

module _ {A : Type 0} where
  get_elem?-over : (xs : List A) (i : ℕ) → length xs ≤ i → get_elem? xs i ≡ none
  get_elem?-over [] i h = refl
  get_elem?-over (x ∷ xs) zero h = absurd (omega arith)
  get_elem?-over (x ∷ xs) (suc i) h = get_elem?-over xs i (omega arith)

  -- On a ring that satisfies the invariant, the slot that `GblRingBuffer_at` returns for an index holds
  -- the element there, and it returns NULL for an index that is out of range.
  pub at-contents :
      (r : RingBuffer A) (index : ℕ)
      → IsValid r
      → (slot : Option ℕ) × (at r index ≡ ok slot)
        × (Option.map r.slots slot ≡ get_elem? (contents r) index)
  unfolding contents
  at-contents r index i = elim (lt_or_ge index r.size) [
    | inl l ↦ (
      some ((r.front_pos + index) % r.capacity),
      at_lem r index i l,
      sym (items-get_elem? r.slots r.capacity r.front_pos r.size index l),
    )
    | inr g ↦ (
      none,
      at-over r index g,
      sym (
          get_elem?-over (contents r) index
            (omega (arith, g, length-items r.slots r.capacity r.front_pos r.size))),
    )
  ]

  abbrev popped : RingBuffer A → RingBuffer A
  popped r = record r { size = r.size - 1; front_pos = (r.front_pos + 1) % r.capacity }

  popped-IsValid : (r : RingBuffer A) → IsValid r → IsValid (popped r)
  popped-IsValid r i = record {
    some_slot = i.some_slot;
    small = i.small;
    fits = omega (arith, i.fits);
    front_in = grind arith;
    storage = i.storage;
  }

  pop_front-popped :
      (r : RingBuffer A)
      → IsValid r
      → 0 < r.size
      → pop_front r ≡ ok (some (r.front_pos % r.capacity), popped r)
  unfolding pop_front front
  pop_front-popped r i h =
      ground (arith, at_lem r 0 i h, next_lem r.front_pos r.capacity i.front_in i.small)

  items-uncons :
      (s : ℕ → A) (cap f n : ℕ)
      → 0 < n
      → f < cap
      → items s cap f n ≡ s (f % cap) ∷ items s cap ((f + 1) % cap) (n - 1)
  unfolding items
  items-uncons s cap f zero h k = absurd (omega arith)
  items-uncons s cap f (suc n) h k =
      ap (λ (xs : List A). s (f % cap) ∷ xs)
        (sym (items-turned s cap f n k)
          ∙ ap (items s cap ((f + 1) % cap)) {x = n} {y = suc n - 1} (omega arith))

  length-contents : (r : RingBuffer A) → length (contents r) ≡ r.size
  unfolding contents
  length-contents r = length-items r.slots r.capacity r.front_pos r.size

  popped-contents :
      (r : RingBuffer A)
      → IsValid r
      → 0 < r.size
      → contents r ≡ r.slots (r.front_pos % r.capacity) ∷ contents (popped r)
  unfolding contents
  popped-contents r i h = items-uncons r.slots r.capacity r.front_pos r.size h i.front_in

  -- `GblRingBuffer_popFront` on a ring that satisfies the invariant and has an element returns the
  -- slot, one of the array's, that holds the oldest, and leaves the others in their order. It preserves
  -- the invariant.
  pub pop_front-first :
      (r : RingBuffer A) (x : A) (xs : List A)
      → IsValid r
      → contents r ≡ x ∷ xs
      → (slot : ℕ) × (r' : RingBuffer A) × (pop_front r ≡ ok (some slot, r'))
        × (slot < r.allocated)
        × (r.slots slot ≡ x)
        × IsValid r'
        × (contents r' ≡ xs)
  pop_front-first r x xs i e =
      let some_element : 0 < r.size = omega (arith, length-contents r, ap length e) in
      let split = sym (popped-contents r i some_element) ∙ e in
      (
        r.front_pos % r.capacity,
        popped r,
        pop_front-popped r i some_element,
        grind arith,
        cc,
        popped-IsValid r i,
        cc,
      )

  -- `GblRingBuffer_popFront` on an empty ring returns NULL and leaves it as it is.
  pub pop_front-empty : (r : RingBuffer A) → empty r ≡ true → pop_front r ≡ ok (none, r)
  unfolding pop_front front empty
  pop_front-empty r h = ground arith

  -- `GblRingBuffer_copy` of a ring that satisfies the invariant, with elements of at least one byte,
  -- and slots of fewer than 2 ^ 64 bytes, succeeds; the copy holds the slots from the first of the array on, as many as the ring has elements.
  pub copy-contents :
      (self other : RingBuffer A) (fresh : ℕ → A)
      → IsValid other
      → 0 < other.element_size
      → other.capacity * other.element_size < 2 ^ 64
      → (r : RingBuffer A) × (copy self other fresh ≡ ok (success, r))
        × (contents r ≡ items other.slots other.capacity 0 other.size)
  unfolding copy construct destruct contents
  copy-contents self other fresh i h w = (
    record {
      slots = other.slots;
      allocated = (other.capacity * other.element_size) % 2 ^ 64 / other.element_size;
      size = other.size;
      capacity = other.capacity;
      front_pos = 0;
      element_size = other.element_size;
    },
    ground arith,
    refl,
  )
