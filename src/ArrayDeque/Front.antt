-- ===== src/ArrayDeque/Front.antt =====
-- Adding elements at the front of a deque.
use native.Mathlib.Nat.{mod-eq_of_lt}
use libgimbal.Common.{
  ℕ, suc, ◌+◌, ◌*◌, ◌-◌, ◌%◌, ◌^◌, ◌<◌, ◌≡◌, refl, ap, ap₂, sym, ◌∙◌, inl, inr, List, ◌∷◌, arith,
  false, ◌==◌, if◌then◌else◌, some,
}
use libgimbal.Memory.{ok, update}
use libgimbal.RingBuffer.{RingBuffer, success, out_of_range, store, add_size}
use libgimbal.RingBuffer as Ring
use libgimbal.RingBuffer.Inv.{items, contents}
use libgimbal.RingBuffer.Items.{items-frame, mod-round, update-same}
use libgimbal.RingBuffer.Refine.{front_lem, items-turned, le-cases}
use libgimbal.ArrayDeque.{ArrayDeque, reserve_, emplace_front, push_front}
use libgimbal.ArrayDeque.Grow.{IsDeque}
use libgimbal.ArrayDeque.Ends.{one_more}

module _ {A : Type 0} where
  abbrev before : ArrayDeque A → ℕ
  before r = if r.front_pos == 0 then r.capacity - 1 else r.front_pos - 1

  abbrev longer : ArrayDeque A → ArrayDeque A
  longer r = record r { front_pos = before r; size = r.size + 1 }

  before_lem :
      (r : ArrayDeque A)
      → IsDeque r
      → 0 < r.capacity
      → (before r < r.capacity) × ((before r + 1) % r.capacity ≡ r.front_pos)
  before_lem r i h = elim (le-cases 0 r.front_pos (omega arith)) [
    | inr first ↦ (
      ground arith,
      ap (λ x. x % r.capacity) {x = before r + 1} {y = 0 + r.capacity} (ground arith)
          ∙ mod-round 0 r.capacity h
          ∙ (grind arith),
    )
    | inl later ↦ (
      ground (arith, i.front_in),
      ap (λ x. x % r.capacity) {x = before r + 1} {y = r.front_pos} (ground arith)
          ∙ mod-eq_of_lt (omega (arith, i.front_in)),
    )
  ]

  front-longer :
      (r : ArrayDeque A)
      → IsDeque r
      → r.size < r.capacity
      → Ring.front (longer r) ≡ ok (some (before r))
  front-longer r i h = front_lem (longer r) i.small ((before_lem r i (omega arith)).0) (omega arith)

  longer_lem :
      (r : ArrayDeque A)
      → IsDeque r
      → r.size < r.capacity
      → record r {
        front_pos = if r.front_pos == 0 then add_size r.capacity (2 ^ 64 - 1) else r.front_pos - 1;
        size = add_size r.size 1;
      }
        ≡ longer r
  longer_lem r i h = ground (arith, i.small)

  emplace_front_lem :
      (r : ArrayDeque A) (fresh : ℕ → A) (s : ArrayDeque A)
      → reserve_ r fresh (add_size r.size 1) false ≡ ok s
      → IsDeque s
      → s.size < s.capacity
      → emplace_front r fresh ≡ ok (some (before s), longer s)
  unfolding emplace_front
  emplace_front_lem r fresh s e i h = rw e (rw (longer_lem s i h) (rw (front-longer s i h) refl))

  -- A write to the slot before the first puts an element in front.
  items-cons :
      (s : ℕ → A) (v : A) (c f g n : ℕ)
      → g < c
      → (g + 1) % c ≡ f
      → n < c
      → items (update s g v) c g (suc n) ≡ v ∷ items s c f n
  unfolding items
  items-cons s v c f g n h e l =
      ap₂ (◌∷◌) (ap (update s g v) (mod-eq_of_lt h) ∙ update-same s g v) (
        ap (λ p. items (update s p v) c (g + 1) n)
          (sym (mod-eq_of_lt h) ∙ sym (mod-round g c (omega arith)))
        ∙ items-frame s v c (g + c) (g + 1) n (omega arith) (omega arith)
        ∙ sym (items-turned s c g n h)
        ∙ ap (λ p. items s c p n) e)

  -- `GblArrayDeque_pushFront` on a deque that satisfies the invariant and has fewer than 2 ^ 63
  -- elements, and, if it is full, elements of at least one byte, which with the new one have fewer
  -- than 2 ^ 63 bytes, succeeds, preserves the invariant and puts the element in front; it drops none.
  pub push_front-cons :
      (r : ArrayDeque A) (fresh : ℕ → A) (v : A)
      → IsDeque r
      → r.size < 2 ^ 63
      → (r.capacity < r.size + 1 → 0 < r.element_size)
      → (r.capacity < r.size + 1 → (r.size + 1) * r.element_size < 2 ^ 63)
      → (r' : ArrayDeque A) × (push_front r fresh v ≡ ok (success, r'))
        × IsDeque r'
        × (contents r' ≡ v ∷ contents r)
  unfolding push_front contents store
  push_front-cons r fresh v i h p w =
      let (s, run, made) = one_more r fresh i h p w in
      let room : s.size < s.capacity = omega (arith, made.room, made.size) in
      let (inside, turned) = before_lem s made.deque (omega arith) in
      (
        store (before s) v (longer s),
        rw (emplace_front_lem r fresh s run made.deque room) refl,
        record {
          small = made.deque.small;
          fits = omega arith;
          front_in = omega arith;
          storage = made.deque.storage;
          rounded = made.deque.rounded;
        },
        ap (items (update s.slots (before s) v) s.capacity (before s)) {x = s.size + 1}
              {y = suc s.size} (omega arith)
            ∙ items-cons s.slots v s.capacity s.front_pos (before s) s.size inside turned room
            ∙ ap (λ (xs : List A). v ∷ xs) made.list,
      )
