-- ===== src/ArrayHeap/Pop.antt =====
-- GblArrayHeap_pop: what it returns, and what is left.
use mathlib.Core.List.{Perm}
use libgimbal.Common.{
  ℕ, zero, suc, ◌-◌, ◌^◌, ◌≤◌, ◌<◌, ◌≡◌, refl, ap, sym, ◌∙◌, Bool, true, false, inl, inr, arith,
  if◌then◌else◌, Bool-cases, ◌==◌, ltb, leb, List, [], ◌∷◌, ◌⊎◌, some, length,
}
use libgimbal.Common.Int.{ℤ, is_positive}
use libgimbal.Memory.{ok}
use libgimbal.Sorting.{exchange}
use libgimbal.Sorting.Order.{
  IsLe, IsOrder, IsRearranged, IsRearranged-refl, IsRearranged-trans, exchange-IsRearranged,
}
use libgimbal.Sorting.Heap.{root_largest}
use libgimbal.ArrayList
use libgimbal.ArrayList.{ArrayList}
use libgimbal.ArrayList.Calls
use libgimbal.ArrayList.Room.{IsArray, segment, elements, length-segment}
use libgimbal.ArrayList.Erase.{erase-middle}
use libgimbal.ArrayHeap.{success, left, right, is_above, highest, sink, pop}
use libgimbal.ArrayHeap.Push.{compare_at_lem, IsHeap}

module _ {A : Type 0} where
  segment_first : (s : ℕ → A) (n : ℕ) (x : A) (xs : List A) → segment s 0 n ≡ x ∷ xs → s 0 ≡ x
  unfolding segment
  segment_first s zero x xs e = absurd (omega (arith, ap length e))
  segment_first s (suc n) x xs e = cc

  pop_front-first :
      (zeros : A) (fresh : ℕ → A) (r : ArrayList A) (x : A) (xs : List A)
      → IsArray r
      → elements r ≡ x ∷ xs
      → r.size ≤ 2 ^ 63
      → (t : ArrayList A) × (Calls.pop_front zeros fresh r true
          ≡ ok (some x, (ArrayList.success, t)))
        × (r.slots 0 ≡ x)
        × IsArray t
        × (elements t ≡ xs)
  unfolding Calls.pop_front Calls.read ArrayList.at elements segment
  pop_front-first zeros fresh r x xs i e h =
      let (t, run, array, list) = erase-middle zeros fresh r [] (x ∷ []) xs i e (omega arith) h in
      let count : r.size ≡ suc (length xs) = sym (length-segment r.slots 0 r.size) ∙ ap length e in
      let some_left : leb r.size 0 ≡ false = ground arith in
      let first : r.slots 0 ≡ x = segment_first r.slots r.size x xs e in
      (t, rw (some_left, run, first) refl, first, array, list)

module _ {A : Type 0} (cmp : A → A → ℤ) where
  is_above_lem :
      (r : ArrayList A) (child pos : ℕ)
      → (child < r.size → pos < r.size)
      → (b : Bool) × (is_above cmp r child pos ≡ ok b) × (b ≡ true → child < r.size)
  unfolding is_above
  is_above_lem r child pos h = elim (Bool-cases (ltb child r.size)) [
    | inl e ↦
        let inside : child < r.size = ground arith in
        (
          is_positive (cmp (r.slots child) (r.slots pos)),
          rw e (rw (compare_at_lem cmp r child pos inside (h inside)) refl),
          λ k. inside,
        )
    | inr e ↦ (false, rw e refl, λ k. cc)
  ]

  highest_lem :
      (r : ArrayList A) (pos : ℕ)
      → (m : ℕ) × (highest cmp r pos ≡ ok m) × ((m ≡ pos) ⊎ ((pos < m) × (m < r.size)))
  unfolding highest
  highest_lem r pos =
      let (b, run, inside) = is_above_lem r (left pos) pos (λ h. omega arith) in
      let first = if b then left pos else pos in
      let (c, run', inside') = is_above_lem r (right pos) first (λ h. ground arith) in
      (if c then right pos else first, rw run (rw run' refl), ground arith)

  sink_lem :
      (fuel : ℕ) (r : ArrayList A) (pos : ℕ)
      → r.size - pos < fuel
      → (s : ℕ → A) × (sink fuel cmp r pos ≡ ok (record r { slots = s }))
        × IsRearranged r.slots s r.size
  unfolding sink
  sink_lem zero r pos f = absurd (omega arith)
  sink_lem (suc fuel) r pos f =
      let (m, run, place) = highest_lem r pos in
      elim (Bool-cases (m == pos)) [
        | inl e ↦ (r.slots, rw run (rw e refl), IsRearranged-refl r.slots r.size)
        | inr e ↦
            let inside : (pos < m) × (m < r.size) = ground arith in
            let next = exchange r.slots m pos in
            let (s, run', same) = sink_lem fuel (record r { slots = next }) m (omega arith) in
            let first = exchange-IsRearranged r.slots m pos r.size inside.1 (omega arith) in
            (s, rw run (rw e run'), IsRearranged-trans first same)
      ]

  module _ (order : IsOrder cmp) (zeros : A) (fresh : ℕ → A) where
    -- With a total preorder, and more rounds of its loop allowed than there are elements, of which
    -- there are at most 2 ^ 62, `GblArrayHeap_pop` on a heap that is not empty and whose array list
    -- satisfies its invariant succeeds. It returns the first element, than which none is larger, and
    -- leaves the others, in an array list that satisfies the invariant.
    pub pop-largest :
        (fuel : ℕ) (r : ArrayList A) (x : A) (xs : List A)
        → IsArray r
        → IsHeap cmp r
        → elements r ≡ x ∷ xs
        → r.size ≤ 2 ^ 62
        → r.size < fuel
        → (r' : ArrayList A) × (pop zeros fresh fuel (record { list = r; cmp = cmp }) true
            ≡ ok (some x, success, record { list = r'; cmp = cmp }))
          × ((c : ℕ) → c < r.size → IsLe cmp (r.slots c) x)
          × IsArray r'
          × Perm (elements r') xs
    unfolding pop elements
    pop-largest fuel r x xs i heap e h f =
        let (t, popped, first, array, list) =
          pop_front-first zeros fresh r x xs i e (omega arith) in
        let count : r.size ≡ suc (length xs) =
          sym (length-segment r.slots 0 r.size) ∙ ap length e in
        let rest : t.size ≡ length xs = sym (length-segment t.slots 0 t.size) ∙ ap length list in
        let (slots, sunk, same) = sink_lem fuel t 0 (omega arith) in
        let some_left : (r.size == 0) ≡ false = ground arith in
        (
          record t { slots = slots },
          rw some_left (rw popped (rw sunk refl)),
          (λ c l. rw (← first) (root_largest cmp order r.slots r.size c heap l)),
          record {
            some_bytes = array.some_bytes;
            fits = array.fits;
            roomy = array.roomy;
            not_both = array.not_both;
          },
          rw (← list) same.same,
        )
