-- ===== src/ArrayDeque/Life.antt =====
-- Making a deque, taking back what was put in, and reserving where it fails.
use native.Mathlib.Nat.{pow-le-pow_right}
use libgimbal.Common.Bits.{some_power}
use libgimbal.Common.{
  ℕ, ◌+◌, ◌*◌, ◌/◌, ◌%◌, true, ◌^◌, ◌≤◌, ◌<◌, ◌≡◌, ◌≢◌, refl, ap, sym, ◌∙◌, inr, List, [], ◌∷◌,
  ◌++◌, arith, ltb, if◌then◌else◌, some, length, length-append,
}
use libgimbal.Memory.{ok, fault}
use libgimbal.RingBuffer.{success}
use libgimbal.RingBuffer.Inv.{contents}
use libgimbal.RingBuffer.Items.{latest-small}
use libgimbal.RingBuffer.Refine.{front-none}
use libgimbal.RingBuffer.Construct.{construct-latest}
use libgimbal.ArrayDeque.{
  ArrayDeque, realloc, reserved, reserve, reserve_, construct, pop_back, push_back,
}
use libgimbal.Numeric.Pow2.{pow2_next-some}
use libgimbal.ArrayDeque.Grow.{IsDeque, end_size_lem}
use libgimbal.ArrayDeque.Ends.{length-contents, push_back-contents, pop_back-last}

module _ {A : Type 0} where
  snoc_inj : (xs ys : List A) (x y : A) → xs ++ x ∷ [] ≡ ys ++ y ∷ [] → (xs ≡ ys) × (x ≡ y)
  snoc_inj [] [] x y e = (refl, cc)
  snoc_inj [] (b ∷ ys) x y e = absurd (omega (arith, ap length e, length-append ys (y ∷ [])))
  snoc_inj (a ∷ xs) [] x y e = absurd (omega (arith, ap length e, length-append xs (x ∷ [])))
  snoc_inj (a ∷ xs) (b ∷ ys) x y e = let (same, rest) = snoc_inj xs ys x y cc in (cc, rest)

  -- `GblArrayDeque_construct` with elements of at least one byte, from 1 to 2 ^ 63 slots, or as many as
  -- there are initial elements if those are more, where that is a power of 2 and
  -- fewer than 2 ^ 64 bytes, succeeds. It makes a
  -- deque that satisfies the invariant and holds the initial elements.
  pub construct-initial :
      (old : ArrayDeque A) (fresh : ℕ → A) (element_size capacity k : ℕ) (initial : List A)
      → 0 < element_size
      → k ≤ 63
      → (if ltb capacity (length initial) then length initial else capacity) ≡ 2 ^ k
      → 2 ^ k * element_size < 2 ^ 64
      → (r : ArrayDeque A) × (construct old fresh element_size capacity initial ≡ ok (success, r))
        × IsDeque r
        × (contents r ≡ initial)
  unfolding construct
  construct-initial old fresh element_size capacity k initial h l e w =
      let cap = (if ltb capacity (length initial) then length initial else capacity) in
      let slots : (0 < 2 ^ k) × (2 ^ k ≤ 2 ^ 63) =
        (some_power k, pow-le-pow_right {n = 2} (omega arith) {i = k} {j = 63} l) in
      let enough : length initial ≤ cap = ground arith in
      let (r, run, valid, same, list) =
        construct-latest old fresh element_size cap initial h (omega arith) (omega arith)
          (rw e w) in
      (
        r,
        run,
        record {
          small = valid.small;
          fits = valid.fits;
          front_in = omega (arith, valid.front_in);
          storage = valid.storage;
          rounded = inr (k, same ∙ e);
        },
        list ∙ latest-small cap initial enough,
      )

  -- On a deque that satisfies the invariant and has fewer than 2 ^ 63 elements, and, if it is full,
  -- elements of at least one byte, which with the new one have fewer than 2 ^ 63 bytes,
  -- `GblArrayDeque_popBack` after `GblArrayDeque_pushBack` returns a slot that holds the element
  -- pushed, and leaves the elements that there were.
  pub pop_back-push_back :
      (r : ArrayDeque A) (fresh : ℕ → A) (v : A)
      → IsDeque r
      → r.size < 2 ^ 63
      → (r.capacity < r.size + 1 → 0 < r.element_size)
      → (r.capacity < r.size + 1 → (r.size + 1) * r.element_size < 2 ^ 63)
      → (s : ArrayDeque A) × (slot : ℕ) × (r' : ArrayDeque A) × (push_back r fresh v
          ≡ ok (success, s))
        × (pop_back s ≡ ok (some slot, r'))
        × (s.slots slot ≡ v)
        × (contents r' ≡ contents r)
  pop_back-push_back r fresh v i h p w =
      let (s, pushed, deque, list) = push_back-contents r fresh v i h p w in
      let some_element : 0 < s.size =
        omega (arith, length-contents s, ap length list, length-append (contents r) (v ∷ [])) in
      let (slot, r', popped, deque', list') = pop_back-last s deque some_element in
      let (same, value) = snoc_inj (contents r') (contents r) (s.slots slot) v (sym list' ∙ list) in
      (s, slot, r', pushed, popped, value, same)

  -- `GblArrayDeque_reserve` of more than the capacity, on a deque without elements whose front is not
  -- the first slot of its array, copies from a NULL pointer.
  pub reserve-fault :
      (r : ArrayDeque A) (fresh : ℕ → A) (n : ℕ)
      → IsDeque r
      → r.size ≡ 0
      → r.front_pos ≢ 0
      → r.capacity < n
      → reserve r fresh n ≡ fault
  unfolding reserve reserve_ reserved
  reserve-fault r fresh n i z f h =
      let (c, raise) = pow2_next-some n (omega (arith, i.front_in)) in
      let several : ltb 2 n ≡ true = ground (arith, i.front_in) in
      let slots = c * r.element_size % 2 ^ 64 / r.element_size in
      ground (
        arith,
        raise,
        end_size_lem r i f,
        i.front_in,
        i.storage,
        front-none (record r { slots = realloc r.slots r.allocated fresh; allocated = slots }) z,
      )
