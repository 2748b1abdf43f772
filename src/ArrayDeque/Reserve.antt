-- ===== src/ArrayDeque/Reserve.antt =====
-- GblArrayDeque_reserve, and the capacities that it chooses.
use native.Mathlib.Nat.{pow-le-pow_right}
use libgimbal.Common.{
  ℕ, ◌-◌, ◌*◌, ◌^◌, true, false, ◌≤◌, ◌<◌, ◌≡◌, refl, ap, sym, ◌∙◌, inl, inr, arith, ltb,
  if◌then◌else◌,
}
use libgimbal.Common.Bytes.{slots_of-bytes, bytes_below, count_below}
use libgimbal.Memory.{Run, ok}
use libgimbal.Numeric.{uint64, pow2_next}
use libgimbal.Numeric.Pow2.{pow2_next-IsNextPow2}
use libgimbal.RingBuffer.Inv.{contents}
use libgimbal.ArrayDeque.{ArrayDeque, reserve_, reserve}
use libgimbal.ArrayDeque.Grow.{IsDeque, within_or_not, reserved-IsGrown}

power_small : (k : ℕ) → 2 ^ k < 2 ^ 64 → 2 ^ k ≤ 2 ^ 63
power_small k h = elim (within_or_not k 64) [
  | inl l ↦ pow-le-pow_right {n = 2} (omega arith) {i = k} {j = 63} (omega arith)
  | inr g ↦ absurd (omega (arith, pow-le-pow_right {n = 2} (omega arith) {i = 64} {j = k} g))
]

small_power : (n : ℕ) → 0 < n → n ≤ 2 → n ≡ 2 ^ (n - 1)
small_power n h l = elim (within_or_not 1 n) [
  | inl g ↦ omega (arith, ap (λ e. 2 ^ e) {x = n - 1} {y = 1} (omega arith))
  | inr s ↦ omega (arith, ap (λ e. 2 ^ e) {x = n - 1} {y = 0} (omega arith))
]

abbrev pub new_capacity : ℕ → Run ℕ
new_capacity n = if ltb 2 n then pow2_next uint64 n else ok n

-- The capacity that `n` elements get.
new_capacity_lem :
    (n : ℕ)
    → 0 < n
    → n ≤ 2 ^ 63
    → (c : ℕ) × (new_capacity n ≡ ok c)
      × (n ≤ c)
      × (c ≤ 2 * n)
      × (c ≤ 2 ^ 63)
      × ((k : ℕ) × (c ≡ 2 ^ k))
new_capacity_lem n h l = elim (within_or_not 2 n) [
  | inl g ↦
      let (c, run, next) = pow2_next-IsNextPow2 uint64 n (omega arith) l in
      let (k, e, le, lt) = next in
      let more : ltb 2 n ≡ true = ground arith in
      (
        c,
        rw (more, run) refl,
        le,
        omega arith,
        omega (arith, e, power_small k (omega (arith, e))),
        (k, e),
      )
  | inr s ↦
      let few : ltb 2 n ≡ false = ground arith in
      (n, rw few refl, omega arith, omega arith, omega arith, (n - 1, small_power n h s))
]

module _ {A : Type 0} where
  -- What making room for `n` elements makes of a deque.
  pub record IsReserved (r r' : ArrayDeque A) (n : ℕ) : Type 0 where
    pub deque : IsDeque r'
    pub room : n ≤ r'.capacity
    pub size : r'.size ≡ r.size
    pub list : contents r' ≡ contents r

  -- `GblArrayDeque_reserve`, on a deque that satisfies the invariant and, when it has fewer slots than
  -- are asked for, begins at the first slot if it is empty, and has elements of at least one byte, of
  -- which so many have fewer than 2 ^ 63 bytes, succeeds. It makes a deque that satisfies the
  -- invariant, with at least as many slots as were asked for, and the same elements in their order.
  pub reserve-IsReserved :
      (r : ArrayDeque A) (fresh : ℕ → A) (n : ℕ)
      → IsDeque r
      → (r.capacity < n → r.size ≡ 0 → r.front_pos ≡ 0)
      → (r.capacity < n → 0 < r.element_size)
      → (r.capacity < n → n * r.element_size < 2 ^ 63)
      → (r' : ArrayDeque A) × (reserve r fresh n ≡ ok r') × IsReserved r r' n
  unfolding reserve reserve_
  reserve-IsReserved r fresh n i f p l = elim (within_or_not r.capacity n) [
    | inr enough ↦ (r, ground arith, record { deque = i; room = enough; size = refl; list = refl })
    | inl more ↦
        let es = r.element_size in
        let (c, raise, le, twice, lt, power) =
          new_capacity_lem n (omega arith) (omega (arith, count_below n es (p more) (l more))) in
        let slots = slots_of-bytes c es (p more) (bytes_below c n es twice (l more)) in
        let (r', run, grown) = reserved-IsGrown r fresh c i (f more) (omega arith) lt slots in
        (
          r',
          ground (arith, raise, run),
          record {
            deque = record {
              small = omega (arith, grown.capacity);
              fits = omega (arith, grown.capacity, grown.size, i.fits);
              front_in = omega (arith, grown.capacity, grown.front);
              storage = grown.allocated ∙ sym grown.capacity;
              rounded = inr (power.0, grown.capacity ∙ power.1);
            };
            room = omega (arith, grown.capacity);
            size = grown.size;
            list = grown.list;
          },
        )
  ]
