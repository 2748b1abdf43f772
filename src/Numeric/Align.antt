-- ===== src/Numeric/Align.antt =====
-- gblAlignedAllocSize with an alignment that its assertion lets through.
use native.Mathlib.Nat.{
  mod_self, mod-eq_of_lt, add-mod, mod-lt, mul-mod_right, div-add-mod, pow-le-pow_right,
}
use libgimbal.Common.{
  ℕ, ◌+◌, ◌-◌, ◌*◌, ◌/◌, ◌%◌, ◌^◌, ◌≤◌, ◌<◌, ◌≡◌, refl, ap, ◌∙◌, true, false, arith, ◌==◌,
}
use libgimbal.Common.Bits.{bit_and-above, bit_and-mask, some_power}
use libgimbal.Memory.{ok}
use libgimbal.Numeric.{aligned_alloc_size, pow2_check}

-- No other multiple of `d` lies between one and the next.
multiple_between : (d a b : ℕ) → a % d ≡ 0 → b % d ≡ 0 → a ≤ b → b < a + d → b ≡ a
multiple_between d a b p q l h =
    let rest : (b - a) % d ≡ b - a = mod-eq_of_lt (omega arith) in
    let sum : (a + (b - a)) % d ≡ 0 = ap (λ n. n % d) {x = a + (b - a)} {y = b} (omega arith) ∙ q in
    let split : (a + (b - a)) % d ≡ b - a =
      add-mod a (b - a) d
      ∙ rw (p, rest) (ap (λ n. n % d) {x = 0 + (b - a)} {y = b - a} (omega arith) ∙ rest) in
    omega (arith, sum, split)

power-check : (k : ℕ) → k < 64 → pow2_check (2 ^ k) ≡ true
unfolding pow2_check
power-check k h =
    let half : 2 ^ k ≤ 2 ^ 63 =
      pow-le-pow_right {n = 2} (omega arith) {i = k} {j = 63} (omega arith) in
    let less : (2 ^ k + (2 ^ 64 - 1)) % 2 ^ 64 ≡ 2 ^ k - 1 = omega (arith, some_power k) in
    rw less (rw (bit_and-mask k (2 ^ k)) (rw (mod_self (2 ^ k)) refl))

-- The size that is taken for a block or a page.
pub aligned_alloc_size_lem :
    (max_align size k : ℕ)
    → k < 64
    → size + 2 ^ k ≤ 2 ^ 64
    → (actual : ℕ) × (aligned_alloc_size max_align size (2 ^ k) ≡ ok actual)
      × (size ≤ actual)
      × (actual % 2 ^ k ≡ 0)
      × (actual < size + 2 ^ k)
unfolding aligned_alloc_size
aligned_alloc_size_lem max_align size k h l =
    let d = 2 ^ k in
    let some_bytes : 0 < d = some_power k in
    let half : 2 ^ k ≤ 2 ^ 63 =
      pow-le-pow_right {n = 2} (omega arith) {i = k} {j = 63} (omega arith) in
    let x = size + d - 1 in
    let some_align : (d == 0) ≡ false = ground arith in
    let sum : (size + (d + (2 ^ 64 - 1))) % 2 ^ 64 ≡ x = omega arith in
    let mask : 2 ^ 64 - 1 - (d + (2 ^ 64 - 1)) % 2 ^ 64 ≡ 2 ^ 64 - d = omega arith in
    let rounded : x - x % d ≡ d * (x / d) = omega (arith, div-add-mod x d) in
    let rest = mod-lt x some_bytes in
    (
      x - x % d,
      rw (some_align, power-check k h, sum, mask)
          (ap ok (bit_and-above k 64 x (omega arith) (omega arith))),
      omega (arith, rest),
      rw rounded (mul-mod_right d (x / d)),
      omega (arith, rest),
    )

-- A multiple of the alignment is not rounded up.
pub aligned_alloc_size-same :
    (max_align size k : ℕ)
    → k < 64
    → size % 2 ^ k ≡ 0
    → size + 2 ^ k ≤ 2 ^ 64
    → aligned_alloc_size max_align size (2 ^ k) ≡ ok size
aligned_alloc_size-same max_align size k h m l =
    let (actual, run, enough, multiple, less) = aligned_alloc_size_lem max_align size k h l in
    let same : actual ≡ size = multiple_between (2 ^ k) size actual m multiple enough less in
    run ∙ ap ok same
