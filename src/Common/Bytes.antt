-- ===== src/Common/Bytes.antt =====
-- The bytes of some elements, as a `size_t`, which wraps.
use native.Mathlib.Nat.{
  mod-eq_of_lt, mul-div_cancel, mul-le-mul_right, mul_assoc, le-mul_of_pos_right,
}
use libgimbal.Common.{ℕ, ◌*◌, ◌/◌, ◌%◌, ◌^◌, ◌≤◌, ◌<◌, ◌≡◌, ap, ◌∙◌, arith}

-- What is allocated holds the elements, where their bytes do not wrap.
pub slots_of-bytes : (n es : ℕ) → 0 < es → n * es < 2 ^ 64 → (n * es) % 2 ^ 64 / es ≡ n
slots_of-bytes n es h l = ap (λ bytes. bytes / es) (mod-eq_of_lt l) ∙ mul-div_cancel n h

-- A capacity that is at most twice the number asked for.
pub bytes_below : (c n es : ℕ) → c ≤ 2 * n → n * es < 2 ^ 63 → c * es < 2 ^ 64
bytes_below c n es h l = omega (arith, mul-le-mul_right es h, mul_assoc 2 n es)

pub count_below : (n es : ℕ) → 0 < es → n * es < 2 ^ 63 → n < 2 ^ 63
count_below n es h l = omega (arith, le-mul_of_pos_right n h)
