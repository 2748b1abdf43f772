-- ===== src/Numeric/Pow2.antt =====
-- gblPow2Next at each width: the least power of 2 that is not less than the number.
use native.Mathlib.Nat.{pow-suc, mod-eq_of_lt, pow-le-pow_right}
use libgimbal.Common.{
  ℕ, suc, ◌+◌, ◌-◌, ◌*◌, ◌%◌, ◌^◌, ◌≤◌, ◌<◌, ◌≡◌, refl, false, ltb, ap, ◌∙◌, arith,
}
use libgimbal.Common.Bits.{some_power}
use libgimbal.Numeric.{
  Width, uint8, uint16, uint32, uint64, pow2_next, smear, pow2_next_u8, pow2_next_u16,
  pow2_next_u32, pow2_next_u64,
}
use libgimbal.Memory.{ok}
use libgimbal.Numeric.Smear.{IsSmeared, smear-IsSmeared, digits_of, IsSmeared-one}

-- `r` is the least power of 2 that is not less than `n`.
abbrev pub IsNextPow2 : (n r : ℕ) → Type 0
IsNextPow2 n r = (k : ℕ) × (r ≡ 2 ^ k) × (n ≤ r) × (r < 2 * n)

mod-power : (j w : ℕ) → j < w → 2 ^ j % 2 ^ w ≡ 2 ^ j
mod-power j w h = mod-eq_of_lt (
    omega (
      arith,
      pow-le-pow_right {n = 2} (omega arith) {i = suc j} {j = w} h,
      pow-suc 2 j,
      some_power j,
    ))

-- The sum that wraps is `n - 1`.
less_one : (w n : ℕ) → 1 ≤ n → n < 2 ^ w → (n + (2 ^ w - 1)) % 2 ^ w ≡ n - 1
less_one w n h l = grind arith

rounded :
    (w n k smeared : ℕ)
    → 2 ≤ n
    → suc k < w
    → 2 ^ k ≤ n - 1
    → n - 1 < 2 ^ k * 2
    → smeared ≡ 2 ^ suc k - 1
    → IsNextPow2 n ((smeared + 1) % 2 ^ w)
rounded w n k smeared h kw lo hi e =
    let value : (smeared + 1) % 2 ^ w ≡ 2 ^ suc k =
      ap (λ x. x % 2 ^ w) {x = smeared + 1} {y = 2 ^ suc k} (omega (arith, e, some_power (suc k)))
      ∙ mod-power (suc k) w kw in
    (suc k, value, omega (arith, value, pow-suc 2 k), omega (arith, value, pow-suc 2 k))

abbrev pub bits : Width → ℕ
bits uint8 = 8
bits uint16 = 16
bits uint32 = 32
bits uint64 = 64

module _ (k m : ℕ) (lo : 2 ^ k ≤ m) (hi : m < 2 ^ k * 2) where
  first_2 : IsSmeared (suc k) 2 (smear 1 m)
  first_2 = smear-IsSmeared (suc k) 1 m (IsSmeared-one k m lo hi)

  first_4 : IsSmeared (suc k) 4 (smear 2 (smear 1 m))
  first_4 = smear-IsSmeared (suc k) 2 (smear 1 m) first_2

  first_8 : IsSmeared (suc k) 8 (smear 4 (smear 2 (smear 1 m)))
  first_8 = smear-IsSmeared (suc k) 4 (smear 2 (smear 1 m)) first_4

  first_16 : IsSmeared (suc k) 16 (smear 8 (smear 4 (smear 2 (smear 1 m))))
  first_16 = smear-IsSmeared (suc k) 8 (smear 4 (smear 2 (smear 1 m))) first_8

  first_32 : IsSmeared (suc k) 32 (smear 16 (smear 8 (smear 4 (smear 2 (smear 1 m)))))
  first_32 = smear-IsSmeared (suc k) 16 (smear 8 (smear 4 (smear 2 (smear 1 m)))) first_16

  first_64 : IsSmeared (suc k) 64 (smear 32 (smear 16 (smear 8 (smear 4 (smear 2 (smear 1 m))))))
  first_64 =
      smear-IsSmeared (suc k) 32 (smear 16 (smear 8 (smear 4 (smear 2 (smear 1 m))))) first_32

-- `gblPow2Next` of a number, which is not refused by the assertion.
abbrev pub IsRounded : Width → ℕ → Type 0
IsRounded t n = (r : ℕ) × (pow2_next t n ≡ ok r) × IsNextPow2 n r

more-next :
    (t : Width) (n k : ℕ)
    → 2 ≤ n
    → n < 2 ^ bits t
    → suc k < bits t
    → 2 ^ k ≤ n - 1
    → n - 1 < 2 ^ k * 2
    → IsRounded t n
unfolding pow2_next pow2_next_u8 pow2_next_u16 pow2_next_u32 pow2_next_u64
more-next uint8 n k h l kw lo hi =
    let several : ltb n 2 ≡ false = ground arith in
    (
      (smear 4 (smear 2 (smear 1 (n - 1))) + 1) % 2 ^ 8,
      rw (several, less_one 8 n (omega arith) l) refl,
      rounded 8 n k _ h kw lo hi ((first_8 k (n - 1) lo hi).all (omega arith)),
    )
more-next uint16 n k h l kw lo hi =
    let several : ltb n 2 ≡ false = ground arith in
    (
      (smear 8 (smear 4 (smear 2 (smear 1 (n - 1)))) + 1) % 2 ^ 16,
      rw (several, less_one 16 n (omega arith) l) refl,
      rounded 16 n k _ h kw lo hi ((first_16 k (n - 1) lo hi).all (omega arith)),
    )
more-next uint32 n k h l kw lo hi =
    let several : ltb n 2 ≡ false = ground arith in
    (
      (smear 16 (smear 8 (smear 4 (smear 2 (smear 1 (n - 1))))) + 1) % 2 ^ 32,
      rw (several, less_one 32 n (omega arith) l) refl,
      rounded 32 n k _ h kw lo hi ((first_32 k (n - 1) lo hi).all (omega arith)),
    )
more-next uint64 n k h l kw lo hi =
    let several : ltb n 2 ≡ false = ground arith in
    (
      (smear 32 (smear 16 (smear 8 (smear 4 (smear 2 (smear 1 (n - 1)))))) + 1) % 2 ^ 64,
      rw (several, less_one 64 n (omega arith) l) refl,
      rounded 64 n k _ h kw lo hi ((first_64 k (n - 1) lo hi).all (omega arith)),
    )

-- The assertion is all that `gblPow2Next` refuses.
pub pow2_next-some : (n : ℕ) → 2 ≤ n → (r : ℕ) × (pow2_next uint64 n ≡ ok r)
unfolding pow2_next pow2_next_u64
pow2_next-some n h =
    let several : ltb n 2 ≡ false = ground arith in
    let less = (n + (2 ^ 64 - 1)) % 2 ^ 64 in
    (
      (smear 32 (smear 16 (smear 8 (smear 4 (smear 2 (smear 1 less))))) + 1) % 2 ^ 64,
      rw several refl,
    )

some_bits : (t : Width) → 1 ≤ bits t
some_bits uint8 = omega arith
some_bits uint16 = omega arith
some_bits uint32 = omega arith
some_bits uint64 = omega arith

-- For each of the four types, `gblPow2Next` of a number from 2 to the largest power of 2 that the
-- type holds returns the least power of 2 that is not less than the number: a power of 2, not less
-- than the number and less than twice the number.
pub pow2_next-IsNextPow2 :
    (t : Width) (n : ℕ)
    → 2 ≤ n
    → n ≤ 2 ^ (bits t - 1)
    → (r : ℕ) × (pow2_next t n ≡ ok r) × IsNextPow2 n r
pow2_next-IsNextPow2 t n h l =
    let double : 2 ^ bits t ≡ 2 ^ (bits t - 1) * 2 =
      ap (λ e. 2 ^ e) {y = suc (bits t - 1)} (omega (arith, some_bits t))
      ∙ pow-suc 2 (bits t - 1) in
    let (k, kw, lo, hi) = digits_of (bits t - 1) (n - 1) (omega arith) (omega arith) in
    more-next t n k h (omega (arith, double, some_power (bits t - 1))) (omega arith) lo hi
