-- ===== src/Numeric.antt =====
-- lib/source/algorithms/gimbal_numeric.c: the functions on integers.
--
-- An `int` argument is one that is not negative. `int` arithmetic that leaves the 31 bits of such a
-- number, and a division by 0, is a fault; unsigned arithmetic wraps. The bits of a number are those
-- of the native operations `bit_and` and `bit_or`, and a shift is a division or multiplication by a
-- power of 2, also where it puts a byte in the top bits of an `int`. The target
-- is little-endian, with an `unsigned long` of 64 bits. An assertion
-- that fails is a fault.
pub mod Divisors
pub mod Fibonacci
pub mod Bytes
pub mod Smear
pub mod Pow2
pub mod Align
mod Tests
use Prim.Native.Nat.{bit_and, bit_or}
use libgimbal.Common.{
  ℕ, zero, suc, ◌+◌, ◌-◌, ◌*◌, ◌/◌, ◌%◌, ◌^◌, min, max, Bool, true, false, not, List, [], ◌∷◌, ltb,
  leb, ◌==◌, if◌then◌else◌,
}
use libgimbal.Memory.{Run, ok, fault, out_of_fuel, ◌>>=◌}

-- `n |= n >> s`.
abbrev pub smear : (shift n : ℕ) → ℕ
smear shift n = bit_or n (n / 2 ^ shift)

pub pow2_next_u8 : ℕ → Run ℕ
pow2_next_u8 n =
    let smeared = smear 4 (smear 2 (smear 1 ((n + (2 ^ 8 - 1)) % 2 ^ 8))) in
    if ltb n 2 then fault else ok ((smeared + 1) % 2 ^ 8)

pub pow2_next_u16 : ℕ → Run ℕ
pow2_next_u16 n =
    let smeared = smear 8 (smear 4 (smear 2 (smear 1 ((n + (2 ^ 16 - 1)) % 2 ^ 16)))) in
    if ltb n 2 then fault else ok ((smeared + 1) % 2 ^ 16)

pub pow2_next_u32 : ℕ → Run ℕ
pow2_next_u32 n =
    let smeared = smear 16 (smear 8 (smear 4 (smear 2 (smear 1 ((n + (2 ^ 32 - 1)) % 2 ^ 32))))) in
    if ltb n 2 then fault else ok ((smeared + 1) % 2 ^ 32)

pub pow2_next_u64 : ℕ → Run ℕ
pow2_next_u64 n =
    let smeared =
      smear 32 (smear 16 (smear 8 (smear 4 (smear 2 (smear 1 ((n + (2 ^ 64 - 1)) % 2 ^ 64)))))) in
    if ltb n 2 then fault else ok ((smeared + 1) % 2 ^ 64)

-- The type of the argument of `gblPow2Next`.
pub data Width : Type 0 where
  uint8 uint16 uint32 uint64 : Width

pub pow2_next : Width → ℕ → Run ℕ
pow2_next uint8 n = pow2_next_u8 n
pow2_next uint16 n = pow2_next_u16 n
pow2_next uint32 n = pow2_next_u32 n
pow2_next uint64 n = pow2_next_u64 n

unfoldable pub pow2_check : ℕ → Bool
pow2_check n = bit_and n ((n + (2 ^ 64 - 1)) % 2 ^ 64) == 0

-- The loop from `i` on, with `count` numbers to go.
pub prime_check_from : (n i count : ℕ) → Bool
prime_check_from n i zero = true
prime_check_from n i (suc count) =
    let rest = prime_check_from n (i + 1) count in if n % i == 0 then false else rest

-- `i` goes from 2 to `n / 2`.
pub prime_check : ℕ → Bool
prime_check n = prime_check_from n 2 (n / 2 + 1 - 2)

-- `int` addition.
abbrev pub add_int : ℕ → ℕ → Run ℕ
add_int a b = if ltb (a + b) (2 ^ 31) then ok (a + b) else fault

-- `num1` and `num2` after `count` turns of the loop.
pub fibonacci_from : (num1 num2 count : ℕ) → Run ℕ
fibonacci_from num1 num2 zero = ok num2
fibonacci_from num1 num2 (suc count) =
    let rest = (λ (num3 : ℕ). fibonacci_from num2 num3 count) in
    do num3 ← add_int num1 num2; rest num3

pub fibonacci : ℕ → Run ℕ
fibonacci n = if n == 0 then ok 0 else fibonacci_from 0 1 (n + 1 - 2)

-- `unsigned` arithmetic has 32 bits, `unsigned long` arithmetic 64.
pub binomial_coeff_from : (n i count res : ℕ) → ℕ
binomial_coeff_from n i zero res = res
binomial_coeff_from n i (suc count) res =
    binomial_coeff_from n (i + 1) count ((res * ((n + (2 ^ 32 - i)) % 2 ^ 32)) % 2 ^ 64 / (i + 1))

pub binomial_coeff : (n k : ℕ) → ℕ
binomial_coeff n k =
    let other = (n + (2 ^ 32 - k)) % 2 ^ 32 in
    binomial_coeff_from n 0 (if ltb other k then other else k) 1

-- `n + 1` is 0 for the largest `n`.
pub catalan : ℕ → Run ℕ
catalan n =
    let divisor = (n + 1) % 2 ^ 32 in
    if divisor == 0 then fault else ok (binomial_coeff ((2 * n) % 2 ^ 32) n / divisor)

-- `max_align` is the alignment of `GBL_MAX_ALIGN_T`.
unfoldable pub aligned_alloc_size : (max_align size align : ℕ) → Run ℕ
aligned_alloc_size max_align size align =
    let align = if align == 0 then max_align else align in
    let size = (size + (align + (2 ^ 64 - 1))) % 2 ^ 64 in
    let rounded = bit_and size (2 ^ 64 - 1 - (align + (2 ^ 64 - 1)) % 2 ^ 64) in
    if pow2_check align then ok rounded else fault

pub aligned_alloc_size_default : (max_align bytes : ℕ) → Run ℕ
aligned_alloc_size_default max_align bytes = aligned_alloc_size max_align bytes 0

pub gcd : ℕ → (u v : ℕ) → Run ℕ
gcd zero u v = out_of_fuel
gcd (suc k) u v =
    let rest = gcd k v (u % v) in if v == 0 then fault else if ltb 0 (u % v) then rest else ok v

pub lcm_from : ℕ → (lower higher lcm : ℕ) → Run ℕ
lcm_from zero lower higher lcm = out_of_fuel
lcm_from (suc k) lower higher lcm =
    let rest = lcm_from k lower higher (lcm + higher) in
    if lcm % lower == 0 then ok lcm else do _ ← add_int lcm higher; rest

pub lcm : ℕ → (u v : ℕ) → Run ℕ
lcm k u v =
    let found = lcm_from k (min u v) (max u v) (max u v) in
    if u == 0 then ok 0 else if v == 0 then ok 0 else found

-- At most 8 turns for the 8 bits of `n`.
pub parity_from : ℕ → (p : Bool) (n : ℕ) → Run Bool
parity_from zero p n = out_of_fuel
parity_from (suc k) p n =
    let rest = parity_from k (not p) (bit_and n (n - 1)) in if n == 0 then ok p else rest

pub parity : ℕ → Run Bool
parity n = parity_from 9 false n

-- The bytes in memory of an `uint32_t`, from the lowest address on.
abbrev pub byte : (i n : ℕ) → ℕ
byte i n = n / 2 ^ (8 * i) % 2 ^ 8

pub ntohl : ℕ → ℕ
ntohl n =
    bit_or (bit_or (bit_or (byte 0 n * 2 ^ 24) (byte 1 n * 2 ^ 16)) (byte 2 n * 2 ^ 8)) (byte 3 n)

pub htonl : ℕ → ℕ
htonl n =
    bit_or (bit_or (bit_or (byte 0 n * 2 ^ 24) (byte 1 n * 2 ^ 16)) (byte 2 n * 2 ^ 8)) (byte 3 n)

abbrev pub primes : List ℕ
primes =
    5 ∷ 11 ∷ 23 ∷ 47 ∷ 97 ∷ 197 ∷ 397 ∷ 797 ∷ 1597 ∷ 3203 ∷ 6421 ∷ 12853 ∷ 25717 ∷ 51437 ∷ 102877
    ∷ 205759 ∷ 411527 ∷ 823117 ∷ 1646237 ∷ 3292489 ∷ 6584983 ∷ 13169977 ∷ []

-- The loop over the table; the last entry is for a number that none exceeds.
pub prime_next_double_from : (number : ℕ) → List ℕ → ℕ
prime_next_double_from number [] = 13169977
prime_next_double_from number (p ∷ ps) =
    let rest = prime_next_double_from number ps in if ltb number p then p else rest

pub prime_next_double : ℕ → ℕ
prime_next_double number = prime_next_double_from number primes
