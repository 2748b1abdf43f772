-- ===== src/Numeric/Tests.antt =====
-- The theorems on numbers at concrete numbers.
use libgimbal.Common.{ℕ, ◌≡◌, refl, true, false, arith}
use libgimbal.Memory.{ok}
use libgimbal.Numeric.{gcd, uint16, pow2_next, prime_check, prime_check_from}
use libgimbal.Numeric.Pow2.{IsNextPow2, pow2_next-IsNextPow2}

gcd-run : gcd 19 12 18 ≡ ok 6
unfolding gcd
gcd-run = refl

prime_check-run : prime_check 13 ≡ true
unfolding prime_check prime_check_from
prime_check-run = refl

composite-run : prime_check 15 ≡ false
unfolding prime_check prime_check_from
composite-run = refl

-- 0 and 1 are accepted.
small-run : (prime_check 0 ≡ true) × (prime_check 1 ≡ true)
unfolding prime_check prime_check_from
small-run = (refl, refl)

pow2_next-IsNextPow2_example : (r : ℕ) × (pow2_next uint16 33 ≡ ok r) × IsNextPow2 33 r
pow2_next-IsNextPow2_example = pow2_next-IsNextPow2 uint16 33 (omega arith) (omega arith)
