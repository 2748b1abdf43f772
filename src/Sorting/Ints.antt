-- ===== src/Sorting/Ints.antt =====
-- The conversions of a `size_t` to an `int` in gimbal_sort.c, where it is small enough.
use libgimbal.Common.{ℕ, zero, suc, ◌^◌, ◌%◌, ◌+◌, ◌-◌, ◌<◌, ◌≡◌, refl, ltb, true, arith}
use libgimbal.Common.Int.{pos}
use libgimbal.Sorting.{to_int, rounds}

pub to_int_small : (n : ℕ) → n < 2 ^ 31 → to_int n ≡ pos n
to_int_small n h =
    let low : n % 2 ^ 32 ≡ n = omega arith in
    let small : ltb n (2 ^ 31) ≡ true = ground arith in rw (low, small) refl

-- A loop from `n - 1` down to 0 has `n` rounds, also where that wraps.
pub rounds_from : (n : ℕ) → n < 2 ^ 31 → rounds (to_int ((n + (2 ^ 64 - 1)) % 2 ^ 64)) ≡ n
rounds_from zero h = refl
rounds_from (suc n) h =
    let low : (suc n + (2 ^ 64 - 1)) % 2 ^ 64 ≡ n = omega arith in
    rw (low, to_int_small n (omega arith)) refl
