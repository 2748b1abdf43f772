-- ===== src/Numeric/Fibonacci.antt =====
-- gblFibonacci against the recursive definition of the Fibonacci numbers.
use libgimbal.Common.{ℕ, zero, suc, ◌+◌, ◌-◌, ◌^◌, ◌≤◌, ◌<◌, ◌≡◌, ap, arith, ltb, if◌then◌else◌}
use libgimbal.Memory.{ok, fault}
use libgimbal.Numeric.{fibonacci_from, fibonacci}

abbrev pub fib : ℕ → ℕ
fib zero = 0
fib (suc zero) = 1
fib (suc (suc n)) = fib (suc n) + fib n

fib-grows : (n m p : ℕ) → p ≡ n + m → fib (suc m) ≤ fib (suc p)
fib-grows zero m p e = omega (arith, ap (λ x. fib (suc x)) {x = p} {y = m} (omega arith))
fib-grows (suc n) m zero e = absurd (omega arith)
fib-grows (suc n) m (suc p) e = omega (arith, fib-grows n m p (omega arith))

in_range : (n : ℕ) → n < 2 ^ 31 → (if ltb n (2 ^ 31) then ok n else fault) ≡ ok n
in_range n h = ground arith

fibonacci_from_lem :
    (count i n : ℕ)
    → n ≡ count + i
    → fib (suc n) < 2 ^ 31
    → fibonacci_from (fib i) (fib (suc i)) count ≡ ok (fib (suc n))
unfolding fibonacci_from
fibonacci_from_lem zero i n e b = ap (λ x. ok (fib (suc x))) (omega arith)
fibonacci_from_lem (suc count) i n e b =
    let sum : fib i + fib (suc i) ≡ fib (suc (suc i)) = omega arith in
    let small : fib (suc (suc i)) ≤ fib (suc n) = fib-grows count (suc i) n (omega arith) in
    let rest : fibonacci_from (fib (suc i)) (fib (suc (suc i))) count ≡ ok (fib (suc n)) =
      fibonacci_from_lem count (suc i) n (omega arith) b in
    rw sum (rw (in_range (fib (suc (suc i))) (omega arith)) rest)

-- `gblFibonacci` returns the Fibonacci number, if an `int` can hold it.
pub fibonacci-fib : (n : ℕ) → fib n < 2 ^ 31 → fibonacci n ≡ ok (fib n)
unfolding fibonacci
fibonacci-fib zero b = ground arith
fibonacci-fib (suc n) b =
    let turns : suc n + 1 - 2 ≡ n = omega arith in
    ground (arith, turns, fibonacci_from_lem n 0 n (omega arith) b)
