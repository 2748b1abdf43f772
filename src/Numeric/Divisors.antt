-- ===== src/Numeric/Divisors.antt =====
-- gblGcd and gblPrimeCheck against divisibility.
use native.Mathlib.Nat.{div-add-mod, mul-sub, mul_comm, mod-eq-sub-mul-div}
use libgimbal.Common.{
  ℕ, zero, suc, ◌+◌, ◌-◌, ◌*◌, ◌/◌, ◌%◌, ◌≤◌, ◌<◌, ◌≡◌, ◌≢◌, ap, ap₂, sym, ◌∙◌, true, false, arith,
  ◌⊎◌, inl, inr,
}
use mathlib.Core.Path.{subst}
use libgimbal.Memory.{ok}
use libgimbal.Numeric.{gcd, prime_check_from, prime_check}

-- `d` divides `n`.
abbrev pub Divides : (d n : ℕ) → Type 0
Divides d n = (q : ℕ) × (n ≡ q * d)

combine : (w p q d : ℕ) → p * d * w + q * d ≡ (w * p + q) * d
combine w p q d = grind arith

Divides-remainder : (d u v : ℕ) → Divides d v → Divides d (u % v) → Divides d u
Divides-remainder d u v (p, e) (q, f) = (
  u / v * p + q,
  sym (div-add-mod u v) ∙ ap₂ (λ x y. x * (u / v) + y) e f ∙ combine (u / v) p q d,
)

separate : (w p q d : ℕ) → p * d - q * d * w ≡ (p - q * w) * d
separate w p q d =
    ap₂ (λ x y. x - y) {x = p * d} {y = d * p} {u = q * d * w} {v = d * (q * w)} (grind arith)
      (grind arith)
    ∙ sym (mul-sub d p (q * w))
    ∙ mul_comm d (p - q * w)

Divides-mod : (d u v : ℕ) → Divides d u → Divides d v → Divides d (u % v)
Divides-mod d u v (p, e) (q, f) = (
  p - q * (u / v),
  mod-eq-sub-mul-div u v ∙ ap₂ (λ x y. x - y * (u / v)) e f ∙ separate (u / v) p q d,
)

lt_or_ge : (a b : ℕ) → (a < b) ⊎ (b ≤ a)
lt_or_ge a b = ground arith

zero_or_pos : (n : ℕ) → (n ≡ 0) ⊎ (0 < n)
zero_or_pos n = ground arith

less : (u v k : ℕ) → 0 < v → v < suc k → u % v < k
less u v k h f = grind arith

-- `gblGcd` with enough fuel and a second argument that is not 0 returns a divisor of both arguments.
pub gcd-Divides :
    (k u v : ℕ) → 0 < v → v < k → (g : ℕ) × (gcd k u v ≡ ok g) × Divides g u × Divides g v
unfolding gcd
gcd-Divides zero u v h f = absurd (omega arith)
gcd-Divides (suc k) u v h f = elim (zero_or_pos (u % v)) [
  | inl z ↦ (v, ground arith, (u / v, grind arith), (1, omega arith))
  | inr p ↦
      let (g, run, a, b) = gcd-Divides k v (u % v) p (less u v k h f) in
      (g, ground arith, Divides-remainder g u v a b, a)
]

-- Every common divisor of the arguments of `gblGcd`, the second of which is not 0, divides what it
-- returns with enough fuel.
pub gcd-greatest :
    (k u v d g : ℕ) → gcd k u v ≡ ok g → 0 < v → v < k → Divides d u → Divides d v → Divides d g
unfolding gcd
gcd-greatest zero u v d g e h f a b = absurd (omega arith)
gcd-greatest (suc k) u v d g e h f a b = elim (zero_or_pos (u % v)) [
  | inl z ↦ let same : g ≡ v = ground arith in subst (λ x. Divides d x) (sym same) b
  | inr p ↦ gcd-greatest k v (u % v) d g (ground arith) p (less u v k h f) b (Divides-mod d u v a b)
]

prime_check_from_lem :
    (n i count d : ℕ) → prime_check_from n i count ≡ true → i ≤ d → d < i + count → n % d ≢ 0
unfolding prime_check_from
prime_check_from_lem n i zero d e l u = absurd (omega arith)
prime_check_from_lem n i (suc count) d e l u = elim (zero_or_pos (d - i)) [
  | inl z ↦ λ m.
      let same : d ≡ i = omega arith in
      let none : n % i ≡ 0 = ap (λ x. n % x) (sym same) ∙ m in absurd (ground arith)
  | inr p ↦ prime_check_from_lem n (i + 1) count d (ground arith) (omega arith) (omega arith)
]

prime_check_from-false :
    (n i count : ℕ)
    → prime_check_from n i count ≡ false
    → (d : ℕ) × (i ≤ d) × (d < i + count) × (n % d ≡ 0)
unfolding prime_check_from
prime_check_from-false n i zero e = absurd (ground arith)
prime_check_from-false n i (suc count) e = elim (zero_or_pos (n % i)) [
  | inl z ↦ (i, omega arith, omega arith, z)
  | inr p ↦
      let (d, l, u, m) = prime_check_from-false n (i + 1) count (ground arith) in
      (d, omega arith, omega arith, m)
]

-- If `gblPrimeCheck` accepts a number, no number from 2 on and below it divides it.
pub prime_check-true : (n d : ℕ) → prime_check n ≡ true → 2 ≤ d → d < n → n % d ≢ 0
unfolding prime_check
prime_check-true n d e l u = elim (lt_or_ge (n / 2) d) [
  | inl above ↦ let rest : n % d ≡ n - d = grind arith in λ m. absurd (omega arith)
  | inr g ↦ prime_check_from_lem n 2 (n / 2 + 1 - 2) d e l (omega arith)
]

-- If `gblPrimeCheck` rejects a number, a number from 2 on and below it divides it.
pub prime_check-false : (n : ℕ) → prime_check n ≡ false → (d : ℕ) × (2 ≤ d) × (d < n) × (n % d ≡ 0)
unfolding prime_check
prime_check-false n e =
    let (d, l, u, m) = prime_check_from-false n 2 (n / 2 + 1 - 2) e in (d, l, omega arith, m)
