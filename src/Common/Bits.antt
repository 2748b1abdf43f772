-- ===== src/Common/Bits.antt =====
-- The bitwise operations on native numbers, one binary digit at a time: bounds, masks and shifts.
use native.Mathlib.Nat.{
  pow-suc, pow-succ', div-div-eq-div-mul, div-add-mod, mul-add-mod_self_left, mod-eq_of_lt, mod-lt,
}
use Prim.Native.Nat.{bit_and, bit_or, digits, bit_and-bitwise, bit_or-bitwise}
use libgimbal.Common.{
  ℕ, zero, suc, ◌+◌, ◌-◌, ◌*◌, ◌/◌, ◌%◌, ◌^◌, ◌≤◌, ◌<◌, ◌≡◌, refl, ap, ap₂, sym, ◌∙◌, min, max,
  arith,
}

-- The digits above the lowest one do not depend on how many more there may be.
module _ (z : ℕ → ℕ) (f : ℕ → ℕ → ℕ) where
  digits_enough : (n m a b : ℕ) → a ≤ n → a ≤ m → digits z f n a b ≡ digits z f m a b
  digits_enough zero zero a b p q = refl
  digits_enough zero (suc m) zero b p q = refl
  digits_enough (suc n) zero zero b p q = refl
  digits_enough (suc n) (suc m) zero b p q = refl
  digits_enough (suc n) (suc m) (suc a) b p q =
      ap (λ x. x * 2 + f (suc a % 2) (b % 2))
        (digits_enough n m (suc a / 2) (b / 2) (omega arith) (omega arith))
  digits_enough n m a b p q = absurd (omega arith)

or_none : (b : ℕ) → bit_or 0 b ≡ b
or_none b = bit_or-bitwise 0 b

and_none : (b : ℕ) → bit_and 0 b ≡ 0
and_none b = bit_and-bitwise 0 b

-- The lowest digit of a bitwise or, and the digits above.
pub bit_or-half : (a b : ℕ) → bit_or a b ≡ bit_or (a / 2) (b / 2) * 2 + max (a % 2) (b % 2)
bit_or-half zero b = omega (arith, or_none b, or_none (b / 2))
bit_or-half (suc a) b = omega (
  arith,
  bit_or-bitwise (suc a) b,
  bit_or-bitwise (suc a / 2) (b / 2),
  digits_enough (λ b. b) max a (suc a / 2) (suc a / 2) (b / 2) (omega arith) (omega arith),
)

pub bit_and-half : (a b : ℕ) → bit_and a b ≡ bit_and (a / 2) (b / 2) * 2 + min (a % 2) (b % 2)
bit_and-half zero b = omega (arith, and_none b, and_none (b / 2))
bit_and-half (suc a) b = omega (
  arith,
  bit_and-bitwise (suc a) b,
  bit_and-bitwise (suc a / 2) (b / 2),
  digits_enough (λ b. 0) min a (suc a / 2) (suc a / 2) (b / 2) (omega arith) (omega arith),
)

bit_or_grows : (n a b : ℕ) → a ≤ n → a ≤ bit_or a b
bit_or_grows zero a b h = omega arith
bit_or_grows (suc n) zero b h = omega arith
bit_or_grows (suc n) (suc a) b h =
    omega (arith, bit_or-half (suc a) b, bit_or_grows n (suc a / 2) (b / 2) (omega arith))

-- A bitwise or is not less than its first argument, and stays below a power of 2.
pub bit_or-ge : (a b : ℕ) → a ≤ bit_or a b
bit_or-ge a b = bit_or_grows a a b (omega arith)

pub bit_or-lt : (k a b : ℕ) → a < 2 ^ k → b < 2 ^ k → bit_or a b < 2 ^ k
bit_or-lt zero a b h l =
    omega (arith, ap₂ bit_or {x = a} {y = 0} {u = b} {v = 0} (omega arith) (omega arith), or_none 0)
bit_or-lt (suc k) a b h l = omega (
  arith,
  bit_or-half a b,
  pow-suc 2 k,
  bit_or-lt k (a / 2) (b / 2) (omega (arith, pow-suc 2 k)) (omega (arith, pow-suc 2 k)),
)

bit_and_zero : (n a : ℕ) → a ≤ n → bit_and a 0 ≡ 0
bit_and_zero n zero h = and_none 0
bit_and_zero zero (suc a) h = absurd (omega arith)
bit_and_zero (suc n) (suc a) h =
    omega (arith, bit_and-half (suc a) 0, bit_and_zero n (suc a / 2) (omega arith))

pub some_power : (k : ℕ) → 0 < 2 ^ k
some_power zero = omega arith
some_power (suc k) = omega (arith, some_power k, pow-suc 2 k)

-- Of an even number `m * 2`, the remainder has the lowest digit of its own.
mod-double : (a m : ℕ) → 0 < m → a % (m * 2) ≡ a / 2 % m * 2 + a % 2
mod-double a m h =
    let q = a / 2 / m in
    let low = a / 2 % m * 2 + a % 2 in
    let regroup : m * 2 * q ≡ m * q * 2 = grind arith in
    let split : a ≡ m * 2 * q + low = omega (arith, regroup, div-add-mod (a / 2) m) in
    ap (λ x. x % (m * 2)) split
    ∙ mul-add-mod_self_left (m * 2) q low
    ∙ mod-eq_of_lt (omega (arith, mod-lt (a / 2) h))

-- A bitwise and with `k` ones is a remainder.
pub bit_and-mask : (k a : ℕ) → bit_and a (2 ^ k - 1) ≡ a % 2 ^ k
bit_and-mask zero a = omega (arith, bit_and_zero a a (omega arith))
bit_and-mask (suc k) a =
    let double = pow-suc 2 k in
    let half : (2 ^ suc k - 1) / 2 ≡ 2 ^ k - 1 = omega arith in
    omega (
      arith,
      bit_and-half a (2 ^ suc k - 1),
      ap (bit_and (a / 2)) half,
      bit_and-mask k (a / 2),
      mod-double a (2 ^ k) (some_power k),
      ap (λ m. a % m) double,
      some_power k,
    )

-- With ones above `k` zeros, in `w` digits together, it leaves out the remainder.
pub bit_and-above : (k w a : ℕ) → k ≤ w → a < 2 ^ w → bit_and a (2 ^ w - 2 ^ k) ≡ a - a % 2 ^ k
bit_and-above zero w a h l = omega (arith, bit_and-mask w a, mod-eq_of_lt l)
bit_and-above (suc k) zero a h l = absurd (omega arith)
bit_and-above (suc k) (suc w) a h l =
    let double = pow-suc 2 k in
    let double_all = pow-suc 2 w in
    let half : (2 ^ suc w - 2 ^ suc k) / 2 ≡ 2 ^ w - 2 ^ k = omega arith in
    omega (
      arith,
      bit_and-half a (2 ^ suc w - 2 ^ suc k),
      ap (bit_and (a / 2)) half,
      bit_and-above k w (a / 2) (omega arith) (omega arith),
      mod-double a (2 ^ k) (some_power k),
      ap (λ m. a % m) double,
    )

bit_or_zero : (n a : ℕ) → a ≤ n → bit_or a 0 ≡ a
bit_or_zero n zero h = or_none 0
bit_or_zero zero (suc a) h = absurd (omega arith)
bit_or_zero (suc n) (suc a) h =
    omega (arith, bit_or-half (suc a) 0, bit_or_zero n (suc a / 2) (omega arith))

pub regroup : (a m : ℕ) → a * (m * 2) ≡ a * m * 2
regroup a m = grind arith

-- A bitwise or of digits below `k` with digits from `k` on is a sum.
pub bit_or-add : (k a b : ℕ) → b < 2 ^ k → bit_or (a * 2 ^ k) b ≡ a * 2 ^ k + b
bit_or-add zero a b h = omega (
  arith,
  ap (bit_or (a * 1)) {x = b} {y = 0} (omega arith),
  bit_or_zero (a * 1) (a * 1) (omega arith),
)
bit_or-add (suc k) a b h =
    let double : a * 2 ^ suc k ≡ a * 2 ^ k * 2 =
      ap (λ m. a * m) (pow-suc 2 k) ∙ regroup a (2 ^ k) in
    let half : a * 2 ^ suc k / 2 ≡ a * 2 ^ k = omega arith in
    omega (
      arith,
      bit_or-half (a * 2 ^ suc k) b,
      ap (λ x. bit_or x (b / 2)) half,
      bit_or-add k a (b / 2) (omega (arith, pow-suc 2 k)),
    )

-- Ones below `k` digits fill them.
pub bit_or-ones :
    (k a b : ℕ) → b < 2 ^ k → bit_or (a * 2 ^ k + b) (2 ^ k - 1) ≡ a * 2 ^ k + (2 ^ k - 1)
bit_or-ones zero a b h = omega (
  arith,
  ap (λ x. bit_or (a * 1 + x) 0) {x = b} {y = 0} (omega arith),
  bit_or_zero (a * 1 + 0) (a * 1 + 0) (omega arith),
)
bit_or-ones (suc k) a b h =
    let double = pow-suc 2 k in
    let double_all : a * 2 ^ suc k ≡ a * 2 ^ k * 2 = ap (λ m. a * m) double ∙ regroup a (2 ^ k) in
    let half : (a * 2 ^ suc k + b) / 2 ≡ a * 2 ^ k + b / 2 = omega arith in
    let half_ones : (2 ^ suc k - 1) / 2 ≡ 2 ^ k - 1 = omega arith in
    omega (
      arith,
      bit_or-half (a * 2 ^ suc k + b) (2 ^ suc k - 1),
      ap₂ bit_or half half_ones,
      bit_or-ones k a (b / 2) (omega arith),
      some_power k,
    )

pub shift-suc : (k a : ℕ) → a / 2 ^ suc k ≡ a / 2 / 2 ^ k
shift-suc k a = ap (λ m. a / m) (pow-succ' 2 k) ∙ sym (div-div-eq-div-mul a 2 (2 ^ k))

pub shift-shift : (j k a : ℕ) → a / 2 ^ j / 2 ^ k ≡ a / 2 ^ (j + k)
shift-shift zero k a = ap₂ (λ x e. x / 2 ^ e) {x = a / 1} {y = a} (omega arith) (omega arith)
shift-shift (suc j) k a =
    ap (λ x. x / 2 ^ k) (shift-suc j a)
    ∙ shift-shift j k (a / 2)
    ∙ sym (shift-suc (j + k) a)
    ∙ ap (λ e. a / 2 ^ e) {x = suc (j + k)} {y = suc j + k} (omega arith)

-- A shift of a bitwise or.
pub bit_or-shift : (k a b : ℕ) → bit_or a b / 2 ^ k ≡ bit_or (a / 2 ^ k) (b / 2 ^ k)
bit_or-shift zero a b =
    omega (arith, ap₂ bit_or {x = a / 1} {y = a} {u = b / 1} {v = b} (omega arith) (omega arith))
bit_or-shift (suc k) a b =
    shift-suc k (bit_or a b)
    ∙ ap (λ x. x / 2 ^ k) {y = bit_or (a / 2) (b / 2)} (omega (arith, bit_or-half a b))
    ∙ bit_or-shift k (a / 2) (b / 2)
    ∙ ap₂ bit_or (sym (shift-suc k a)) (sym (shift-suc k b))
