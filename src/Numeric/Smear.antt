-- ===== src/Numeric/Smear.antt =====
-- What copying the highest digit of a number down does to it.
use native.Mathlib.Nat.{pow-suc, mod-lt, div-le_self, div-add-mod', div-eq_of_lt-le}
use Prim.Native.Nat.{bit_or}
use libgimbal.Common.{
  ℕ, zero, suc, ◌+◌, ◌-◌, ◌*◌, ◌/◌, ◌%◌, ◌^◌, ◌≤◌, ◌<◌, ◌≡◌, ◌⊎◌, inl, inr, refl, ap, ap₂, sym, ◌∙◌,
  arith,
}
use libgimbal.Common.Bits.{
  bit_or-ge, bit_or-lt, bit_or-ones, bit_or-shift, regroup, shift-shift, shift-suc, some_power,
}
use libgimbal.Numeric.{smear}

-- `m` has `k` digits, and the highest `c` of them, or all, are ones.
pub record IsSmeared (k c m : ℕ) : Type 0 where
  pub digits : m < 2 ^ k
  pub top : c ≤ k → m / 2 ^ (k - c) ≡ 2 ^ c - 1
  pub all : k ≤ c → m ≡ 2 ^ k - 1

pub below_or_not : (a b : ℕ) → (a < b) ⊎ (b ≤ a)
below_or_not a b = ground arith

ones-shift : (j t : ℕ) → (2 ^ (j + t) - 1) / 2 ^ j ≡ 2 ^ t - 1
ones-shift zero t = omega (arith, ap (λ e. 2 ^ e) {x = 0 + t} {y = t} (omega arith))
ones-shift (suc j) t =
    shift-suc j (2 ^ (suc j + t) - 1)
    ∙ ap (λ x. x / 2 ^ j) {y = 2 ^ (j + t) - 1}
        (omega (
          arith,
          ap (λ e. 2 ^ e) {x = suc j + t} {y = suc (j + t)} (omega arith),
          pow-suc 2 (j + t),
          some_power (j + t),
        ))
    ∙ ones-shift j t

ones-split : (c t : ℕ) → (2 ^ c - 1) * 2 ^ t + (2 ^ t - 1) ≡ 2 ^ (c + t) - 1
ones-split c zero = omega (arith, ap (λ e. 2 ^ e) {x = c + 0} {y = c} (omega arith))
ones-split c (suc t) = omega (
  arith,
  ones-split c t,
  ap (λ m. (2 ^ c - 1) * m) (pow-suc 2 t),
  regroup (2 ^ c - 1) (2 ^ t),
  pow-suc 2 t,
  pow-suc 2 (c + t),
  ap (λ e. 2 ^ e) {x = c + suc t} {y = suc (c + t)} (omega arith),
  some_power t,
  some_power (c + t),
)

module _ (k c m : ℕ) (s : IsSmeared k c m) where
  shifted_small : m / 2 ^ c < 2 ^ k
  shifted_small = grind (arith, div-le_self m (2 ^ c), s.digits)

  smear-all : k ≤ c → smear c m ≡ 2 ^ k - 1
  smear-all h =
      omega
        (arith, s.all h, bit_or-ge m (m / 2 ^ c), bit_or-lt k m (m / 2 ^ c) s.digits shifted_small)

  shifted :
      (t q : ℕ)
      → c ≤ k
      → t ≤ c
      → c + t ≤ k
      → k - (c + t) ≡ q
      → (t ≡ c) ⊎ (c + t ≡ k)
      → m / 2 ^ c / 2 ^ q ≡ 2 ^ t - 1
  shifted t q h tc tk f (inl e) =
      shift-shift c q m
      ∙ ap (λ x. m / 2 ^ x) {x = c + q} {y = k - c} (omega arith)
      ∙ s.top h
      ∙ ap (λ x. 2 ^ x - 1) (sym e)
  shifted t q h tc tk f (inr e) =
      ap (λ x. m / 2 ^ c / 2 ^ x) {x = q} {y = 0} (omega arith)
      ∙ (omega (
        arith,
        ap (λ x. m / 2 ^ x) {x = c} {y = t + (c - t)} (omega arith),
        shift-shift t (c - t) m,
        ap (λ x. m / 2 ^ x) {x = t} {y = k - c} (omega arith),
        ap (λ x. x / 2 ^ (c - t)) {x = m / 2 ^ t} {y = 2 ^ c - 1}
            (ap (λ x. m / 2 ^ x) {x = t} {y = k - c} (omega arith) ∙ s.top h),
        ap (λ x. (2 ^ x - 1) / 2 ^ (c - t)) {x = c} {y = c - t + t} (omega arith),
        ones-shift (c - t) t,
      ))

  -- `t` digits more become ones, at most `c` and those that there are.
  smear-top :
      (t : ℕ)
      → c ≤ k
      → t ≤ c
      → c + t ≤ k
      → (t ≡ c) ⊎ (c + t ≡ k)
      → smear c m / 2 ^ (k - (c + t)) ≡ 2 ^ (c + t) - 1
  smear-top t h tc tk e =
      let q = k - (c + t) in
      let high : m / 2 ^ q / 2 ^ t ≡ 2 ^ c - 1 =
        shift-shift q t m ∙ ap (λ x. m / 2 ^ x) {x = q + t} {y = k - c} (omega arith) ∙ s.top h in
      let low = m / 2 ^ q % 2 ^ t in
      let split : m / 2 ^ q ≡ (2 ^ c - 1) * 2 ^ t + low =
        sym (div-add-mod' (m / 2 ^ q) (2 ^ t)) ∙ ap (λ x. x * 2 ^ t + low) high in
      bit_or-shift q m (m / 2 ^ c)
      ∙ ap₂ bit_or split (shifted t q h tc tk refl e)
      ∙ bit_or-ones t (2 ^ c - 1) low (mod-lt (m / 2 ^ q) (some_power t))
      ∙ ones-split c t

  fills : k ≤ c + c → (k ≤ c) ⊎ (c ≤ k)
  fills h = ground arith

  smear-rest : c ≤ k → k ≤ c + c → smear c m ≡ 2 ^ k - 1
  smear-rest l h =
      let top = smear-top (k - c) l (omega arith) (omega arith) (inr (omega arith)) in
      omega (
        arith,
        top,
        ap (λ x. smear c m / 2 ^ x) {x = k - (c + (k - c))} {y = 0} (omega arith),
        ap (λ x. 2 ^ x) {x = c + (k - c)} {y = k} (omega arith),
      )

  pub smear-IsSmeared : IsSmeared k (c + c) (smear c m)
  smear-IsSmeared = record {
    digits = bit_or-lt k m (m / 2 ^ c) s.digits shifted_small;
    top = λ h. smear-top c (omega arith) (omega arith) h (inl refl);
    all = λ h. elim (fills h) [ inl l ↦ smear-all l | inr l ↦ smear-rest l h ];
  }

-- The number of digits of `m`.
pub digits_of : (w m : ℕ) → 1 ≤ m → m < 2 ^ w → (k : ℕ) × (k < w) × (2 ^ k ≤ m) × (m < 2 ^ k * 2)
digits_of zero m h l = absurd (omega arith)
digits_of (suc w) m h l = elim (below_or_not m (2 ^ w)) [
  | inl b ↦ let (k, kw, lo, hi) = digits_of w m h b in (k, omega arith, lo, hi)
  | inr g ↦ (w, omega arith, g, omega (arith, pow-suc 2 w))
]

one-top : (k m : ℕ) → 2 ^ k ≤ m → m < 2 ^ k * 2 → m / 2 ^ (suc k - 1) ≡ 2 ^ 1 - 1
one-top k m h l =
    ap (λ e. m / 2 ^ e) {x = suc k - 1} {y = k} (omega arith)
    ∙ div-eq_of_lt-le {k = 1} (2 ^ k) {m = m} (omega arith) (omega arith)

one-all : (k m : ℕ) → 2 ^ k ≤ m → m < 2 ^ k * 2 → k ≡ 0 → m ≡ 2 ^ suc k - 1
one-all k m h l e = omega (arith, ap (λ x. 2 ^ x) e, ap (λ x. 2 ^ suc x) e)

pub IsSmeared-one : (k m : ℕ) → 2 ^ k ≤ m → m < 2 ^ k * 2 → IsSmeared (suc k) 1 m
IsSmeared-one k m h l = record {
  digits = omega (arith, pow-suc 2 k);
  top = λ p. one-top k m h l;
  all = λ p. one-all k m h l (omega arith);
}
