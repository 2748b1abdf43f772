-- ===== src/Numeric/Bytes.antt =====
-- gblParity, whose argument is a byte: every one of them is tried.
use mathlib.Core.Path.{subst}
use libgimbal.Common.{
  ◌⊎◌, inl, inr, ℕ, zero, suc, ◌+◌, ◌/◌, ◌%◌, ◌≤◌, ◌<◌, ◌≡◌, refl, Bool, true, false, arith, ◌==◌,
  if◌then◌else◌,
}
use libgimbal.Memory.{Run, ok, fault, out_of_fuel}
use libgimbal.Numeric.{parity, parity_from}

here_or_later : (a b : ℕ) → a ≤ b → (a ≡ b) ⊎ (a + 1 ≤ b)
here_or_later a b h = ground arith

-- The `count` numbers from `first` on pass the test.
pass_from : (ℕ → Bool) → (first count : ℕ) → Bool
pass_from test first zero = true
pass_from test first (suc count) =
    let others = pass_from test (first + 1) count in if test first then others else false

pass_from_lem :
    (test : ℕ → Bool) (count first n : ℕ)
    → pass_from test first count ≡ true
    → first ≤ n
    → n < first + count
    → test n ≡ true
unfolding pass_from
pass_from_lem test zero first n e l u = absurd (omega arith)
pass_from_lem test (suc count) first n e l u = elim (here_or_later first n l) [
  | inl same ↦
      let at_first : test first ≡ true = ground arith in subst (λ m. test m ≡ true) same at_first
  | inr later ↦ pass_from_lem test count (first + 1) n (ground arith) later (omega arith)
]

-- The number of ones among the lowest `k` bits.
pub ones : (k n : ℕ) → ℕ
ones zero n = 0
ones (suc k) n = n % 2 + ones k (n / 2)

abbrev agrees : Run Bool → ℕ → Bool
agrees (ok p) b = if p then b == 1 else (b == 0)
agrees fault b = false
agrees out_of_fuel b = false

agrees_sound : (r : Run Bool) (b : ℕ) → agrees r b ≡ true → r ≡ ok (b == 1)
agrees_sound (ok p) b e = ground arith
agrees_sound fault b e = absurd (ground arith)
agrees_sound out_of_fuel b e = absurd (ground arith)

parity_table : pass_from (λ n. agrees (parity n) (ones 8 n % 2)) 0 256 ≡ true
unfolding pass_from parity parity_from ones
parity_table = refl

-- `gblParity` of a byte tells whether the number of its ones is odd.
pub parity-ones : (n : ℕ) → n < 256 → parity n ≡ ok (ones 8 n % 2 == 1)
parity-ones n h = agrees_sound (parity n) (ones 8 n % 2) (
    pass_from_lem (λ n. agrees (parity n) (ones 8 n % 2)) 256 0 n parity_table (omega arith)
      (omega arith))
