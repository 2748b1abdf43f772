-- ===== src/Version/Packed.antt =====
-- The fields of a packed version, and the order of versions.
use Prim.Native.Nat.{bit_and, bit_or}
use libgimbal.Common.{ℕ, ◌+◌, ◌-◌, ◌*◌, ◌/◌, ◌%◌, ◌^◌, ◌<◌, ◌≡◌, ◌⊎◌, ◌↔◌, ap₂, ◌∙◌, arith}
use libgimbal.Common.Bits.{bit_and-mask, bit_or-add}
use libgimbal.Version.{make, major, minor, patch}

make-sum :
    (a b c : ℕ) → a < 2 ^ 8 → b < 2 ^ 16 → c < 2 ^ 8 → make a b c ≡ a * 2 ^ 24 + b * 2 ^ 8 + c
unfolding make
make-sum a b c h k l =
    let first : bit_and a (2 ^ 8 - 1) * 2 ^ 24 % 2 ^ 32 ≡ a * 2 ^ 24 =
      omega (arith, bit_and-mask 8 a) in
    let second : bit_and b (2 ^ 16 - 1) * 2 ^ 8 % 2 ^ 32 ≡ b * 2 ^ 8 =
      omega (arith, bit_and-mask 16 b) in
    let third : bit_and c (2 ^ 8 - 1) ≡ c = omega (arith, bit_and-mask 8 c) in
    ap₂ bit_or (ap₂ bit_or first second ∙ bit_or-add 24 a (b * 2 ^ 8) (omega arith) ∙ (omega arith))
      third
    ∙ bit_or-add 8 (a * 2 ^ 16 + b) c l
    ∙ (omega arith)

-- `GblVersion_major`, `GblVersion_minor` and `GblVersion_patch` of what `GblVersion_make` returns for
-- numbers of 8, 16 and 8 bits are these numbers.
pub make-fields :
    (a b c : ℕ)
    → a < 2 ^ 8
    → b < 2 ^ 16
    → c < 2 ^ 8
    → (major (make a b c) ≡ a) × (minor (make a b c) ≡ b) × (patch (make a b c) ≡ c)
unfolding major minor patch
make-fields a b c h k l =
    let sum = make-sum a b c h k l in
    (
      omega (arith, bit_and-mask 8 (make a b c / 2 ^ 24), sum),
      omega (arith, bit_and-mask 16 (make a b c / 2 ^ 8), sum),
      omega (arith, bit_and-mask 8 (make a b c), sum),
    )

-- Packed versions are ordered as their fields, the major one first. The fields have 8, 16 and 8 bits.
pub make_order :
    (a b c d e f : ℕ)
    → a < 2 ^ 8
    → b < 2 ^ 16
    → c < 2 ^ 8
    → d < 2 ^ 8
    → e < 2 ^ 16
    → f < 2 ^ 8
    → (make a b c < make d e f) ↔ ((a < d) ⊎ ((a ≡ d) × ((b < e) ⊎ ((b ≡ e) × (c < f)))))
make_order a b c d e f ha hb hc hd he hf =
    let left = make-sum a b c ha hb hc in
    let right = make-sum d e f hd he hf in omega (arith, left, right)
