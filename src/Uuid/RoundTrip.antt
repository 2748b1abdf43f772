-- ===== src/Uuid/RoundTrip.antt =====
-- Parsing what was printed.
use Prim.Native.Nat.{bit_or}
use libgimbal.Common.{
  ℕ, suc, ◌+◌, ◌*◌, ◌/◌, ◌%◌, ◌^◌, ◌<◌, ◌≡◌, refl, ap, ◌∙◌, true, false, inl, inr, arith,
  if◌then◌else◌, Bool-cases, ◌==◌, leb, List, [], ◌∷◌, some, length,
}
use libgimbal.Common.Bits.{bit_or-add}
use libgimbal.Uuid.{
  Result, success, lower, dash_at, dash_before, ascii_digit_value, ascii_hex_digit_value,
  print_from, string, parse_digits, parse_from, parse,
}

abbrev pub AreBytes : List ℕ → Type 0
AreBytes [] = Unit
AreBytes (x ∷ xs) = (x < 256) × AreBytes xs

value-lower : (d : ℕ) → d < 16 → ascii_hex_digit_value (lower d) ≡ some d
unfolding ascii_hex_digit_value ascii_digit_value
value-lower d h = ground arith

-- The position of the first character for the byte `b`, a dash if there is one.
abbrev offset : ℕ → ℕ
offset b =
    if leb b 4
    then 2 * b
    else if leb b 6
    then 2 * b + 1
    else if leb b 8
    then 2 * b + 2
    else if leb b 10
    then 2 * b + 3
    else 2 * b + 4

digits_lem :
    (n x : ℕ) (r : Result × List ℕ)
    → x < 256
    → parse_digits n
        (ascii_hex_digit_value (lower (x / 16)))
        (ascii_hex_digit_value (lower (x % 16)))
        r
      ≡ (r.0, x ∷ r.1)
unfolding parse_digits
digits_lem n x r h =
    let high = value-lower (x / 16) (omega arith) in
    let low = value-lower (x % 16) (omega arith) in
    let byte : bit_or (x / 16 * 2 ^ 4) (x % 16) ≡ x =
      bit_or-add 4 (x / 16) (x % 16) (omega arith) ∙ (omega arith) in
    rw (high, low) (ap (λ v. (r.0, v ∷ r.1)) byte)

-- The digits of a byte, where no dash is due.
digits_step :
    (n c x : ℕ) (chars xs : List ℕ)
    → dash_at c ≡ false
    → x < 256
    → parse_from n (c + 2) chars ≡ (success, xs)
    → parse_from (suc n) c (lower (x / 16) ∷ lower (x % 16) ∷ chars) ≡ (success, x ∷ xs)
unfolding parse_from
digits_step n c x chars xs d h e =
    rw d (digits_lem (suc n) x (parse_from n (c + 2) chars) h ∙ ap (λ r. (r.0, x ∷ r.1)) e)

parse_from-print_from :
    (xs : List ℕ) (b : ℕ)
    → b + length xs ≡ 16
    → AreBytes xs
    → parse_from (length xs) (offset b) (print_from b xs) ≡ (success, xs)
unfolding parse_from print_from
parse_from-print_from [] b e h = refl
parse_from-print_from (x ∷ xs) b e h =
    let rest = parse_from-print_from xs (b + 1) (omega arith) h.1 in
    let chars = print_from (b + 1) xs in
    elim (Bool-cases (dash_before b)) [
      | inl d ↦
          let here : dash_at (offset b) ≡ true = ground arith in
          let later : dash_at (offset b + 1) ≡ false = ground arith in
          let next : offset (b + 1) ≡ offset b + 1 + 2 = ground arith in
          rw (d, here)
            (digits_step (length xs) (offset b + 1) x chars xs later h.0 (rw next at rest))
      | inr d ↦
          let here : dash_at (offset b) ≡ false = ground arith in
          let next : offset (b + 1) ≡ offset b + 2 = ground arith in
          rw d (digits_step (length xs) (offset b) x chars xs here h.0 (rw next at rest))
    ]

length-print_from :
    (xs : List ℕ) (b : ℕ) → b + length xs ≡ 16 → length (print_from b xs) + offset b ≡ 36
unfolding print_from
length-print_from [] b e = ground arith
length-print_from (x ∷ xs) b e = ground (arith, length-print_from xs (b + 1))

-- `GblUuid_parse` of what `GblUuid_string` prints for 16 bytes succeeds and gives these bytes.
pub parse-string :
    (bytes : List ℕ) → length bytes ≡ 16 → AreBytes bytes → parse (string bytes) ≡ (success, bytes)
unfolding parse string
parse-string bytes e h =
    let long : (length (print_from 0 bytes) == 36) ≡ true =
      ground (arith, length-print_from bytes 0 (omega arith)) in
    let all = parse_from-print_from bytes 0 (omega arith) h in rw long (rw e at all)
