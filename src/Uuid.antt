-- ===== src/Uuid.antt =====
-- lib/source/utils/gimbal_uuid.c: printing and parsing UUIDs, with the digits of
-- lib/source/strings/gimbal_string.c.
--
-- A UUID is the list of its 16 bytes, and a string the list of its characters, without the
-- terminator. Pointers are not NULL, and the machine is little-endian.
pub mod RoundTrip
mod Tests
use Prim.Native.Nat.{bit_or}
use libgimbal.Common.{
  ℕ, zero, suc, ◌+◌, ◌-◌, ◌*◌, ◌/◌, ◌%◌, ◌^◌, Bool, true, false, ◌&&◌, ◌||◌, Option, none, some,
  List, [], ◌∷◌, length, ltb, leb, ◌==◌, if◌then◌else◌,
}

pub data Result : Type 0 where
  success invalid_arg out_of_range : Result

-- '-'
abbrev pub dash : ℕ
dash = 45

-- none for -1; `isdigit` is true of '0' to '9'
unfoldable pub ascii_digit_value : ℕ → Option ℕ
ascii_digit_value c = if leb 48 c && leb c 57 then some (c - 48) else none

unfoldable pub ascii_hex_digit_value : ℕ → Option ℕ
unfolding ascii_digit_value
ascii_hex_digit_value c =
    if leb 65 c && leb c 70
    then some (c - 65 + 10)
    else if leb 97 c && leb c 102
    then some (c - 97 + 10)
    else ascii_digit_value c

abbrev pub zeros : ℕ → List ℕ
zeros zero = []
zeros (suc n) = 0 ∷ zeros n

pub nil : List ℕ
nil = zeros 16

pub is_nil : List ℕ → Bool
is_nil [] = true
is_nil (b ∷ bs) = if b == 0 then is_nil bs else false

-- the character of a digit below 16, as `%02x` of `sprintf` writes it
abbrev pub lower : ℕ → ℕ
lower d = if ltb d 10 then 48 + d else 87 + d

-- the format has a dash before the byte `b`
abbrev pub dash_before : ℕ → Bool
dash_before b = b == 4 || b == 6 || b == 8 || b == 10

-- The bytes from the byte `b` on.
unfoldable pub print_from : (b : ℕ) → List ℕ → List ℕ
print_from b [] = []
print_from b (x ∷ xs) =
    let digits = lower (x / 16) ∷ lower (x % 16) ∷ print_from (b + 1) xs in
    if dash_before b then dash ∷ digits else digits

unfoldable pub string : List ℕ → List ℕ
string bytes = print_from 0 bytes

abbrev pub dash_at : ℕ → Bool
dash_at c = c == 8 || c == 13 || c == 18 || c == 23

-- A byte from its digits, and what follows, or a digit that is none, at which `n` bytes are left.
unfoldable pub parse_digits : (n : ℕ) (high low : Option ℕ) → Result × List ℕ → Result × List ℕ
parse_digits n (some high) (some low) (result, bytes) = (result, bit_or (high * 2 ^ 4) low ∷ bytes)
parse_digits n none low rest = (invalid_arg, zeros n)
parse_digits n (some high) none rest = (invalid_arg, zeros n)

-- the `for` over the characters from `c` on, of `n` bytes that are left and are 0 so far
unfoldable pub parse_from : (n c : ℕ) → List ℕ → Result × List ℕ
parse_from n c [] = (success, zeros n)
parse_from zero c (x ∷ xs) = (success, [])
parse_from (suc n) c (x ∷ []) =
    (if dash_at c && x == dash then success else invalid_arg, zeros (suc n))
parse_from (suc n) c (x ∷ y ∷ ys) =
    let after_dash = parse_from (suc n) (c + 1) (y ∷ ys) in
    let after_digits = parse_from n (c + 2) ys in
    if dash_at c
    then (if x == dash then after_dash else (invalid_arg, zeros (suc n)))
    else parse_digits (suc n) (ascii_hex_digit_value x) (ascii_hex_digit_value y) after_digits

unfoldable pub parse : List ℕ → Result × List ℕ
parse chars = if length chars == 36 then parse_from 16 0 chars else (out_of_range, zeros 16)
