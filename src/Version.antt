-- ===== src/Version.antt =====
-- lib/source/utils/gimbal_version.c: versions packed in 32 bits.
--
-- Printing and parsing go through `snprintf` and `sscanf` and are not modelled. A shift that puts a
-- byte in the top bits of an `int` is one of unsigned numbers.
pub mod Packed
mod Tests
use Prim.Native.Nat.{bit_and, bit_or}
use libgimbal.Common.{ℕ, ◌+◌, ◌-◌, ◌*◌, ◌/◌, ◌%◌, ◌^◌}

unfoldable pub make : (major minor patch : ℕ) → ℕ
make major minor patch =
    bit_or
      (bit_or (bit_and major (2 ^ 8 - 1) * 2 ^ 24 % 2 ^ 32)
        (bit_and minor (2 ^ 16 - 1) * 2 ^ 8 % 2 ^ 32))
      (bit_and patch (2 ^ 8 - 1))

pub major : ℕ → ℕ
major version = bit_and (version / 2 ^ 24) (2 ^ 8 - 1) % 2 ^ 8

pub minor : ℕ → ℕ
minor version = bit_and (version / 2 ^ 8) (2 ^ 16 - 1) % 2 ^ 16

pub patch : ℕ → ℕ
patch version = bit_and version (2 ^ 8 - 1) % 2 ^ 8

pub set_major : (version value : ℕ) → ℕ
set_major version value = bit_or (bit_and version (2 ^ 24 - 1)) (value * 2 ^ 24 % 2 ^ 32)

pub set_minor : (version value : ℕ) → ℕ
set_minor version value = bit_or (bit_and version (2 ^ 32 - 2 ^ 24 + (2 ^ 8 - 1))) (value * 2 ^ 8)

pub set_patch : (version value : ℕ) → ℕ
set_patch version value = bit_or (bit_and version (2 ^ 32 - 2 ^ 8)) value
