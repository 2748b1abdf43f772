-- ===== src/Uuid/Tests.antt =====
-- A UUID.
use libgimbal.Common.{ℕ, ◌≡◌, refl, List, [], ◌∷◌, arith}
use libgimbal.Uuid.{success, parse, string}
use libgimbal.Uuid.RoundTrip.{AreBytes, parse-string}

abbrev bytes : List ℕ
bytes = 18 ∷ 62 ∷ 69 ∷ 103 ∷ 232 ∷ 155 ∷ 18 ∷ 211 ∷ 164 ∷ 86 ∷ 66 ∷ 102 ∷ 20 ∷ 23 ∷ 64 ∷ 0 ∷ []

bytes-AreBytes : AreBytes bytes
bytes-AreBytes = ground arith

parse-string_example : parse (string bytes) ≡ (success, bytes)
parse-string_example = parse-string bytes refl bytes-AreBytes
