-- ===== src/Sorting/Search.antt =====
-- gblSearchBinary.
use libgimbal.Common.{ℕ, ◌≤◌, ◌<◌, ◌≡◌, true, false, Option, none, some}
use libgimbal.Common.Int.{ℤ, is_zero}

module _ {A : Type 0} (cmp : A → A → ℤ) where
  -- What a search of the elements from `l` on, before `r`, promises.
  abbrev pub IsFound : (ℕ → A) → (l r : ℕ) → A → Option ℕ → Type 0
  IsFound s l r target none = (c : ℕ) → l ≤ c → c < r → is_zero (cmp (s c) target) ≡ false
  IsFound s l r target (some c) = (l ≤ c) × (c < r) × (is_zero (cmp (s c) target) ≡ true)
