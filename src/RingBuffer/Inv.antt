-- ===== src/RingBuffer/Inv.antt =====
-- The invariant of a ring, and the elements that it holds, oldest first.
use libgimbal.Common.{
  ℕ, zero, suc, ◌+◌, ◌%◌, ◌^◌, ◌≤◌, ◌<◌, ◌≡◌, ◌≢◌, refl, ap, List, [], ◌∷◌, arith, length,
}
use libgimbal.RingBuffer.{RingBuffer}

-- 2 ^ 63 bytes are more than the largest object.
pub record IsValid {A : Type 0} (r : RingBuffer A) : Type 0 where
  pub some_slot : 0 < r.capacity
  pub small : r.capacity ≤ 2 ^ 63
  pub fits : r.size ≤ r.capacity
  pub front_in : r.front_pos < r.capacity
  pub storage : r.allocated ≡ r.capacity

module _ {A : Type 0} where
  -- `n` elements from position `f` on, round the `cap` slots.
  unfoldable pub items : (ℕ → A) → (cap f n : ℕ) → List A
  items s cap f zero = []
  items s cap f (suc n) = s (f % cap) ∷ items s cap (f + 1) n

  unfoldable pub contents : RingBuffer A → List A
  unfolding items
  contents r = items r.slots r.capacity r.front_pos r.size

  pub length-items : (s : ℕ → A) (cap f n : ℕ) → length (items s cap f n) ≡ n
  unfolding items
  length-items s cap f zero = refl
  length-items s cap f (suc n) = ap suc (length-items s cap (f + 1) n)

pub mod-ne : (a b c : ℕ) → a < b → b < a + c → a % c ≢ b % c
mod-ne a b c h k = grind arith
