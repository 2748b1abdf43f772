-- ===== src/RingBuffer/Tests.antt =====
-- The theorems on rings at a concrete ring, and runs of the functions.
use libgimbal.Common.{ℕ, ◌≡◌, refl, [], ◌∷◌, arith, ◌++◌}
use libgimbal.Memory.{update, ok}
use libgimbal.RingBuffer.{RingBuffer, success, push_back}
use libgimbal.RingBuffer.Inv.{IsValid, contents, items}
use libgimbal.RingBuffer.Items.{latest}
use libgimbal.RingBuffer.Refine.{push_back-latest}

-- Three slots, of which the last and the first are used.
abbrev ring : RingBuffer ℕ
ring = record {
  slots = update (update (λ i. 0) 2 7) 0 8;
  allocated = 3;
  size = 2;
  capacity = 3;
  front_pos = 2;
  element_size = 4;
}

ring-IsValid : IsValid ring
ring-IsValid = record {
  some_slot = omega arith;
  small = omega arith;
  fits = omega arith;
  front_in = omega arith;
  storage = refl;
}

ring-contents : contents ring ≡ 7 ∷ 8 ∷ []
unfolding contents items update
ring-contents = refl

push_back-latest_example :
    (r' : RingBuffer ℕ) × (push_back ring 9 ≡ ok (success, r'))
    × IsValid r'
    × (r'.capacity ≡ 3)
    × (contents r' ≡ latest 3 (contents ring ++ 9 ∷ []))
push_back-latest_example = push_back-latest ring 9 ring-IsValid

latest-run : latest {A = ℕ} 2 (5 ∷ 6 ∷ 7 ∷ []) ≡ 6 ∷ 7 ∷ []
unfolding latest
latest-run = refl

-- The copy of a ring that does not begin at the first slot holds other elements.
copied-items : items ring.slots 3 0 2 ≡ 8 ∷ 0 ∷ []
unfolding items update
copied-items = refl
