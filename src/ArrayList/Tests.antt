-- ===== src/ArrayList/Tests.antt =====
-- The theorems on array lists at an allocated one of three elements.
use libgimbal.Common.{ℕ, ◌+◌, ◌≡◌, refl, inr, [], ◌∷◌, ◌++◌, true, false, some, arith}
use libgimbal.Memory.{ok}
use libgimbal.ArrayList.{ArrayList, success, out_of_range, reserve, insert, erase}
use libgimbal.ArrayList.Room.{IsArray, segment, elements, IsRoomy}
use libgimbal.ArrayList.Reserve.{reserve-IsRoomy}
use libgimbal.ArrayList.Edit.{insert-between}
use libgimbal.ArrayList.Erase.{erase-middle, erase-past}

-- Zero-terminated, and full.
abbrev array : ArrayList ℕ
array = record {
  slots = λ i. i + 5;
  allocated = 4;
  stack = false;
  size = 3;
  capacity = 3;
  element_size = 8;
  zero_terminated = true;
  stack_capacity = 0;
}

array-IsArray : IsArray array
array-IsArray = record {
  some_bytes = omega arith;
  fits = omega arith;
  roomy = omega arith;
  not_both = λ e. cc;
}

array-elements : elements array ≡ 5 ∷ 6 ∷ 7 ∷ []
unfolding elements segment
array-elements = refl

abbrev values : ℕ → ℕ
values i = i + 1

reserve-IsRoomy_example :
    (r' : ArrayList ℕ) × (reserve 0 values array 5 ≡ ok r') × IsRoomy array r' 5
reserve-IsRoomy_example = reserve-IsRoomy 0 values array 5 array-IsArray (λ l. omega arith)

insert-between_example :
    (r' : ArrayList ℕ) × (insert 0 values array 1 2 (some values) ≡ ok (some 1, r'))
    × IsArray r'
    × (elements r' ≡ (5 ∷ []) ++ (segment values 0 2 ++ 6 ∷ 7 ∷ []))
insert-between_example =
    insert-between 0 values array values 2 (5 ∷ []) (6 ∷ 7 ∷ []) array-IsArray array-elements
      (omega arith) (omega arith) (λ l. omega arith)

erase-middle_example :
    (r' : ArrayList ℕ) × (erase 0 values array 1 1 ≡ ok (success, r'))
    × IsArray r'
    × (elements r' ≡ (5 ∷ []) ++ 7 ∷ [])
erase-middle_example =
    erase-middle 0 values array (5 ∷ []) (6 ∷ []) (7 ∷ []) array-IsArray array-elements
      (omega arith) (omega arith)

erase-past_example : erase 0 values array 1 3 ≡ ok (out_of_range, array)
erase-past_example =
    erase-past 0 values array 1 3 (omega arith) (omega arith) (omega arith) (inr (omega arith))
