-- ===== src/ArrayDeque/Tests.antt =====
-- The theorems on deques at a deque that goes round the end of its array.
use mathlib.Core.Option
use libgimbal.Common.{ℕ, ◌≡◌, refl, inr, [], ◌∷◌, ◌++◌, arith, some, get_elem?}
use libgimbal.Memory.{ok, fault}
use libgimbal.RingBuffer.{success}
use libgimbal.RingBuffer.Inv.{contents, items}
use libgimbal.ArrayDeque.{ArrayDeque, reserve, push_front, pop_back, push_back, at}
use libgimbal.ArrayDeque.Reserve.{IsReserved, reserve-IsReserved}
use libgimbal.ArrayDeque.Grow.{IsDeque}
use libgimbal.ArrayDeque.Ends.{push_back-contents}
use libgimbal.ArrayDeque.Front.{push_front-cons}
use libgimbal.ArrayDeque.Access.{at_masked}
use libgimbal.ArrayDeque.Life.{pop_back-push_back, reserve-fault}

-- 3, 0, 1, 2 are in slots 3, 0, 1 and 2.
abbrev deque : ArrayDeque ℕ
deque = record {
  slots = λ i. i;
  allocated = 4;
  size = 4;
  capacity = 4;
  front_pos = 3;
  element_size = 8;
}

deque-IsDeque : IsDeque deque
deque-IsDeque = record {
  small = omega arith;
  fits = omega arith;
  front_in = omega arith;
  storage = refl;
  rounded = inr (2, refl);
}

deque-contents : contents deque ≡ 3 ∷ 0 ∷ 1 ∷ 2 ∷ []
unfolding contents items
deque-contents = refl

abbrev emptied : ArrayDeque ℕ
emptied = record deque { size = 0 }

emptied-IsDeque : IsDeque emptied
emptied-IsDeque = record {
  small = omega arith;
  fits = omega arith;
  front_in = omega arith;
  storage = refl;
  rounded = inr (2, refl);
}

reserve-IsReserved_example :
    (r' : ArrayDeque ℕ) × (reserve deque (λ i. 0) 5 ≡ ok r') × IsReserved deque r' 5
reserve-IsReserved_example =
    reserve-IsReserved deque (λ i. 0) 5 deque-IsDeque (λ l e. absurd (omega arith))
      (λ l. omega arith) (λ l. omega arith)

push_back-contents_example :
    (r' : ArrayDeque ℕ) × (push_back deque (λ i. 0) 7 ≡ ok (success, r'))
    × IsDeque r'
    × (contents r' ≡ contents deque ++ 7 ∷ [])
push_back-contents_example =
    push_back-contents deque (λ i. 0) 7 deque-IsDeque (omega arith) (λ l. omega arith)
      (λ l. omega arith)

push_front-cons_example :
    (r' : ArrayDeque ℕ) × (push_front deque (λ i. 0) 7 ≡ ok (success, r'))
    × IsDeque r'
    × (contents r' ≡ 7 ∷ contents deque)
push_front-cons_example =
    push_front-cons deque (λ i. 0) 7 deque-IsDeque (omega arith) (λ l. omega arith)
      (λ l. omega arith)

at_masked_example : Option.map deque.slots (at deque 2) ≡ get_elem? (contents deque) 2
at_masked_example = at_masked deque 2 deque-IsDeque

pop_back-push_back_example :
    (s : ArrayDeque ℕ) × (slot : ℕ) × (r' : ArrayDeque ℕ) × (push_back deque (λ i. 0) 7
      ≡ ok (success, s))
    × (pop_back s ≡ ok (some slot, r'))
    × (s.slots slot ≡ 7)
    × (contents r' ≡ contents deque)
pop_back-push_back_example =
    pop_back-push_back deque (λ i. 0) 7 deque-IsDeque (omega arith) (λ l. omega arith)
      (λ l. omega arith)

reserve-fault_example : reserve emptied (λ i. 0) 9 ≡ fault
reserve-fault_example =
    reserve-fault emptied (λ i. 0) 9 emptied-IsDeque refl (omega arith) (omega arith)
