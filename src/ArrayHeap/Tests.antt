-- ===== src/ArrayHeap/Tests.antt =====
-- The theorems on heaps at one of three numbers, and a heap that popping leaves out of order.
use libgimbal.Common.{
  ℕ, ◌-◌, ◌≡◌, ◌<◌, refl, true, false, some, [], ◌∷◌, ltb, ◌==◌, if◌then◌else◌, arith, Option,
}
use mathlib.Core.List.{Perm}
use libgimbal.Common.Int.{ℤ, pos, negsuc}
use libgimbal.Memory.{Run, ok, fault, ◌>>=◌}
use libgimbal.Sorting.Order.{IsLe, IsOrder}
use libgimbal.ArrayList.{ArrayList}
use libgimbal.ArrayList
use libgimbal.ArrayList.Room.{IsArray, segment, elements}
use libgimbal.ArrayHeap.{ArrayHeap, success, push, pop, copy}
use libgimbal.ArrayHeap.Push.{IsHeap, push-IsHeap}
use libgimbal.ArrayHeap.Pop.{pop-largest}
use libgimbal.ArrayHeap.Copy.{copy-fault}

abbrev compare_numbers : ℕ → ℕ → ℤ
compare_numbers a b = if ltb a b then negsuc 0 else if ltb b a then pos 1 else pos 0

compare_numbers-IsOrder : IsOrder compare_numbers
compare_numbers-IsOrder = record {
  flip = λ x y. ground arith;
  asym = λ x y e. ground arith;
  trans = λ x y z p q. ground arith;
}

abbrev of_slots : (ℕ → ℕ) → ℕ → ArrayList ℕ
of_slots slots n = record {
  slots = slots;
  allocated = 8;
  stack = false;
  size = n;
  capacity = 8;
  element_size = 4;
  zero_terminated = false;
  stack_capacity = 0;
}

-- 9, 8, 7
abbrev three : ArrayList ℕ
three = of_slots (λ i. 9 - i) 3

three-IsArray : IsArray three
three-IsArray = record {
  some_bytes = omega arith;
  fits = omega arith;
  roomy = omega arith;
  not_both = λ e. cc;
}

three-IsHeap : IsHeap compare_numbers three
three-IsHeap c p q l = ground arith

three-elements : elements three ≡ 9 ∷ 8 ∷ 7 ∷ []
unfolding elements segment
three-elements = refl

push-IsHeap_example :
    (r' : ArrayList ℕ) × (push 0 (λ i. 0) 4 (record { list = three; cmp = compare_numbers }) 10
      ≡ ok (success, record { list = r'; cmp = compare_numbers }))
    × IsArray r'
    × IsHeap compare_numbers r'
    × Perm (elements r') (10 ∷ elements three)
push-IsHeap_example =
    push-IsHeap compare_numbers compare_numbers-IsOrder 0 (λ i. 0) 4 three 10 three-IsArray
      three-IsHeap (omega arith) (λ l. omega arith) (omega arith)

pop-largest_example :
    (r' : ArrayList ℕ) × (pop 0 (λ i. 0) 4 (record { list = three; cmp = compare_numbers }) true
      ≡ ok (some 9, success, record { list = r'; cmp = compare_numbers }))
    × ((c : ℕ) → c < three.size → IsLe compare_numbers (three.slots c) 9)
    × IsArray r'
    × Perm (elements r') (8 ∷ 7 ∷ [])
pop-largest_example =
    pop-largest compare_numbers compare_numbers-IsOrder 0 (λ i. 0) 4 three 9 (8 ∷ 7 ∷ [])
      three-IsArray three-IsHeap three-elements (omega arith) (omega arith)

copy-fault_example :
    copy 0
      (λ i. 0)
      (record { list = three; cmp = compare_numbers })
      (record { list = three; cmp = compare_numbers })
    ≡ fault
copy-fault_example =
    copy-fault 0 (λ i. 0) (record { list = three; cmp = compare_numbers })
      (record { list = three; cmp = compare_numbers }) refl refl refl (omega arith) (omega arith)
      (omega arith)

-- 10, 4, 9, 3, 2, 8, 7
abbrev seven : ArrayList ℕ
seven =
    of_slots
      (λ i.
        if i == 0
        then 10
        else if i == 1
        then 4
        else if i == 2
        then 9
        else if i == 3
        then 3
        else if i == 4
        then 2
        else if i == 5
        then 8
        else 7)
      7

seven-IsHeap : IsHeap compare_numbers seven
seven-IsHeap c p q l = ground arith

-- Popping four times gives 10, 9, 8 and 4, but 7 is still there.
fourth : Run (Option ℕ)
fourth = do
  (a, x, h) ← pop 0 (λ i. 0) 8 (record { list = seven; cmp = compare_numbers }) true
  (b, y, g) ← pop 0 (λ i. 0) 8 h true
  (c, z, f) ← pop 0 (λ i. 0) 8 g true
  (d, w, e) ← pop 0 (λ i. 0) 8 f true
  ok d

fourth_is_4 : fourth ≡ ok (some 4)
unfolding fourth pop libgimbal.ArrayHeap.sink libgimbal.ArrayHeap.highest
    libgimbal.ArrayHeap.is_above libgimbal.ArrayHeap.compare_at libgimbal.ArrayHeap.entry
    libgimbal.Sorting.exchange libgimbal.Memory.update libgimbal.ArrayList.Calls.pop_front
    libgimbal.ArrayList.Calls.read ArrayList.at ArrayList.erase ArrayList.resize ArrayList.terminate
    ArrayList.move_slots ArrayList.reserve
fourth_is_4 = refl
