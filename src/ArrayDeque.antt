-- ===== src/ArrayDeque.antt =====
-- lib/source/containers/gimbal_array_deque.c: a double-ended queue, a ring buffer that grows.
--
-- A GblArrayDeque has a GblRingBuffer as its only member. `GBL_ARRAY_DEQUE_FORCE_POW2` is 1. What
-- `malloc` returns, and what `realloc` returns beyond the old slots, is an argument, `fresh`. The
-- allocator succeeds; the number of bytes of an array is a `size_t`, which wraps, and the array has as
-- many slots as it holds.
pub mod Grow
pub mod Reserve
pub mod Ends
pub mod Front
pub mod Access
pub mod Life
mod Tests
use Prim.Native.Nat.{bit_and}
use libgimbal.Common.{
  ℕ, ◌+◌, ◌-◌, ◌*◌, ◌/◌, ◌%◌, ◌^◌, Bool, true, false, ◌&&◌, ◌||◌, not, Option, none, some, List,
  ltb, leb, ◌==◌, if◌then◌else◌, length,
}
use libgimbal.Memory.{Run, ok, fault, ◌>>=◌}
use libgimbal.Numeric.{uint64, pow2_next}
use libgimbal.RingBuffer.{RingBuffer, Result, success, out_of_range, add_size, store}
use libgimbal.RingBuffer as Ring

abbrev pub ArrayDeque : Type 0 → Type 0
ArrayDeque A = RingBuffer A

-- What is behind a NULL pointer is a fault.
pub slot_or_fault : Option ℕ → Run ℕ
slot_or_fault (some slot) = ok slot
slot_or_fault none = fault

module _ {A : Type 0} where
  pub end_size : ArrayDeque A → ℕ
  end_size r = if r.front_pos == 0 then 0 else (r.capacity + (2 ^ 64 - r.front_pos)) % 2 ^ 64

  -- The slots after `realloc`, and after `memmove` of `n` elements.
  pub realloc : (slots : ℕ → A) (allocated : ℕ) (fresh : ℕ → A) → ℕ → A
  realloc slots allocated fresh i = if ltb i allocated then slots i else fresh i

  pub memmove : (slots : ℕ → A) (to from n : ℕ) → ℕ → A
  memmove slots to from n i =
      if leb to i && ltb i (to + n) then slots (from + (i - to)) else slots i

  -- The last part of the ring goes to the slots before `capacity`, which are to be there.
  pub reserved : (r : ArrayDeque A) (fresh : ℕ → A) (capacity : ℕ) → Run (ArrayDeque A)
  reserved r fresh capacity =
      let new_slots = (capacity * r.element_size) % 2 ^ 64 / r.element_size in
      let grown : ArrayDeque A = record r {
        slots = realloc r.slots r.allocated fresh;
        allocated = new_slots;
      } in
      let new_front = (capacity + (2 ^ 64 - end_size r)) % 2 ^ 64 in
      let moved = (λ (from : ℕ). record grown {
        slots = memmove grown.slots new_front from (end_size r);
        front_pos = new_front;
        capacity = capacity;
      }) in
      if r.allocated == 0
      then ok (record r { slots = fresh; allocated = new_slots; capacity = capacity })
      else if end_size r == 0
      then ok (record grown { capacity = capacity })
      else if ltb new_slots capacity
      then fault
      else do slot ← Ring.front grown; elim slot [ none ↦ fault | some from ↦ ok (moved from) ]

  pub reserve_ :
      (r : ArrayDeque A) (fresh : ℕ → A) (capacity : ℕ) (exact : Bool) → Run (ArrayDeque A)
  reserve_ r fresh capacity exact =
      let rounded =
        if not exact && ltb 2 capacity then pow2_next uint64 capacity else ok capacity in
      let larger = (do capacity_2 ← rounded; reserved r fresh capacity_2) in
      if ltb r.capacity capacity then larger else ok r

  -- The result is always GBL_RESULT_SUCCESS.
  pub reserve : (r : ArrayDeque A) (fresh : ℕ → A) (capacity : ℕ) → Run (ArrayDeque A)
  reserve r fresh capacity = reserve_ r fresh capacity false

  pub construct :
      (old : ArrayDeque A) (fresh : ℕ → A) (element_size capacity : ℕ) (initial : List A)
      → Run (Result × ArrayDeque A)
  construct old fresh element_size capacity initial =
      let capacity = if ltb capacity (length initial) then length initial else capacity in
      Ring.construct old fresh element_size capacity initial

  pub emplace_front : (r : ArrayDeque A) (fresh : ℕ → A) → Run (Option ℕ × ArrayDeque A)
  emplace_front r fresh = do
    r' ← reserve_ r fresh (add_size r.size 1) false
    let front = if r'.front_pos == 0 then add_size r'.capacity (2 ^ 64 - 1) else r'.front_pos - 1
    let longer = record r' { front_pos = front; size = add_size r'.size 1 }
    slot ← Ring.front longer
    ok (slot, longer)

  pub push_front : (r : ArrayDeque A) (fresh : ℕ → A) (v : A) → Run (Result × ArrayDeque A)
  push_front r fresh v = do
    (slot, r') ← emplace_front r fresh
    ok (elim slot [ some s ↦ (success, store s v r') | none ↦ (out_of_range, r') ])

  pub pop_back : ArrayDeque A → Run (Option ℕ × ArrayDeque A)
  pop_back r =
      if Ring.empty r
      then ok (none, r)
      else do slot ← Ring.back r; ok (slot, record r { size = r.size - 1 })

  pub emplace_back : (r : ArrayDeque A) (fresh : ℕ → A) → Run (Option ℕ × ArrayDeque A)
  emplace_back r fresh = do r' ← reserve_ r fresh (add_size r.size 1) false; Ring.emplace_back r'

  pub push_back : (r : ArrayDeque A) (fresh : ℕ → A) (v : A) → Run (Result × ArrayDeque A)
  push_back r fresh v = do
    (slot, r') ← emplace_back r fresh
    ok (elim slot [ some s ↦ (success, store s v r') | none ↦ (out_of_range, r') ])

  pub pop_front : ArrayDeque A → Run (Option ℕ × ArrayDeque A)
  pop_front r = Ring.pop_front r

  -- A size above the capacity only reserves.
  pub resize : (r : ArrayDeque A) (fresh : ℕ → A) (size : ℕ) → Run (ArrayDeque A)
  resize r fresh size =
      if size == r.size
      then ok r
      else if ltb r.capacity size
      then reserve_ r fresh size false
      else if ltb r.size size
      then ok (record r { size = r.size + (size - r.size) })
      else ok (record r { size = r.size - (r.size - size) })

  pub at : ArrayDeque A → ℕ → Option ℕ
  at r index =
      if leb r.size index
      then none
      else some (bit_and (add_size r.front_pos index) (add_size r.capacity (2 ^ 64 - 1)))

  -- A move or copy of `n` elements that leaves the array is a fault.
  pub move_slots : (r : ArrayDeque A) (to from n : ℕ) → Run (ArrayDeque A)
  move_slots r to from n =
      if leb (to + n) r.allocated && leb (from + n) r.allocated
      then ok (record r { slots = memmove r.slots to from n })
      else fault

  pub fill_slots :
      (r : ArrayDeque A) (to : ℕ) (source : Option (ℕ → A)) (n : ℕ) → Run (ArrayDeque A)
  fill_slots r to none n = ok r
  fill_slots r to (some source) n =
      if leb (to + n) r.allocated
      then ok (record r {
        slots = λ i. if leb to i && ltb i (to + n) then source (i - to) else r.slots i;
      })
      else fault

  -- The two ways to make room at `pos`, for `count` elements more than there were.
  pub open_begin : (r : ArrayDeque A) (old_size pos count : ℕ) → Run (ArrayDeque A)
  open_begin r old_size pos count =
      let moved = (do
        to ← slot_or_fault (at r (add_size pos count))
        from ← slot_or_fault (at r pos)
        move_slots r to from count) in
      if ltb pos old_size then moved else ok r

  pub open_end : (r : ArrayDeque A) (pos count : ℕ) → Run (ArrayDeque A)
  open_end r pos count = if ltb r.front_pos count then fault else do
    slot ← Ring.front r
    from ← slot_or_fault slot
    moved ← move_slots r (r.front_pos - count) from (pos + count)
    ok (record moved { front_pos = moved.front_pos - count })

  -- `source` is NULL or the elements from `pData` on.
  pub insert :
      (r : ArrayDeque A) (fresh : ℕ → A) (pos : ℕ) (source : Option (ℕ → A)) (count : ℕ)
      → Run (Option ℕ × ArrayDeque A)
  insert r fresh pos source count = do
    r' ← reserve_ r fresh (add_size r.size count) false
    let wrap_index = end_size r'
    let room = (do
      longer ← resize r' fresh (add_size r'.size count)
      opened ←
          if leb wrap_index pos
          then open_begin longer r'.size pos count
          else open_end longer pos count
      slot ← slot_or_fault (at opened pos)
      filled ← fill_slots opened slot source count
      ok (some slot, filled))
    if leb pos r'.size then room else ok (none, r')

  pub emplace : (r : ArrayDeque A) (fresh : ℕ → A) (pos : ℕ) → Run (Option ℕ × ArrayDeque A)
  emplace r fresh pos = insert r fresh pos none 1

  -- Without a last part that is moved, the array keeps its size.
  pub shrink_to_fit : (r : ArrayDeque A) (fresh : ℕ → A) → Run (ArrayDeque A)
  shrink_to_fit r fresh =
      let shrunk = (λ (new_size : ℕ). do
        slot ← Ring.front r
        from ← slot_or_fault slot
        moved ← move_slots r (r.front_pos - (r.capacity - new_size)) from (end_size r)
        ok (record moved {
          front_pos = r.front_pos - (r.capacity - new_size);
          slots = realloc moved.slots new_size fresh;
          allocated = new_size;
          capacity = new_size;
        })) in
      do
        new_size ← pow2_next uint64 r.size
        if not (ltb new_size r.capacity) || end_size r == 0
            then ok r
            else if ltb r.front_pos (r.capacity - new_size)
            then fault
            else shrunk new_size

  pub clear : ArrayDeque A → ArrayDeque A
  clear r = record (Ring.clear r) { allocated = 0; capacity = 0 }

  pub destruct : ArrayDeque A → ArrayDeque A
  destruct r = Ring.destruct r

  pub copy : (self other : ArrayDeque A) (fresh : ℕ → A) → Run (Result × ArrayDeque A)
  copy self other fresh = Ring.copy self other fresh

  pub move : (self other : ArrayDeque A) → ArrayDeque A × ArrayDeque A
  move self other = Ring.move self other
