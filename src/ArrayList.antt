-- ===== src/ArrayList.antt =====
-- lib/source/containers/gimbal_array_list.c: an array that grows, in a buffer behind the structure or
-- one that is allocated.
--
-- `slots` is the function from a slot of `pData` to its element, `allocated` the number of slots that
-- there are (0 for a NULL `pData`), and `stack` tells whether `pData` is what
-- `GblArrayList_stackBuffer` returns, the buffer of `stack_capacity` slots or NULL. A write behind the
-- last slot is a fault. `zeros` is the element whose bytes are all 0; what `malloc`, or `realloc`
-- beyond the old slots, returns is an argument, `fresh`, as are the contents of the buffer behind the
-- structure when it comes into use. The allocator succeeds. A number of bytes is a `size_t`, which
-- wraps, and so many slots are allocated as it holds. Pointers that callers pass are not NULL unless an
-- Option says so.
pub mod Calls
pub mod Room
pub mod Reserve
pub mod Edit
pub mod Construct
pub mod Erase
pub mod Overflow
mod Tests
use libgimbal.Common.{
  ℕ, ◌+◌, ◌-◌, ◌*◌, ◌/◌, ◌%◌, ◌^◌, Bool, true, false, ◌&&◌, ◌||◌, not, Option, none, some, ltb, leb,
  ◌==◌, if◌then◌else◌,
}
use libgimbal.Memory.{update, Run, ok, fault, ◌>>=◌}
use libgimbal.Numeric.{uint64, pow2_next}

pub record ArrayList (A : Type 0) : Type 0 where
  pub slots : ℕ → A
  pub allocated : ℕ
  pub stack : Bool
  pub size : ℕ
  pub capacity : ℕ
  pub element_size : ℕ
  pub zero_terminated : Bool
  pub stack_capacity : ℕ

pub data Result : Type 0 where
  success invalid_arg out_of_range : Result

-- `size_t` addition.
abbrev pub add_size : ℕ → ℕ → ℕ
add_size a b = (a + b) % 2 ^ 64

-- Elements `from` on, `n` of them, in the slots from `to` on.
abbrev pub copied {ℓ} :
    {A : Type ℓ} → (slots : ℕ → A) (to : ℕ) (source : ℕ → A) (from n : ℕ) → ℕ → A
copied slots to source from n i =
    if leb to i && ltb i (to + n) then source (from + (i - to)) else slots i

-- The number of slots of an allocation, of at least 16 bytes, the alignment of GBL_MAX_ALIGN_T.
pub alloc_slots : (size element_size : ℕ) → ℕ
alloc_slots size element_size =
    let bytes = (size * element_size) % 2 ^ 64 in
    (if ltb bytes 16 then 16 else bytes) / element_size

module _ {A : Type 0} where
  -- `memmove` within the array.
  unfoldable pub move_slots : ArrayList A → (to from n : ℕ) → Run (ArrayList A)
  move_slots r to from n =
      if leb (to + n) r.allocated && leb (from + n) r.allocated
      then ok (record r { slots = copied r.slots to r.slots from n })
      else fault

  unfoldable pub at : ArrayList A → ℕ → Option ℕ
  at r index = if leb r.size index then none else some index

  pub front : ArrayList A → Option ℕ
  front r = at r 0

  -- `size - 1` wraps at 0.
  pub back : ArrayList A → Option ℕ
  back r = at r (add_size r.size (2 ^ 64 - 1))

module _ {A : Type 0} (zeros : A) where
  pub or_zeros : Option (ℕ → A) → ℕ → A
  or_zeros (some source) i = source i
  or_zeros none i = zeros

  -- `source` is NULL or the elements from `pData` on.
  unfoldable pub fill : ArrayList A → (to : ℕ) → Option (ℕ → A) → (n : ℕ) → Run (ArrayList A)
  fill r to source n =
      if leb (to + n) r.allocated
      then ok (record r { slots = copied r.slots to (or_zeros source) 0 n })
      else fault

  -- `memset` of the slot behind the elements.
  unfoldable pub terminate : ArrayList A → ℕ → Run (ArrayList A)
  terminate r at =
      if r.zero_terminated
      then (if ltb at r.allocated then ok (record r { slots = update r.slots at zeros }) else fault)
      else ok r

module _ {A : Type 0} (zeros : A) (fresh : ℕ → A) where
  -- Without a buffer there is nothing to terminate.
  pub initialize_ : ArrayList A → Run (ArrayList A)
  initialize_ r =
      let empty : ArrayList A = record r {
        capacity = r.stack_capacity;
        slots = if r.stack then r.slots else fresh;
        allocated = r.stack_capacity;
        stack = true;
        size = 0;
      } in
      if r.stack_capacity == 0 then ok empty else terminate zeros empty 0

  pub alloc_ : ArrayList A → ℕ → Run (ArrayList A)
  alloc_ r size =
      let size = if r.zero_terminated then add_size size 1 else size in
      let on_stack : ArrayList A = record r {
        slots = if r.stack then r.slots else fresh;
        allocated = r.stack_capacity;
        stack = true;
        capacity = r.stack_capacity;
      } in
      let slots = alloc_slots size r.element_size in
      let on_heap : ArrayList A = record r {
        slots = fresh;
        allocated = slots;
        stack = false;
        capacity = slots;
      } in
      do
        made ←
            terminate zeros
              (if not (r.stack_capacity == 0) && leb size r.stack_capacity
                then on_stack
                else on_heap)
              r.size
        ok (record made { size = 0 })

  unfoldable pub destruct : ArrayList A → ArrayList A
  destruct r =
      if r.stack then r else record r { slots = fresh; allocated = r.stack_capacity; stack = true }

  pub clear : ArrayList A → Run (ArrayList A)
  clear r = initialize_ (destruct r)

  unfoldable pub assign : ArrayList A → Option (ℕ → A) → (count : ℕ) → Run (ArrayList A)
  assign r source count =
      let needed = add_size count (if r.zero_terminated then 1 else 0) in
      let emptied = (do
        cleared ← clear r
        if count == 0 then ok cleared else alloc_ cleared count) in
      do
        roomy ← if ltb r.capacity needed then emptied else ok r
        filled ← if count == 0 then ok roomy else fill zeros roomy 0 source count
        let sized = record filled { size = count }
        if sized.allocated == 0 then ok sized else terminate zeros sized count

  -- `extra` is the size of the structure less that of GblArrayList, or `none` if it is smaller.
  pub construct_7 :
      (old : ArrayList A) (element_size count : ℕ) (source : Option (ℕ → A)) (extra : Option ℕ)
      (zero_terminated : Bool)
      → Run (Result × ArrayList A)
  construct_7 old element_size count source none zero_terminated = ok (invalid_arg, old)
  construct_7 old element_size count source (some extra) zero_terminated =
      let made = (do
        empty ← initialize_ (record old {
          stack_capacity = extra / element_size % 2 ^ 15;
          element_size = element_size;
          zero_terminated = zero_terminated;
        })
        assigned ← assign empty source count
        ok (success, assigned)) in
      if element_size == 0 then ok (invalid_arg, old) else made

  -- On a stack buffer the elements are copied to what `alloc_` makes; otherwise `realloc` leaves room
  -- for the terminator beyond the capacity.
  unfoldable pub reserve : ArrayList A → ℕ → Run (ArrayList A)
  reserve r capacity =
      let rounded =
        if ltb 2 capacity && not (capacity % 2 == 0)
        then pow2_next uint64 capacity
        else ok capacity in
      let from_stack = (λ (capacity_2 : ℕ). do
        made ← alloc_ r capacity_2
        ok (record made { slots = copied made.slots 0 r.slots 0 r.size; size = r.size })) in
      let extra = if r.zero_terminated then 1 else 0 in
      let on_heap = (λ (capacity_2 : ℕ). record r {
        slots = (λ i. if ltb i r.allocated then r.slots i else fresh i);
        allocated = (add_size capacity_2 extra * r.element_size) % 2 ^ 64 / r.element_size;
        capacity = capacity_2;
      }) in
      let larger = (do
        capacity_2 ← rounded
        grown ← if r.stack then from_stack capacity_2 else ok (on_heap capacity_2)
        terminate zeros grown grown.size) in
      if ltb r.capacity capacity then larger else ok r

  unfoldable pub resize : ArrayList A → ℕ → Run (ArrayList A)
  resize r size = do
    roomy ← if ltb r.size size then reserve r size else ok r
    ended ← terminate zeros roomy size
    ok (record ended { size = size })

  pub shrink_to_fit : ArrayList A → Run (ArrayList A)
  shrink_to_fit r =
      let fit_size = r.size + (if r.zero_terminated then 1 else 0) in
      let on_stack : ArrayList A = record r {
        slots = copied fresh 0 r.slots 0 fit_size;
        allocated = r.stack_capacity;
        stack = true;
        capacity = r.size;
      } in
      let on_heap : ArrayList A = record r {
        slots = (λ i. if ltb i r.allocated then r.slots i else fresh i);
        allocated = fit_size;
        capacity = r.size;
      } in
      if r.stack || leb r.capacity r.size
      then ok r
      else if leb fit_size r.stack_capacity
      then (if leb fit_size r.allocated then ok on_stack else fault)
      else ok on_heap

  -- The slot of the first element inserted, `none` for NULL.
  pub insert : ArrayList A → (index count : ℕ) → Option (ℕ → A) → Run (Option ℕ × ArrayList A)
  insert r index count source =
      let inserted = (do
        longer ← resize r (add_size r.size count)
        moved ←
            if r.size - index == 0
            then ok longer
            else move_slots longer (index + count) index (r.size - index)
        filled ← elim source [ none ↦ ok moved | some s ↦ fill zeros moved index (some s) count ]
        ok (some index, filled)) in
      if count == 0 || ltb r.size index then ok (none, r) else inserted

  unfoldable pub erase : ArrayList A → (begin count : ℕ) → Run (Result × ArrayList A)
  erase r begin count =
      let last = (begin + count + (2 ^ 64 - 1)) % 2 ^ 64 in
      let remainder = r.size - 1 - last in
      let erased = (do
        moved ← if remainder == 0 then ok r else move_slots r begin (last + 1) remainder
        shorter ← resize moved (r.size - count)
        ok (success, shorter)) in
      if ltb begin r.size && ltb last r.size && leb begin last then erased else ok (out_of_range, r)

  -- What is taken out, its size and its capacity; a stack buffer is not given away.
  pub release : ArrayList A → Run (Option ((ℕ → A) × ℕ × ℕ) × ArrayList A)
  release r =
      let taken = (do empty ← initialize_ r; ok (some (r.slots, r.size, r.capacity), empty)) in
      if r.stack then ok (none, r) else taken

  pub acquire : ArrayList A → (taken : ℕ → A) (allocated size capacity : ℕ) → Result × ArrayList A
  acquire r taken allocated size capacity =
      if capacity == 0 then (invalid_arg, r) else if size == 0 then (invalid_arg, r) else (
        success,
        record (destruct r) {
          slots = taken;
          allocated = allocated;
          stack = false;
          capacity = capacity;
          size = size;
        },
      )
