-- ===== src/RingBuffer.antt =====
-- lib/source/containers/gimbal_ring_buffer.c: a ring of elements of one size, of which a full one
-- drops its oldest element.
--
-- `pData` is an array of slots, one element each, and a pointer into it is the index of a slot. What
-- `malloc` returns is an argument, `fresh`: its contents are not known. `slots` is the function from
-- a slot to its element, `allocated` the number of slots that there are (0 for a NULL `pData`).
-- `size_t` arithmetic wraps, also that of a number of bytes. A division by a capacity of 0 is a fault. The allocator succeeds, and
-- the pointers to structures that callers pass are not NULL.
pub mod Inv
pub mod Items
pub mod Refine
pub mod Construct
pub mod Access
mod Tests
use libgimbal.Common.{
  ℕ, zero, suc, ◌+◌, ◌-◌, ◌*◌, ◌/◌, ◌%◌, ◌^◌, Bool, true, false, Option, none, some, List, [], ◌∷◌,
  leb, ◌==◌, if◌then◌else◌,
}
use libgimbal.Memory.{update, Run, ok, fault, ◌>>=◌}

pub record RingBuffer (A : Type 0) : Type 0 where
  pub slots : ℕ → A
  pub allocated : ℕ
  pub size : ℕ
  pub capacity : ℕ
  pub front_pos : ℕ
  pub element_size : ℕ

pub data Result : Type 0 where
  success out_of_range invalid_arg : Result

-- `size_t` addition.
abbrev pub add_size : ℕ → ℕ → ℕ
add_size a b = (a + b) % 2 ^ 64

module _ {A : Type 0} where
  pub mapped_index : RingBuffer A → ℕ → Run ℕ
  mapped_index r index =
      if r.capacity == 0 then fault else ok (add_size r.front_pos index % r.capacity)

  pub empty : RingBuffer A → Bool
  empty r = r.size == 0

  pub full : RingBuffer A → Bool
  full r = r.size == r.capacity

  pub advance : RingBuffer A → Run (RingBuffer A)
  unfolding full
  advance r =
      if full r
      then (if r.capacity == 0
          then fault
          else ok (record r { front_pos = add_size r.front_pos 1 % r.capacity }))
      else ok (record r { size = add_size r.size 1 })

  -- `none` is NULL, and GBL_RESULT_ERROR_OUT_OF_RANGE in the thread's record.
  pub at : RingBuffer A → ℕ → Run (Option ℕ)
  unfolding mapped_index
  at r index = if leb r.size index then ok none else do slot ← mapped_index r index; ok (some slot)

  pub front : RingBuffer A → Run (Option ℕ)
  unfolding at
  front r = at r 0

  -- `size - 1` wraps at 0.
  pub back : RingBuffer A → Run (Option ℕ)
  unfolding at
  back r = at r (add_size r.size (2 ^ 64 - 1))

  pub emplace_back : RingBuffer A → Run (Option ℕ × RingBuffer A)
  unfolding advance back
  emplace_back r = do r' ← advance r; slot ← back r'; ok (slot, r')

  -- `memcpy` to the slot.
  unfoldable pub store : ℕ → A → RingBuffer A → RingBuffer A
  store slot v r = record r { slots = update r.slots slot v }

  pub push_back : RingBuffer A → A → Run (Result × RingBuffer A)
  unfolding emplace_back store
  push_back r v = do
    (slot, r') ← emplace_back r
    ok (elim slot [ some s ↦ (success, store s v r') | none ↦ (out_of_range, r') ])

  pub pop_front : RingBuffer A → Run (Option ℕ × RingBuffer A)
  unfolding front
  pop_front r = do
    slot ← front r
    let next = add_size r.front_pos 1
    let popped = record r { size = r.size - 1; front_pos = if leb r.capacity next then 0 else next }
    ok (elim slot [ some s ↦ (some s, popped) | none ↦ (none, r) ])

  pub clear : RingBuffer A → RingBuffer A
  clear r = record r { front_pos = 0; size = 0 }

  -- The loop over the initial elements stops at the first error.
  pub push_all : RingBuffer A → List A → Run (Result × RingBuffer A)
  unfolding push_back
  push_all r [] = ok (success, r)
  push_all r (v ∷ vs) =
      let rest = (λ (r' : RingBuffer A). push_all r' vs) in
      do
        (result, r') ← push_back r v
        elim result [
          | success ↦ rest r'
          | out_of_range ↦ ok (out_of_range, r')
          | invalid_arg ↦ ok (invalid_arg, r')
        ]

  -- `old` is the structure before the call, which an invalid argument leaves as it is.
  pub construct :
      (old : RingBuffer A) (fresh : ℕ → A) (element_size capacity : ℕ) (initial : List A)
      → Run (Result × RingBuffer A)
  unfolding push_all
  construct old fresh element_size capacity initial =
      let made : RingBuffer A = record {
        slots = fresh;
        allocated = (capacity * element_size) % 2 ^ 64 / element_size;
        size = 0;
        capacity = capacity;
        front_pos = 0;
        element_size = element_size;
      } in
      if element_size == 0 then ok (invalid_arg, old) else push_all made initial

  -- Without initial data, `memcpy` from NULL is a fault.
  pub construct_4 :
      (old : RingBuffer A) (fresh : ℕ → A) (element_size capacity initial_size : ℕ)
      → Run (Result × RingBuffer A)
  unfolding construct
  construct_4 old fresh element_size capacity initial_size =
      let made = construct old fresh element_size capacity [] in
      if element_size == 0 then made else if initial_size == 0 then made else fault

  pub construct_3 :
      (old : RingBuffer A) (fresh : ℕ → A) (element_size capacity : ℕ) → Run (Result × RingBuffer A)
  unfolding construct_4
  construct_3 old fresh element_size capacity = construct_4 old fresh element_size capacity 0

  pub destruct : RingBuffer A → RingBuffer A
  unfolding clear
  destruct r = record (clear r) { allocated = 0 }

  -- `memcpy` of all slots of `other`.
  pub copy : (self other : RingBuffer A) (fresh : ℕ → A) → Run (Result × RingBuffer A)
  unfolding construct destruct
  copy self other fresh = do
    (result, made) ← construct (destruct self) fresh other.element_size other.capacity []
    let copied = record made { slots = other.slots; size = other.size }
    ok (elim result [
      | success ↦ (success, copied)
      | out_of_range ↦ (out_of_range, made)
      | invalid_arg ↦ (invalid_arg, made)
    ])

  -- The new `self` and the new `other`. What `self` held is freed, whatever it was.
  pub move : (self other : RingBuffer A) → RingBuffer A × RingBuffer A
  move self other = (other, record other { allocated = 0; size = 0; capacity = 0 })
