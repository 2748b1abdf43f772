-- ===== src/ArrayHeap.antt =====
-- lib/source/containers/gimbal_array_heap.c: a binary heap over an array list, the largest element
-- first.
--
-- A heap is its array list with the comparator, a function into the integers of whose result the code
-- reads the sign, and `zeros` and `fresh` are those of array lists. An element is reached through
-- `GblArrayList_at`, and a NULL pointer from it is a fault where the code reads. The number of
-- elements is below 2 ^ 62, so that the positions fit `intptr_t`.
mod Push
mod Pop
mod Copy
mod Tests
use libgimbal.Common.{
  ℕ, zero, suc, ◌+◌, ◌-◌, ◌*◌, ◌/◌, ◌%◌, ◌^◌, Bool, true, false, Option, none, some, ltb, ◌==◌,
  if◌then◌else◌,
}
use libgimbal.Common.Int.{ℤ, is_negative, is_positive}
use libgimbal.Memory.{Run, ok, fault, out_of_fuel, ◌>>=◌}
use libgimbal.Sorting.{exchange}
use libgimbal.ArrayList
use libgimbal.ArrayList.{ArrayList, add_size}
use libgimbal.ArrayList.Calls

pub record ArrayHeap (A : Type 0) : Type 0 where
  pub list : ArrayList A
  pub cmp : A → A → ℤ

pub data Result : Type 0 where
  from_list : ArrayList.Result → Result
  invalid_pointer invalid_operation : Result

abbrev pub success : Result
success = from_list ArrayList.success

-- GBL_RESULT_SUCCESS
abbrev pub is_success : ArrayList.Result → Bool
is_success ArrayList.success = true
is_success ArrayList.invalid_arg = false
is_success ArrayList.out_of_range = false

-- GBL_ARRAY_HEAP_PARENT_, of a position that is not 0, GBL_ARRAY_HEAP_LEFT_, GBL_ARRAY_HEAP_RIGHT_.
abbrev pub parent : ℕ → ℕ
parent pos = (pos - 1) / 2

abbrev pub left : ℕ → ℕ
left pos = pos * 2 + 1

abbrev pub right : ℕ → ℕ
right pos = pos * 2 + 2

module _ {A : Type 0} where
  unfoldable pub entry : ArrayList A → ℕ → Run A
  entry r pos = elim (ArrayList.at r pos) [ some slot ↦ ok (r.slots slot) | none ↦ fault ]

  unfoldable pub compare_at : (A → A → ℤ) → ArrayList A → ℕ → ℕ → Run ℤ
  unfolding entry
  compare_at cmp r a b = do x ← entry r a; y ← entry r b; ok (cmp x y)

  abbrev pub exchange_at : ArrayList A → ℕ → ℕ → ArrayList A
  exchange_at r a b = record r { slots = exchange r.slots a b }

  -- the `while` of GblArrayHeap_push
  unfoldable pub rise : (fuel : ℕ) → (A → A → ℤ) → ArrayList A → ℕ → Run (ArrayList A)
  rise zero cmp r pos = out_of_fuel
  rise (suc fuel) cmp r pos =
      let step = (do
        order ← compare_at cmp r (parent pos) pos
        let rest = rise fuel cmp (exchange_at r (parent pos) pos) (parent pos)
        if is_negative order then rest else ok r) in
      if ltb 0 pos then step else ok r

  -- the two `if` in the loop of GblArrayHeap_pop: whether a child, if there is one, is above an entry
  unfoldable pub is_above : (A → A → ℤ) → ArrayList A → ℕ → ℕ → Run Bool
  is_above cmp r child pos =
      let test = (do order ← compare_at cmp r child pos; ok (is_positive order)) in
      if ltb child r.size then test else ok false

  unfoldable pub highest : (A → A → ℤ) → ArrayList A → ℕ → Run ℕ
  unfolding is_above
  highest cmp r pos = do
    is_left ← is_above cmp r (left pos) pos
    let first = if is_left then left pos else pos
    is_right ← is_above cmp r (right pos) first
    ok (if is_right then right pos else first)

  -- the loop of GblArrayHeap_pop
  unfoldable pub sink : (fuel : ℕ) → (A → A → ℤ) → ArrayList A → ℕ → Run (ArrayList A)
  sink zero cmp r pos = out_of_fuel
  sink (suc fuel) cmp r pos = do
    above ← highest cmp r pos
    let rest = sink fuel cmp (exchange_at r above pos) above
    if above == pos then ok r else rest

  pub element_size : ArrayHeap A → ℕ
  element_size h = h.list.element_size

  pub size : ArrayHeap A → ℕ
  size h = h.list.size

  pub capacity : ArrayHeap A → ℕ
  capacity h = h.list.capacity

  pub stack : ArrayHeap A → Bool
  stack h = h.list.stack

  pub empty : ArrayHeap A → Bool
  empty h = h.list.size == 0

  pub peek : ArrayHeap A → Option ℕ
  peek h = ArrayList.front h.list

module _ {A : Type 0} (zeros : A) (fresh : ℕ → A) where
  -- `extra` is the size of the structure less that of GblArrayHeap, or `none` if it is smaller; a
  -- comparator may be NULL.
  unfoldable pub construct :
      (old : ArrayHeap A) (element_size : ℕ) (cmp : Option (A → A → ℤ)) (extra : Option ℕ)
      → Run (Result × ArrayHeap A)
  construct old element_size none extra = ok (invalid_pointer, old)
  construct old element_size (some cmp) extra = do
    (result, list) ←
        ArrayList.construct_7 zeros fresh old.list (element_size % 2 ^ 16) 0 none extra false
    ok (
      from_list result,
      if is_success result then record { list = list; cmp = cmp } else record old { list = list },
    )

  pub destruct : ArrayHeap A → ArrayHeap A
  destruct h = record h { list = ArrayList.destruct zeros fresh h.list }

  unfoldable pub copy : (self other : ArrayHeap A) → Run (ArrayHeap A)
  copy self other = do
    list ←
        ArrayList.assign zeros fresh (ArrayList.destruct zeros fresh self.list)
          (some other.list.slots) other.list.size
    ok (record { list = list; cmp = other.cmp })

  -- The result, what is moved to, and what is moved from.
  pub move : (self other : ArrayHeap A) → Run (Result × ArrayHeap A × ArrayHeap A)
  move self other = do
    (taken, emptied) ← ArrayList.release zeros fresh other.list
    let list = ArrayList.destruct zeros fresh self.list
    elim taken [
      | none ↦ ok (invalid_operation, record self { list = list }, record other { list = emptied })
      | some (slots, n, room) ↦
          let (result, list') =
            ArrayList.acquire zeros fresh list slots other.list.allocated n room in
          ok (
            from_list result,
            record { list = list'; cmp = other.cmp },
            record other { list = emptied },
          )
    ]

  unfoldable pub push : (fuel : ℕ) → ArrayHeap A → A → Run (Result × ArrayHeap A)
  push fuel h v = do
    roomy ← ArrayList.reserve zeros fresh h.list (add_size h.list.size 1)
    (result, list) ← Calls.push_back zeros fresh roomy v
    let risen = (do
      list' ← rise fuel h.cmp list (list.size - 1)
      ok (success, record h { list = list' }))
    if is_success result then risen else ok (from_list result, record h { list = list })

  -- `wanted` tells whether `pEntryOut` is not NULL.
  unfoldable pub pop :
      (fuel : ℕ) → ArrayHeap A → (wanted : Bool) → Run (Option A × Result × ArrayHeap A)
  pop fuel h wanted =
      let popped : Run (Option A × Result × ArrayHeap A) = do
        (element, (result, list)) ← Calls.pop_front zeros fresh h.list wanted
        let sunk : Run (Option A × Result × ArrayHeap A) = do
          list' ← sink fuel h.cmp list 0
          ok (element, success, record h { list = list' })
        if is_success result then sunk else ok (element, from_list result, record h { list = list })
      in if h.list.size == 0 then ok (none, from_list ArrayList.out_of_range, h) else popped

  pub clear : ArrayHeap A → Run (ArrayHeap A)
  clear h = do list ← ArrayList.clear zeros fresh h.list; ok (record h { list = list })

  pub reserve : ArrayHeap A → ℕ → Run (ArrayHeap A)
  reserve h n = do list ← ArrayList.reserve zeros fresh h.list n; ok (record h { list = list })

  pub shrink_to_fit : ArrayHeap A → Run (ArrayHeap A)
  shrink_to_fit h = do
    list ← ArrayList.shrink_to_fit zeros fresh h.list
    ok (record h { list = list })

  pub acquire : ArrayHeap A → (taken : ℕ → A) (allocated n room : ℕ) → Result × ArrayHeap A
  acquire h taken allocated n room =
      let (result, list) = ArrayList.acquire zeros fresh h.list taken allocated n room in
      (from_list result, record h { list = list })

  -- A buffer behind the structure is not given away.
  pub release : ArrayHeap A → Run (Option ((ℕ → A) × ℕ × ℕ) × ArrayHeap A)
  release h = do
    (taken, list) ← ArrayList.release zeros fresh h.list
    ok (taken, record h { list = list })
