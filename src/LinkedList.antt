-- ===== src/LinkedList.antt =====
-- lib/source/containers/gimbal_linked_list.c: an intrusive, circular, singly linked list. A list is
-- its head node `self`, which is no element: `pNext` leads through the elements back to `self`.
--
-- The state is the field `pNext` of all nodes. A function that writes returns the new field. A loop
-- over the nodes takes fuel, its first argument, and ends with `out_of_fuel` on a chain that does
-- not come back within it. NULL as a result is `none`. `size_t` counts nodes in memory, so it does
-- not wrap, and `npos` is `GBL_NPOS`, `SIZE_MAX` on a 64-bit target.
pub mod Inv
pub mod Ends
pub mod Query
pub mod Remove
pub mod Insert
pub mod Reverse
pub mod Join
pub mod Sort
pub mod Merge
pub mod MergeLoop
pub mod Sorted
mod Tests
use libgimbal.Common.{
  ℕ, zero, suc, ◌+◌, ◌-◌, ◌^◌, Bool, true, false, not, Option, none, some, ◌==◌, if◌then◌else◌,
}
use libgimbal.Memory.{Ptr, null, Field, update, Run, ok, fault, out_of_fuel, ◌>>=◌}

abbrev pub npos : ℕ
npos = 2 ^ 64 - 1

pub init : Ptr → Field → Field
init self h = update h self self

-- `pIt` runs from `self->pNext` to `self`, and `pPrevIt` behind it.
pub last_from : ℕ → (self prev it : Ptr) → Field → Run Ptr
last_from zero self prev it h = out_of_fuel
last_from (suc k) self prev it h =
    let rest = last_from k self it (h it) h in if it == self then ok prev else rest

pub back : ℕ → Ptr → Field → Run (Option Ptr)
back k self h = do
  last ← last_from k self self (h self) h
  ok (if last == self then none else some last)

unfoldable pub front : Ptr → Field → Option Ptr
front self h = if h self == self then none else some (h self)

unfoldable pub empty : Ptr → Field → Bool
empty self h = if h self == self then true else h self == null

pub move : ℕ → (self head : Ptr) → Field → Run Field
move k self head h = do
  last ← back k head h
  ok (elim last [
    | none ↦ h
    | some l ↦ let h = update h self (h head) in let h = update h l self in update h head head
  ])

pub push_back : ℕ → (self node : Ptr) → Field → Run Field
push_back k self node h = do
  last ← last_from k self self (h self) h
  ok (update (update h last node) node self)

pub push_front : (self node : Ptr) → Field → Field
push_front self node h = let h = update h node (h self) in update h self node

pub remove_from : ℕ → (self node prev it : Ptr) → Field → Run (Bool × Field)
remove_from zero self node prev it h = out_of_fuel
remove_from (suc k) self node prev it h =
    let rest = remove_from k self node it (h it) h in
    if it == self
    then ok (false, h)
    else if it == node
    then ok (true, update (update h prev (h node)) node node)
    else rest

pub remove : ℕ → (self node : Ptr) → Field → Run (Bool × Field)
remove k self node h = remove_from k self node self (h self) h

-- `count` is the loop's counter.
pub erase_from :
    ℕ → (self : Ptr) (index count : ℕ) (prev it : Ptr) → Field → Run (Option Ptr × Field)
erase_from zero self index count prev it h = out_of_fuel
erase_from (suc k) self index count prev it h =
    let rest = erase_from k self index (count + 1) it (h it) h in
    if it == self
    then ok (none, h)
    else if count == index
    then ok (some it, update (update h prev (h it)) it it)
    else rest

pub erase : ℕ → (self : Ptr) (index : ℕ) → Field → Run (Option Ptr × Field)
erase k self index h = erase_from k self index 0 self (h self) h

pub find_from : ℕ → (self node : Ptr) (count : ℕ) (it : Ptr) → Field → Run ℕ
find_from zero self node count it h = out_of_fuel
find_from (suc k) self node count it h =
    let rest = find_from k self node (count + 1) (h it) h in
    if it == self then ok npos else if it == node then ok count else rest

pub find : ℕ → (self node : Ptr) → Field → Run ℕ
find k self node h = find_from k self node 0 (h self) h

pub contains : ℕ → (self node : Ptr) → Field → Run Bool
contains k self node h = do i ← find k self node h; ok (not (i == npos))

pub count_from : ℕ → (self : Ptr) (count : ℕ) (it : Ptr) → Field → Run ℕ
count_from zero self count it h = out_of_fuel
count_from (suc k) self count it h =
    let rest = count_from k self (count + 1) (h it) h in if it == self then ok count else rest

pub count : ℕ → Ptr → Field → Run ℕ
count k self h = count_from k self 0 (h self) h

pub at_from : ℕ → (self : Ptr) (index count : ℕ) (it : Ptr) → Field → Run (Option Ptr)
at_from zero self index count it h = out_of_fuel
at_from (suc k) self index count it h =
    let rest = at_from k self index (count + 1) (h it) h in
    if it == self then ok none else if count == index then ok (some it) else rest

pub at : ℕ → (self : Ptr) (index : ℕ) → Field → Run (Option Ptr)
at k self index h = at_from k self index 0 (h self) h

pub before_middle_from : ℕ → (self fast slow : Ptr) → Field → Run Ptr
before_middle_from zero self fast slow h = out_of_fuel
before_middle_from (suc k) self fast slow h =
    let rest = before_middle_from k self (h (h fast)) (h slow) h in
    if h fast == self then ok slow else if h (h fast) == self then ok slow else rest

pub before_middle : ℕ → Ptr → Field → Run (Option Ptr)
before_middle k self h = do
  slow ← before_middle_from k self (h self) (h self) h
  ok (if slow == self then none else some slow)

pub middle : ℕ → Ptr → Field → Run (Option Ptr)
middle k self h = do
  before ← before_middle k self h
  ok (elim before [ none ↦ none | some b ↦ if h b == self then none else some (h b) ])

or_else : Option Ptr → Ptr → Ptr
or_else none p = p
or_else (some q) p = q

-- `GblLinkedList_join_`: the elements of `list` between `prev` and `next`.
pub splice : ℕ → (list prev next : Ptr) → Field → Run Field
unfolding or_else
splice k list prev next h = do
  last ← back k list h
  ok (let first = h list in update (update h prev first) (or_else last list) next)

pub split_after : ℕ → (self new_head after : Ptr) → Field → Run Field
split_after k self new_head after h = do
  last ← back k self h
  elim last [
    | none ↦ fault
    | some b ↦
        let h = update h b new_head in
        let h = update h new_head (h after) in ok (update h after self)
  ]

pub join_front : ℕ → (self list : Ptr) → Field → Run Field
join_front k self list h =
    if empty list h then ok h else do h' ← splice k list self (h self) h; ok (init list h')

pub join_back : ℕ → (self list : Ptr) → Field → Run Field
unfolding or_else
join_back k self list h =
    if empty list h
    then ok h
    else do last ← back k self h; h' ← splice k list (or_else last self) self h; ok (init list h')

pub insert_after : (node1 node2 : Ptr) → Field → Field
insert_after node1 node2 h = let h = update h node2 (h node1) in update h node1 node2

-- The loop of `GblLinkedList_insert`: the result of its insertion, if it makes one, and `count`.
pub insert_from :
    ℕ → (self node : Ptr) (index count : ℕ) (prev it : Ptr) → Field → Run (Option Field × ℕ)
insert_from zero self node index count prev it h = out_of_fuel
insert_from (suc k) self node index count prev it h =
    let rest = insert_from k self node index (count + 1) it (h it) h in
    let here = (let h = update h node (h prev) in update h prev node) in
    if it == self
    then ok (none, count)
    else if count == index
    then ok (some here, count + 1)
    else rest

pub insert : ℕ → (self node : Ptr) (index : ℕ) → Field → Run (Bool × Field)
insert k self node index h = do
  (inserted, counted) ← insert_from k self node index 0 self (h self) h
  elim inserted [
    | some h' ↦ ok (true, h')
    | none ↦
        if counted == index then (do h' ← push_back k self node h; ok (true, h')) else ok (false, h)
  ]

pub pop_front : Ptr → Field → Option Ptr × Field
pop_front self h = elim (front self h) [ none ↦ (none, h) | some f ↦ (some f, update h self (h f)) ]

pub pop_back_from : ℕ → (self prev it : Ptr) → Field → Run (Option Ptr × Field)
pop_back_from zero self prev it h = out_of_fuel
pop_back_from (suc k) self prev it h =
    let rest = pop_back_from k self it (h it) h in
    if it == self
    then ok (none, h)
    else if h it == self
    then ok (some it, update h prev self)
    else rest

pub pop_back : ℕ → Ptr → Field → Run (Option Ptr × Field)
pop_back k self h = pop_back_from k self self (h self) h

pub reverse_from : ℕ → (self prev it : Ptr) → Field → Run Field
reverse_from zero self prev it h = out_of_fuel
reverse_from (suc k) self prev it h =
    let rest = reverse_from k self it (h it) (update h it prev) in
    if it == self then ok (update h self prev) else rest

pub reverse : ℕ → Ptr → Field → Run Field
reverse k self h = reverse_from k self self (h self) h

-- The `do`-`while` loop of `GblLinkedList_clear`.
pub clear_from : ℕ → (self prev it : Ptr) → Field → Run Field
clear_from zero self prev it h = out_of_fuel
clear_from (suc k) self prev it h =
    let h' = update h prev prev in
    let rest = clear_from k self it (h' it) h' in if h' it == self then ok h' else rest

pub clear : ℕ → Ptr → Field → Run Field
clear k self h = clear_from k self self (h self) h

-- The loop that takes `node` out of whatever list it is in, starting behind it.
pub detach_from : ℕ → (node it : Ptr) → Field → Run Field
detach_from zero node it h = out_of_fuel
detach_from (suc k) node it h =
    let rest = detach_from k node (h it) h in
    if it == node then ok h else if h it == node then ok (update h it (h node)) else rest

pub move_back : ℕ → (self node : Ptr) → Field → Run Field
move_back k self node h = do h' ← detach_from k node (h node) h; push_back k self node h'

pub move_front : ℕ → (self node : Ptr) → Field → Run Field
move_front k self node h = do h' ← detach_from k node (h node) h; ok (push_front self node h')

pub replace_from : ℕ → (self existing replacement prev it : Ptr) → Field → Run (Bool × Field)
replace_from zero self existing replacement prev it h = out_of_fuel
replace_from (suc k) self existing replacement prev it h =
    let rest = replace_from k self existing replacement it (h it) h in
    let done =
      (let h = update h prev replacement in
        let h = update h replacement (h existing) in update h existing existing) in
    if it == self then ok (false, h) else if it == existing then ok (true, done) else rest

pub replace : ℕ → (self existing replacement : Ptr) → Field → Run (Bool × Field)
replace k self existing replacement h = do
  h' ← detach_from k replacement (h replacement) h
  replace_from k self existing replacement self (h' self) h'

pub swap_first : ℕ → (self node1 node2 it : Ptr) → Field → Run Field
swap_first zero self node1 node2 it h = out_of_fuel
swap_first (suc k) self node1 node2 it h =
    let rest = swap_first k self node1 node2 (h it) h in
    let done = (let h = update h it node2 in update h node2 (h node1)) in
    if it == self then ok h else if h it == node1 then ok done else rest

pub swap_second : ℕ → (node1 node2 old it : Ptr) → Field → Run Field
swap_second zero node1 node2 old it h = out_of_fuel
swap_second (suc k) node1 node2 old it h =
    let rest = swap_second k node1 node2 old (h it) h in
    if it == node2
    then ok h
    else if h it == node2
    then ok (update (update h it node1) node1 old)
    else rest

-- `found` starts as true and is never reset.
pub swap : ℕ → (self node1 node2 : Ptr) → Field → Run (Bool × Field)
swap k self node1 node2 h = do
  h' ← swap_first k self node1 node2 (h self) h
  h'' ←
      if h node2 == node2
      then ok (update h' node1 node1)
      else swap_second k node1 node2 (h node2) (h node2) h'
  ok (true, h'')
