-- ===== src/DoublyLinkedList.antt =====
-- lib/source/containers/gimbal_doubly_linked_list.c: an intrusive, circular, doubly linked list.
--
-- The state is the fields `pNext` and `pPrev` of all nodes; each assignment of the source is one
-- `set_next` or `set_prev`, in its order. `singleNode` is the union of `pNext` with a node of the
-- singly linked list, so the functions of gimbal_linked_list.c run on the field `next`.
-- An `intptr_t` index is an integer.
pub mod Cycle
pub mod Agree
pub mod Insert
pub mod Remove
pub mod Join
pub mod Reverse
pub mod Rotate
pub mod Sort
mod Tests
use libgimbal.Common.{
  ℕ, zero, suc, ◌+◌, Bool, true, false, ◌&&◌, Option, none, some, ltb, ◌==◌, if◌then◌else◌,
}
use libgimbal.Common.Int.{ℤ, pos, negsuc, incr, is_zero}
use libgimbal.Memory.{Ptr, null, Field, update, Run, ok, fault, out_of_fuel, ◌>>=◌}
use libgimbal.LinkedList

pub record Links : Type 0 where
  pub next : Field
  pub prev : Field

abbrev pub set_next : Ptr → Ptr → Links → Links
set_next p q l = record l { next = update l.next p q }

abbrev pub set_prev : Ptr → Ptr → Links → Links
set_prev p q l = record l { prev = update l.prev p q }

pub init : Ptr → Links → Links
init self l = let l = set_prev self self l in set_next self self l

pub empty : Ptr → Links → Bool
empty self l =
    LinkedList.empty self l.next && (if l.prev self == self then true else l.prev self == null)

pub move : (self head : Ptr) → Links → Links
move self head l = if empty head l then l else moved
  where
    moved : Links
    moved =
        let l = set_next (l.prev head) self l in
        let l = set_prev self (l.prev head) l in
        let l = set_prev (l.next head) self l in
        let l = set_next self (l.next head) l in
        let l = set_next head head l in set_prev head head l

pub push_back : (self node : Ptr) → Links → Links
push_back self node l =
    let last = l.prev self in
    let l = set_next last node l in
    let l = set_prev node last l in let l = set_next node self l in set_prev self node l

pub push_front : (self node : Ptr) → Links → Links
push_front self node l =
    let l = set_next node (l.next self) l in
    let l = set_prev (l.next self) node l in let l = set_prev node self l in set_next self node l

pub find : ℕ → (self node : Ptr) → Links → Run ℕ
find k self node l = LinkedList.find k self node l.next

pub contains : ℕ → (self node : Ptr) → Links → Run Bool
contains k self node l = LinkedList.contains k self node l.next

pub count : ℕ → Ptr → Links → Run ℕ
count k self l = LinkedList.count k self l.next

-- The walk backwards for a negative index; `count` is the loop's counter.
pub at_from : ℕ → (self : Ptr) (count : ℤ) (it : Ptr) → Links → Run (Option Ptr)
at_from zero self count it l = out_of_fuel
at_from (suc k) self count it l =
    let rest = at_from k self (incr count) (l.prev it) l in
    if it == self then ok none else if is_zero (incr count) then ok (some it) else rest

pub at : ℕ → (self : Ptr) → ℤ → Links → Run (Option Ptr)
at k self (pos n) l = LinkedList.at k self n l.next
at k self (negsuc n) l = at_from k self (negsuc n) (l.prev self) l

pub front : Ptr → Links → Option Ptr
front self l = LinkedList.front self l.next

pub back : Ptr → Links → Option Ptr
back self l = if l.prev self == self then none else some (l.prev self)

pub middle : ℕ → Ptr → Links → Run (Option Ptr)
middle k self l = LinkedList.middle k self l.next

pub before_middle : ℕ → Ptr → Links → Run (Option Ptr)
before_middle k self l = LinkedList.before_middle k self l.next

pub remove : Ptr → Links → Links
remove node l =
    let l = set_next (l.prev node) (l.next node) l in
    let l = set_prev (l.next node) (l.prev node) l in
    let l = set_next node node l in set_prev node node l

pub replace : (existing replacement : Ptr) → Links → Bool × Links
replace existing replacement l = (true, replaced)
  where
    replaced : Links
    replaced =
        let l = set_next (l.prev replacement) (l.next replacement) l in
        let l = set_prev (l.next replacement) (l.prev replacement) l in
        let l = set_next (l.prev existing) replacement l in
        let l = set_prev (l.next existing) replacement l in
        let l = set_prev replacement (l.prev existing) l in
        let l = set_next replacement (l.next existing) l in
        let l = set_prev existing existing l in set_next existing existing l

-- `pBack` is NULL on an empty list.
pub split_after : (self new_head after : Ptr) → Links → Run Links
split_after self new_head after l = elim (back self l) [
  | none ↦ fault
  | some b ↦ ok (
      let l = set_next b new_head l in
      let l = set_prev (l.next after) new_head l in
      let l = set_next new_head (l.next after) l in
      let l = set_prev new_head b l in let l = set_next after self l in set_prev self after l)
]

pub swap : (existing replacement : Ptr) → Links → Bool × Links
swap existing replacement l = (true, swapped)
  where
    swapped : Links
    swapped =
        let l = set_next (l.prev existing) replacement l in
        let l = set_prev (l.next existing) replacement l in
        let l = set_prev (l.next replacement) existing l in
        let l = set_next (l.prev replacement) existing l in
        let node = l.next replacement in
        let l = set_next replacement (l.next existing) l in
        let l = set_next existing node l in
        let node = l.prev replacement in
        let l = set_prev replacement (l.prev existing) l in set_prev existing node l

-- The two assignments that take a node out of its list and leave its own links.
pub unlink : Ptr → Links → Links
unlink node l =
    let l = set_next (l.prev node) (l.next node) l in set_prev (l.next node) (l.prev node) l

pub move_back : (self node : Ptr) → Links → Links
unfolding unlink
move_back self node l = push_back self node (unlink node l)

pub move_front : (self node : Ptr) → Links → Links
unfolding unlink
move_front self node l = push_front self node (unlink node l)

pub erase : ℕ → (self : Ptr) → ℤ → Links → Run (Option Ptr × Links)
erase k self index l = do
  node ← at k self index l
  ok (elim node [ some n ↦ (some n, remove n l) | none ↦ (none, l) ])

-- The `do`-`while` loop of `GblDoublyLinkedList_clear`.
pub clear_from : ℕ → (self prev it : Ptr) → Links → Run Links
clear_from zero self prev it l = out_of_fuel
clear_from (suc k) self prev it l =
    let l' = set_prev prev prev (set_next prev prev l) in
    let rest = clear_from k self it (l'.next it) l' in if l'.next it == self then ok l' else rest

pub clear : ℕ → Ptr → Links → Run Links
clear k self l = clear_from k self self (l.next self) l

pub join_back : (self list : Ptr) → Links → Links
join_back self list l = if empty list l then l else joined
  where
    joined : Links
    joined =
        let l = set_next (l.prev self) (l.next list) l in
        let l = set_prev (l.next list) (l.prev self) l in
        let l = set_next (l.prev list) self l in
        let l = set_prev self (l.prev list) l in
        let l = set_prev list list l in set_next list list l

pub join_front : (self list : Ptr) → Links → Links
join_front self list l = if empty list l then l else joined
  where
    joined : Links
    joined =
        let l = set_prev (l.next self) (l.prev list) l in
        let l = set_next (l.prev list) (l.next self) l in
        let l = set_next self (l.next list) l in
        let l = set_prev (l.next list) self l in
        let l = set_next list list l in set_prev list list l

pub pop_back : Ptr → Links → Option Ptr × Links
unfolding unlink
pop_back self l = elim (back self l) [ none ↦ (none, l) | some b ↦ (some b, unlink b l) ]

pub pop_front : Ptr → Links → Option Ptr × Links
unfolding unlink
pop_front self l = elim (front self l) [ none ↦ (none, l) | some f ↦ (some f, unlink f l) ]

-- The `do`-`while` loop of `GblDoublyLinkedList_reverse`.
pub reverse_from : ℕ → (self it : Ptr) → Links → Run Links
reverse_from zero self it l = out_of_fuel
reverse_from (suc k) self it l =
    let temp = l.next it in
    let l' = (let l = set_next it (l.prev it) l in set_prev it temp l) in
    let rest = reverse_from k self temp l' in if temp == self then ok l' else rest

pub reverse : ℕ → Ptr → Links → Run Links
reverse k self l = reverse_from k self self l

pub insert_before : (node1 node2 : Ptr) → Links → Links
insert_before node1 node2 l =
    let l = set_prev node2 (l.prev node1) l in
    let l = set_next (l.prev node2) node2 l in
    let l = set_prev node1 node2 l in set_next node2 node1 l

pub insert_after : (node1 node2 : Ptr) → Links → Links
insert_after node1 node2 l =
    let l = set_next node2 (l.next node1) l in
    let l = set_prev (l.next node2) node2 l in
    let l = set_next node1 node2 l in set_prev node2 node1 l

-- `GBL_ASSERT(pPivot)` is off in a release build; the code tests the pivot again.
pub rotate : ℕ → (self : Ptr) → ℤ → Links → Run Links
rotate k self n l = if is_zero n then ok l else do
  pivot ← at k self n l
  ok (elim pivot [ none ↦ l | some p ↦ insert_before p self (remove self l) ])

-- The loops of `GblDoublyLinkedList_insert`: the insertion, if one is made, and `count`.
pub insert_forward :
    ℕ → (self : Ptr) (idx count : ℕ) (node it : Ptr) → Links → Run (Option Links × ℕ)
insert_forward zero self idx count node it l = out_of_fuel
insert_forward (suc k) self idx count node it l =
    let rest = insert_forward k self idx (count + 1) node (l.next it) l in
    let here = insert_before it node l in
    if it == self
    then ok (none, count)
    else if count == idx
    then ok (some here, count + 1)
    else rest

pub insert_backward : ℕ → (self : Ptr) (count : ℤ) (node it : Ptr) → Links → Run (Option Links × ℤ)
insert_backward zero self count node it l = out_of_fuel
insert_backward (suc k) self count node it l =
    let rest = insert_backward k self (incr count) node (l.prev it) l in
    let here = insert_after it node l in
    if it == self
    then ok (none, count)
    else if is_zero (incr count)
    then ok (some here, incr count)
    else rest

pub insert : ℕ → (self : Ptr) → ℤ → (node : Ptr) → Links → Run (Bool × Links)
insert k self (pos idx) node l = do
  (inserted, counted) ← insert_forward k self idx 0 node (l.next self) l
  ok (elim inserted [
    | some l' ↦ (true, l')
    | none ↦ if counted == idx then (true, push_back self node l) else (false, l)
  ])
insert k self (negsuc n) node l = do
  (inserted, counted) ← insert_backward k self (negsuc n) node (l.prev self) l
  ok (elim inserted [
    | some l' ↦ (true, l')
    | none ↦ if is_zero (incr counted) then (true, push_front self node l) else (false, l)
  ])

pub remove_before : Ptr → Links → Ptr × Links
remove_before node l = let prev = l.prev node in (prev, remove prev l)

pub remove_after : Ptr → Links → Ptr × Links
remove_after node l = let next = l.next node in (next, remove next l)
