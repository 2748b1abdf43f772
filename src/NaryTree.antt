-- ===== src/NaryTree.antt =====
-- lib/source/containers/gimbal_nary_tree.c: intrusive nodes with a parent, a first child and a next
-- sibling. This module has the queries; NaryTree.Edit has the functions that write, and
-- NaryTree.Traverse the traversals.
--
-- A pointer that the code returns is an address, 0 for NULL. A loop runs on fuel. The pointers that
-- callers pass are not NULL, except where a function passes on what another returned.
pub mod Edit
pub mod Inv
pub mod Query
pub mod Traverse
mod Tests
use libgimbal.Common.{
  ℕ, zero, suc, ◌+◌, ◌-◌, ◌%◌, ◌^◌, Bool, true, false, not, ◌&&◌, ◌||◌, leb, ◌==◌, if◌then◌else◌,
}
use libgimbal.Memory.{Ptr, null, Field, update, Run, ok, fault, out_of_fuel, ◌>>=◌}
use libgimbal.LinkedList.{npos}

pub record Tree : Type 0 where
  pub parent : Field
  pub child : Field
  pub next : Field

abbrev pub set_parent : Ptr → Ptr → Tree → Tree
set_parent p q t = record t { parent = update t.parent p q }

abbrev pub set_child : Ptr → Ptr → Tree → Tree
set_child p q t = record t { child = update t.child p q }

abbrev pub set_next : Ptr → Ptr → Tree → Tree
set_next p q t = record t { next = update t.next p q }

-- `size_t` subtraction.
abbrev pub sub_size : ℕ → ℕ → ℕ
sub_size a b = (a + (2 ^ 64 - b)) % 2 ^ 64

pub child_count_from : ℕ → (size : ℕ) (it : Ptr) → Tree → Run ℕ
child_count_from zero size it t = out_of_fuel
child_count_from (suc k) size it t =
    let rest = child_count_from k (size + 1) (t.next it) t in if it == null then ok size else rest

pub child_count : ℕ → Ptr → Tree → Run ℕ
child_count k self t = child_count_from k 0 (t.child self) t

pub is_leaf : ℕ → Ptr → Tree → Run Bool
is_leaf k self t = do n ← child_count k self t; ok (n == 0)

pub is_internal : ℕ → Ptr → Tree → Run Bool
is_internal k self t = do leaf ← is_leaf k self t; ok (not leaf)

pub is_root : Ptr → Tree → Bool
is_root self t = t.parent self == null

pub is_connected : Ptr → Tree → Bool
is_connected self t =
    not (t.parent self == null) || (not (t.child self == null) || not (t.next self == null))

pub is_parent : (self other : Ptr) → Tree → Bool
is_parent self other t = t.parent self == other

pub is_sibling : (self other : Ptr) → Tree → Bool
is_sibling self other t =
    not (t.parent self == null) && (t.parent self == t.parent other && not (self == other))

pub child_last_from : ℕ → (it : Ptr) → Tree → Run Ptr
child_last_from zero it t = out_of_fuel
child_last_from (suc k) it t =
    let rest = child_last_from k (t.next it) t in
    if it == null then ok null else if t.next it == null then ok it else rest

pub child_last : ℕ → Ptr → Tree → Run Ptr
child_last k self t = child_last_from k (t.child self) t

pub child_before_from : ℕ → (child it : Ptr) → Tree → Run Ptr
child_before_from zero child it t = out_of_fuel
child_before_from (suc k) child it t =
    let rest = child_before_from k child (t.next it) t in
    if it == null then ok null else if t.next it == child then ok it else rest

pub child_before : ℕ → (self child : Ptr) → Tree → Run Ptr
child_before k self child t = child_before_from k child (t.child self) t

pub child_at_from : ℕ → (index : ℕ) (it : Ptr) → Tree → Run Ptr
child_at_from zero index it t = out_of_fuel
child_at_from (suc k) index it t =
    let rest = child_at_from k (index - 1) (t.next it) t in
    if it == null then ok null else if index == 0 then ok it else rest

pub child_at : ℕ → (self : Ptr) (index : ℕ) → Tree → Run Ptr
child_at k self index t = child_at_from k index (t.child self) t

pub child_index_from : ℕ → (child : Ptr) (i : ℕ) (it : Ptr) → Tree → Run ℕ
child_index_from zero child i it t = out_of_fuel
child_index_from (suc k) child i it t =
    let rest = child_index_from k child (i + 1) (t.next it) t in
    if it == null then ok npos else if it == child then ok i else rest

pub child_index : ℕ → (self child : Ptr) → Tree → Run ℕ
child_index k self child t = child_index_from k child 0 (t.child self) t

pub is_child : ℕ → (self other : Ptr) → Tree → Run Bool
is_child k self other t = do i ← child_index k self other t; ok (not (i == npos))

pub depth_from : ℕ → (depth : ℕ) (it : Ptr) → Tree → Run ℕ
depth_from zero depth it t = out_of_fuel
depth_from (suc k) depth it t =
    let rest = depth_from k (depth + 1) (t.parent it) t in
    if t.parent it == null then ok depth else rest

pub depth : ℕ → Ptr → Tree → Run ℕ
depth k self t = depth_from k 0 self t

pub root : ℕ → Ptr → Tree → Run Ptr
root zero self t = out_of_fuel
root (suc k) self t =
    let rest = root k (t.parent self) t in if t.parent self == null then ok self else rest

pub ancestor_from : ℕ → (height i : ℕ) (it : Ptr) → Tree → Run Ptr
ancestor_from zero height i it t = out_of_fuel
ancestor_from (suc k) height i it t =
    let rest = ancestor_from k height (i + 1) (t.parent it) t in
    if it == null
    then ok null
    else if leb i height
    then (if i == height then ok it else rest)
    else ok null

pub ancestor : ℕ → (self : Ptr) (height : ℕ) → Tree → Run Ptr
ancestor k self height t = ancestor_from k height 0 (t.parent self) t

pub base : ℕ → (self : Ptr) (depth : ℕ) → Tree → Run Ptr
base k self height t = do
  n ← depth k self t
  let d = sub_size n height
  if d == 0 then ok self else ancestor k self (d - 1) t

pub ancestor_height_from : ℕ → (other : Ptr) (i : ℕ) (it : Ptr) → Tree → Run ℕ
ancestor_height_from zero other i it t = out_of_fuel
ancestor_height_from (suc k) other i it t =
    let rest = ancestor_height_from k other (i + 1) (t.parent it) t in
    if it == null then ok npos else if it == other then ok i else rest

pub ancestor_height : ℕ → (self other : Ptr) → Tree → Run ℕ
ancestor_height k self other t = ancestor_height_from k other 0 (t.parent self) t

pub is_ancestor : ℕ → (self other : Ptr) → Tree → Run Bool
is_ancestor k self other t = do i ← ancestor_height k self other t; ok (not (i == npos))

pub is_descendent : ℕ → (self other : Ptr) → Tree → Run Bool
is_descendent k self other t = is_ancestor k other self t

pub empty : Ptr → Tree → Bool
empty self t = t.child self == null

pub sibling_at_from : ℕ → (self : Ptr) (index i : ℕ) (it : Ptr) → Tree → Run Ptr
sibling_at_from zero self index i it t = out_of_fuel
sibling_at_from (suc k) self index i it t =
    let same = sibling_at_from k self index i (t.next it) t in
    let rest = sibling_at_from k self index (i + 1) (t.next it) t in
    if it == null then ok null else if it == self then same else if i == index then ok it else rest

pub sibling_at : ℕ → (self : Ptr) (index : ℕ) → Tree → Run Ptr
sibling_at k self index t =
    if t.parent self == null
    then fault
    else sibling_at_from k self index 0 (t.child (t.parent self)) t

pub sibling_index_from : ℕ → (self sibling : Ptr) (index : ℕ) (it : Ptr) → Tree → Run ℕ
sibling_index_from zero self sibling index it t = out_of_fuel
sibling_index_from (suc k) self sibling index it t =
    let same = sibling_index_from k self sibling index (t.next it) t in
    let rest = sibling_index_from k self sibling (index + 1) (t.next it) t in
    if it == null
    then ok npos
    else if it == self
    then same
    else if it == sibling
    then ok index
    else rest

pub sibling_index : ℕ → (self sibling : Ptr) → Tree → Run ℕ
sibling_index k self sibling t =
    if t.parent self == null
    then fault
    else sibling_index_from k self sibling 0 (t.child (t.parent self)) t

pub sibling_count : ℕ → Ptr → Tree → Run ℕ
sibling_count k self t =
    if t.parent self == null
    then ok 0
    else do n ← child_count k (t.parent self) t; ok (sub_size n 1)

pub sibling_last_from : ℕ → (last it : Ptr) → Tree → Run Ptr
sibling_last_from zero last it t = out_of_fuel
sibling_last_from (suc k) last it t =
    let rest = sibling_last_from k it (t.next it) t in if it == null then ok last else rest

pub sibling_last : ℕ → Ptr → Tree → Run Ptr
sibling_last k self t =
    if not (t.next self == null)
    then sibling_last_from k null (t.next self) t
    else if t.parent self == null
    then ok null
    else child_before k (t.parent self) self t

pub sibling_before : ℕ → Ptr → Tree → Run Ptr
sibling_before k self t =
    if t.parent self == null then ok null else child_before_from k self (t.child (t.parent self)) t

pub sibling_first : Ptr → Tree → Ptr
sibling_first self t =
    if t.parent self == null
    then null
    else if t.child (t.parent self) == self
    then t.next self
    else t.child (t.parent self)
