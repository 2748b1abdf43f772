-- ===== src/NaryTree/Edit.antt =====
-- The functions of lib/source/containers/gimbal_nary_tree.c that write to nodes.
pub mod Children
use libgimbal.Common.{ℕ, zero, suc, ◌+◌, ◌-◌, ◌==◌, if◌then◌else◌}
use libgimbal.Memory.{Ptr, null, Run, ok, fault, out_of_fuel, ◌>>=◌}
use libgimbal.NaryTree.{Tree, set_parent, set_child, set_next, child_last, child_before, child_at}

pub add_child_front : (self child : Ptr) → Tree → Tree
add_child_front self child t =
    let t = set_parent child self t in
    let t = set_next child (t.child self) t in set_child self child t

pub add_child_back : ℕ → (self child : Ptr) → Tree → Run Tree
add_child_back k self child t = do
  back ← child_last k self t
  let t = if back == null then set_child self child t else set_next back child t
  let t = set_parent child self t
  ok (set_next child null t)

-- The loop of `GblNaryTree_addChildTo`, which goes on behind the node that it puts in. Its result is
-- the number of children that it passed, the last of them, and the nodes.
pub add_child_to_from :
    ℕ → (self : Ptr) (index : ℕ) (child : Ptr) (i : ℕ) (prev it : Ptr) → Tree → Run (ℕ × Ptr × Tree)
add_child_to_from zero self index child i prev it t = out_of_fuel
add_child_to_from (suc k) self index child i prev it t =
    let linked = set_next child it t in
    let put = set_parent child self (if prev == null then linked else set_next prev child linked) in
    let t' = if i == index then put else t in
    let rest = add_child_to_from k self index child (i + 1) it (t'.next it) t' in
    if it == null then ok (i, prev, t) else rest

pub add_child_to : ℕ → (self : Ptr) (index : ℕ) (child : Ptr) → Tree → Run Tree
add_child_to k self index child t =
    if index == 0
    then (let t = set_next child (t.child self) t in
        let t = set_child self child t in ok (set_parent child self t))
    else do
      (i, prev, t) ← add_child_to_from k self index child 0 null (t.child self) t
      let linked = if prev == null then t else set_next prev child t
      ok (if i == index then set_parent child self (set_next child null linked) else t)

pub add_child_before : ℕ → (self before child : Ptr) → Tree → Run Tree
add_child_before k self before child t = do
  prev ← child_before k self before t
  let t = if prev == null then set_child self child t else set_next prev child t
  let t = set_next child before t
  ok (set_parent child self t)

pub add_child_after : (self after child : Ptr) → Tree → Tree
add_child_after self after child t =
    let t = set_next child (t.next after) t in
    let t = set_next after child t in set_parent child self t

-- The functions that remove a child return NULL, but for `remove_child_at`.
pub remove_child : ℕ → (self child : Ptr) → Tree → Run (Ptr × Tree)
remove_child k self child t = do
  before ← child_before k self child t
  let t =
      if before == null then set_child self (t.next child) t else set_next before (t.next child) t
  let t = set_parent child null t
  ok (null, set_next child null t)

pub move_child_front : ℕ → (self child : Ptr) → Tree → Run Tree
move_child_front k self child t = do
  (_, t) ← remove_child k self child t
  ok (add_child_front self child t)

pub move_child_back : ℕ → (self child : Ptr) → Tree → Run Tree
move_child_back k self child t = do
  (_, t) ← remove_child k self child t
  add_child_back k self child t

pub move_child_to : ℕ → (self : Ptr) (index : ℕ) (child : Ptr) → Tree → Run Tree
move_child_to k self index child t = do
  prev ← (if index == 0 then ok null else child_at k self (index - 1) t)
  (_, t) ← remove_child k self child t
  ok (if prev == null then add_child_front self child t else add_child_after self prev child t)

pub remove_child_front : (self : Ptr) → Tree → Run (Ptr × Tree)
remove_child_front self t =
    let first = t.child self in
    let t = set_child self (t.next first) t in
    let t = set_next first null t in
    if first == null then fault else ok (null, set_parent first null t)

pub remove_child_back_from : ℕ → (it : Ptr) → Tree → Run Tree
remove_child_back_from zero it t = out_of_fuel
remove_child_back_from (suc k) it t =
    let rest = remove_child_back_from k (t.next it) t in
    let cut = set_next (t.next it) null (set_parent (t.next it) null t) in
    if t.next (t.next it) == null then ok (set_next it null cut) else rest

pub remove_child_back : ℕ → (self : Ptr) → Tree → Run (Ptr × Tree)
remove_child_back k self t =
    let first = t.child self in
    if first == null
    then ok (null, t)
    else if t.next first == null
    then (let t = set_parent first null t in
        let t = set_next first null t in ok (null, set_child self null t))
    else do t ← remove_child_back_from k first t; ok (null, t)

pub remove_child_at_from : ℕ → (index i : ℕ) (it : Ptr) → Tree → Run (Ptr × Tree)
remove_child_at_from zero index i it t = out_of_fuel
remove_child_at_from (suc k) index i it t =
    let rest = remove_child_at_from k index (i + 1) (t.next it) t in
    let removed = t.next it in
    let t = set_next it (t.next removed) t in
    let t = set_next removed null t in
    let taken : Run (Ptr × Tree) =
      if removed == null then fault else ok (removed, set_parent removed null t) in
    if it == null then ok (null, t) else if i + 1 == index then taken else rest

pub remove_child_at : ℕ → (self : Ptr) (index : ℕ) → Tree → Run (Ptr × Tree)
remove_child_at k self index t =
    if index == 0
    then remove_child_front self t
    else remove_child_at_from k index 0 (t.child self) t

pub replace_child_from : ℕ → (self old new prev it : Ptr) → Tree → Run Tree
replace_child_from zero self old new prev it t = out_of_fuel
replace_child_from (suc k) self old new prev it t =
    let rest = replace_child_from k self old new it (t.next it) t in
    let linked = if prev == null then set_child self new t else set_next prev new t in
    let put = set_parent new self (set_next new (linked.next old) linked) in
    if it == null then ok t else if it == old then ok put else rest

pub replace_child : ℕ → (self old new : Ptr) → Tree → Run Tree
replace_child k self old new t = replace_child_from k self old new null (t.child self) t

pub replace_child_at_from :
    ℕ → (self : Ptr) (index : ℕ) (new : Ptr) (i : ℕ) (prev it : Ptr) → Tree → Run Tree
replace_child_at_from zero self index new i prev it t = out_of_fuel
replace_child_at_from (suc k) self index new i prev it t =
    let rest = replace_child_at_from k self index new (i + 1) it (t.next it) t in
    let linked = set_next prev new t in
    let put = set_parent new self (set_next new (linked.next it) linked) in
    if it == null then ok t else if i == index then ok put else rest

pub replace_child_at : ℕ → (self : Ptr) (index : ℕ) (new : Ptr) → Tree → Run Tree
replace_child_at k self index new t =
    let first = t.child self in
    let linked = set_next new (if first == null then null else t.next first) t in
    if index == 0
    then ok (set_parent new self (set_child self new linked))
    else replace_child_at_from k self index new 0 null first t

pub swap_children : ℕ → (self child1 child2 : Ptr) → Tree → Run Tree
swap_children k self child1 child2 t = do
  prev1 ← child_before k self child1 t
  prev2 ← child_before k self child2 t
  let t = if prev1 == null then set_child self child2 t else set_next prev1 child2 t
  let t = if prev2 == null then set_child self child1 t else set_next prev2 child1 t
  let temp = t.next child1
  let t' = set_next child2 temp (set_next child1 (t.next child2) t)
  if child1 == null then fault else if child2 == null then fault else ok t'

pub swap_children_at : ℕ → (self : Ptr) (index1 index2 : ℕ) → Tree → Run Tree
swap_children_at k self index1 index2 t = do
  child1 ← child_at k self index1 t
  child2 ← child_at k self index2 t
  swap_children k self child1 child2 t

pub reverse_children_from : ℕ → (self prev it : Ptr) → Tree → Run Tree
reverse_children_from zero self prev it t = out_of_fuel
reverse_children_from (suc k) self prev it t =
    let rest = reverse_children_from k self it (t.next it) (set_next it prev t) in
    if it == null then ok (set_child self prev t) else rest

pub reverse_children : ℕ → (self : Ptr) → Tree → Run Tree
reverse_children k self t = reverse_children_from k self null (t.child self) t

pub disconnect_from : ℕ → (self : Ptr) → Tree → Run Tree
disconnect_from zero self t = out_of_fuel
disconnect_from (suc k) self t =
    let rest = (λ (t : Tree). disconnect_from k self t) in
    if t.child self == null then ok t else do (_, t) ← remove_child_front self t; rest t

pub disconnect : ℕ → (self : Ptr) → Tree → Run Tree
disconnect k self t = do
  (_, t) ← (if t.parent self == null then ok (null, t) else remove_child k (t.parent self) self t)
  disconnect_from k self t
