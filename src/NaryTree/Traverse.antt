-- ===== src/NaryTree/Traverse.antt =====
-- The traversals of lib/source/containers/gimbal_nary_tree.c, which call a function on the nodes
-- whose flags are asked for.
--
-- The function is an argument: it gets the node and the client's data, and returns whether to stop
-- and the new data. It does not write to nodes. The three bits of flags are three Booleans.
use libgimbal.Common.{ℕ, zero, suc, Bool, true, false, not, ◌&&◌, ◌||◌, ◌==◌, if◌then◌else◌}
use libgimbal.Memory.{Ptr, null, Run, ok, fault, out_of_fuel, ◌>>=◌}
use libgimbal.NaryTree.{Tree, is_root, is_internal}

pub record Flags : Type 0 where
  pub root : Bool
  pub internal : Bool
  pub leaf : Bool

pub data Order : Type 0 where
  pre in_order post level : Order

pub flags : ℕ → Ptr → Tree → Run Flags
flags k self t = do
  inside ← is_internal k self t
  ok (record { root = is_root self t; internal = inside; leaf = not inside })

abbrev pub meets : Flags → Flags → Bool
meets a b = (a.root && b.root) || ((a.internal && b.internal) || (a.leaf && b.leaf))

module _ {S : Type 0} (fn : Ptr → S → Bool × S) (mask : Flags) (t : Tree) where
  visit : ℕ → Ptr → S → Run (Bool × S)
  visit k self s = do own ← flags k self t; ok (if meets own mask then fn self s else (false, s))

  -- `then_do` goes on, unless the function has asked to stop.
  abbrev then_do : Bool × S → (S → Run (Bool × S)) → Run (Bool × S)
  then_do (true, s) next = ok (true, s)
  then_do (false, s) next = next s

  mutual
    unfolding visit

    pub pre_order : ℕ → Ptr → S → Run (Bool × S)
    pre_order zero self s = out_of_fuel
    pre_order (suc k) self s =
        let children = (λ (s : S). pre_order_children k (t.child self) s) in
        do r ← visit k self s; then_do r children

    pub pre_order_children : ℕ → (it : Ptr) → S → Run (Bool × S)
    pre_order_children zero it s = out_of_fuel
    pre_order_children (suc k) it s =
        let here = pre_order k it s in
        let others = (λ (s : S). pre_order_children k (t.next it) s) in
        if it == null then ok (false, s) else do r ← here; then_do r others

  mutual
    unfolding visit

    pub post_order : ℕ → Ptr → S → Run (Bool × S)
    post_order zero self s = out_of_fuel
    post_order (suc k) self s =
        let children = post_order_children k (t.child self) s in
        do r ← children; then_do r (λ s. visit k self s)

    pub post_order_children : ℕ → (it : Ptr) → S → Run (Bool × S)
    post_order_children zero it s = out_of_fuel
    post_order_children (suc k) it s =
        let here = post_order k it s in
        let others = (λ (s : S). post_order_children k (t.next it) s) in
        if it == null then ok (false, s) else do r ← here; then_do r others

  -- The node comes before its last child.
  mutual
    unfolding visit

    pub traverse_in_order : ℕ → Ptr → S → Run (Bool × S)
    traverse_in_order zero self s = out_of_fuel
    traverse_in_order (suc k) self s = traverse_in_order_children k self (t.child self) s

    pub traverse_in_order_children : ℕ → (self it : Ptr) → S → Run (Bool × S)
    traverse_in_order_children zero self it s = out_of_fuel
    traverse_in_order_children (suc k) self it s =
        let here = (λ (s : S). traverse_in_order k it s) in
        let others = (λ (s : S). traverse_in_order_children k self (t.next it) s) in
        if it == null
        then visit k self s
        else if t.next it == null
        then (do r ← visit k self s; then_do r here)
        else do r ← here s; then_do r others

  -- The order is `mask >> 3`; by levels there is an assertion that fails.
  pub traverse : Order → ℕ → Ptr → S → Run (Bool × S)
  traverse pre k self s = pre_order k self s
  traverse in_order k self s = traverse_in_order k self s
  traverse post k self s = post_order k self s
  traverse level k self s = fault
