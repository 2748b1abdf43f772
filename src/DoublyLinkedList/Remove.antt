-- ===== src/DoublyLinkedList/Remove.antt =====
-- remove, popBack, popFront, moveBack, moveFront.
use libgimbal.Common.{◌≡◌, ◌≢◌, none, some, List, [], ◌∷◌, ◌++◌, append-nil, append_assoc, arith}
use libgimbal.Memory.{Ptr, update}
use libgimbal.Memory.Distinct.{
  NotIn-middle, NotIn, last_or, last_or-append, NotIn-last_or, NotIn-left, NotIn-right,
}
use libgimbal.Memory.Chain.{first_or}
use libgimbal.LinkedList
use libgimbal.DoublyLinkedList.{
  Links, remove, unlink, back, front, pop_back, pop_front, move_back, move_front,
}
use libgimbal.DoublyLinkedList.Cycle.{Edge, Cycle, Cycle-rotate, IsList}
use libgimbal.DoublyLinkedList.Agree.{Agree, Row-Agree, NotIn-init_of, last_or-init_of}
use libgimbal.DoublyLinkedList.Insert.{IsList-Edge, push_back-IsList, push_front-IsList}

-- The nodes `z` and `c` beside `n` linked to one another; of `n` itself nothing is said.
record Removed (z n c : Ptr) (l l' : Links) : Type 0 where
  agree : Agree (z ∷ n ∷ []) (c ∷ n ∷ []) l l'
  across : Edge l' z c

Removed-Cycle :
    (l l' : Links) (n c : Ptr) (cs : List Ptr)
    → Removed (last_or c cs) n c l l'
    → Cycle l (n ∷ (c ∷ cs))
    → Cycle l' (c ∷ cs)
Removed-Cycle l l' n c cs i (r, e, d) = (
  Row-Agree l l' (last_or c cs ∷ n ∷ []) (c ∷ n ∷ []) c cs i.agree
      (last_or-init_of c cs d.1, (NotIn-init_of n c cs d.0, tt)) (d.1.0, (d.0.1, tt)) r.1,
  i.across,
  d.1,
)

unlink-Removed :
    (l : Links) (z n c : Ptr)
    → Edge l z n
    → Edge l n c
    → n ≢ z
    → n ≢ c
    → Removed z n c l (unlink n l)
unfolding unlink update
unlink-Removed l z n c e f m o = record {
  agree = record { next = λ a out. ground arith; prev = λ a out. ground arith };
  across = ground arith;
}

remove-Removed :
    (l : Links) (z n c : Ptr)
    → Edge l z n
    → Edge l n c
    → n ≢ z
    → n ≢ c
    → Removed z n c l (remove n l) × Cycle (remove n l) (n ∷ [])
unfolding remove update
remove-Removed l z n c e f m o = (
  record {
    agree = record { next = λ a out. ground arith; prev = λ a out. ground arith };
    across = ground arith;
  },
  (tt, ground arith, (tt, tt)),
)

-- The two edges at an element, and its being none of the other nodes.
module _ (l : Links) (self node : Ptr) (xs ys : List Ptr)
    (is : IsList l self (xs ++ (node ∷ ys))) where
  Edge-before : Edge l (last_or self xs) node
  Edge-before = IsList-Edge l self xs (node ∷ ys) is

  Edge-behind : Edge l node (first_or ys self)
  Edge-behind =
      let is' : IsList l self ((xs ++ (node ∷ [])) ++ ys) = rw append_assoc is in
      rw last_or-append at (IsList-Edge l self (xs ++ (node ∷ [])) ys is')

  node_out : NotIn node (self ∷ (xs ++ ys))
  node_out = NotIn-middle node (self ∷ xs) ys is.2

  ne_before : node ≢ last_or self xs
  ne_before = NotIn-last_or node self xs node_out.0 (NotIn-left node xs ys node_out.1)

  ne_behind : node ≢ first_or ys self
  ne_behind = go ys node_out
    where
      go : (zs : List Ptr) → NotIn node (self ∷ (xs ++ zs)) → node ≢ first_or zs self
      go [] n = n.0
      go (z ∷ zs) n = (NotIn-right node xs (z ∷ zs) n.1).0

Removed-IsList :
    (l l' : Links) (self node : Ptr) (xs ys : List Ptr)
    → Removed (last_or self xs) node (first_or ys self) l l'
    → IsList l self (xs ++ (node ∷ ys))
    → IsList l' self (xs ++ ys)
Removed-IsList l l' self node xs [] i is =
    rw append-nil (Removed-Cycle l l' node self xs i (Cycle-rotate l (self ∷ xs) (node ∷ []) is))
Removed-IsList l l' self node xs (y ∷ ys) i is =
    let turned : Cycle l (node ∷ ((y ∷ ys) ++ (self ∷ xs))) =
      Cycle-rotate l (self ∷ xs) (node ∷ (y ∷ ys)) is in
    let i' : Removed (last_or y (ys ++ (self ∷ xs))) node y l l' = rw last_or-append i in
    Cycle-rotate l' (y ∷ ys) (self ∷ xs) (Removed-Cycle l l' node y (ys ++ (self ∷ xs)) i' turned)

unlink-IsList :
    (l : Links) (self node : Ptr) (xs ys : List Ptr)
    → IsList l self (xs ++ (node ∷ ys))
    → IsList (unlink node l) self (xs ++ ys)
unlink-IsList l self node xs ys is =
    Removed-IsList l (unlink node l) self node xs ys
      (unlink-Removed l (last_or self xs) node (first_or ys self) (Edge-before l self node xs ys is)
        (Edge-behind l self node xs ys is) (ne_before l self node xs ys is)
        (ne_behind l self node xs ys is))
      is

-- `GblDoublyLinkedList_remove` takes an element out of its list, keeps the others in order, and
-- leaves the node a list of its own.
pub remove-IsList :
    (l : Links) (self node : Ptr) (xs ys : List Ptr)
    → IsList l self (xs ++ (node ∷ ys))
    → IsList (remove node l) self (xs ++ ys) × IsList (remove node l) node []
remove-IsList l self node xs ys is =
    let (i, own) =
      remove-Removed l (last_or self xs) node (first_or ys self) (Edge-before l self node xs ys is)
        (Edge-behind l self node xs ys is) (ne_before l self node xs ys is)
        (ne_behind l self node xs ys is) in
    (Removed-IsList l (remove node l) self node xs ys i is, own)

-- `GblDoublyLinkedList_popBack` returns the last element and leaves the others.
pub pop_back-IsList :
    (l : Links) (self node : Ptr) (xs : List Ptr)
    → IsList l self (xs ++ (node ∷ []))
    → ((pop_back self l).0 ≡ some node) × IsList (pop_back self l).1 self xs
unfolding pop_back back
pop_back-IsList l self node xs is =
    let e : l.prev self ≡ node = (Edge-behind l self node xs [] is).1 in
    let apart : node ≢ self = ne_behind l self node xs [] is in
    let rest : IsList (unlink node l) self xs =
      rw append-nil at (unlink-IsList l self node xs [] is) in
    ground (arith, rest)

-- `GblDoublyLinkedList_popFront` returns the first element and leaves the others.
pub pop_front-IsList :
    (l : Links) (self node : Ptr) (xs : List Ptr)
    → IsList l self (node ∷ xs)
    → ((pop_front self l).0 ≡ some node) × IsList (pop_front self l).1 self xs
unfolding pop_front front LinkedList.front
pop_front-IsList l self node xs is =
    let apart : node ≢ self = ne_before l self node [] xs is in
    let rest : IsList (unlink node l) self xs = unlink-IsList l self node [] xs is in
    ground (arith, rest)

-- `GblDoublyLinkedList_popBack` and `GblDoublyLinkedList_popFront` on an empty list return NULL and
-- write nothing.
pub pop_ends-none :
    (l : Links) (self : Ptr)
    → IsList l self []
    → (pop_back self l ≡ (none, l)) × (pop_front self l ≡ (none, l))
unfolding pop_back pop_front back front LinkedList.front
pop_ends-none l self is = ground arith

-- `GblDoublyLinkedList_moveBack` moves an element to the end of its own list, and
-- `GblDoublyLinkedList_moveFront` to the front; the others keep their order.
pub move_ends :
    (l : Links) (self node : Ptr) (xs ys : List Ptr)
    → IsList l self (xs ++ (node ∷ ys))
    → IsList (move_back self node l) self ((xs ++ ys) ++ (node ∷ []))
      × IsList (move_front self node l) self (node ∷ (xs ++ ys))
unfolding move_back move_front
move_ends l self node xs ys is =
    let rest : IsList (unlink node l) self (xs ++ ys) = unlink-IsList l self node xs ys is in
    let out : NotIn node (self ∷ (xs ++ ys)) = node_out l self node xs ys is in
    (
      push_back-IsList (unlink node l) self node (xs ++ ys) rest out,
      push_front-IsList (unlink node l) self node (xs ++ ys) rest out,
    )
