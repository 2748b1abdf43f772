-- ===== src/DoublyLinkedList/Insert.antt =====
-- insertBefore, insertAfter, pushBack, pushFront.
use libgimbal.Common.{◌≢◌, List, [], ◌∷◌, ◌++◌, append-nil, append_assoc, arith}
use libgimbal.Memory.{Ptr, update}
use libgimbal.Memory.Distinct.{
  NotIn, last_or, last_or-append, NotIn-last_or, Distinct-insert, NotIn-left, NotIn-right,
  NotIn-append,
}
use libgimbal.Memory.Chain.{first_or}
use libgimbal.DoublyLinkedList.{Links, insert_before, insert_after, push_back, push_front}
use libgimbal.DoublyLinkedList.Cycle.{Edge, Row-append, Row-right, Cycle, Cycle-rotate, IsList}
use libgimbal.DoublyLinkedList.Agree.{Agree, Row-Agree, NotIn-init_of, last_or-init_of}

-- `n` between `z` and its successor `c`.
pub record Inserted (z n c : Ptr) (l l' : Links) : Type 0 where
  agree : Agree (z ∷ n ∷ []) (c ∷ n ∷ []) l l'
  before : Edge l' z n
  behind : Edge l' n c

Inserted-Cycle :
    (l l' : Links) (n c : Ptr) (cs : List Ptr)
    → Inserted (last_or c cs) n c l l'
    → Cycle l (c ∷ cs)
    → NotIn n (c ∷ cs)
    → Cycle l' (c ∷ (cs ++ (n ∷ [])))
Inserted-Cycle l l' n c cs i (r, e, d) m =
    let row =
      Row-Agree l l' (last_or c cs ∷ n ∷ []) (c ∷ n ∷ []) c cs i.agree
        (last_or-init_of c cs d, (NotIn-init_of n c cs m, tt)) (d.0, (m.1, tt)) r in
    (
      Row-append l' c cs n [] row i.before tt,
      rw last_or-append i.behind,
      Distinct-insert (c ∷ cs) n [] (rw append-nil m) (rw append-nil d),
    )

pub insert_before-Inserted :
    (l : Links) (z n c : Ptr) → Edge l z c → n ≢ z → n ≢ c → Inserted z n c l (insert_before c n l)
unfolding insert_before update
insert_before-Inserted l z n c e m o = record {
  agree = record { next = λ a out. ground arith; prev = λ a out. ground arith };
  before = ground arith;
  behind = ground arith;
}

insert_after-Inserted :
    (l : Links) (z n c : Ptr) → Edge l z c → n ≢ z → n ≢ c → Inserted z n c l (insert_after z n l)
unfolding insert_after update
insert_after-Inserted l z n c e m o = record {
  agree = record { next = λ a out. ground arith; prev = λ a out. ground arith };
  before = ground arith;
  behind = ground arith;
}

push_back-Inserted :
    (l : Links) (z n c : Ptr) → Edge l z c → n ≢ z → n ≢ c → Inserted z n c l (push_back c n l)
unfolding push_back update
push_back-Inserted l z n c e m o = record {
  agree = record { next = λ a out. ground arith; prev = λ a out. ground arith };
  before = ground arith;
  behind = ground arith;
}

push_front-Inserted :
    (l : Links) (z n c : Ptr) → Edge l z c → n ≢ z → n ≢ c → Inserted z n c l (push_front z n l)
unfolding push_front update
push_front-Inserted l z n c e m o = record {
  agree = record { next = λ a out. ground arith; prev = λ a out. ground arith };
  before = ground arith;
  behind = ground arith;
}

-- The node behind `xs`: the first of `ys`, or the head.
module _ (l : Links) (self : Ptr) where
  pub IsList-Edge :
      (xs ys : List Ptr) → IsList l self (xs ++ ys) → Edge l (last_or self xs) (first_or ys self)
  IsList-Edge xs [] is = rw append-nil at is.1
  IsList-Edge xs (y ∷ ys) is = (Row-right l self xs y ys is.0).0

  first_or-ne : (n : Ptr) (xs ys : List Ptr) → NotIn n (self ∷ (xs ++ ys)) → n ≢ first_or ys self
  first_or-ne n xs [] m = m.0
  first_or-ne n xs (y ∷ ys) m = (NotIn-right n xs (y ∷ ys) m.1).0

  pub last_or-ne : (n : Ptr) (xs ys : List Ptr) → NotIn n (self ∷ (xs ++ ys)) → n ≢ last_or self xs
  last_or-ne n xs ys m = NotIn-last_or n self xs m.0 (NotIn-left n xs ys m.1)

  pub Inserted-IsList :
      (l' : Links) (n : Ptr) (xs ys : List Ptr)
      → Inserted (last_or self xs) n (first_or ys self) l l'
      → IsList l self (xs ++ ys)
      → NotIn n (self ∷ (xs ++ ys))
      → IsList l' self (xs ++ (n ∷ ys))
  Inserted-IsList l' n xs [] i is m =
      Inserted-Cycle l l' n self xs i (rw append-nil at is) (rw append-nil at m)
  Inserted-IsList l' n xs (y ∷ ys) i is m =
      let turned : Cycle l (y ∷ (ys ++ (self ∷ xs))) = Cycle-rotate l (self ∷ xs) (y ∷ ys) is in
      let out : NotIn n (y ∷ (ys ++ (self ∷ xs))) =
        NotIn-append n (y ∷ ys) (self ∷ xs) (NotIn-right n (self ∷ xs) (y ∷ ys) m)
          (NotIn-left n (self ∷ xs) (y ∷ ys) m) in
      let i' : Inserted (last_or y (ys ++ (self ∷ xs))) n y l l' = rw last_or-append i in
      let wide : Cycle l' ((y ∷ ys) ++ ((self ∷ xs) ++ (n ∷ []))) =
        rw append_assoc at (Inserted-Cycle l l' n y (ys ++ (self ∷ xs)) i' turned out) in
      rw append_assoc at (Cycle-rotate l' (y ∷ ys) ((self ∷ xs) ++ (n ∷ [])) wide)

-- `GblDoublyLinkedList_pushBack` makes a node outside the list its last element.
pub push_back-IsList :
    (l : Links) (self node : Ptr) (xs : List Ptr)
    → IsList l self xs
    → NotIn node (self ∷ xs)
    → IsList (push_back self node l) self (xs ++ (node ∷ []))
push_back-IsList l self node xs is m =
    let is' : IsList l self (xs ++ []) = rw append-nil is in
    let m' : NotIn node (self ∷ (xs ++ [])) = rw append-nil m in
    Inserted-IsList l self (push_back self node l) node xs []
      (push_back-Inserted l (last_or self xs) node self (IsList-Edge l self xs [] is')
        (last_or-ne l self node xs [] m') m.0)
      is' m'

-- `GblDoublyLinkedList_pushFront` makes a node outside the list its first element.
pub push_front-IsList :
    (l : Links) (self node : Ptr) (xs : List Ptr)
    → IsList l self xs
    → NotIn node (self ∷ xs)
    → IsList (push_front self node l) self (node ∷ xs)
push_front-IsList l self node xs is m =
    Inserted-IsList l self (push_front self node l) node [] xs
      (push_front-Inserted l self node (first_or xs self) (IsList-Edge l self [] xs is) m.0
        (first_or-ne l self node [] xs m))
      is m

-- `GblDoublyLinkedList_insertBefore` puts a node outside the list before the element `y`, and
-- `GblDoublyLinkedList_insertAfter` behind the element `x`, wherever it stands.
pub insert_beside :
    (l : Links) (self node x y : Ptr) (xs ys : List Ptr)
    → IsList l self (xs ++ (x ∷ (y ∷ ys)))
    → NotIn node (self ∷ (xs ++ (x ∷ (y ∷ ys))))
    → IsList (insert_before y node l) self (xs ++ (x ∷ (node ∷ (y ∷ ys))))
      × IsList (insert_after x node l) self (xs ++ (x ∷ (node ∷ (y ∷ ys))))
insert_beside l self node x y xs ys is m =
    let front = xs ++ (x ∷ []) in
    let is' : IsList l self (front ++ (y ∷ ys)) = rw append_assoc is in
    let m' : NotIn node (self ∷ (front ++ (y ∷ ys))) = rw append_assoc m in
    let e : Edge l x y = rw last_or-append at (IsList-Edge l self front (y ∷ ys) is') in
    let apart : node ≢ x = rw last_or-append at (last_or-ne l self node front (y ∷ ys) m') in
    let apart' : node ≢ y = first_or-ne l self node front (y ∷ ys) m' in
    let before : IsList (insert_before y node l) self (front ++ (node ∷ (y ∷ ys))) =
      Inserted-IsList l self (insert_before y node l) node front (y ∷ ys)
        (rw last_or-append (insert_before-Inserted l x node y e apart apart')) is' m' in
    let behind : IsList (insert_after x node l) self (front ++ (node ∷ (y ∷ ys))) =
      Inserted-IsList l self (insert_after x node l) node front (y ∷ ys)
        (rw last_or-append (insert_after-Inserted l x node y e apart apart')) is' m' in
    (rw append_assoc at before, rw append_assoc at behind)
