-- ===== src/LinkedList/Ends.antt =====
-- Both ends of a list: back, front, pushBack, pushFront, popBack, popFront.
use mathlib.Core.Path.{subst}
use libgimbal.Common.{
  ℕ, zero, suc, ◌+◌, ◌<◌, ◌≡◌, ◌≢◌, refl, sym, ◌∙◌, Option, none, some, List, [], ◌∷◌, ◌++◌,
  append-nil, arith, length,
}
use libgimbal.Memory.{Ptr, Field, update, ok}
use libgimbal.Memory.Distinct.{NotIn, last_or, NotIn-last_or, Distinct-insert, Distinct-drop}
use libgimbal.Memory.Chain.{
  Walk, Walk-remove, Walk-append, Walk-relink, Walk-frame, Walk-right, SameOutside, update_self,
  update-ne,
}
use libgimbal.LinkedList.{front, back, push_back, push_front, pop_front, pop_back_from, pop_back}
use libgimbal.LinkedList.Inv.{IsList, last_from-last_or, IsList-insert}

abbrev pub last? : List Ptr → Option Ptr
last? [] = none
last? (x ∷ xs) = some (last_or x xs)

abbrev pub head? : List Ptr → Option Ptr
head? [] = none
head? (x ∷ xs) = some x

-- `GblLinkedList_back` returns the last element, and NULL on an empty list.
pub back-last? :
    (h : Field) (self : Ptr) (k : ℕ) (xs : List Ptr)
    → IsList h self xs
    → length xs < k
    → back k self h ≡ ok (last? xs)
unfolding back
back-last? h self k [] is f = rw (last_from-last_or h self k self [] is.0 is.1.0 f) (ground arith)
back-last? h self k (x ∷ xs) is f =
    let off : self ≢ last_or x xs = NotIn-last_or self x xs is.1.0.0 is.1.0.1 in
    rw (last_from-last_or h self k self (x ∷ xs) is.0 is.1.0 f) (ground arith)

-- `GblLinkedList_front` returns the first element, and NULL on an empty list.
pub front-head? :
    (h : Field) (self : Ptr) (xs : List Ptr) → IsList h self xs → front self h ≡ head? xs
unfolding front
front-head? h self [] is = ground arith
front-head? h self (x ∷ xs) is = ground arith

-- `GblLinkedList_pushBack` with enough fuel returns: a node outside the list becomes its last
-- element, and no node but the head, the new one and the elements is written.
pub push_back-append :
    (h : Field) (self node : Ptr) (k : ℕ) (xs : List Ptr)
    → IsList h self xs
    → NotIn node (self ∷ xs)
    → length xs < k
    → (h' : Field) × (push_back k self node h ≡ ok h')
      × IsList h' self (xs ++ (node ∷ []))
      × SameOutside (node ∷ self ∷ xs) h h'
unfolding push_back
push_back-append h self node k xs is n f =
    let l = last_or self xs in
    let apart : node ≢ l = NotIn-last_or node self xs n.0 n.1 in
    let g = update h l node in
    let front : Walk (update g node self) self xs node =
      Walk-frame g self node xs node self (λ e. n.0 (sym e)) n.1
        (Walk-relink h self self xs node is.1 is.0) in
    (
      update g node self,
      rw (last_from-last_or h self k self xs is.0 is.1.0 f) refl,
      (
        Walk-append (update g node self) self self xs (node ∷ []) front (
          update-ne g node self l (λ e. apart (sym e)) ∙ update_self h l node,
          update_self g node self,
        ),
        Distinct-insert (self ∷ xs) node [] (rw append-nil n) (rw append-nil is.1),
      ),
      λ p out.
          update-ne g node self p out.0
          ∙ update-ne h l node p (NotIn-last_or p self xs out.1.0 out.1.1),
    )

-- `GblLinkedList_pushFront` makes a node outside the list its first element.
pub push_front-cons :
    (h : Field) (self node : Ptr) (xs : List Ptr)
    → IsList h self xs
    → NotIn node (self ∷ xs)
    → IsList (push_front self node h) self (node ∷ xs)
      × SameOutside (node ∷ self ∷ []) h (push_front self node h)
unfolding push_front
push_front-cons h self node xs is n = (
  IsList-insert h self node [] xs is n,
  λ p out.
      update-ne (update h node (h self)) self node p out.1.0 ∙ update-ne h node (h self) p out.0,
)

-- `GblLinkedList_popFront` returns the first element and leaves the rest, and changes nothing on an
-- empty list.
abbrev pub PoppedFront : Field → Ptr → List Ptr → Option Ptr × Field → Type 0
PoppedFront h self [] (r, h') = (r ≡ none) × (h' ≡ h)
PoppedFront h self (x ∷ xs) (r, h') = (r ≡ some x) × IsList h' self xs

pub pop_front-PoppedFront :
    (h : Field) (self : Ptr) (xs : List Ptr)
    → IsList h self xs
    → PoppedFront h self xs (pop_front self h)
unfolding pop_front front
pop_front-PoppedFront h self [] is = ground arith
pop_front-PoppedFront h self (x ∷ xs) is =
    let back = Walk-remove h self self x [] xs is.1 is.0 in
    let left : IsList (update h self (h x)) self xs = (back, Distinct-drop (self ∷ []) x xs is.1) in
    ground (arith, left)

pop_back_from_lem :
    (h : Field) (self : Ptr) (k : ℕ) (p node : Ptr) (xs : List Ptr)
    → Walk h p (xs ++ (node ∷ [])) self
    → NotIn self (xs ++ (node ∷ []))
    → length xs + 1 < k
    → pop_back_from k self p (h p) h ≡ ok (some node, update h (last_or p xs) self)
unfolding pop_back_from
pop_back_from_lem h self zero p node xs w n f = absurd (omega arith)
pop_back_from_lem h self (suc k) p node [] w n f = ground arith
pop_back_from_lem h self (suc k) p node (x ∷ []) w n f =
    ground (arith, pop_back_from_lem h self k x node [] w.1 n.1 (omega arith))
pop_back_from_lem h self (suc k) p node (x ∷ (y ∷ xs)) w n f =
    ground (arith, pop_back_from_lem h self k x node (y ∷ xs) w.1 n.1 (omega arith))

-- `GblLinkedList_popBack` with enough fuel returns the last element and leaves the elements before
-- it.
pub pop_back-append :
    (h : Field) (self node : Ptr) (k : ℕ) (xs : List Ptr)
    → IsList h self (xs ++ (node ∷ []))
    → length xs + 1 < k
    → (h' : Field) × (pop_back k self h ≡ ok (some node, h')) × IsList h' self xs
unfolding pop_back
pop_back-append h self node k xs is f =
    let w : Walk h node [] self = (Walk-right h self self xs (node ∷ []) is.0).1 in
    let left : IsList (update h (last_or self xs) self) self (xs ++ []) = (
      subst (λ v. Walk (update h (last_or self xs) v) self (xs ++ []) self) w
          (Walk-remove h self self node xs [] is.1 is.0),
      Distinct-drop (self ∷ xs) node [] is.1,
    ) in
    (
      update h (last_or self xs) self,
      pop_back_from_lem h self k self node xs is.0 is.1.0 f,
      rw append-nil at left,
    )
