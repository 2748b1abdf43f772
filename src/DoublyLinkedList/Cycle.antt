-- ===== src/DoublyLinkedList/Cycle.antt =====
-- What the links of a doubly linked list stand for: a cycle of distinct nodes, in which `next` and
-- `prev` agree. The head node `self` of a list with elements `xs` gives the cycle `self ∷ xs`.
use libgimbal.Common.{◌≡◌, ◌≢◌, sym, ◌∙◌, List, [], ◌∷◌, ◌++◌, append-nil}
use libgimbal.Memory.{Ptr}
use libgimbal.Memory.Distinct.{
  NotIn, Distinct, last_or, last_or-append, NotIn-last_or, NotIn-left, NotIn-right, NotIn-append,
  Distinct-insert,
}
use libgimbal.Memory.Chain.{update-ne, Walk}
use libgimbal.DoublyLinkedList.{Links, set_next, set_prev}

abbrev pub Edge : Links → Ptr → Ptr → Type 0
Edge l a b = (l.next a ≡ b) × (l.prev b ≡ a)

-- `p` and the nodes `xs`, linked in order.
abbrev pub Row : Links → Ptr → List Ptr → Type 0
Row l p [] = Unit
Row l p (x ∷ xs) = Edge l p x × Row l x xs

abbrev pub Cycle : Links → List Ptr → Type 0
Cycle l [] = Unit
Cycle l (c ∷ cs) = Row l c cs × Edge l (last_or c cs) c × Distinct (c ∷ cs)

module _ (l : Links) where
  pub Row-left : (p : Ptr) (xs ys : List Ptr) → Row l p (xs ++ ys) → Row l p xs
  Row-left p [] ys r = tt
  Row-left p (x ∷ xs) ys r = (r.0, Row-left x xs ys r.1)

  pub Row-right :
      (p : Ptr) (xs : List Ptr) (y : Ptr) (ys : List Ptr)
      → Row l p (xs ++ (y ∷ ys))
      → Edge l (last_or p xs) y × Row l y ys
  Row-right p [] y ys r = r
  Row-right p (x ∷ xs) y ys r = Row-right x xs y ys r.1

  pub Row-append :
      (p : Ptr) (xs : List Ptr) (y : Ptr) (ys : List Ptr)
      → Row l p xs
      → Edge l (last_or p xs) y
      → Row l y ys
      → Row l p (xs ++ (y ∷ ys))
  Row-append p [] y ys r e s = (e, s)
  Row-append p (x ∷ xs) y ys r e s = (r.0, Row-append x xs y ys r.1 e s)

  -- A write of `next` at a node off the row, or at its last node.
  pub Row-set_next :
      (p : Ptr) (xs : List Ptr) (a v : Ptr)
      → a ≢ p
      → NotIn a xs
      → Row l p xs
      → Row (set_next a v l) p xs
  Row-set_next p [] a v n m r = tt
  Row-set_next p (x ∷ xs) a v n m r =
      ((update-ne l.next a v p (λ e. n (sym e)) ∙ r.0.0, r.0.1), Row-set_next x xs a v m.0 m.1 r.1)

  pub Row-set_next_last :
      (p : Ptr) (xs : List Ptr) (v : Ptr)
      → Distinct (p ∷ xs)
      → Row l p xs
      → Row (set_next (last_or p xs) v l) p xs
  Row-set_next_last p [] v d r = tt
  Row-set_next_last p (x ∷ xs) v d r = (
    (update-ne l.next (last_or x xs) v p (NotIn-last_or p x xs d.0.0 d.0.1) ∙ r.0.0, r.0.1),
    Row-set_next_last x xs v d.1 r.1,
  )

  -- A write of `prev` at a node off the row, or at its first node.
  pub Row-set_prev :
      (p : Ptr) (xs : List Ptr) (a v : Ptr) → NotIn a xs → Row l p xs → Row (set_prev a v l) p xs
  Row-set_prev p [] a v m r = tt
  Row-set_prev p (x ∷ xs) a v m r =
      ((r.0.0, update-ne l.prev a v x (λ e. m.0 (sym e)) ∙ r.0.1), Row-set_prev x xs a v m.1 r.1)

pub Distinct-rotate : (xs ys : List Ptr) → Distinct (xs ++ ys) → Distinct (ys ++ xs)
Distinct-rotate [] ys d = rw append-nil d
Distinct-rotate (x ∷ xs) ys d =
    Distinct-insert ys x xs
      (NotIn-append x ys xs (NotIn-right x xs ys d.0) (NotIn-left x xs ys d.0))
      (Distinct-rotate xs ys d.1)

-- A cycle may be read from any of its nodes.
pub Cycle-rotate : (l : Links) (xs ys : List Ptr) → Cycle l (xs ++ ys) → Cycle l (ys ++ xs)
Cycle-rotate l [] ys c = rw append-nil c
Cycle-rotate l (x ∷ xs) [] c = rw append-nil at c
Cycle-rotate l (x ∷ xs) (y ∷ ys) (r, e, d) =
    let s = Row-right l x xs y ys r in
    let e' : Edge l (last_or y ys) x = rw last_or-append at e in
    (
      Row-append l y ys x xs s.1 e' (Row-left l x xs (y ∷ ys) r),
      rw last_or-append s.0,
      Distinct-rotate (x ∷ xs) (y ∷ ys) d,
    )

-- The elements of the list with head `self`.
abbrev pub IsList : Links → Ptr → List Ptr → Type 0
IsList l self xs = Cycle l (self ∷ xs)

Row-Walk :
    (l : Links) (p q : Ptr) (xs : List Ptr)
    → Row l p xs
    → l.next (last_or p xs) ≡ q
    → Walk l.next p xs q
Row-Walk l p q [] r e = e
Row-Walk l p q (x ∷ xs) r e = (r.0.0, Row-Walk l x q xs r.1 e)

-- The field `next` alone is a singly linked list of the same elements.
pub IsList-Walk :
    (l : Links) (self : Ptr) (xs : List Ptr)
    → IsList l self xs
    → Walk l.next self xs self × Distinct (self ∷ xs)
IsList-Walk l self xs (r, e, d) = (Row-Walk l self self xs r e.0, d)
