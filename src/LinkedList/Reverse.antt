-- ===== src/LinkedList/Reverse.antt =====
-- reverse, in place.
use mathlib.Core.List.{reverse, reverse_aux}
use libgimbal.Common.{ℕ, zero, suc, ◌<◌, ◌≡◌, refl, List, [], ◌∷◌, ◌++◌, append-nil, arith, length}
use libgimbal.Memory.{Ptr, Field, update, ok}
use libgimbal.Memory.Distinct.{
  NotIn, Distinct, NotIn-left, NotIn-right, NotIn-append, Distinct-insert,
}
use libgimbal.Memory.Chain.{Chain, Chain-frame, Chain-of_Walk, Walk-push}
use libgimbal.LinkedList
use libgimbal.LinkedList.{reverse_from}
use libgimbal.LinkedList.Inv.{IsList}

-- The nodes `done` are linked backwards behind `p`, the nodes `xs` from `it` on are to come.
reverse_from_lem :
    (self : Ptr) (k : ℕ) (h : Field) (p it : Ptr) (xs done : List Ptr)
    → Chain h it xs self
    → Chain h p done self
    → Distinct (xs ++ done)
    → NotIn self (xs ++ done)
    → length xs < k
    → (h' : Field) × (reverse_from k self p it h ≡ ok h') × IsList h' self (reverse_aux xs done)
unfolding reverse_from
reverse_from_lem self zero h p it xs done w v d n f = absurd (omega arith)
reverse_from_lem self (suc k) h p it [] done w v d n f =
    (update h self p, ground arith, (Walk-push h p self self done n v, (n, d)))
reverse_from_lem self (suc k) h p it (x ∷ xs) done w v d n f =
    let g = update h x p in
    let rest =
      reverse_from_lem self k g x (h x) xs (x ∷ done)
        (Chain-frame h (h x) self xs x p (NotIn-left x xs done d.0) (Chain-of_Walk h x self xs w.1))
        (refl, Walk-push h p self x done (NotIn-right x xs done d.0) v)
        (Distinct-insert xs x done d.0 d.1)
        (NotIn-append self xs (x ∷ done) (NotIn-left self xs done n.1)
          (n.0, NotIn-right self xs done n.1))
        (omega arith) in
    (rest.0, ground (arith, rest.1), rest.2)

-- `GblLinkedList_reverse` with enough fuel reverses the list in place.
pub reverse-reverse :
    (h : Field) (self : Ptr) (k : ℕ) (xs : List Ptr)
    → IsList h self xs
    → length xs < k
    → (h' : Field) × (LinkedList.reverse k self h ≡ ok h') × IsList h' self (reverse xs)
unfolding LinkedList.reverse
reverse-reverse h self k xs is f =
    reverse_from_lem self k h self (h self) xs [] (Chain-of_Walk h self self xs is.0) refl
      (rw append-nil is.1.1) (rw append-nil is.1.0) f
