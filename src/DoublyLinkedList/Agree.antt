-- ===== src/DoublyLinkedList/Agree.antt =====
-- Rows of nodes under a change of a few links.
use libgimbal.Common.{◌≡◌, sym, ◌∙◌, List, [], ◌∷◌}
use libgimbal.Memory.{Ptr}
use libgimbal.Memory.Distinct.{NotIn, Distinct, last_or, NotIn-last_or}
use libgimbal.DoublyLinkedList.{Links}
use libgimbal.DoublyLinkedList.Cycle.{Row}

-- None of `ws` is among `ys`.
abbrev pub Off : List Ptr → List Ptr → Type 0
Off [] ys = Unit
Off (w ∷ ws) ys = NotIn w ys × Off ws ys

-- `p ∷ xs` without its last.
abbrev pub init_of : Ptr → List Ptr → List Ptr
init_of p [] = []
init_of p (x ∷ xs) = p ∷ init_of x xs

Off-cons : (ws : List Ptr) (y : Ptr) (ys : List Ptr) → Off ws (y ∷ ys) → NotIn y ws × Off ws ys
Off-cons [] y ys o = (tt, tt)
Off-cons (w ∷ ws) y ys o =
    (((λ e. o.0.0 (sym e)), (Off-cons ws y ys o.1).0), (o.0.1, (Off-cons ws y ys o.1).1))

pub NotIn-init_of : (a p : Ptr) (xs : List Ptr) → NotIn a (p ∷ xs) → NotIn a (init_of p xs)
NotIn-init_of a p [] n = tt
NotIn-init_of a p (x ∷ xs) n = (n.0, NotIn-init_of a x xs n.1)

pub last_or-init_of :
    (p : Ptr) (xs : List Ptr) → Distinct (p ∷ xs) → NotIn (last_or p xs) (init_of p xs)
last_or-init_of p [] d = tt
last_or-init_of p (x ∷ xs) d =
    ((λ e. NotIn-last_or p x xs d.0.0 d.0.1 (sym e)), last_or-init_of x xs d.1)

-- Outside `ws` the next links are the same, outside `vs` the previous ones.
pub record Agree (ws vs : List Ptr) (l l' : Links) : Type 0 where
  pub next : (a : Ptr) → NotIn a ws → l'.next a ≡ l.next a
  pub prev : (a : Ptr) → NotIn a vs → l'.prev a ≡ l.prev a

pub Row-Agree :
    (l l' : Links) (ws vs : List Ptr) (p : Ptr) (xs : List Ptr)
    → Agree ws vs l l'
    → Off ws (init_of p xs)
    → Off vs xs
    → Row l p xs
    → Row l' p xs
Row-Agree l l' ws vs p [] a o u r = tt
Row-Agree l l' ws vs p (x ∷ xs) a o u r =
    let o' = Off-cons ws p (init_of x xs) o in
    let u' = Off-cons vs x xs u in
    ((a.next p o'.0 ∙ r.0.0, a.prev x u'.0 ∙ r.0.1), Row-Agree l l' ws vs x xs a o'.1 u'.1 r.1)
