-- ===== src/NaryTree/Inv.antt =====
-- The children of a node as a list: a chain of siblings, each of which has the node as its parent.
use libgimbal.Common.{◌≡◌, sym, ◌∙◌, List, [], ◌∷◌, ◌++◌}
use libgimbal.Memory.{Ptr, null, Field, update}
use libgimbal.Memory.Distinct.{NotIn, Distinct}
use libgimbal.Memory.Chain.{Chain, update-ne}
use libgimbal.NaryTree.{Tree}

abbrev pub Owned : Field → Ptr → List Ptr → Type 0
Owned f self [] = Unit
Owned f self (x ∷ xs) = (f x ≡ self) × Owned f self xs

pub record Children (t : Tree) (self : Ptr) (xs : List Ptr) : Type 0 where
  pub chain : Chain t.next (t.child self) xs null
  pub apart : Distinct xs
  pub real : NotIn null xs
  pub owned : Owned t.parent self xs

module _ (f : Field) (self : Ptr) where
  pub Owned-frame :
      (a v : Ptr) (xs : List Ptr) → NotIn a xs → Owned f self xs → Owned (update f a v) self xs
  Owned-frame a v [] n o = tt
  Owned-frame a v (x ∷ xs) n o =
      (update-ne f a v x (λ e. n.0 (sym e)) ∙ o.0, Owned-frame a v xs n.1 o.1)

  pub Owned-append :
      (xs ys : List Ptr) → Owned f self xs → Owned f self ys → Owned f self (xs ++ ys)
  Owned-append [] ys o p = p
  Owned-append (x ∷ xs) ys o p = (o.0, Owned-append xs ys o.1 p)

  pub Owned-drop :
      (xs : List Ptr) (c : Ptr) (ys : List Ptr)
      → Owned f self (xs ++ (c ∷ ys))
      → Owned f self (xs ++ ys)
  Owned-drop [] c ys o = o.1
  Owned-drop (x ∷ xs) c ys o = (o.0, Owned-drop xs c ys o.1)
