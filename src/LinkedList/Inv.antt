-- ===== src/LinkedList/Inv.antt =====
-- What a list head stands for, and the walk to its last node.
use libgimbal.Common.{ℕ, zero, suc, ◌<◌, ◌≡◌, sym, List, [], ◌∷◌, ◌++◌, arith, length}
use libgimbal.Memory.{Ptr, Field, update, ok}
use libgimbal.Memory.Distinct.{
  NotIn, Distinct, last_or, Distinct-insert, Distinct-drop, NotIn-right,
}
use libgimbal.Memory.Chain.{Walk, Walk-insert, Walk-remove, Walk-frame}
use libgimbal.LinkedList.{last_from}

-- `self` heads the circular list of the distinct nodes `xs`.
abbrev pub IsList : Field → Ptr → List Ptr → Type 0
IsList h self xs = Walk h self xs self × Distinct (self ∷ xs)

pub last_from-last_or :
    (h : Field) (self : Ptr) (k : ℕ) (p : Ptr) (xs : List Ptr)
    → Walk h p xs self
    → NotIn self xs
    → length xs < k
    → last_from k self p (h p) h ≡ ok (last_or p xs)
unfolding last_from
last_from-last_or h self zero p xs w n f = absurd (omega arith)
last_from-last_or h self (suc k) p [] w n f = ground arith
last_from-last_or h self (suc k) p (x ∷ xs) w n f =
    ground (arith, last_from-last_or h self k x xs w.1 n.1 (omega arith))

-- `node` between `xs` and `ys`.
pub IsList-insert :
    (h : Field) (self node : Ptr) (xs ys : List Ptr)
    → IsList h self (xs ++ ys)
    → NotIn node (self ∷ (xs ++ ys))
    → IsList
        (update (update h node (h (last_or self xs))) (last_or self xs) node)
        self
        (xs ++ (node ∷ ys))
IsList-insert h self node xs ys is n =
    (Walk-insert h self self node xs ys is.1 n is.0, Distinct-insert (self ∷ xs) node ys n is.1)

NotIn-middle :
    (node : Ptr) (xs ys : List Ptr) → Distinct (xs ++ (node ∷ ys)) → NotIn node (xs ++ ys)
NotIn-middle node [] ys d = d.0
NotIn-middle node (x ∷ xs) ys d =
    ((λ e. (NotIn-right x xs (node ∷ ys) d.0).0 (sym e)), NotIn-middle node xs ys d.1)

-- `node` unlinked from between `xs` and `ys`, and its own link overwritten.
pub IsList-remove :
    (h : Field) (self node v : Ptr) (xs ys : List Ptr)
    → IsList h self (xs ++ (node ∷ ys))
    → IsList (update (update h (last_or self xs) (h node)) node v) self (xs ++ ys)
IsList-remove h self node v xs ys is =
    let out : NotIn node (self ∷ (xs ++ ys)) = NotIn-middle node (self ∷ xs) ys is.1 in
    (
      Walk-frame (update h (last_or self xs) (h node)) self self (xs ++ ys) node v
          (λ e. out.0 (sym e)) out.1 (Walk-remove h self self node xs ys is.1 is.0),
      Distinct-drop (self ∷ xs) node ys is.1,
    )
