-- ===== src/LinkedList/Remove.antt =====
-- remove and erase.
use libgimbal.Common.{
  ℕ, zero, suc, ◌+◌, ◌≤◌, ◌<◌, ◌≡◌, true, false, none, some, List, [], ◌∷◌, ◌++◌, arith, length,
  length-append,
}
use libgimbal.Memory.{Ptr, Field, update, ok}
use libgimbal.Memory.Distinct.{NotIn-before, NotIn, last_or}
use libgimbal.Memory.Chain.{Walk, update_self}
use libgimbal.LinkedList.{remove_from, remove, erase_from, erase}
use libgimbal.LinkedList.Inv.{IsList, IsList-remove}

-- The heap after `node` has been unlinked behind `prev` and made a list of its own.
abbrev unlinked : Field → (prev node : Ptr) → Field
unlinked h prev node = update (update h prev (h node)) node node

module _ (h : Field) (self node : Ptr) where
  remove_from_found :
      (k : ℕ) (p : Ptr) (xs ys : List Ptr)
      → Walk h p (xs ++ (node ∷ ys)) self
      → NotIn self (xs ++ (node ∷ ys))
      → NotIn node xs
      → length xs < k
      → remove_from k self node p (h p) h ≡ ok (true, unlinked h (last_or p xs) node)
  unfolding remove_from
  remove_from_found zero p xs ys w n m f = absurd (omega arith)
  remove_from_found (suc k) p [] ys w n m f = ground arith
  remove_from_found (suc k) p (x ∷ xs) ys w n m f =
      ground (arith, remove_from_found k x xs ys w.1 n.1 m.1 (omega arith))

  remove_from_absent :
      (k : ℕ) (p : Ptr) (xs : List Ptr)
      → Walk h p xs self
      → NotIn self xs
      → NotIn node xs
      → length xs < k
      → remove_from k self node p (h p) h ≡ ok (false, h)
  unfolding remove_from
  remove_from_absent zero p xs w n m f = absurd (omega arith)
  remove_from_absent (suc k) p [] w n m f = ground arith
  remove_from_absent (suc k) p (x ∷ xs) w n m f =
      ground (arith, remove_from_absent k x xs w.1 n.1 m.1 (omega arith))

-- `GblLinkedList_remove` with enough fuel takes an element out of the list, reports it, keeps the
-- other elements in order, and leaves the node a list of its own.
pub remove-middle :
    (h : Field) (self node : Ptr) (k : ℕ) (xs ys : List Ptr)
    → IsList h self (xs ++ (node ∷ ys))
    → length xs < k
    → (h' : Field) × (remove k self node h ≡ ok (true, h'))
      × IsList h' self (xs ++ ys)
      × (h' node ≡ node)
unfolding remove
remove-middle h self node k xs ys is f = (
  unlinked h (last_or self xs) node,
  remove_from_found h self node k self xs ys is.0 is.1.0 (NotIn-before node xs ys is.1.1) f,
  IsList-remove h self node node xs ys is,
  update_self (update h (last_or self xs) (h node)) node node,
)

-- `GblLinkedList_remove` with enough fuel reports a node that is no element, and writes nothing.
pub remove-absent :
    (h : Field) (self node : Ptr) (k : ℕ) (xs : List Ptr)
    → IsList h self xs
    → NotIn node xs
    → length xs < k
    → remove k self node h ≡ ok (false, h)
unfolding remove
remove-absent h self node k xs is m f = remove_from_absent h self node k self xs is.0 is.1.0 m f

module _ (h : Field) (self : Ptr) where
  erase_from_found :
      (node : Ptr) (t k i : ℕ) (p : Ptr) (xs ys : List Ptr)
      → t ≡ i + length xs
      → Walk h p (xs ++ (node ∷ ys)) self
      → NotIn self (xs ++ (node ∷ ys))
      → length xs < k
      → erase_from k self t i p (h p) h ≡ ok (some node, unlinked h (last_or p xs) node)
  unfolding erase_from
  erase_from_found node t zero i p xs ys e w n f = absurd (omega arith)
  erase_from_found node t (suc k) i p [] ys e w n f = ground arith
  erase_from_found node t (suc k) i p (x ∷ xs) ys e w n f =
      ground (arith, erase_from_found node t k (i + 1) x xs ys (omega arith) w.1 n.1 (omega arith))

  erase_from_past :
      (index k i : ℕ) (p : Ptr) (xs : List Ptr)
      → Walk h p xs self
      → NotIn self xs
      → length xs < k
      → i + length xs ≤ index
      → erase_from k self index i p (h p) h ≡ ok (none, h)
  unfolding erase_from
  erase_from_past index zero i p xs w n f b = absurd (omega arith)
  erase_from_past index (suc k) i p [] w n f b = ground arith
  erase_from_past index (suc k) i p (x ∷ xs) w n f b =
      ground (arith, erase_from_past index k (i + 1) x xs w.1 n.1 (omega arith) (omega arith))

-- `GblLinkedList_erase` with enough fuel takes out the element at an index within the list, returns
-- it, and keeps the others in order.
pub erase-middle :
    (h : Field) (self node : Ptr) (k : ℕ) (xs ys : List Ptr)
    → IsList h self (xs ++ (node ∷ ys))
    → length (xs ++ (node ∷ ys)) < k
    → (h' : Field) × (erase k self (length xs) h ≡ ok (some node, h')) × IsList h' self (xs ++ ys)
unfolding erase
erase-middle h self node k xs ys is f = (
  unlinked h (last_or self xs) node,
  erase_from_found h self node (length xs) k 0 self xs ys (omega arith) is.0 is.1.0
      (omega (arith, length-append xs (node ∷ ys))),
  IsList-remove h self node node xs ys is,
)

-- `GblLinkedList_erase` with enough fuel and an index past the end returns NULL and writes nothing.
pub erase-past :
    (h : Field) (self : Ptr) (k index : ℕ) (xs : List Ptr)
    → IsList h self xs
    → length xs < k
    → length xs ≤ index
    → erase k self index h ≡ ok (none, h)
unfolding erase
erase-past h self k index xs is f b =
    erase_from_past h self index k 0 self xs is.0 is.1.0 f (omega arith)
