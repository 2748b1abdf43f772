-- ===== src/LinkedList/Insert.antt =====
-- insert at an index, insertAfter.
use libgimbal.Common.{
  ℕ, zero, suc, ◌+◌, ◌<◌, ◌≤◌, ◌≡◌, refl, true, false, none, some, List, [], ◌∷◌, ◌++◌, append-nil,
  append_assoc, arith, length, length-append,
}
use libgimbal.Memory.{Ptr, Field, update, ok}
use libgimbal.Memory.Distinct.{NotIn, last_or, last_or-append}
use libgimbal.Memory.Chain.{Walk}
use libgimbal.LinkedList.{insert_from, insert, insert_after}
use libgimbal.LinkedList.Inv.{IsList, IsList-insert}
use libgimbal.LinkedList.Ends.{push_back-append}

module _ (h : Field) (self node : Ptr) where
  insert_from_middle :
      (t k i : ℕ) (p : Ptr) (xs : List Ptr) (y : Ptr) (ys : List Ptr)
      → t ≡ i + length xs
      → Walk h p (xs ++ (y ∷ ys)) self
      → NotIn self (xs ++ (y ∷ ys))
      → length xs < k
      → insert_from k self node t i p (h p) h
        ≡ ok (some (update (update h node (h (last_or p xs))) (last_or p xs) node), t + 1)
  unfolding insert_from
  insert_from_middle t zero i p xs y ys e w n f = absurd (omega arith)
  insert_from_middle t (suc k) i p [] y ys e w n f = ground arith
  insert_from_middle t (suc k) i p (x ∷ xs) y ys e w n f =
      ground (arith, insert_from_middle t k (i + 1) x xs y ys (omega arith) w.1 n.1 (omega arith))

  insert_from_end :
      (index k i : ℕ) (p : Ptr) (xs : List Ptr)
      → Walk h p xs self
      → NotIn self xs
      → length xs < k
      → i + length xs ≤ index
      → insert_from k self node index i p (h p) h ≡ ok (none, i + length xs)
  unfolding insert_from
  insert_from_end index zero i p xs w n f b = absurd (omega arith)
  insert_from_end index (suc k) i p [] w n f b = ground arith
  insert_from_end index (suc k) i p (x ∷ xs) w n f b =
      ground (arith, insert_from_end index k (i + 1) x xs w.1 n.1 (omega arith) (omega arith))

-- `GblLinkedList_insert` with enough fuel puts a node outside the list before the element at the
-- index, or behind the last one where the index is the length, and reports it.
pub insert-middle :
    (h : Field) (self node : Ptr) (k : ℕ) (xs ys : List Ptr)
    → IsList h self (xs ++ ys)
    → NotIn node (self ∷ (xs ++ ys))
    → length (xs ++ ys) < k
    → (h' : Field) × (insert k self node (length xs) h ≡ ok (true, h'))
      × IsList h' self (xs ++ (node ∷ ys))
unfolding insert
insert-middle h self node k xs [] is n f =
    let e : xs ++ [] ≡ xs = append-nil xs in
    let is' : IsList h self xs = rw e at is in
    let n' : NotIn node (self ∷ xs) = rw e at n in
    let f' : length xs < k = rw e at f in
    let (h', pushed, after, _) = push_back-append h self node k xs is' n' f' in
    (
      h',
      rw (insert_from_end h self node (length xs) k 0 self xs is'.0 is'.1.0 f' (omega arith))
          (ground (arith, pushed)),
      after,
    )
insert-middle h self node k xs (y ∷ ys) is n f =
    let found =
      insert_from_middle h self node (length xs) k 0 self xs y ys (omega arith) is.0 is.1.0
        (omega (arith, length-append xs (y ∷ ys))) in
    (
      update (update h node (h (last_or self xs))) (last_or self xs) node,
      rw found refl,
      IsList-insert h self node xs (y ∷ ys) is n,
    )

-- `GblLinkedList_insert` with enough fuel and an index past the end reports it and writes nothing.
pub insert-past :
    (h : Field) (self node : Ptr) (k index : ℕ) (xs : List Ptr)
    → IsList h self xs
    → length xs < k
    → length xs < index
    → insert k self node index h ≡ ok (false, h)
unfolding insert
insert-past h self node k index xs is f b =
    rw (insert_from_end h self node index k 0 self xs is.0 is.1.0 f (omega arith)) (ground arith)

-- `GblLinkedList_insertAfter` puts a node outside the list behind an element.
pub insert_after-middle :
    (h : Field) (self x node : Ptr) (xs ys : List Ptr)
    → IsList h self (xs ++ (x ∷ ys))
    → NotIn node (self ∷ (xs ++ (x ∷ ys)))
    → IsList (insert_after x node h) self (xs ++ (x ∷ (node ∷ ys)))
unfolding insert_after
insert_after-middle h self x node xs ys is n =
    rw (last_or-append self xs (x ∷ []), append_assoc) at
      (IsList-insert h self node (xs ++ (x ∷ [])) ys (rw append_assoc is) (rw append_assoc n))
