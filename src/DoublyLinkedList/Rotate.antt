-- ===== src/DoublyLinkedList/Rotate.antt =====
-- rotate: the head moves before the element that becomes the first.
use libgimbal.Common.{
  ℕ, ◌<◌, ◌≡◌, refl, ap, ◌∙◌, some, List, [], ◌∷◌, ◌++◌, append-nil, arith, length, get_elem?,
}
use libgimbal.Common.Int.{pos}
use libgimbal.Memory.{Ptr, ok}
use libgimbal.Memory.Distinct.{NotIn, NotIn-middle, last_or}
use libgimbal.LinkedList.Query.{at-get_elem?}
use libgimbal.DoublyLinkedList.{Links, rotate, at, remove, insert_before}
use libgimbal.DoublyLinkedList.Cycle.{IsList, Cycle-rotate, IsList-Walk}
use libgimbal.DoublyLinkedList.Insert.{
  insert_before-Inserted, Inserted-IsList, IsList-Edge, last_or-ne,
}
use libgimbal.DoublyLinkedList.Remove.{remove-IsList}

moved-IsList :
    (l : Links) (self pivot : Ptr) (xs ys : List Ptr)
    → IsList l self (xs ++ (pivot ∷ ys))
    → IsList (insert_before pivot self (remove self l)) self (pivot ∷ (ys ++ xs))
moved-IsList l self pivot xs ys is =
    let turned : IsList l pivot (ys ++ (self ∷ xs)) = Cycle-rotate l (self ∷ xs) (pivot ∷ ys) is in
    let rest : IsList (remove self l) pivot ((ys ++ xs) ++ []) =
      rw append-nil (remove-IsList l pivot self ys xs turned).0 in
    let out : NotIn self (pivot ∷ ((ys ++ xs) ++ [])) =
      rw append-nil (NotIn-middle self (pivot ∷ ys) xs turned.2) in
    let l1 = remove self l in
    let l2 = insert_before pivot self l1 in
    Cycle-rotate l2 (pivot ∷ (ys ++ xs)) (self ∷ []) (
      Inserted-IsList l1 pivot l2 self (ys ++ xs) []
        (insert_before-Inserted l1 (last_or pivot (ys ++ xs)) self pivot
          (IsList-Edge l1 pivot (ys ++ xs) [] rest) (last_or-ne l1 pivot self (ys ++ xs) [] out)
          out.0)
        rest out)

get_elem?-middle :
    (xs : List Ptr) (y : Ptr) (ys : List Ptr) → get_elem? (xs ++ (y ∷ ys)) (length xs) ≡ some y
get_elem?-middle [] y ys = refl
get_elem?-middle (x ∷ xs) y ys = get_elem?-middle xs y ys

-- `GblDoublyLinkedList_rotate` by a positive number that is an index of the list, with enough fuel,
-- makes the element there the first: the elements before it follow behind the last, in order.
pub rotate-append :
    (l : Links) (self pivot : Ptr) (k : ℕ) (xs ys : List Ptr)
    → IsList l self (xs ++ (pivot ∷ ys))
    → 0 < length xs
    → length (xs ++ (pivot ∷ ys)) < k
    → (l' : Links) × (rotate k self (pos (length xs)) l ≡ ok l')
      × IsList l' self (pivot ∷ (ys ++ xs))
unfolding rotate at
rotate-append l self pivot k xs ys is p f =
    let found =
      at-get_elem? l.next self (length xs) k (xs ++ (pivot ∷ ys))
        (IsList-Walk l self (xs ++ (pivot ∷ ys)) is) f
      ∙ ap ok (get_elem?-middle xs pivot ys) in
    (
      insert_before pivot self (remove self l),
      ground (arith, found, p),
      moved-IsList l self pivot xs ys is,
    )
