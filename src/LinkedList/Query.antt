-- ===== src/LinkedList/Query.antt =====
-- The queries on a list: find, contains, count, at, empty.
use libgimbal.Common.{
  ℕ, zero, suc, ◌+◌, ◌<◌, ◌≡◌, refl, ap, Bool, not, false, ◌||◌, List, [], ◌∷◌, arith, length,
  get_elem?, ◌==◌, if◌then◌else◌,
}
use libgimbal.Memory.{Ptr, Field, ok}
use libgimbal.Memory.Distinct.{NotIn}
use libgimbal.Memory.Chain.{Walk}
use libgimbal.LinkedList.{npos, find_from, find, contains, count_from, count, at_from, at}
use libgimbal.LinkedList.Inv.{IsList}

-- The position of a node counted from `i`, `npos` if it is not there.
abbrev pub index_from : ℕ → Ptr → List Ptr → ℕ
index_from i node [] = npos
index_from i node (x ∷ xs) = if x == node then i else index_from (i + 1) node xs

abbrev pub member : Ptr → List Ptr → Bool
member node [] = false
member node (x ∷ xs) = (x == node) || member node xs

module _ (h : Field) (self : Ptr) where
  find_from_lem :
      (node : Ptr) (k i : ℕ) (p : Ptr) (xs : List Ptr)
      → Walk h p xs self
      → NotIn self xs
      → length xs < k
      → find_from k self node i (h p) h ≡ ok (index_from i node xs)
  unfolding find_from
  find_from_lem node zero i p xs w n f = absurd (omega arith)
  find_from_lem node (suc k) i p [] w n f = ground arith
  find_from_lem node (suc k) i p (x ∷ xs) w n f =
      ground (arith, find_from_lem node k (i + 1) x xs w.1 n.1 (omega arith))

  count_from_lem :
      (k i : ℕ) (p : Ptr) (xs : List Ptr)
      → Walk h p xs self
      → NotIn self xs
      → length xs < k
      → count_from k self i (h p) h ≡ ok (i + length xs)
  unfolding count_from
  count_from_lem zero i p xs w n f = absurd (omega arith)
  count_from_lem (suc k) i p [] w n f = ground arith
  count_from_lem (suc k) i p (x ∷ xs) w n f =
      ground (arith, count_from_lem k (i + 1) x xs w.1 n.1 (omega arith))

  at_from_lem :
      (t index k i : ℕ) (p : Ptr) (xs : List Ptr)
      → t ≡ i + index
      → Walk h p xs self
      → NotIn self xs
      → length xs < k
      → at_from k self t i (h p) h ≡ ok (get_elem? xs index)
  unfolding at_from
  at_from_lem t index zero i p xs e w n f = absurd (omega arith)
  at_from_lem t index (suc k) i p [] e w n f = ground arith
  at_from_lem t zero (suc k) i p (x ∷ xs) e w n f = ground arith
  at_from_lem t (suc index) (suc k) i p (x ∷ xs) e w n f =
      ground (arith, at_from_lem t index k (i + 1) x xs (omega arith) w.1 n.1 (omega arith))

  -- `GblLinkedList_find` with enough fuel returns the position of the node among the elements, NPOS for any other.
  pub find-index :
      (node : Ptr) (k : ℕ) (xs : List Ptr)
      → IsList h self xs
      → length xs < k
      → find k self node h ≡ ok (index_from 0 node xs)
  unfolding find
  find-index node k xs is f = find_from_lem node k 0 self xs is.0 is.1.0 f

  -- `GblLinkedList_count` with enough fuel returns the number of elements.
  pub count-length :
      (k : ℕ) (xs : List Ptr) → IsList h self xs → length xs < k → count k self h ≡ ok (length xs)
  unfolding count
  count-length k xs is f = rw (count_from_lem k 0 self xs is.0 is.1.0 f) (ground arith)

  -- `GblLinkedList_at` with enough fuel returns the element at the index, NULL past the end.
  pub at-get_elem? :
      (index k : ℕ) (xs : List Ptr)
      → IsList h self xs
      → length xs < k
      → at k self index h ≡ ok (get_elem? xs index)
  unfolding at
  at-get_elem? index k xs is f = at_from_lem index index k 0 self xs (omega arith) is.0 is.1.0 f

-- Fewer than `npos` elements: a position found is no NPOS.
index_from-npos :
    (i : ℕ) (node : Ptr) (xs : List Ptr)
    → i + length xs < npos
    → not (index_from i node xs == npos) ≡ member node xs
index_from-npos i node [] f = refl
index_from-npos i node (x ∷ xs) f = ground (arith, index_from-npos (i + 1) node xs (omega arith))

-- `GblLinkedList_contains` with enough fuel decides membership, if the list has fewer than SIZE_MAX elements.
pub contains-member :
    (h : Field) (self node : Ptr) (k : ℕ) (xs : List Ptr)
    → IsList h self xs
    → length xs < k
    → length xs < npos
    → contains k self node h ≡ ok (member node xs)
unfolding contains
contains-member h self node k xs is f b =
    rw (find-index h self node k xs is f) (ap ok (index_from-npos 0 node xs (omega arith)))
