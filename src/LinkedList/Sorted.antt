-- ===== src/LinkedList/Sorted.antt =====
-- What GblLinkedList_joinSorted makes of two lists that are in order.
use libgimbal.Common.{◌≡◌, Bool, false, List, [], ◌∷◌}
use libgimbal.Memory.{Ptr}
use libgimbal.Memory.Apart.{Apart}

module _ (before : Ptr → Ptr → Bool) where
  -- The first element, if there is one, is not before `x`.
  abbrev pub First : Ptr → List Ptr → Type 0
  First x [] = Unit
  First x (y ∷ ys) = before y x ≡ false

  -- No element is before the one in front of it.
  abbrev pub Ordered : List Ptr → Type 0
  Ordered [] = Unit
  Ordered (x ∷ xs) = First x xs × Ordered xs
