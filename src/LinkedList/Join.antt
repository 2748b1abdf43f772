-- ===== src/LinkedList/Join.antt =====
-- joinBack and move: the elements of another list.
use libgimbal.Common.{ℕ, ◌+◌, ◌<◌, ◌≡◌, ◌≢◌, refl, sym, ◌∙◌, List, [], ◌∷◌, ◌++◌, arith, length}
use libgimbal.Memory.{Ptr, null, Field, update, ok}
use libgimbal.Memory.Distinct.{
  NotIn, Distinct, last_or, NotIn-left, NotIn-right, NotIn-last_or, NotIn-before, Distinct-drop,
  Distinct-left, Distinct-right, last_or-NotIn,
}
use libgimbal.Memory.Chain.{Walk, Walk-append, Walk-relink, Walk-frame, update_self, update-ne}
use libgimbal.LinkedList.{init, empty, splice, or_else, join_back, move}
use libgimbal.LinkedList.Inv.{IsList}
use libgimbal.LinkedList.Ends.{last?, back-last?}

last_or-before :
    (xs : List Ptr) (d : Ptr) (ds : List Ptr) → Distinct (xs ++ (d ∷ ds)) → NotIn (last_or d ds) xs
last_or-before xs d [] u = NotIn-before d xs [] u
last_or-before xs d (y ∷ ds) u = last_or-before xs y ds (Distinct-drop xs d (y ∷ ds) u)

or_else-last? : (self : Ptr) (xs : List Ptr) → or_else (last? xs) self ≡ last_or self xs
unfolding or_else
or_else-last? self [] = refl
or_else-last? self (x ∷ xs) = refl

-- The links after joining `d ∷ ds`, the list of `list`, behind `xs`.
abbrev joined : (h : Field) (self list d : Ptr) (xs ds : List Ptr) → Field
joined h self list d xs ds =
    let h = update h (last_or self xs) d in
    let h = update h (last_or d ds) self in update h list list

joined-IsList :
    (h : Field) (self list d : Ptr) (xs ds : List Ptr)
    → Walk h self xs self
    → Walk h d ds list
    → Distinct (list ∷ (self ∷ (xs ++ (d ∷ ds))))
    → IsList (joined h self list d xs ds) self (xs ++ (d ∷ ds))
joined-IsList h self list d xs ds w v u =
    let l = last_or self xs in
    let m = last_or d ds in
    let off_list = NotIn-left list xs (d ∷ ds) u.0.1 in
    let off_others = NotIn-right list xs (d ∷ ds) u.0.1 in
    let l_off : NotIn l (d ∷ ds) = last_or-NotIn self xs (d ∷ ds) u.1 in
    let m_off : NotIn m (self ∷ xs) = last_or-before (self ∷ xs) d ds u.1 in
    let l_list : list ≢ l = NotIn-last_or list self xs u.0.0 off_list in
    let l_m : l ≢ m = NotIn-last_or l d ds l_off.0 l_off.1 in
    let h1 = update h l d in
    let h2 = update h1 m self in
    let h3 = update h2 list list in
    let front : Walk h3 self xs d =
      Walk-frame h2 self d xs list list (λ e. u.0.0 (sym e)) off_list
        (Walk-frame h1 self d xs m self (λ e. m_off.0 (sym e)) m_off.1
          (Walk-relink h self self xs d (Distinct-left (self ∷ xs) (d ∷ ds) u.1) w)) in
    let behind : Walk h3 d ds self =
      Walk-frame h2 d self ds list list (λ e. off_others.0 (sym e)) off_others.1
        (Walk-relink h1 d list ds self (Distinct-right xs (d ∷ ds) u.1.1)
          (Walk-frame h d list ds l d (λ e. l_off.0 (sym e)) l_off.1 v)) in
    let link : h3 l ≡ d =
      update-ne h2 list list l (λ e. l_list (sym e))
      ∙ update-ne h1 m self l l_m
      ∙ update_self h l d in
    (Walk-append h3 self self xs (d ∷ ds) front (link, behind), u.1)

-- `GblLinkedList_joinBack` with enough fuel moves the elements of another list that has some, whose
-- nodes and head are none of the first, in order behind those of the list, and leaves the other one
-- empty.
pub join_back-append :
    (h : Field) (self list d : Ptr) (k : ℕ) (xs ds : List Ptr)
    → IsList h self xs
    → IsList h list (d ∷ ds)
    → Distinct (list ∷ (self ∷ (xs ++ (d ∷ ds))))
    → d ≢ null
    → length xs + (length ds + 1) < k
    → (h' : Field) × (join_back k self list h ≡ ok h')
      × IsList h' self (xs ++ (d ∷ ds))
      × IsList h' list []
unfolding join_back empty splice init or_else
join_back-append h self list d k xs ds is other u v f =
    let own = back-last? h self k xs is (omega arith) in
    let last = back-last? h list k (d ∷ ds) other (omega arith) in
    let at_end = or_else-last? self xs in
    let some_element : list ≢ d = other.1.0.0 in
    (
      joined h self list d xs ds,
      ground (arith, own, last, at_end, some_element, v),
      joined-IsList h self list d xs ds is.0 other.0.1 u,
      (update_self (update (update h (last_or self xs) d) (last_or d ds) self) list list, (tt, tt)),
    )

-- `GblLinkedList_move` with enough fuel gives the elements of a list that has some to another head,
-- which need not be initialised, and leaves the first one empty.
pub move-IsList :
    (h : Field) (self head d : Ptr) (k : ℕ) (ds : List Ptr)
    → IsList h head (d ∷ ds)
    → NotIn self (head ∷ (d ∷ ds))
    → length ds + 1 < k
    → (h' : Field) × (move k self head h ≡ ok h') × IsList h' self (d ∷ ds) × IsList h' head []
unfolding move
move-IsList h self head d k ds is n f =
    let m = last_or d ds in
    let last = back-last? h head k (d ∷ ds) is (omega arith) in
    let self_m : self ≢ m = NotIn-last_or self d ds n.1.0 n.1.1 in
    let h1 = update h self d in
    let h2 = update h1 m self in
    let h3 = update h2 head head in
    let behind : Walk h3 d ds self =
      Walk-frame h2 d self ds head head (λ e. is.1.0.0 (sym e)) is.1.0.1
        (Walk-relink h1 d head ds self is.1.1
          (Walk-frame h d head ds self d (λ e. n.1.0 (sym e)) n.1.1 is.0.1)) in
    let link : h3 self ≡ d =
      update-ne h2 head head self n.0 ∙ update-ne h1 m self self self_m ∙ update_self h self d in
    (
      h3,
      ground (arith, last, is.0.0),
      ((link, behind), (n.1, is.1.1)),
      (update_self h2 head head, (tt, tt)),
    )
