-- ===== src/DoublyLinkedList/Reverse.antt =====
-- reverse, in place.
use mathlib.Core.List.{reverse, reverse_aux}
use libgimbal.Common.{
  ℕ, zero, suc, ◌<◌, ◌≡◌, refl, sym, ◌∙◌, List, [], ◌∷◌, append-nil, arith, length,
}
use libgimbal.Memory.{Ptr, ok, update}
use libgimbal.Memory.Distinct.{
  NotIn, Distinct, last_or, NotIn-last_or, NotIn-reverse_aux, Distinct-reverse_aux,
  last_or-reverse_aux,
}
use libgimbal.Memory.Chain.{first_or, update_self, update-ne}
use libgimbal.DoublyLinkedList
use libgimbal.DoublyLinkedList.{Links, reverse_from}
use libgimbal.DoublyLinkedList.Cycle.{Edge, Row, Row-set_next, Row-set_prev, IsList}

-- The links of `a` exchanged.
abbrev Swapped : Links → Links → Ptr → Type 0
Swapped l l' a = (l'.next a ≡ l.prev a) × (l'.prev a ≡ l.next a)

abbrev AllSwapped : Links → Links → List Ptr → Type 0
AllSwapped l l' [] = Unit
AllSwapped l l' (x ∷ xs) = Swapped l l' x × AllSwapped l l' xs

record Turned (l l' : Links) (xs : List Ptr) : Type 0 where
  inside : AllSwapped l l' xs
  outside_next : (a : Ptr) → NotIn a xs → l'.next a ≡ l.next a
  outside_prev : (a : Ptr) → NotIn a xs → l'.prev a ≡ l.prev a

-- The links of one node exchanged, as the loop's body does.
abbrev turn : Ptr → Links → Links
turn it l = record l { next = update l.next it (l.prev it); prev = update l.prev it (l.next it) }

AllSwapped-turn :
    (l l' : Links) (it : Ptr) (xs : List Ptr)
    → NotIn it xs
    → AllSwapped (turn it l) l' xs
    → AllSwapped l l' xs
AllSwapped-turn l l' it [] n a = tt
AllSwapped-turn l l' it (x ∷ xs) n a = (
  (
    a.0.0 ∙ update-ne l.prev it (l.next it) x (λ e. n.0 (sym e)),
    a.0.1 ∙ update-ne l.next it (l.prev it) x (λ e. n.0 (sym e)),
  ),
  AllSwapped-turn l l' it xs n.1 a.1,
)

Turned-cons :
    (l l' : Links) (it : Ptr) (xs : List Ptr)
    → NotIn it xs
    → Turned (turn it l) l' xs
    → Turned l l' (it ∷ xs)
Turned-cons l l' it xs n t = record {
  inside = (
    (
      t.outside_next it n ∙ update_self l.next it (l.prev it),
      t.outside_prev it n ∙ update_self l.prev it (l.next it),
    ),
    AllSwapped-turn l l' it xs n t.inside,
  );
  outside_next = λ a out. t.outside_next a out.1 ∙ update-ne l.next it (l.prev it) a out.0;
  outside_prev = λ a out. t.outside_prev a out.1 ∙ update-ne l.prev it (l.next it) a out.0;
}

reverse_from-Turned :
    (self : Ptr) (k : ℕ) (l : Links) (it : Ptr) (xs : List Ptr)
    → Row l it xs
    → l.next (last_or it xs) ≡ self
    → Distinct (it ∷ xs)
    → NotIn self xs
    → length xs < k
    → (l' : Links) × (reverse_from k self it l ≡ ok l') × Turned l l' (it ∷ xs)
unfolding reverse_from
reverse_from-Turned self zero l it xs r e d n f = absurd (omega arith)
reverse_from-Turned self (suc k) l it [] r e d n f = (
  turn it l,
  ground arith,
  Turned-cons l (turn it l) it [] tt
      (record { inside = tt; outside_next = λ a out. refl; outside_prev = λ a out. refl }),
)
reverse_from-Turned self (suc k) l it (x ∷ xs) r e d n f =
    let row : Row (turn it l) x xs =
      Row-set_prev (record l { next = update l.next it (l.prev it) }) x xs it (l.next it) d.0.1
        (Row-set_next l x xs it (l.prev it) d.0.0 d.0.1 r.1) in
    let closing : (turn it l).next (last_or x xs) ≡ self =
      update-ne l.next it (l.prev it) (last_or x xs)
        (λ p. NotIn-last_or it x xs d.0.0 d.0.1 (sym p))
      ∙ e in
    let (l', run, t) =
      reverse_from-Turned self k (turn it l) x xs row closing d.1 n.1 (omega arith) in
    (l', ground (arith, run), Turned-cons l l' it (x ∷ xs) d.0 t)

-- A row of which the first node is not named.
abbrev Linked : Links → List Ptr → Type 0
Linked l [] = Unit
Linked l (x ∷ xs) = Row l x xs

Row-join :
    (l : Links) (p : Ptr) (xs : List Ptr) → Edge l p (first_or xs p) → Linked l xs → Row l p xs
Row-join l p [] e r = tt
Row-join l p (x ∷ xs) e r = (e, r)

Linked-reverse :
    (l l' : Links) (p : Ptr) (xs done : List Ptr)
    → Row l p xs
    → AllSwapped l l' (p ∷ xs)
    → Row l' p done
    → Linked l' (reverse_aux xs (p ∷ done))
Linked-reverse l l' p [] done r a s = s
Linked-reverse l l' p (x ∷ xs) done r a s =
    Linked-reverse l l' x xs (p ∷ done) r.1 a.1 ((a.1.0.0 ∙ r.0.1, a.0.1 ∙ r.0.0), s)

first_or-reverse_aux :
    (q p : Ptr) (xs ys : List Ptr) → first_or (reverse_aux xs (p ∷ ys)) q ≡ last_or p xs
first_or-reverse_aux q p [] ys = refl
first_or-reverse_aux q p (x ∷ xs) ys = first_or-reverse_aux q x xs (p ∷ ys)

AllSwapped-last_or :
    (l l' : Links) (p : Ptr) (xs : List Ptr)
    → AllSwapped l l' (p ∷ xs)
    → Swapped l l' (last_or p xs)
AllSwapped-last_or l l' p [] a = a.0
AllSwapped-last_or l l' p (x ∷ xs) a = AllSwapped-last_or l l' x xs a.1

Turned-IsList :
    (l l' : Links) (self : Ptr) (xs : List Ptr)
    → IsList l self xs
    → AllSwapped l l' (self ∷ xs)
    → IsList l' self (reverse xs)
Turned-IsList l l' self [] (r, e, d) a = (tt, (a.0.0 ∙ e.1, a.0.1 ∙ e.0), d)
Turned-IsList l l' self (x ∷ xs) (r, e, d) a =
    let s = AllSwapped-last_or l l' x xs a.1 in
    (
      Row-join l' self (reverse_aux xs (x ∷ [])) (rw first_or-reverse_aux (a.0.0 ∙ e.1, s.1 ∙ e.0))
          (Linked-reverse l l' x xs [] r.1 a.1 tt),
      rw last_or-reverse_aux (a.1.0.0 ∙ r.0.1, a.0.1 ∙ r.0.0),
      (
        NotIn-reverse_aux self (x ∷ xs) [] d.0 tt,
        Distinct-reverse_aux (x ∷ xs) [] (rw append-nil d.1),
      ),
    )

-- `GblDoublyLinkedList_reverse` with enough fuel reverses the list in place, in both directions of
-- its links.
pub reverse-IsList :
    (l : Links) (self : Ptr) (k : ℕ) (xs : List Ptr)
    → IsList l self xs
    → length xs < k
    → (l' : Links) × (DoublyLinkedList.reverse k self l ≡ ok l') × IsList l' self (reverse xs)
unfolding DoublyLinkedList.reverse
reverse-IsList l self k xs is f =
    let (l', run, t) = reverse_from-Turned self k l self xs is.0 is.1.0 is.2 is.2.0 f in
    (l', run, Turned-IsList l l' self xs is t.inside)
