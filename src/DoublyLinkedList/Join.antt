-- ===== src/DoublyLinkedList/Join.antt =====
-- joinBack, joinFront, move: the elements of one list given to another head.
use mathlib.Core.Path.{subst}
use libgimbal.Common.{◌≢◌, sym, List, [], ◌∷◌, ◌++◌, append-nil, append_assoc, arith}
use libgimbal.Memory.{Ptr, null, update}
use libgimbal.Memory.Distinct.{
  NotIn, Distinct, last_or, last_or-append, NotIn-last_or, NotIn-left, NotIn-right, NotIn-append,
  Distinct-insert, last_or-NotIn,
}
use libgimbal.LinkedList
use libgimbal.DoublyLinkedList.{Links, empty, move, join_back, join_front}
use libgimbal.DoublyLinkedList.Cycle.{
  Edge, Row, Row-append, Cycle, Cycle-rotate, Distinct-rotate, IsList,
}
use libgimbal.DoublyLinkedList.Agree.{Agree, Row-Agree, NotIn-init_of, last_or-init_of}

-- The nodes from `d` to `e` of the list `list` between `z` and its successor `c`.
record Joined (z c list d e : Ptr) (l l' : Links) : Type 0 where
  agree : Agree (z ∷ e ∷ list ∷ []) (d ∷ c ∷ list ∷ []) l l'
  before : Edge l' z d
  behind : Edge l' e c
  emptied : Cycle l' (list ∷ [])

Joined-Cycle :
    (l l' : Links) (c : Ptr) (cs : List Ptr) (list d : Ptr) (ds : List Ptr)
    → Joined (last_or c cs) c list d (last_or d ds) l l'
    → Cycle l (c ∷ cs)
    → Cycle l (list ∷ (d ∷ ds))
    → Distinct ((c ∷ cs) ++ (d ∷ ds))
    → NotIn list ((c ∷ cs) ++ (d ∷ ds))
    → Cycle l' ((c ∷ cs) ++ (d ∷ ds))
Joined-Cycle l l' c cs list d ds j (r, e, o) (s, f, u) apart n =
    let z = last_or c cs in
    let y = last_or d ds in
    let turned : Distinct ((d ∷ ds) ++ (c ∷ cs)) = Distinct-rotate (c ∷ cs) (d ∷ ds) apart in
    let n1 : NotIn list (c ∷ cs) = NotIn-left list (c ∷ cs) (d ∷ ds) n in
    let n2 : NotIn list (d ∷ ds) = NotIn-right list (c ∷ cs) (d ∷ ds) n in
    let d_off : NotIn d (c ∷ cs) = NotIn-right d ds (c ∷ cs) turned.0 in
    let c_off : NotIn c (d ∷ ds) = NotIn-right c cs (d ∷ ds) apart.0 in
    let z_off : NotIn z (d ∷ ds) = last_or-NotIn c cs (d ∷ ds) apart in
    let y_off : NotIn y (c ∷ cs) = last_or-NotIn d ds (c ∷ cs) turned in
    let front : Row l' c cs =
      Row-Agree l l' (z ∷ y ∷ list ∷ []) (d ∷ c ∷ list ∷ []) c cs j.agree
        (last_or-init_of c cs o, (NotIn-init_of y c cs y_off, (NotIn-init_of list c cs n1, tt)))
        (d_off.1, (o.0, (n1.1, tt))) r in
    let back : Row l' d ds =
      Row-Agree l l' (z ∷ y ∷ list ∷ []) (d ∷ c ∷ list ∷ []) d ds j.agree
        (NotIn-init_of z d ds z_off, (last_or-init_of d ds u.1, (NotIn-init_of list d ds n2, tt)))
        (u.1.0, (c_off.1, (n2.1, tt))) s.1 in
    (Row-append l' c cs d ds front j.before back, rw last_or-append j.behind, apart)

join_back-Joined :
    (l : Links) (z c list d e : Ptr)
    → Edge l z c
    → Edge l list d
    → Edge l e list
    → z ≢ list
    → z ≢ e
    → e ≢ list
    → d ≢ c
    → d ≢ list
    → c ≢ list
    → d ≢ null
    → Joined z c list d e l (join_back c list l)
unfolding join_back empty LinkedList.empty update
join_back-Joined l z c list d e p q r n1 n2 n3 n4 n5 n6 n7 = record {
  agree = record { next = λ a out. ground arith; prev = λ a out. ground arith };
  before = ground arith;
  behind = ground arith;
  emptied = (tt, ground arith, (tt, tt));
}

join_front-Joined :
    (l : Links) (z c list d e : Ptr)
    → Edge l z c
    → Edge l list d
    → Edge l e list
    → z ≢ list
    → z ≢ e
    → e ≢ list
    → d ≢ c
    → d ≢ list
    → c ≢ list
    → d ≢ null
    → Joined z c list d e l (join_front z list l)
unfolding join_front empty LinkedList.empty update
join_front-Joined l z c list d e p q r n1 n2 n3 n4 n5 n6 n7 = record {
  agree = record { next = λ a out. ground arith; prev = λ a out. ground arith };
  before = ground arith;
  behind = ground arith;
  emptied = (tt, ground arith, (tt, tt));
}

-- What the two lemmas above ask of the nodes, from the two cycles.
module _ (l : Links) (c : Ptr) (cs : List Ptr) (list d : Ptr) (ds : List Ptr)
    (apart : Distinct ((c ∷ cs) ++ (d ∷ ds))) (n : NotIn list ((c ∷ cs) ++ (d ∷ ds))) where
  ends_apart :
      (last_or c cs ≢ list)
      × (last_or c cs ≢ last_or d ds)
      × (last_or d ds ≢ list)
      × (d ≢ c)
      × (d ≢ list)
      × (c ≢ list)
  ends_apart =
      let n1 : NotIn list (c ∷ cs) = NotIn-left list (c ∷ cs) (d ∷ ds) n in
      let n2 : NotIn list (d ∷ ds) = NotIn-right list (c ∷ cs) (d ∷ ds) n in
      let z_off : NotIn (last_or c cs) (d ∷ ds) = last_or-NotIn c cs (d ∷ ds) apart in
      let c_off : NotIn c (d ∷ ds) = NotIn-right c cs (d ∷ ds) apart.0 in
      (
        (λ e. NotIn-last_or list c cs n1.0 n1.1 (sym e)),
        NotIn-last_or (last_or c cs) d ds z_off.0 z_off.1,
        (λ e. NotIn-last_or list d ds n2.0 n2.1 (sym e)),
        (λ e. c_off.0 (sym e)),
        (λ e. n2.0 (sym e)),
        (λ e. n1.0 (sym e)),
      )

-- `GblDoublyLinkedList_joinBack` moves the elements of another list that has some, whose nodes and
-- head are none of the first, in order behind those of the
-- list, and leaves the other one empty.
pub join_back-IsList :
    (l : Links) (self list d : Ptr) (xs ds : List Ptr)
    → IsList l self xs
    → IsList l list (d ∷ ds)
    → Distinct (list ∷ (self ∷ (xs ++ (d ∷ ds))))
    → d ≢ null
    → IsList (join_back self list l) self (xs ++ (d ∷ ds)) × IsList (join_back self list l) list []
join_back-IsList l self list d xs ds is other o v =
    let (a, b, f, g, h, i) = ends_apart l self xs list d ds o.1 o.0 in
    let j : Joined (last_or self xs) self list d (last_or d ds) l (join_back self list l) =
      join_back-Joined l (last_or self xs) self list d (last_or d ds) is.1 other.0.0 other.1 a b f g
        h i v in
    (Joined-Cycle l (join_back self list l) self xs list d ds j is other o.1 o.0, j.emptied)

-- `GblDoublyLinkedList_joinFront` moves the elements of another list that has some, whose nodes and
-- head are none of the first, in order before those of the
-- list, and leaves the other one empty.
pub join_front-IsList :
    (l : Links) (self list d : Ptr) (xs ds : List Ptr)
    → IsList l self xs
    → IsList l list (d ∷ ds)
    → Distinct (list ∷ (self ∷ (xs ++ (d ∷ ds))))
    → d ≢ null
    → IsList (join_front self list l) self ((d ∷ ds) ++ xs)
      × IsList (join_front self list l) list []
join_front-IsList l self list d [] ds is other o v =
    let (a, b, f, g, h, i) = ends_apart l self [] list d ds o.1 o.0 in
    let j : Joined self self list d (last_or d ds) l (join_front self list l) =
      join_front-Joined l self self list d (last_or d ds) is.1 other.0.0 other.1 a b f g h i v in
    let whole : Cycle (join_front self list l) (self ∷ (d ∷ ds)) =
      Joined-Cycle l (join_front self list l) self [] list d ds j is other o.1 o.0 in
    (
      subst (λ zs. Cycle (join_front self list l) (self ∷ zs)) (sym (append-nil (d ∷ ds))) whole,
      j.emptied,
    )
join_front-IsList l self list d (x ∷ xs) ds is other o v =
    let turned : Cycle l (x ∷ (xs ++ (self ∷ []))) = Cycle-rotate l (self ∷ []) (x ∷ xs) is in
    let o' : Distinct ((x ∷ (xs ++ (self ∷ []))) ++ (d ∷ ds)) =
      rw append_assoc (Distinct-insert (x ∷ xs) self (d ∷ ds) o.1.0 o.1.1) in
    let n' : NotIn list ((x ∷ (xs ++ (self ∷ []))) ++ (d ∷ ds)) = rw append_assoc (
      NotIn-append list (x ∷ xs) (self ∷ (d ∷ ds)) (NotIn-left list (x ∷ xs) (d ∷ ds) o.0.1)
        (o.0.0, NotIn-right list (x ∷ xs) (d ∷ ds) o.0.1)) in
    let (a, b, f, g, h, i) = ends_apart l x (xs ++ (self ∷ [])) list d ds o' n' in
    let j : Joined (last_or x (xs ++ (self ∷ []))) x list d (last_or d ds) l
        (join_front self list l) =
      rw last_or-append (
        join_front-Joined l self x list d (last_or d ds) is.0.0 other.0.0 other.1
          (rw last_or-append at a) (rw last_or-append at b) f g h i v) in
    let whole : Cycle (join_front self list l) ((x ∷ xs) ++ (self ∷ (d ∷ ds))) =
      rw append_assoc at (
        Joined-Cycle l (join_front self list l) x (xs ++ (self ∷ [])) list d ds j turned other o'
          n') in
    (Cycle-rotate (join_front self list l) (x ∷ xs) (self ∷ (d ∷ ds)) whole, j.emptied)

move_links :
    (l : Links) (self head d e : Ptr)
    → Edge l head d
    → Edge l e head
    → self ≢ head
    → e ≢ head
    → d ≢ head
    → e ≢ self
    → d ≢ self
    → d ≢ null
    → Agree (e ∷ self ∷ head ∷ []) (d ∷ self ∷ head ∷ []) l (move self head l)
      × Edge (move self head l) self d
      × Edge (move self head l) e self
      × Cycle (move self head l) (head ∷ [])
unfolding move empty LinkedList.empty update
move_links l self head d e p q n1 n2 n3 n4 n5 n6 = (
  record { next = λ a out. ground arith; prev = λ a out. ground arith },
  ground arith,
  ground arith,
  (tt, ground arith, (tt, tt)),
)

-- `GblDoublyLinkedList_move` gives the elements of a list to another head, which need not be
-- initialised, and leaves the first one empty.
pub move_lem :
    (l : Links) (self head d : Ptr) (ds : List Ptr)
    → IsList l head (d ∷ ds)
    → NotIn self (head ∷ (d ∷ ds))
    → d ≢ null
    → IsList (move self head l) self (d ∷ ds) × IsList (move self head l) head []
move_lem l self head d ds (r, e, o) n v =
    let y = last_or d ds in
    let (a, f, g, h) =
      move_links l self head d y r.0 e n.0 (λ p. NotIn-last_or head d ds o.0.0 o.0.1 (sym p))
        (λ p. o.0.0 (sym p)) (λ p. NotIn-last_or self d ds n.1.0 n.1.1 (sym p)) (λ p. n.1.0 (sym p))
        v in
    (
      (
        (
          f,
          Row-Agree l (move self head l) (y ∷ self ∷ head ∷ []) (d ∷ self ∷ head ∷ []) d ds a
              (
                last_or-init_of d ds o.1,
                (NotIn-init_of self d ds n.1, (NotIn-init_of head d ds o.0, tt)),
              )
              (o.1.0, (n.1.1, (o.0.1, tt))) r.1,
        ),
        g,
        (n.1, o.1),
      ),
      h,
    )
