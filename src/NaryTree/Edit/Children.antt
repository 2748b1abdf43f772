-- ===== src/NaryTree/Edit/Children.antt =====
-- The functions that write, against the list of a node's children.
use mathlib.Core.Path.{subst}
use mathlib.Core.List.{reverse, reverse_aux}
use libgimbal.Common.{
  ℕ, zero, suc, ◌<◌, ◌≡◌, ◌≢◌, refl, sym, ◌∙◌, List, [], ◌∷◌, ◌++◌, arith, length, length-append,
  append-nil,
}
use libgimbal.Memory.{Ptr, null, update, ok}
use libgimbal.Memory.Distinct.{
  NotIn-middle, NotIn-drop, NotIn, Distinct, last_or, NotIn-left, NotIn-right, NotIn-append,
  NotIn-last_or, Distinct-drop, Distinct-insert,
}
use libgimbal.Memory.Chain.{
  Chain, Walk, Chain-of_Walk, Chain-frame, Walk-frame, Walk-remove, Walk-relink, Walk-append,
  update_self, update-ne, Walk-push,
}
use libgimbal.NaryTree.{Tree, set_parent, set_child, set_next}
use libgimbal.NaryTree.Edit.{
  add_child_front, add_child_back, remove_child, reverse_children_from, reverse_children,
  move_child_front, move_child_back,
}
use libgimbal.NaryTree.Inv.{Owned, Children, Owned-frame, Owned-append, Owned-drop}
use libgimbal.NaryTree.Query.{child_last_lem, child_before_lem}

-- `GblNaryTree_addChildFront` makes a node that is no child the first child.
pub add_child_front-cons :
    (t : Tree) (self child : Ptr) (xs : List Ptr)
    → Children t self xs
    → NotIn child xs
    → child ≢ null
    → Children (add_child_front self child t) self (child ∷ xs)
unfolding add_child_front
add_child_front-cons t self child xs c n v = record {
  chain = (update_self t.child self child, Walk-push t.next (t.child self) null child xs n c.chain);
  apart = (n, c.apart);
  real = ((λ e. v (sym e)), c.real);
  owned = (update_self t.parent child self, Owned-frame t.parent self child self xs n c.owned);
}

-- `GblNaryTree_addChildBack` with enough fuel makes a node that is no child the last child.
pub add_child_back-append :
    (t : Tree) (self child : Ptr) (k : ℕ) (xs : List Ptr)
    → Children t self xs
    → NotIn child xs
    → child ≢ null
    → length xs < k
    → (t' : Tree) × (add_child_back k self child t ≡ ok t') × Children t' self (xs ++ (child ∷ []))
unfolding add_child_back
add_child_back-append t self child k [] c n v f =
    let t' = set_next child null (set_parent child self (set_child self child t)) in
    (
      t',
      ground (arith, child_last_lem t self k [] c f),
      record {
        chain = (update_self t.child self child, update_self t.next child null);
        apart = (tt, tt);
        real = ((λ e. v (sym e)), tt);
        owned = (update_self t.parent child self, tt);
      },
    )
add_child_back-append t self child k (x ∷ xs) c n v f =
    let back = last_or x xs in
    let linked = update t.next back child in
    let other : child ≢ back = NotIn-last_or child x xs n.0 n.1 in
    let some_back : null ≢ back = NotIn-last_or null x xs c.real.0 c.real.1 in
    let front : Walk (update linked child null) x xs child =
      Walk-frame linked x child xs child null (λ e. n.0 (sym e)) n.1
        (Walk-relink t.next x null xs child c.apart c.chain.1) in
    (
      set_next child null (set_parent child self (set_next back child t)),
      ground (arith, child_last_lem t self k (x ∷ xs) c f, some_back),
      record {
        chain = (
          c.chain.0,
          Walk-append (update linked child null) x null xs (child ∷ []) front (
            update-ne linked child null back (λ e. other (sym e)) ∙ update_self t.next back child,
            update_self linked child null,
          ),
        );
        apart = Distinct-insert (x ∷ xs) child [] (rw append-nil n) (rw append-nil c.apart);
        real = NotIn-append null (x ∷ xs) (child ∷ []) c.real ((λ e. v (sym e)), tt);
        owned =
            Owned-append (update t.parent child self) self (x ∷ xs) (child ∷ [])
              (Owned-frame t.parent self child self (x ∷ xs) n c.owned)
              (update_self t.parent child self, tt);
      },
    )

-- `GblNaryTree_removeChild` with enough fuel takes a child out, keeps the others in order, leaves the
-- node without parent and next sibling, and returns NULL.
pub remove_child-middle :
    (t : Tree) (self child : Ptr) (k : ℕ) (xs ys : List Ptr)
    → Children t self (xs ++ (child ∷ ys))
    → length (xs ++ (child ∷ ys)) < k
    → (t' : Tree) × (remove_child k self child t ≡ ok (null, t'))
      × Children t' self (xs ++ ys)
      × (t'.parent child ≡ null)
      × (t'.next child ≡ null)
unfolding remove_child
remove_child-middle t self child k [] ys c f = (
  set_next child null (set_parent child null (set_child self (t.next child) t)),
  ground (arith, child_before_lem t self child k [] ys c f),
  record {
    chain =
        subst (λ p. Chain (update t.next child null) p ys null)
          (sym (update_self t.child self (t.next child)))
          (Chain-frame t.next (t.next child) null ys child null c.apart.0
            (Chain-of_Walk t.next child null ys c.chain.1));
    apart = c.apart.1;
    real = c.real.1;
    owned = Owned-frame t.parent self child null ys c.apart.0 c.owned.1;
  },
  update_self t.parent child null,
  update_self t.next child null,
)
remove_child-middle t self child k (x ∷ xs) ys c f =
    let before = last_or x xs in
    let linked = update t.next before (t.next child) in
    let some_before : null ≢ before =
      NotIn-last_or null x xs c.real.0 (NotIn-left null xs (child ∷ ys) c.real.1) in
    let out : NotIn child (x ∷ (xs ++ ys)) = NotIn-middle child (x ∷ xs) ys c.apart in
    (
      set_next child null (set_parent child null (set_next before (t.next child) t)),
      ground (arith, child_before_lem t self child k (x ∷ xs) ys c f, some_before),
      record {
        chain = (
          c.chain.0,
          Walk-frame linked x null (xs ++ ys) child null (λ e. out.0 (sym e)) out.1
              (Walk-remove t.next x null child xs ys c.apart c.chain.1),
        );
        apart = Distinct-drop (x ∷ xs) child ys c.apart;
        real = NotIn-drop null (x ∷ xs) child ys c.real;
        owned =
            Owned-frame t.parent self child null (x ∷ (xs ++ ys)) out
              (Owned-drop t.parent self (x ∷ xs) child ys c.owned);
      },
      update_self t.parent child null,
      update_self linked child null,
    )

-- The nodes `done` are linked backwards behind `p`, the nodes `xs` from `it` on are to come.
reverse_children_from_lem :
    (self : Ptr) (k : ℕ) (t : Tree) (p it : Ptr) (xs done : List Ptr)
    → Chain t.next it xs null
    → Chain t.next p done null
    → Distinct (xs ++ done)
    → NotIn null (xs ++ done)
    → Owned t.parent self xs
    → Owned t.parent self done
    → length xs < k
    → (t' : Tree) × (reverse_children_from k self p it t ≡ ok t')
      × Children t' self (reverse_aux xs done)
unfolding reverse_children_from
reverse_children_from_lem self zero t p it xs done w v d n o q f = absurd (omega arith)
reverse_children_from_lem self (suc k) t p it [] done w v d n o q f = (
  set_child self p t,
  ground arith,
  record {
    chain = subst (λ z. Chain t.next z done null) (sym (update_self t.child self p)) v;
    apart = d;
    real = n;
    owned = q;
  },
)
reverse_children_from_lem self (suc k) t p it (x ∷ xs) done w v d n o q f =
    let rest =
      reverse_children_from_lem self k (set_next x p t) x (t.next x) xs (x ∷ done)
        (Chain-frame t.next (t.next x) null xs x p (NotIn-left x xs done d.0)
          (Chain-of_Walk t.next x null xs w.1))
        (refl, Walk-push t.next p null x done (NotIn-right x xs done d.0) v)
        (Distinct-insert xs x done d.0 d.1)
        (NotIn-append null xs (x ∷ done) (NotIn-left null xs done n.1)
          (n.0, NotIn-right null xs done n.1))
        o.1 (o.0, q) (omega arith) in
    (rest.0, ground (arith, rest.1), rest.2)

-- `GblNaryTree_reverseChildren` with enough fuel reverses the children of a node.
pub reverse_children-reverse :
    (t : Tree) (self : Ptr) (k : ℕ) (xs : List Ptr)
    → Children t self xs
    → length xs < k
    → (t' : Tree) × (reverse_children k self t ≡ ok t') × Children t' self (reverse xs)
unfolding reverse_children
reverse_children-reverse t self k xs c f =
    reverse_children_from_lem self k t null (t.child self) xs [] c.chain refl
      (rw append-nil c.apart) (rw append-nil c.real) c.owned tt f

-- `GblNaryTree_moveChildFront` with enough fuel makes a child the first one, and
-- `GblNaryTree_moveChildBack` the last; the others keep their order.
pub move_child_ends :
    (t : Tree) (self child : Ptr) (k : ℕ) (xs ys : List Ptr)
    → Children t self (xs ++ (child ∷ ys))
    → length (xs ++ (child ∷ ys)) < k
    → ((t' : Tree) × (move_child_front k self child t ≡ ok t')
        × Children t' self (child ∷ (xs ++ ys)))
      × ((t' : Tree) × (move_child_back k self child t ≡ ok t')
          × Children t' self ((xs ++ ys) ++ (child ∷ [])))
unfolding move_child_front move_child_back
move_child_ends t self child k xs ys c f =
    let (t1, run, rest, _, _) = remove_child-middle t self child k xs ys c f in
    let out : NotIn child (xs ++ ys) = NotIn-middle child xs ys c.apart in
    let v : child ≢ null = (λ e. (NotIn-right null xs (child ∷ ys) c.real).0 (sym e)) in
    let (t2, run2, list) =
      add_child_back-append t1 self child k (xs ++ ys) rest out v
        (omega (arith, length-append xs (child ∷ ys), length-append xs ys)) in
    (
      (
        add_child_front self child t1,
        rw run refl,
        add_child_front-cons t1 self child (xs ++ ys) rest out v,
      ),
      (t2, rw run run2, list),
    )
