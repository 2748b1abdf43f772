-- ===== src/Memory/Chain.antt =====
-- Chains: following the pointer field from a node leads through a list of nodes to an end.
use mathlib.Core.Path.{subst}
use libgimbal.Common.{◌≡◌, ◌≢◌, sym, ◌∙◌, List, [], ◌∷◌, ◌++◌, arith}
use libgimbal.Memory.{Ptr, Field, update}
use libgimbal.Memory.Distinct.{
  NotIn, Distinct, last_or, NotIn-last_or, NotIn-left, NotIn-right, Distinct-left, last_or-NotIn,
}

-- From `p` the field leads through `xs`, in order, to `q`.
abbrev pub Walk : Field → Ptr → List Ptr → Ptr → Type 0
Walk f p [] q = f p ≡ q
Walk f p (x ∷ xs) q = (f p ≡ x) × Walk f x xs q

abbrev pub first_or : List Ptr → Ptr → Ptr
first_or [] q = q
first_or (x ∷ xs) q = x

module _ (f : Field) where
  pub update_self : (a v : Ptr) → update f a v a ≡ v
  unfolding update
  update_self a v = ground arith

  pub update-ne : (a v b : Ptr) → b ≢ a → update f a v b ≡ f b
  unfolding update
  update-ne a v b h = ground arith

  pub Walk-first : (p q : Ptr) (xs : List Ptr) → Walk f p xs q → f p ≡ first_or xs q
  Walk-first p q [] w = w
  Walk-first p q (x ∷ xs) w = w.0

  pub Walk-left :
      (p q : Ptr) (xs ys : List Ptr) → Walk f p (xs ++ ys) q → Walk f p xs (first_or ys q)
  Walk-left p q [] ys w = Walk-first p q ys w
  Walk-left p q (x ∷ xs) ys w = (w.0, Walk-left x q xs ys w.1)

  pub Walk-right :
      (p q : Ptr) (xs ys : List Ptr) → Walk f p (xs ++ ys) q → Walk f (last_or p xs) ys q
  Walk-right p q [] ys w = w
  Walk-right p q (x ∷ xs) ys w = Walk-right x q xs ys w.1

  pub Walk-append :
      (p q : Ptr) (xs ys : List Ptr)
      → Walk f p xs (first_or ys q)
      → Walk f (last_or p xs) ys q
      → Walk f p (xs ++ ys) q
  Walk-append p q [] ys w v = v
  Walk-append p q (x ∷ xs) ys w v = (w.0, Walk-append x q xs ys w.1 v)

  -- A write at a node off the chain.
  pub Walk-frame :
      (p q : Ptr) (xs : List Ptr) (a v : Ptr)
      → p ≢ a
      → NotIn a xs
      → Walk f p xs q
      → Walk (update f a v) p xs q
  Walk-frame p q [] a v n m w = update-ne a v p n ∙ w
  Walk-frame p q (x ∷ xs) a v n m w =
      (update-ne a v p n ∙ w.0, Walk-frame x q xs a v (λ e. m.0 (sym e)) m.1 w.1)

  -- A write at the last node of a chain moves its end.
  pub Walk-relink :
      (p q : Ptr) (xs : List Ptr) (v : Ptr)
      → Distinct (p ∷ xs)
      → Walk f p xs q
      → Walk (update f (last_or p xs) v) p xs v
  Walk-relink p q [] v d w = update_self p v
  Walk-relink p q (x ∷ xs) v d w = (
    update-ne (last_or x xs) v p (NotIn-last_or p x xs d.0.0 d.0.1) ∙ w.0,
    Walk-relink x q xs v d.1 w.1,
  )

  -- A node that is given the link of another leads where that one leads.
  pub Walk-take :
      (a q c : Ptr) (xs : List Ptr) → NotIn c xs → Walk f a xs q → Walk (update f c (f a)) c xs q
  Walk-take a q c [] n w = update_self c (f a) ∙ w
  Walk-take a q c (x ∷ xs) n w =
      (update_self c (f a) ∙ w.0, Walk-frame x q xs c (f a) (λ e. n.0 (sym e)) n.1 w.1)

-- `g` agrees with `f` at every node that is none of `xs`.
abbrev pub SameOutside : List Ptr → Field → Field → Type 0
SameOutside xs f g = (p : Ptr) → NotIn p xs → g p ≡ f p

module _ (f : Field) where
  -- `y` between `xs` and `ys`: the link of the last of `xs` moves to `y`.
  pub Walk-insert :
      (p q y : Ptr) (xs ys : List Ptr)
      → Distinct (p ∷ (xs ++ ys))
      → NotIn y (p ∷ (xs ++ ys))
      → Walk f p (xs ++ ys) q
      → Walk (update (update f y (f (last_or p xs))) (last_or p xs) y) p (xs ++ (y ∷ ys)) q
  Walk-insert p q y xs ys d n w =
      let l = last_or p xs in
      let g = update f y (f l) in
      let off : NotIn y (p ∷ xs) = NotIn-left y (p ∷ xs) ys n in
      let apart : y ≢ l = NotIn-last_or y p xs off.0 off.1 in
      let back : Walk g y ys q =
        Walk-take f l q y ys (NotIn-right y (p ∷ xs) ys n) (Walk-right f p q xs ys w) in
      let front : Walk g p xs (first_or ys q) =
        Walk-frame f p (first_or ys q) xs y (f l) (λ e. off.0 (sym e)) off.1
          (Walk-left f p q xs ys w) in
      Walk-append (update g l y) p q xs (y ∷ ys)
        (Walk-relink g p (first_or ys q) xs y (Distinct-left (p ∷ xs) ys d) front)
        (update_self g l y, Walk-frame g y q ys l y apart (last_or-NotIn p xs ys d) back)

  -- `y` between `xs` and `ys` left out: the last of `xs` is given the link of `y`.
  pub Walk-remove :
      (p q y : Ptr) (xs ys : List Ptr)
      → Distinct (p ∷ (xs ++ (y ∷ ys)))
      → Walk f p (xs ++ (y ∷ ys)) q
      → Walk (update f (last_or p xs) (f y)) p (xs ++ ys) q
  Walk-remove p q y xs ys d w =
      let l = last_or p xs in
      let back : Walk f y ys q = (Walk-right f p q xs (y ∷ ys) w).1 in
      let first : f y ≡ first_or ys q = Walk-first f y q ys back in
      let front : Walk (update f l (f y)) p xs (f y) =
        Walk-relink f p y xs (f y) (Distinct-left (p ∷ xs) (y ∷ ys) d)
          (Walk-left f p q xs (y ∷ ys) w) in
      Walk-append (update f l (f y)) p q xs ys
        (subst (λ z. Walk (update f l (f y)) p xs z) first front)
        (Walk-take f y q l ys (last_or-NotIn p xs (y ∷ ys) d).1 back)

-- The chain from a first node, which may be the end itself.
abbrev pub Chain : Field → Ptr → List Ptr → Ptr → Type 0
Chain f p [] q = p ≡ q
Chain f p (x ∷ xs) q = (p ≡ x) × Walk f x xs q

module _ (f : Field) where
  pub Chain-frame :
      (p q : Ptr) (xs : List Ptr) (a v : Ptr)
      → NotIn a xs
      → Chain f p xs q
      → Chain (update f a v) p xs q
  Chain-frame p q [] a v n w = w
  Chain-frame p q (x ∷ xs) a v n w = (w.0, Walk-frame f x q xs a v (λ e. n.0 (sym e)) n.1 w.1)

  pub Chain-of_Walk : (p q : Ptr) (xs : List Ptr) → Walk f p xs q → Chain f (f p) xs q
  Chain-of_Walk p q [] w = w
  Chain-of_Walk p q (x ∷ xs) w = w

  -- A node off the chain, linked to its first node.
  pub Walk-push :
      (p q a : Ptr) (xs : List Ptr) → NotIn a xs → Chain f p xs q → Walk (update f a p) a xs q
  Walk-push p q a [] n w = update_self f a p ∙ w
  Walk-push p q a (x ∷ xs) n w =
      (update_self f a p ∙ w.0, Walk-frame f x q xs a p (λ e. n.0 (sym e)) n.1 w.1)
