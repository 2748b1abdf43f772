-- ===== src/Memory/Distinct.antt =====
-- Lists of addresses without repetition.
use mathlib.Core.List.{reverse_aux}
use libgimbal.Common.{ℕ, ◌≡◌, refl, ◌≢◌, sym, List, [], ◌∷◌, ◌++◌}

abbrev pub NotIn : ℕ → List ℕ → Type 0
NotIn a [] = Unit
NotIn a (x ∷ xs) = (a ≢ x) × NotIn a xs

abbrev pub Distinct : List ℕ → Type 0
Distinct [] = Unit
Distinct (x ∷ xs) = NotIn x xs × Distinct xs

-- The last of `xs`, or `p` where there is none.
abbrev pub last_or : ℕ → List ℕ → ℕ
last_or p [] = p
last_or p (x ∷ xs) = last_or x xs

module _ (a : ℕ) where
  pub NotIn-left : (xs ys : List ℕ) → NotIn a (xs ++ ys) → NotIn a xs
  NotIn-left [] ys h = tt
  NotIn-left (x ∷ xs) ys h = (h.0, NotIn-left xs ys h.1)

  pub NotIn-right : (xs ys : List ℕ) → NotIn a (xs ++ ys) → NotIn a ys
  NotIn-right [] ys h = h
  NotIn-right (x ∷ xs) ys h = NotIn-right xs ys h.1

  pub NotIn-append : (xs ys : List ℕ) → NotIn a xs → NotIn a ys → NotIn a (xs ++ ys)
  NotIn-append [] ys h k = k
  NotIn-append (x ∷ xs) ys h k = (h.0, NotIn-append xs ys h.1 k)

  pub NotIn-last_or : (p : ℕ) (xs : List ℕ) → a ≢ p → NotIn a xs → a ≢ last_or p xs
  NotIn-last_or p [] n h = n
  NotIn-last_or p (x ∷ xs) n h = NotIn-last_or x xs h.0 h.1

pub Distinct-left : (xs ys : List ℕ) → Distinct (xs ++ ys) → Distinct xs
Distinct-left [] ys h = tt
Distinct-left (x ∷ xs) ys h = (NotIn-left x xs ys h.0, Distinct-left xs ys h.1)

pub Distinct-right : (xs ys : List ℕ) → Distinct (xs ++ ys) → Distinct ys
Distinct-right [] ys h = h
Distinct-right (x ∷ xs) ys h = Distinct-right xs ys h.1

-- The last node before `ys` is none of `ys`.
pub last_or-NotIn : (p : ℕ) (xs ys : List ℕ) → Distinct (p ∷ (xs ++ ys)) → NotIn (last_or p xs) ys
last_or-NotIn p [] ys h = h.0
last_or-NotIn p (x ∷ xs) ys h = last_or-NotIn x xs ys h.1

pub last_or-append : (p : ℕ) (xs ys : List ℕ) → last_or p (xs ++ ys) ≡ last_or (last_or p xs) ys
last_or-append p [] ys = refl
last_or-append p (x ∷ xs) ys = last_or-append x xs ys

-- Leaving out or adding one in the middle.
pub Distinct-drop :
    (xs : List ℕ) (y : ℕ) (ys : List ℕ) → Distinct (xs ++ (y ∷ ys)) → Distinct (xs ++ ys)
Distinct-drop [] y ys h = h.1
Distinct-drop (x ∷ xs) y ys h = (
  NotIn-append x xs ys (NotIn-left x xs (y ∷ ys) h.0) (NotIn-right x xs (y ∷ ys) h.0).1,
  Distinct-drop xs y ys h.1,
)

pub Distinct-insert :
    (xs : List ℕ) (y : ℕ) (ys : List ℕ)
    → NotIn y (xs ++ ys)
    → Distinct (xs ++ ys)
    → Distinct (xs ++ (y ∷ ys))
Distinct-insert [] y ys n h = (n, h)
Distinct-insert (x ∷ xs) y ys n h = (
  NotIn-append x xs (y ∷ ys) (NotIn-left x xs ys h.0) ((λ e. n.0 (sym e)), NotIn-right x xs ys h.0),
  Distinct-insert xs y ys n.1 h.1,
)

pub Distinct-reverse_aux : (xs ys : List ℕ) → Distinct (xs ++ ys) → Distinct (reverse_aux xs ys)
Distinct-reverse_aux [] ys d = d
Distinct-reverse_aux (x ∷ xs) ys d =
    Distinct-reverse_aux xs (x ∷ ys) (Distinct-insert xs x ys d.0 d.1)

pub NotIn-reverse_aux :
    (a : ℕ) (xs ys : List ℕ) → NotIn a xs → NotIn a ys → NotIn a (reverse_aux xs ys)
NotIn-reverse_aux a [] ys n m = m
NotIn-reverse_aux a (x ∷ xs) ys n m = NotIn-reverse_aux a xs (x ∷ ys) n.1 (n.0, m)

pub last_or-reverse_aux :
    (q p : ℕ) (xs ys : List ℕ) → last_or q (reverse_aux xs (p ∷ ys)) ≡ last_or p ys
last_or-reverse_aux q p [] ys = refl
last_or-reverse_aux q p (x ∷ xs) ys = last_or-reverse_aux q x xs (p ∷ ys)

pub NotIn-before : (node : ℕ) (xs ys : List ℕ) → Distinct (xs ++ (node ∷ ys)) → NotIn node xs
NotIn-before node [] ys d = tt
NotIn-before node (x ∷ xs) ys d =
    ((λ e. (NotIn-right x xs (node ∷ ys) d.0).0 (sym e)), NotIn-before node xs ys d.1)

pub NotIn-middle :
    (node : ℕ) (xs ys : List ℕ) → Distinct (xs ++ (node ∷ ys)) → NotIn node (xs ++ ys)
NotIn-middle node [] ys d = d.0
NotIn-middle node (x ∷ xs) ys d =
    ((λ e. (NotIn-right x xs (node ∷ ys) d.0).0 (sym e)), NotIn-middle node xs ys d.1)

pub NotIn-drop :
    (a : ℕ) (xs : List ℕ) (y : ℕ) (ys : List ℕ) → NotIn a (xs ++ (y ∷ ys)) → NotIn a (xs ++ ys)
NotIn-drop a [] y ys n = n.1
NotIn-drop a (x ∷ xs) y ys n = (n.0, NotIn-drop a xs y ys n.1)
