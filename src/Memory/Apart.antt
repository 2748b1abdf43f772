-- ===== src/Memory/Apart.antt =====
-- Lists of addresses that share none.
use libgimbal.Common.{ℕ, sym, List, [], ◌∷◌, ◌++◌}
use libgimbal.Memory.Distinct.{NotIn, Distinct, NotIn-append}

abbrev pub Apart : (xs ys : List ℕ) → Type 0
Apart [] ys = Unit
Apart (x ∷ xs) ys = NotIn x ys × Apart xs ys

pub Apart-snoc : (xs ys : List ℕ) (c : ℕ) → Apart xs ys → NotIn c xs → Apart xs (ys ++ c ∷ [])
Apart-snoc [] ys c h n = tt
Apart-snoc (x ∷ xs) ys c h n =
    (NotIn-append x ys (c ∷ []) h.0 ((λ e. n.0 (sym e)), tt), Apart-snoc xs ys c h.1 n.1)

-- A node is no member of a list that is apart from one that it begins.
pub Distinct-append :
    (xs ys : List ℕ) → Distinct xs → Distinct ys → Apart xs ys → Distinct (xs ++ ys)
Distinct-append [] ys d e a = e
Distinct-append (x ∷ xs) ys d e a = (NotIn-append x xs ys d.0 a.0, Distinct-append xs ys d.1 e a.1)

pub Distinct-snoc : (xs : List ℕ) (c : ℕ) → Distinct xs → NotIn c xs → Distinct (xs ++ c ∷ [])
Distinct-snoc [] c d n = (tt, tt)
Distinct-snoc (x ∷ xs) c d n =
    (NotIn-append x xs (c ∷ []) d.0 ((λ e. n.0 (sym e)), tt), Distinct-snoc xs c d.1 n.1)

pub Apart-NotIn : (a x : ℕ) (xs ys : List ℕ) → Apart (x ∷ xs) (a ∷ ys) → NotIn a (x ∷ xs)
Apart-NotIn a x [] ys h = ((λ e. h.0.0 (sym e)), tt)
Apart-NotIn a x (y ∷ xs) ys h = ((λ e. h.0.0 (sym e)), Apart-NotIn a y xs ys h.1)

-- Sharing none goes both ways.
NotIn-Apart-cons :
    (xs : List ℕ) (y : ℕ) (ys : List ℕ) → NotIn y xs → Apart xs ys → Apart xs (y ∷ ys)
NotIn-Apart-cons [] y ys n h = tt
NotIn-Apart-cons (x ∷ xs) y ys n h = (((λ e. n.0 (sym e)), h.0), NotIn-Apart-cons xs y ys n.1 h.1)

Apart-nil : (xs : List ℕ) → Apart xs []
Apart-nil [] = tt
Apart-nil (x ∷ xs) = (tt, Apart-nil xs)

pub Apart-swap : (xs ys : List ℕ) → Apart xs ys → Apart ys xs
Apart-swap [] ys h = Apart-nil ys
Apart-swap (x ∷ xs) ys h = NotIn-Apart-cons ys x xs h.0 (Apart-swap xs ys h.1)
