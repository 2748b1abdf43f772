-- ===== src/LinkedList/Merge.antt =====
-- The merge of two lists, and one turn of the loop of GblLinkedList_joinSorted.
use mathlib.Core.Path.{subst}
use libgimbal.Common.{
  ℕ, ◌≡◌, refl, ap, sym, ◌∙◌, Bool, true, false, List, [], ◌∷◌, ◌++◌, if◌then◌else◌,
}
use libgimbal.Memory.{Ptr, Field, update}
use libgimbal.Memory.Distinct.{NotIn, Distinct, last_or, last_or-append}
use libgimbal.Memory.Chain.{
  Walk, Walk-append, Walk-relink, Walk-frame, Walk-take, update_self, update-ne,
}
use libgimbal.Memory.Apart.{Apart, Apart-snoc, Apart-swap, Distinct-snoc}

module _ (before : Ptr → Ptr → Bool) where
  -- `x` and `others`, the merge of those behind it, with a second list.
  merge_into : Ptr → (List Ptr → List Ptr) → List Ptr → List Ptr
  merge_into x others [] = x ∷ others []
  merge_into x others (y ∷ ys) =
      let later = merge_into x others ys in if before x y then x ∷ others (y ∷ ys) else y ∷ later

  -- Two lists merged: of the first elements, the second's goes first unless the other is before it.
  unfoldable pub merge : List Ptr → List Ptr → List Ptr
  unfolding merge_into
  merge [] ys = ys
  merge (x ∷ xs) ys = merge_into x (merge xs) ys

  pub merge-nil : (xs : List Ptr) → merge xs [] ≡ xs
  unfolding merge merge_into
  merge-nil [] = refl
  merge-nil (x ∷ xs) = ap (λ (l : List Ptr). x ∷ l) (merge-nil xs)

  pub merge-first :
      (x : Ptr) (xs : List Ptr) (y : Ptr) (ys : List Ptr)
      → before x y ≡ true
      → merge (x ∷ xs) (y ∷ ys) ≡ x ∷ merge xs (y ∷ ys)
  unfolding merge merge_into
  merge-first x xs y ys e = rw e refl

  pub merge-second :
      (x : Ptr) (xs : List Ptr) (y : Ptr) (ys : List Ptr)
      → before x y ≡ false
      → merge (x ∷ xs) (y ∷ ys) ≡ y ∷ merge (x ∷ xs) ys
  unfolding merge merge_into
  merge-second x xs y ys e = rw e refl

-- A list of which elements are moved to the end of `done`, the list of `dst`: `self` heads those that
-- stay, and another list is not touched.
pub record IsMerging (h : Field) (self list dst : Ptr) (xs ys done : List Ptr) : Type 0 where
  pub left : Walk h self xs self
  pub right : Walk h list ys list
  pub merged : Walk h dst done (h (last_or dst done))
  pub distinct_left : Distinct (self ∷ xs)
  pub distinct_right : Distinct (list ∷ ys)
  pub distinct_done : Distinct (dst ∷ done)
  pub lists : Apart (list ∷ ys) (self ∷ xs)
  pub from_left : Apart (dst ∷ done) (self ∷ xs)
  pub from_right : Apart (dst ∷ done) (list ∷ ys)

pub swapped :
    (h : Field) (self list dst : Ptr) (xs ys done : List Ptr)
    → IsMerging h self list dst xs ys done
    → IsMerging h list self dst ys xs done
swapped h self list dst xs ys done i = record {
  left = i.right;
  right = i.left;
  merged = i.merged;
  distinct_left = i.distinct_right;
  distinct_right = i.distinct_left;
  distinct_done = i.distinct_done;
  lists = Apart-swap (list ∷ ys) (self ∷ xs) i.lists;
  from_left = i.from_right;
  from_right = i.from_left;
}

Apart-drop : (ps : List ℕ) (b c : ℕ) (cs : List ℕ) → Apart ps (b ∷ c ∷ cs) → Apart ps (b ∷ cs)
Apart-drop [] b c cs h = tt
Apart-drop (a ∷ ps) b c cs h = ((h.0.0, h.0.1.1), Apart-drop ps b c cs h.1)

pub Apart-last_or : (p : Ptr) (ps bs : List Ptr) → Apart (p ∷ ps) bs → NotIn (last_or p ps) bs
Apart-last_or p [] bs h = h.0
Apart-last_or p (a ∷ ps) bs h = Apart-last_or a ps bs h.1

-- One element goes from the front of the list to the end of those that are done.
module _ (h : Field) (self list dst x : Ptr) (xs ys done : List Ptr)
    (i : IsMerging h self list dst (x ∷ xs) ys done) where
  abbrev pub stepped : Field
  stepped = update (update h self (h x)) (last_or dst done) x

  link_off : NotIn (last_or dst done) (self ∷ x ∷ xs)
  link_off = Apart-last_or dst done (self ∷ x ∷ xs) i.from_left

  link_off_right : NotIn (last_or dst done) (list ∷ ys)
  link_off_right = Apart-last_or dst done (list ∷ ys) i.from_right

  stepped_x : stepped x ≡ h x
  stepped_x =
      update-ne (update h self (h x)) (last_or dst done) x x (λ e. link_off.1.0 (sym e))
      ∙ update-ne h self (h x) x (λ e. i.distinct_left.0.0 (sym e))

  left_kept : Walk stepped self xs self
  left_kept =
      Walk-frame (update h self (h x)) self self xs (last_or dst done) x (λ e. link_off.0 (sym e))
        link_off.1.1 (Walk-take h x self self xs i.distinct_left.0.1 i.left.1)

  right_kept : Walk stepped list ys list
  right_kept =
      let self_off : NotIn self (list ∷ ys) = (Apart-swap (list ∷ ys) (self ∷ x ∷ xs) i.lists).0 in
      Walk-frame (update h self (h x)) list list ys (last_or dst done) x
        (λ e. link_off_right.0 (sym e)) link_off_right.1
        (Walk-frame h list list ys self (h x) (λ e. self_off.0 (sym e)) self_off.1 i.right)

  done_kept : Walk stepped dst (done ++ x ∷ []) (stepped x)
  done_kept =
      let self_off : NotIn self (dst ∷ done) =
        (Apart-swap (dst ∷ done) (self ∷ x ∷ xs) i.from_left).0 in
      Walk-append stepped dst (stepped x) done (x ∷ [])
        (Walk-relink (update h self (h x)) dst (h (last_or dst done)) done x i.distinct_done (
          Walk-frame h dst (h (last_or dst done)) done self (h x) (λ e. self_off.0 (sym e))
            self_off.1 i.merged))
        (update_self (update h self (h x)) (last_or dst done) x, refl)

  pub stepped_self : stepped self ≡ stepped x
  stepped_self =
      update-ne (update h self (h x)) (last_or dst done) x self (λ e. link_off.0 (sym e))
      ∙ update_self h self (h x)
      ∙ sym stepped_x

  pub stepped_list : stepped list ≡ h list
  stepped_list =
      update-ne (update h self (h x)) (last_or dst done) x list (λ e. link_off_right.0 (sym e))
      ∙ update-ne h self (h x) list i.lists.0.0

  pub step_IsMerging : IsMerging stepped self list dst xs ys (done ++ x ∷ [])
  step_IsMerging =
      let x_off : NotIn x (dst ∷ done) =
        (Apart-swap (dst ∷ done) (self ∷ x ∷ xs) i.from_left).1.0 in
      let x_off_right : NotIn x (list ∷ ys) =
        (Apart-swap (list ∷ ys) (self ∷ x ∷ xs) i.lists).1.0 in
      record {
        left = left_kept;
        right = right_kept;
        merged =
            subst (λ l. Walk stepped dst (done ++ x ∷ []) (stepped l))
              (sym (last_or-append dst done (x ∷ []))) done_kept;
        distinct_left = (i.distinct_left.0.1, i.distinct_left.1.1);
        distinct_right = i.distinct_right;
        distinct_done = Distinct-snoc (dst ∷ done) x i.distinct_done x_off;
        lists = Apart-drop (list ∷ ys) self x xs i.lists;
        from_left = Apart-swap (self ∷ xs) (dst ∷ (done ++ x ∷ [])) (
            Apart-snoc (self ∷ xs) (dst ∷ done) x
              (Apart-swap (dst ∷ done) (self ∷ xs) (Apart-drop (dst ∷ done) self x xs i.from_left))
              ((λ e. i.distinct_left.0.0 (sym e)), i.distinct_left.1.0));
        from_right = Apart-swap (list ∷ ys) (dst ∷ (done ++ x ∷ [])) (
            Apart-snoc (list ∷ ys) (dst ∷ done) x (Apart-swap (dst ∷ done) (list ∷ ys) i.from_right)
              x_off_right);
      }
