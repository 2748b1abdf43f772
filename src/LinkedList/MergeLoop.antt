-- ===== src/LinkedList/MergeLoop.antt =====
-- The loop of GblLinkedList_joinSorted.
use mathlib.Core.Path.{subst}
use libgimbal.Common.{
  ℕ, zero, suc, ◌+◌, ◌<◌, ◌≡◌, ◌≢◌, refl, ap, sym, ◌∙◌, Bool, true, false, List, [], ◌∷◌, ◌++◌,
  arith, length, Bool-cases, inl, inr, append_assoc, append-nil, length-append,
}
use libgimbal.Memory.{Ptr, null, Field, update, ok}
use libgimbal.Memory.Distinct.{NotIn, Distinct, last_or, NotIn-append, last_or-append}
use libgimbal.Memory.Chain.{Walk-relink, Walk-frame}
use libgimbal.Memory.Apart.{Apart, Apart-swap, Distinct-append}
use libgimbal.LinkedList.{join_back, empty}
use libgimbal.LinkedList.Inv.{IsList}
use libgimbal.LinkedList.Join.{join_back-append}
use libgimbal.LinkedList.Sort.{join_sorted_from}
use libgimbal.LinkedList.Merge.{
  merge, merge-nil, merge-first, merge-second, IsMerging, swapped, Apart-last_or, stepped,
  stepped_self, stepped_list, step_IsMerging,
}

Apart-tail : (ps : List ℕ) (b : ℕ) (bs : List ℕ) → Apart ps (b ∷ bs) → Apart ps bs
Apart-tail [] b bs h = tt
Apart-tail (a ∷ ps) b bs h = (h.0.1, Apart-tail ps b bs h.1)

-- The elements of the list that is left go behind those that are done.
finish :
    (h : Field) (other dst : Ptr) (k : ℕ) (done zs : List Ptr)
    → IsList h dst done
    → IsList h other zs
    → Apart (dst ∷ done) (other ∷ zs)
    → NotIn null zs
    → length done + length zs < k
    → (h' : Field) × (join_back k dst other h ≡ ok h') × IsList h' dst (done ++ zs)
unfolding join_back empty
finish h other dst k done [] is rest a n f =
    (h, ground (arith, rest.0), subst (λ l. IsList h dst l) (sym (append-nil done)) is)
finish h other dst k done (d ∷ ds) is rest a n f =
    let other_off : NotIn other (dst ∷ done) = (Apart-swap (dst ∷ done) (other ∷ d ∷ ds) a).0 in
    let all : Distinct ((dst ∷ done) ++ (d ∷ ds)) =
      Distinct-append (dst ∷ done) (d ∷ ds) is.1 rest.1.1
        (Apart-tail (dst ∷ done) other (d ∷ ds) a) in
    let (h', run, joined, emptied) =
      join_back-append h dst other d k done ds is rest
        (NotIn-append other (dst ∷ done) (d ∷ ds) other_off rest.1.0, all) (λ e. n.0 (sym e))
        (omega arith) in
    (h', run, joined)

module _ (before : Ptr → Ptr → Bool) where
  -- What the loop returns when it has moved `done`, and `xs` and `ys` are left.
  abbrev pub Merges :
      (fuel k : ℕ) (self list dst link src1 src2 : Ptr) (h : Field) (xs ys done : List Ptr) → Type 0
  Merges fuel k self list dst link src1 src2 h xs ys done =
      (h' : Field) × (join_sorted_from before fuel k self list dst link src1 src2 h ≡ ok h')
      × IsList h' dst (done ++ merge before xs ys)

  left_ended :
      (fuel k : ℕ) (self list dst : Ptr) (h : Field) (ys done : List Ptr)
      → IsMerging h self list dst [] ys done
      → NotIn null ys
      → length done + length ys < fuel
      → Merges fuel (suc k) self list dst (last_or dst done) (h self) (h list) h [] ys done
  unfolding join_sorted_from merge
  left_ended fuel k self list dst h ys done i n f =
      let l = last_or dst done in
      let ended = update h l dst in
      let link_off : NotIn l (list ∷ ys) = Apart-last_or dst done (list ∷ ys) i.from_right in
      let self_off : NotIn self (list ∷ ys) = (Apart-swap (list ∷ ys) (self ∷ []) i.lists).0 in
      let self_done : NotIn self (dst ∷ done) =
        (Apart-swap (dst ∷ done) (self ∷ []) i.from_left).0 in
      let all : IsList (update ended self self) dst done = (
        Walk-frame ended dst dst done self self (λ e. self_done.0 (sym e)) self_done.1
            (Walk-relink h dst (h l) done dst i.distinct_done i.merged),
        i.distinct_done,
      ) in
      let rest : IsList (update ended self self) list ys = (
        Walk-frame ended list list ys self self (λ e. self_off.0 (sym e)) self_off.1
            (Walk-frame h list list ys l dst (λ e. link_off.0 (sym e)) link_off.1 i.right),
        i.distinct_right,
      ) in
      let (h', run, joined) =
        finish (update ended self self) list dst fuel done ys all rest i.from_right n f in
      (h', ground (arith, i.left, run), joined)

  right_ended :
      (fuel k : ℕ) (self list dst x : Ptr) (h : Field) (xs done : List Ptr)
      → IsMerging h self list dst (x ∷ xs) [] done
      → NotIn null (x ∷ xs)
      → length done + length (x ∷ xs) < fuel
      → Merges fuel (suc k) self list dst (last_or dst done) (h self) (h list) h (x ∷ xs) [] done
  unfolding join_sorted_from
  right_ended fuel k self list dst x h xs done i n f =
      let l = last_or dst done in
      let ended = update h l dst in
      let link_off : NotIn l (self ∷ x ∷ xs) = Apart-last_or dst done (self ∷ x ∷ xs) i.from_left in
      let all : IsList ended dst done =
        (Walk-relink h dst (h l) done dst i.distinct_done i.merged, i.distinct_done) in
      let rest : IsList ended self (x ∷ xs) = (
        Walk-frame h self self (x ∷ xs) l dst (λ e. link_off.0 (sym e)) link_off.1 i.left,
        i.distinct_left,
      ) in
      let (h', run, joined) = finish ended self dst fuel done (x ∷ xs) all rest i.from_left n f in
      (
        h',
        ground (arith, i.left.0, i.right, i.distinct_left.0.0, run),
        subst (λ m. IsList h' dst (done ++ m)) (sym (merge-nil before (x ∷ xs))) joined,
      )

  first_turn :
      (fuel k : ℕ) (self list dst link x y : Ptr) (h : Field)
      → x ≢ self
      → y ≢ list
      → before x y ≡ true
      → join_sorted_from before fuel (suc k) self list dst link x y h ≡ (
          let h1 = update (update h self (h x)) link x in
          join_sorted_from before fuel k self list dst x (h1 x) y h1)
  unfolding join_sorted_from
  first_turn fuel k self list dst link x y h a b e = ground (arith, e)

  second_turn :
      (fuel k : ℕ) (self list dst link x y : Ptr) (h : Field)
      → x ≢ self
      → y ≢ list
      → before x y ≡ false
      → join_sorted_from before fuel (suc k) self list dst link x y h ≡ (
          let h2 = update (update h list (h y)) link y in
          join_sorted_from before fuel k self list dst y x (h2 y) h2)
  unfolding join_sorted_from
  second_turn fuel k self list dst link x y h a b e = ground (arith, e)

  last_or-snoc : (p : Ptr) (xs : List Ptr) (x : Ptr) → last_or p (xs ++ x ∷ []) ≡ x
  last_or-snoc p xs x = last_or-append p xs (x ∷ [])

  -- The calls at equal arguments.
  call_equal :
      (fuel k : ℕ) (self list dst : Ptr) (h : Field) (l m s t u v : Ptr)
      → l ≡ m
      → s ≡ t
      → u ≡ v
      → join_sorted_from before fuel k self list dst l s u h
        ≡ join_sorted_from before fuel k self list dst m t v h
  call_equal fuel k self list dst h l m s t u v a b c = cc

  pub merge_loop :
      (fuel k : ℕ) (self list dst : Ptr) (h : Field) (xs ys done : List Ptr)
      → IsMerging h self list dst xs ys done
      → NotIn null xs
      → NotIn null ys
      → length xs + length ys < k
      → length done + (length xs + length ys) < fuel
      → Merges fuel k self list dst (last_or dst done) (h self) (h list) h xs ys done
  merge_loop fuel zero self list dst h xs ys done i n m l f = absurd (omega arith)
  merge_loop fuel (suc k) self list dst h [] ys done i n m l f =
      left_ended fuel k self list dst h ys done i m (omega arith)
  merge_loop fuel (suc k) self list dst h (x ∷ xs) [] done i n m l f =
      right_ended fuel k self list dst x h xs done i n (omega arith)
  merge_loop fuel (suc k) self list dst h (x ∷ xs) (y ∷ ys) done i n m l f =
      elim (Bool-cases (before x y)) [
        | inl e ↦
            let g = stepped h self list dst x xs (y ∷ ys) done i in
            let (h', run, is) =
              merge_loop fuel k self list dst g xs (y ∷ ys) (done ++ x ∷ [])
                (step_IsMerging h self list dst x xs (y ∷ ys) done i) n.1 m (omega arith)
                (omega (arith, length-append done (x ∷ []))) in
            (
              h',
              call_equal fuel (suc k) self list dst h (last_or dst done) (last_or dst done) (h self)
                    x (h list) y refl i.left.0 i.right.0
                  ∙ first_turn fuel k self list dst (last_or dst done) x y h
                      (λ q. i.distinct_left.0.0 (sym q)) (λ q. i.distinct_right.0.0 (sym q)) e
                  ∙ sym (
                      call_equal fuel k self list dst g (last_or dst (done ++ x ∷ [])) x (g self)
                        (g x) (g list) y (last_or-snoc dst done x)
                        (stepped_self h self list dst x xs (y ∷ ys) done i)
                        (stepped_list h self list dst x xs (y ∷ ys) done i ∙ i.right.0))
                  ∙ run,
              subst (λ zs. IsList h' dst zs)
                  (append_assoc done (x ∷ []) (merge before xs (y ∷ ys))
                    ∙ ap (λ (zs : List Ptr). done ++ zs) (sym (merge-first before x xs y ys e)))
                  is,
            )
        | inr e ↦
            let j = swapped h self list dst (x ∷ xs) (y ∷ ys) done i in
            let g = stepped h list self dst y ys (x ∷ xs) done j in
            let (h', run, is) =
              merge_loop fuel k self list dst g (x ∷ xs) ys (done ++ y ∷ [])
                (swapped g list self dst ys (x ∷ xs) (done ++ y ∷ [])
                  (step_IsMerging h list self dst y ys (x ∷ xs) done j))
                n m.1 (omega arith) (omega (arith, length-append done (y ∷ []))) in
            (
              h',
              call_equal fuel (suc k) self list dst h (last_or dst done) (last_or dst done) (h self)
                    x (h list) y refl i.left.0 i.right.0
                  ∙ second_turn fuel k self list dst (last_or dst done) x y h
                      (λ q. i.distinct_left.0.0 (sym q)) (λ q. i.distinct_right.0.0 (sym q)) e
                  ∙ sym (
                      call_equal fuel k self list dst g (last_or dst (done ++ y ∷ [])) y (g self) x
                        (g list) (g y) (last_or-snoc dst done y)
                        (stepped_list h list self dst y ys (x ∷ xs) done j ∙ i.left.0)
                        (stepped_self h list self dst y ys (x ∷ xs) done j))
                  ∙ run,
              subst (λ zs. IsList h' dst zs)
                  (append_assoc done (y ∷ []) (merge before (x ∷ xs) ys)
                    ∙ ap (λ (zs : List Ptr). done ++ zs) (sym (merge-second before x xs y ys e)))
                  is,
            )
      ]
