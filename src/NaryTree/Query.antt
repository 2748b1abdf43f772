-- ===== src/NaryTree/Query.antt =====
-- The queries on a node's children and on its ancestors.
use libgimbal.Common.{
  ℕ, zero, suc, ◌+◌, ◌-◌, ◌^◌, ◌<◌, ◌≤◌, ◌≡◌, ◌≢◌, ap, sym, ◌∙◌, List, [], ◌∷◌, ◌++◌, arith, length,
  length-append, ◌==◌, if◌then◌else◌,
}
use libgimbal.Memory.{Ptr, null, ok}
use libgimbal.Memory.Distinct.{NotIn-before, NotIn, last_or}
use libgimbal.Memory.Chain.{Chain, Walk, Chain-of_Walk}
use libgimbal.LinkedList.Query.{index_from}
use libgimbal.NaryTree.{
  Tree, child_count_from, child_count, child_at_from, child_at, child_index_from, child_index,
  child_last_from, child_last, child_before_from, child_before, depth_from, depth, root,
  ancestor_from, ancestor, base, sub_size, ancestor_height_from, ancestor_height,
}
use libgimbal.NaryTree.Inv.{Children}

-- The element at an index, NULL past the end.
abbrev pub get_or_null : List Ptr → ℕ → Ptr
get_or_null [] i = null
get_or_null (x ∷ xs) i = if i == 0 then x else get_or_null xs (i - 1)

module _ (t : Tree) where
  child_count_from_lem :
      (k n : ℕ) (it : Ptr) (xs : List Ptr)
      → Chain t.next it xs null
      → NotIn null xs
      → length xs < k
      → child_count_from k n it t ≡ ok (n + length xs)
  unfolding child_count_from
  child_count_from_lem zero n it xs w r f = absurd (omega arith)
  child_count_from_lem (suc k) n it [] w r f = ground arith
  child_count_from_lem (suc k) n it (x ∷ xs) w r f = ground (
    arith,
    child_count_from_lem k (n + 1) (t.next x) xs (Chain-of_Walk t.next x null xs w.1) r.1
        (omega arith),
  )

  child_at_from_lem :
      (k index : ℕ) (it : Ptr) (xs : List Ptr)
      → Chain t.next it xs null
      → NotIn null xs
      → length xs < k
      → child_at_from k index it t ≡ ok (get_or_null xs index)
  unfolding child_at_from
  child_at_from_lem zero index it xs w r f = absurd (omega arith)
  child_at_from_lem (suc k) index it [] w r f = ground arith
  child_at_from_lem (suc k) index it (x ∷ xs) w r f = ground (
    arith,
    child_at_from_lem k (index - 1) (t.next x) xs (Chain-of_Walk t.next x null xs w.1) r.1
        (omega arith),
  )

  child_index_from_lem :
      (child : Ptr) (k i : ℕ) (it : Ptr) (xs : List Ptr)
      → Chain t.next it xs null
      → NotIn null xs
      → length xs < k
      → child_index_from k child i it t ≡ ok (index_from i child xs)
  unfolding child_index_from
  child_index_from_lem child zero i it xs w r f = absurd (omega arith)
  child_index_from_lem child (suc k) i it [] w r f = ground arith
  child_index_from_lem child (suc k) i it (x ∷ xs) w r f = ground (
    arith,
    child_index_from_lem child k (i + 1) (t.next x) xs (Chain-of_Walk t.next x null xs w.1) r.1
        (omega arith),
  )

  child_last_from_lem :
      (k : ℕ) (it x : Ptr) (xs : List Ptr)
      → it ≡ x
      → Walk t.next x xs null
      → NotIn null (x ∷ xs)
      → suc (length xs) < k
      → child_last_from k it t ≡ ok (last_or x xs)
  unfolding child_last_from
  child_last_from_lem zero it x xs e w r f = absurd (omega arith)
  child_last_from_lem (suc k) it x [] e w r f = ground arith
  child_last_from_lem (suc k) it x (y ∷ xs) e w r f =
      ground
        (arith, child_last_from_lem k (t.next it) y xs (ap t.next e ∙ w.0) w.1 r.1 (omega arith))

  child_before_from_absent :
      (child : Ptr) (k : ℕ) (it x : Ptr) (xs : List Ptr)
      → it ≡ x
      → Walk t.next x xs null
      → NotIn null (x ∷ xs)
      → NotIn child xs
      → child ≢ null
      → length xs + 1 < k
      → child_before_from k child it t ≡ ok null
  unfolding child_before_from
  child_before_from_absent child zero it x xs e w r n c f = absurd (omega arith)
  child_before_from_absent child (suc zero) it x xs e w r n c f = absurd (omega arith)
  child_before_from_absent child (suc (suc k)) it x [] e w r n c f = ground arith
  child_before_from_absent child (suc (suc k)) it x (y ∷ xs) e w r n c f = ground (
    arith,
    child_before_from_absent child (suc k) (t.next it) y xs (ap t.next e ∙ w.0) w.1 r.1 n.1 c
        (omega arith),
  )

  child_before_from_found :
      (child : Ptr) (k : ℕ) (it x : Ptr) (xs ys : List Ptr)
      → it ≡ x
      → Walk t.next x (xs ++ (child ∷ ys)) null
      → NotIn null (x ∷ (xs ++ (child ∷ ys)))
      → NotIn child xs
      → length xs + 1 < k
      → child_before_from k child it t ≡ ok (last_or x xs)
  unfolding child_before_from
  child_before_from_found child zero it x xs ys e w r n f = absurd (omega arith)
  child_before_from_found child (suc k) it x [] ys e w r n f = ground arith
  child_before_from_found child (suc k) it x (y ∷ xs) ys e w r n f = ground (
    arith,
    child_before_from_found child k (t.next it) y xs ys (ap t.next e ∙ w.0) w.1 r.1 n.1
        (omega arith),
  )

  pub child_last_lem :
      (self : Ptr) (k : ℕ) (xs : List Ptr)
      → Children t self xs
      → length xs < k
      → child_last k self t ≡ ok (last_or null xs)
  unfolding child_last child_last_from
  child_last_lem self zero xs c f = absurd (omega arith)
  child_last_lem self (suc k) [] c f = ground (arith, c.chain)
  child_last_lem self (suc k) (x ∷ xs) c f =
      child_last_from_lem (suc k) (t.child self) x xs c.chain.0 c.chain.1 c.real f

  pub child_before_lem :
      (self child : Ptr) (k : ℕ) (xs ys : List Ptr)
      → Children t self (xs ++ (child ∷ ys))
      → length (xs ++ (child ∷ ys)) < k
      → child_before k self child t ≡ ok (last_or null xs)
  unfolding child_before
  child_before_lem self child k [] ys c f =
      child_before_from_absent child k (t.child self) child ys c.chain.0 c.chain.1 c.real c.apart.0
        (λ e. c.real.0 (sym e)) (omega arith)
  child_before_lem self child k (x ∷ xs) ys c f =
      child_before_from_found child k (t.child self) x xs ys c.chain.0 c.chain.1 c.real
        (NotIn-before child xs ys c.apart.1) (omega (arith, length-append xs (child ∷ ys)))

  -- `GblNaryTree_childCount` with enough fuel returns the number of children.
  pub child_count-length :
      (self : Ptr) (k : ℕ) (xs : List Ptr)
      → Children t self xs
      → length xs < k
      → child_count k self t ≡ ok (length xs)
  unfolding child_count
  child_count-length self k xs c f =
      rw (child_count_from_lem k 0 (t.child self) xs c.chain c.real f) (ground arith)

  -- `GblNaryTree_childAt` with enough fuel returns the child at the index, NULL past the end, and
  -- `GblNaryTree_childIndex` the position of a child, NPOS for any other node.
  pub child_at-child_index :
      (self node : Ptr) (index k : ℕ) (xs : List Ptr)
      → Children t self xs
      → length xs < k
      → (child_at k self index t ≡ ok (get_or_null xs index))
        × (child_index k self node t ≡ ok (index_from 0 node xs))
  unfolding child_at child_index
  child_at-child_index self node index k xs c f = (
    child_at_from_lem k index (t.child self) xs c.chain c.real f,
    child_index_from_lem node k 0 (t.child self) xs c.chain c.real f,
  )

  depth_from_lem :
      (k d : ℕ) (it : Ptr) (ys : List Ptr)
      → Walk t.parent it ys null
      → NotIn null ys
      → length ys < k
      → depth_from k d it t ≡ ok (d + length ys)
  unfolding depth_from
  depth_from_lem zero d it ys w r f = absurd (omega arith)
  depth_from_lem (suc k) d it [] w r f = ground arith
  depth_from_lem (suc k) d it (y ∷ ys) w r f =
      ground (arith, depth_from_lem k (d + 1) y ys w.1 r.1 (omega arith))

  root_lem :
      (k : ℕ) (it : Ptr) (ys : List Ptr)
      → Walk t.parent it ys null
      → NotIn null ys
      → length ys < k
      → root k it t ≡ ok (last_or it ys)
  unfolding root
  root_lem zero it ys w r f = absurd (omega arith)
  root_lem (suc k) it [] w r f = ground arith
  root_lem (suc k) it (y ∷ ys) w r f = ground (arith, root_lem k y ys w.1 r.1 (omega arith))

  ancestor_from_lem :
      (height j k i : ℕ) (it : Ptr) (ys : List Ptr)
      → height ≡ i + j
      → Chain t.parent it ys null
      → NotIn null ys
      → length ys < k
      → ancestor_from k height i it t ≡ ok (get_or_null ys j)
  unfolding ancestor_from
  ancestor_from_lem height j zero i it ys e w r f = absurd (omega arith)
  ancestor_from_lem height j (suc k) i it [] e w r f = ground arith
  ancestor_from_lem height zero (suc k) i it (y ∷ ys) e w r f = ground arith
  ancestor_from_lem height (suc j) (suc k) i it (y ∷ ys) e w r f = ground (
    arith,
    ancestor_from_lem height j k (i + 1) (t.parent y) ys (omega arith)
        (Chain-of_Walk t.parent y null ys w.1) r.1 (omega arith),
  )

  ancestor_height_from_lem :
      (other : Ptr) (k i : ℕ) (it : Ptr) (ys : List Ptr)
      → Chain t.parent it ys null
      → NotIn null ys
      → length ys < k
      → ancestor_height_from k other i it t ≡ ok (index_from i other ys)
  unfolding ancestor_height_from
  ancestor_height_from_lem other zero i it ys w r f = absurd (omega arith)
  ancestor_height_from_lem other (suc k) i it [] w r f = ground arith
  ancestor_height_from_lem other (suc k) i it (y ∷ ys) w r f = ground (
    arith,
    ancestor_height_from_lem other k (i + 1) (t.parent y) ys (Chain-of_Walk t.parent y null ys w.1)
        r.1 (omega arith),
  )

  -- On a node whose ancestors, from its parent on, are `ys`, and with enough fuel,
  -- `GblNaryTree_depth` returns their number, `GblNaryTree_root` the last of them or the node itself,
  -- `GblNaryTree_ancestor` the one at the height or NULL, and `GblNaryTree_ancestorHeight` the
  -- position of a node among them or NPOS.
  pub depth-ancestors :
      (self other : Ptr) (height k : ℕ) (ys : List Ptr)
      → Walk t.parent self ys null
      → NotIn null ys
      → length ys < k
      → (depth k self t ≡ ok (length ys))
        × (root k self t ≡ ok (last_or self ys))
        × (ancestor k self height t ≡ ok (get_or_null ys height))
        × (ancestor_height k self other t ≡ ok (index_from 0 other ys))
  unfolding depth ancestor ancestor_height
  depth-ancestors self other height k ys w r f =
      let up = Chain-of_Walk t.parent self null ys w in
      (
        rw (depth_from_lem k 0 self ys w r f) (ground arith),
        root_lem k self ys w r f,
        ancestor_from_lem height height k 0 (t.parent self) ys (omega arith) up r f,
        ancestor_height_from_lem other k 0 (t.parent self) ys up r f,
      )

  -- `GblNaryTree_base` with enough fuel, on a node with fewer than 2 ^ 64 ancestors, returns the
  -- ancestor, or the node itself, at a depth that is not above the node's own.
  pub base-ancestor :
      (self : Ptr) (d k : ℕ) (ys : List Ptr)
      → Walk t.parent self ys null
      → NotIn null ys
      → length ys < k
      → length ys < 2 ^ 64
      → d ≤ length ys
      → base k self d t ≡ ok (get_or_null (self ∷ ys) (length ys - d))
  unfolding base
  base-ancestor self d k ys w r f b l =
      let up = depth-ancestors self self (length ys - d - 1) k ys w r f in
      let levels : sub_size (length ys) d ≡ length ys - d = omega arith in
      ground (arith, up.0, up.2, levels)
