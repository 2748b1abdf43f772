-- ===== src/NaryTree/Tests.antt =====
-- The theorems on trees at a concrete tree.
use libgimbal.Common.{◌≡◌, [], ◌∷◌, arith}
use libgimbal.Memory.{null, update, ok}
use libgimbal.NaryTree.{Tree}
use libgimbal.NaryTree.Edit.{remove_child}
use libgimbal.NaryTree.Inv.{Children}
use libgimbal.NaryTree.Edit.Children.{remove_child-middle}

-- The node 1 with the children 2, 3 and 4; 5 is on its own.
abbrev tree : Tree
tree = record {
  parent = update (update (update (λ p. null) 2 1) 3 1) 4 1;
  child = update (λ p. null) 1 2;
  next = update (update (λ p. null) 2 3) 3 4;
}

tree-Children : Children tree 1 (2 ∷ 3 ∷ 4 ∷ [])
unfolding update
tree-Children = record {
  chain = omega arith;
  apart = omega arith;
  real = omega arith;
  owned = omega arith;
}

above_3 : (tree.parent 3 ≡ 1) × (tree.parent 1 ≡ null)
unfolding update
above_3 = omega arith

remove_child-middle_example :
    (t' : Tree) × (remove_child 9 1 3 tree ≡ ok (null, t'))
    × Children t' 1 (2 ∷ 4 ∷ [])
    × (t'.parent 3 ≡ null)
    × (t'.next 3 ≡ null)
remove_child-middle_example =
    remove_child-middle tree 1 3 9 (2 ∷ []) (4 ∷ []) tree-Children (omega arith)
