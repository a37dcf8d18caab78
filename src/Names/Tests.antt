-- ===== src/Names/Tests.antt =====
-- Runs of the trie of names, and the theorems on it at concrete names.
use otx.Prelude.{ℕ, ◌≡◌, refl, true, false, not, ◌&&◌, List, [], ◌∷◌}
use otx.Names.WildcardTree.{
  empty_node, get_child, set_child, erase_child, insert, remove_at, remove, chain, walk, find_one,
  Node, too_ambiguous, no_error,
}
use otx.Names.WildcardTree.Insertion.{contains, same}
use otx.Names.WildcardTree.Removal.{contains-remove}
use otx.Names.WildcardTree.Marks.{edits, Named, find_one-edits, Edit, inserted}

-- ana, ann and bo, and bo removed again.
abbrev guests : List Edit
guests = inserted (1 ∷ 14 ∷ 1 ∷ []) ∷ inserted (1 ∷ 14 ∷ 14 ∷ []) ∷ inserted (2 ∷ 15 ∷ []) ∷ []

abbrev tree : Node
tree = edits guests (empty_node false)

tree_bo : find_one (2 ∷ []) tree ≡ no_error (2 ∷ 15 ∷ [])
unfolding edits find_one insert set_child get_child walk chain
tree_bo = refl

tree_ambiguous : find_one (1 ∷ []) tree ≡ too_ambiguous
unfolding edits find_one insert set_child get_child walk chain
tree_ambiguous = refl

tree_removed : find_one (1 ∷ []) (remove (1 ∷ 14 ∷ 14 ∷ []) tree) ≡ no_error (1 ∷ 14 ∷ 1 ∷ [])
unfolding edits find_one insert set_child get_child walk chain remove remove_at erase_child
tree_removed = refl

find_one-edits_example :
    (contains (2 ∷ 15 ∷ []) tree ≡ true)
    × ((s : List ℕ) → contains (2 ∷ s) tree ≡ true → 2 ∷ s ≡ 2 ∷ 15 ∷ [])
find_one-edits_example = find_one-edits guests 2 [] (2 ∷ 15 ∷ []) named tree_bo
  where
    named : Named guests
    named = ((λ e. absurd (cc (e))), ((λ e. absurd (cc (e))), ((λ e. absurd (cc (e))), tt)))

contains-remove_example :
    contains (2 ∷ 15 ∷ []) (remove (2 ∷ 15 ∷ []) tree)
    ≡ (contains (2 ∷ 15 ∷ []) tree && not (same (2 ∷ 15 ∷ []) (2 ∷ 15 ∷ [])))
contains-remove_example = contains-remove (2 ∷ 15 ∷ []) (2 ∷ 15 ∷ []) tree
