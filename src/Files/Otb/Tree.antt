-- ===== src/Files/Otb/Tree.antt =====
-- Trees of typed nodes with properties, independent of any file, and their binary form.

use otx.Prelude.{
  ℕ, ◌-◌, ◌≡◌, refl, Bool, false, ◌||◌, List, [], ◌∷◌, ◌++◌, arith, ◌==◌, if◌then◌else◌, take, drop,
}
use otx.Files.Otb.{escape_byte, start_byte, end_byte, unescape, Node, Nodes, node, nil, cons}

mutual
  pub data Tree : Type 0 where
    tree : ℕ → List ℕ → Forest → Tree

  pub data Forest : Type 0 where
    empty : Forest
    plant : Tree → Forest → Forest

-- Bytes that would read as marks are escaped.
abbrev pub is_mark : ℕ → Bool
is_mark b = b == escape_byte || b == start_byte || b == end_byte

abbrev pub escape : List ℕ → List ℕ
escape [] = []
escape (b ∷ bs) = if is_mark b then escape_byte ∷ b ∷ escape bs else b ∷ escape bs

unfoldable mutual
  pub print : Tree → List ℕ
  print (tree type props children) =
      start_byte ∷ type ∷ (escape props ++ (print_forest children ++ end_byte ∷ []))

  pub print_forest : Forest → List ℕ
  print_forest empty = []
  print_forest (plant t ts) = print t ++ print_forest ts

pub unescape-escape : (props : List ℕ) → unescape false (escape props) ≡ props
unfolding unescape
unescape-escape [] = refl
unescape-escape (b ∷ bs) = ground (arith, unescape-escape bs)

-- The tree that a node of a file stands for.
unfoldable mutual
  pub view : List ℕ → Node → Tree
  view contents (node type begins ends children) =
      tree type (unescape false (take (ends - begins) (drop begins contents)))
        (view_all contents children)

  pub view_all : List ℕ → Nodes → Forest
  view_all contents nil = empty
  view_all contents (cons n ns) = plant (view contents n) (view_all contents ns)
