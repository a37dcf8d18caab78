-- ===== src/Files/Tests.antt =====
-- Runs of the file formats, and the theorems on them at concrete data.
use otx.Files.Otb.View.{view-load_tree}
use otx.Files.Properties.Roundtrip.{
  kinds, put_all, kept_all, take_all, take_all-put_all, Property, number, text,
}
use otx.Files.Properties.{init, size, clear, get_stream}
use otx.Prelude.{◌≡◌, refl, none, some, List, [], ◌∷◌, arith}
use otx.Files.Otb.{
  start_node, push_node, end_node, step_regular, loop, parse_tree, load_tree, Node, node, nil, cons,
}
use otx.Files.Otb.Tree.{print, view, Tree, tree, empty, plant}

-- A node with an escaped property byte and two children.
abbrev sample : Tree
sample =
    tree 1 (5 ∷ 0xFE ∷ [])
      (plant (tree 0xFF [] empty) (plant (tree 2 (0xFD ∷ 0xFD ∷ []) empty) empty))

sample_bytes :
    print sample
    ≡ 0xFE ∷ 1 ∷ 5 ∷ 0xFD ∷ 0xFE ∷ 0xFE ∷ 0xFF ∷ 0xFF ∷ 0xFE ∷ 2 ∷ 0xFD ∷ 0xFD ∷ 0xFD ∷ 0xFD ∷ 0xFF
      ∷ 0xFF ∷ []
unfolding print
sample_bytes = refl

sample_parsed :
    parse_tree (print sample)
    ≡ some (node 1 2 5 (cons (node 0xFF 7 7 nil) (cons (node 2 10 14 nil) nil)))
unfolding print parse_tree loop step_regular start_node push_node end_node
sample_parsed = refl

unclosed : parse_tree (0xFE ∷ 1 ∷ 0xFE ∷ 2 ∷ 0xFF ∷ []) ≡ none
unfolding parse_tree loop step_regular start_node push_node end_node
unclosed = refl

view-load_tree_example :
    (n : Node) × ((load_tree (79 ∷ 84 ∷ 66 ∷ 73 ∷ []) (0 ∷ 0 ∷ 0 ∷ 0 ∷ print sample) ≡ some n)
      × (view (print sample) n ≡ sample))
unfolding print
view-load_tree_example = view-load_tree 0 0 0 0 (79 ∷ 84 ∷ 66 ∷ 73 ∷ []) sample refl (omega arith)

abbrev saved : List Property
saved = number 1 24 ∷ text (75 ∷ 110 ∷ 105 ∷ []) ∷ number 4 0xDEADBEEF ∷ text [] ∷ []

take_all-put_all_example :
    let (bytes, count) = get_stream (put_all saved (clear (1 ∷ 2 ∷ []))) in
    let (read_back, rest) = take_all (kinds saved) (init bytes count) in
    (read_back ≡ some (kept_all saved)) × (size rest ≡ 0)
take_all-put_all_example = take_all-put_all saved (1 ∷ 2 ∷ []) (omega arith)
