-- ===== src/Files/Otb/Parse.antt =====
-- What the loop makes of a printed tree, and that it stands for the tree.

use otx.Prelude.{
  ℕ, suc, ◌+◌, ◌≡◌, refl, ap, ◌∙◌, inl, inr, Option, none, some, List, [], ◌∷◌, ◌++◌, arith,
  Bool-cases, Option-cases, length,
}
use otx.Files.Otb.Tree.{is_mark, escape, print, print_forest, Tree, Forest, tree, empty, plant}
use otx.Files.Otb.{
  start_byte, end_byte, mark_end, complete, attach, start_node, push_node, popped, end_node,
  step_regular, step, ◌>>=◌, loop, finish, parse_tree, Node, Partial, Parser, nil, regular,
}

abbrev state : List Partial → Option Node → Parser
state ps root = record { stack = ps; root = root; pending = regular }

-- The node of a tree that is printed at an offset, and a node that a forest was parsed into.
unfoldable mutual
  pub node_at : ℕ → Tree → Node
  node_at it (tree type props children) =
      let begins = it + 1 + 1 in
      let ends = begins + length (escape props) in
      complete (
        mark_end (ends + length (print_forest children))
          (grow ends children (record { type = type; begins = begins; ends = 0; children = nil })))

  pub grow : ℕ → Forest → Partial → Partial
  grow it empty p = p
  grow it (plant t ts) p = grow (it + length (print t)) ts (attach (node_at it t) (mark_end it p))

loop-append :
    (xs ys : List ℕ) (it : ℕ) (s : Parser)
    → loop (xs ++ ys) it s ≡ (loop xs it s >>= loop ys (it + length xs))
unfolding loop
loop-append [] ys it s = ap (λ n. loop ys n s) (omega arith)
loop-append (x ∷ xs) ys it s = elim (Option-cases (step x it s)) [
  | inl e ↦ rw (e, ◌>>=◌) refl
  | inr (t, e) ↦
      let moved : it + 1 + length xs ≡ it + suc (length xs) = omega arith in
      rw (e, ◌>>=◌)
        (loop-append xs ys (it + 1) t ∙ ap (λ n. loop xs (it + 1) t >>= loop ys n) moved)
]

loop-escape :
    (props : List ℕ) (it : ℕ) (ps : List Partial) (root : Option Node)
    → loop (escape props) it (state ps root) ≡ some (state ps root)
unfolding loop step_regular
loop-escape [] it ps root = refl
loop-escape (b ∷ bs) it ps root = elim (Bool-cases (is_mark b)) [
  | inl mark ↦ rw mark (loop-escape bs (it + 1 + 1) ps root)
  | inr plain ↦ rw plain (ground (arith, loop-escape bs (it + 1) ps root))
]

-- What comes of a node's bytes behind its type, up to its END.
abbrev ended : ℕ → Tree → Partial → List Partial → Option Node → Parser
ended off (tree type props children) p ps root =
    popped
      (complete (
        mark_end (off + length (escape props) + length (print_forest children))
          (grow (off + length (escape props)) children p)))
      ps (state [] root)

-- The bytes of a node behind its type.
abbrev pub body : Tree → List ℕ
body (tree type props children) = escape props ++ (print_forest children ++ end_byte ∷ [])

loop-end :
    (it : ℕ) (p : Partial) (ps : List Partial) (root : Option Node)
    → loop (end_byte ∷ []) it (state (p ∷ ps) root)
      ≡ some (popped (complete (mark_end it p)) ps (state [] root))
unfolding loop step_regular end_node
loop-end it p [] root = refl
loop-end it p (q ∷ ps) root = refl

-- A body, once its forest is known to be read.
loop-body_of :
    (props : List ℕ) (type : ℕ) (children : Forest) (off : ℕ) (p : Partial) (ps : List Partial)
    (root : Option Node)
    → ((it : ℕ) (q : Partial)
        → loop (print_forest children) it (state (q ∷ ps) root)
          ≡ some (state (grow it children q ∷ ps) root))
    → loop (body (tree type props children)) off (state (p ∷ ps) root)
      ≡ some (ended off (tree type props children) p ps root)
loop-body_of props type children off p ps root forest =
    let at = off + length (escape props) in
    loop-append (escape props) (print_forest children ++ end_byte ∷ []) off (state (p ∷ ps) root)
    ∙ ap (λ r. r >>= loop (print_forest children ++ end_byte ∷ []) at)
        (loop-escape props off (p ∷ ps) root)
    ∙ loop-append (print_forest children) (end_byte ∷ []) at (state (p ∷ ps) root)
    ∙ ap (λ r. r >>= loop (end_byte ∷ []) (at + length (print_forest children))) (forest at p)
    ∙ loop-end (at + length (print_forest children)) (grow at children p) ps root

loop-start :
    (type : ℕ) (bytes : List ℕ) (it : ℕ) (p : Partial) (ps : List Partial) (root : Option Node)
    → loop (start_byte ∷ type ∷ bytes) it (state (p ∷ ps) root)
      ≡ loop bytes (it + 1 + 1) (
          state
            (record { type = type; begins = it + 1 + 1; ends = 0; children = nil }
              ∷ mark_end it p
              ∷ ps)
            root)
unfolding loop step_regular start_node push_node
loop-start type bytes it p ps root = refl

loop-nil : (it : ℕ) (s : Parser) → loop [] it s ≡ some s
unfolding loop
loop-nil it s = refl

mutual
  unfolding node_at print

  loop-print :
      (t : Tree) (it : ℕ) (p : Partial) (ps : List Partial) (root : Option Node)
      → loop (print t) it (state (p ∷ ps) root)
        ≡ some (state (attach (node_at it t) (mark_end it p) ∷ ps) root)
  loop-print (tree type props children) it p ps root =
      loop-start type (body (tree type props children)) it p ps root
      ∙ loop-body_of props type children (it + 1 + 1)
          (record { type = type; begins = it + 1 + 1; ends = 0; children = nil })
          (mark_end it p ∷ ps) root (λ at q. loop-forest children at q (mark_end it p ∷ ps) root)

  loop-forest :
      (ts : Forest) (it : ℕ) (p : Partial) (ps : List Partial) (root : Option Node)
      → loop (print_forest ts) it (state (p ∷ ps) root) ≡ some (state (grow it ts p ∷ ps) root)
  loop-forest empty it p ps root = loop-nil it (state (p ∷ ps) root)
  loop-forest (plant t ts) it p ps root =
      loop-append (print t) (print_forest ts) it (state (p ∷ ps) root)
      ∙ ap (λ r. r >>= loop (print_forest ts) (it + length (print t))) (loop-print t it p ps root)
      ∙ loop-forest ts (it + length (print t)) (attach (node_at it t) (mark_end it p)) ps root

-- The whole file is parsed into the node of its tree.
pub parse_tree-print : (t : Tree) → parse_tree (print t) ≡ some (node_at 0 t)
unfolding parse_tree print node_at
parse_tree-print (tree type props children) =
    ap (λ r. r >>= finish)
      (loop-body_of props type children 2
        (record { type = type; begins = 2; ends = 0; children = nil }) [] none
        (λ at q. loop-forest children at q [] none))
