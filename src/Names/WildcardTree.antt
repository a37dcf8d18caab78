-- ===== src/Names/WildcardTree.antt =====
-- `WildcardTreeNode` of src/wildcardtree.cpp: a trie of names. A `std::map` of children is a list
-- with one child for each character; the pointers walked along are the recursion, the stack of
-- them its way back.
pub mod Insertion
pub mod Removal
pub mod Lookup
pub mod Marks
use mathlib.Core.Option.{map}
use otx.Prelude.{
  ℕ, Bool, true, false, not, ◌||◌, Option, none, some, List, [], ◌∷◌, ◌++◌, ◌==◌, if◌then◌else◌,
}

mutual
  pub data Node : Type 0 where
    node : Bool → Children → Node

  pub data Children : Type 0 where
    nil : Children
    child : ℕ → Node → Children → Children

abbrev pub breakpoint : Node → Bool
breakpoint (node b cs) = b

abbrev pub children : Node → Children
children (node b cs) = cs

abbrev pub empty_node : Bool → Node
empty_node b = node b nil

-- `getChild`.
unfoldable pub get_child : ℕ → Children → Option Node
get_child ch nil = none
get_child ch (child c n cs) = let rest = get_child ch cs in if c == ch then some n else rest

-- The children with one put in the place of a character's child, or beside the others.
unfoldable pub set_child : ℕ → Node → Children → Children
set_child ch n nil = child ch n nil
set_child ch n (child c m cs) =
    let rest = set_child ch n cs in if c == ch then child c n cs else child c m rest

-- `children.erase`, of a map by its key.
unfoldable pub erase_child : ℕ → Children → Children
erase_child ch nil = nil
erase_child ch (child c m cs) =
    let rest = erase_child ch cs in if c == ch then rest else child c m rest

-- The child that `addChild` returns.
abbrev pub add_child : ℕ → Bool → Children → Node
add_child ch b cs = elim (get_child ch cs) [
  | none ↦ empty_node b
  | some n ↦ node (breakpoint n || b) (children n)
]

-- `insert`; of an empty name the source reads out of range.
unfoldable pub insert : List ℕ → Node → Node
insert [] n = n
insert (ch ∷ []) (node b cs) = node b (set_child ch (add_child ch true cs) cs)
insert (ch ∷ c ∷ str) (node b cs) =
    node b (set_child ch (insert (c ∷ str) (add_child ch false cs)) cs)

abbrev pub is_bare : Node → Bool
is_bare (node b nil) = not b
is_bare (node b (child c n cs)) = false

-- The walk of `remove` down a name and back; `none`: there is no such path.
unfoldable pub remove_at : List ℕ → Node → Option Node
remove_at [] n = some (node false (children n))
remove_at (ch ∷ str) n = elim (get_child ch (children n)) [
  | none ↦ none
  | some m ↦ elim (remove_at str m) [
    | none ↦ none
    | some k ↦ some (
        node (breakpoint n)
          (if is_bare k then erase_child ch (children n) else set_child ch k (children n)))
  ]
]

unfoldable pub remove : List ℕ → Node → Node
remove str n = elim (remove_at str n) [ none ↦ n | some m ↦ m ]

-- The walk of `findOne` behind the query: the rest of the only name, if it is the only one.
unfoldable pub chain : Node → Option (List ℕ)
chain (node b nil) = some []
chain (node b (child c n nil)) = let rest = chain n in if b then none else map (◌∷◌ c) rest
chain (node b (child c n (child d m cs))) = none

pub data Found : Type 0 where
  not_online too_ambiguous : Found
  no_error : List ℕ → Found

abbrev pub found : List ℕ → Option (List ℕ) → Found
found query none = too_ambiguous
found query (some rest) = no_error (query ++ rest)

unfoldable pub walk : List ℕ → Node → Option Node
walk [] n = some n
walk (ch ∷ str) n = elim (get_child ch (children n)) [ none ↦ none | some m ↦ walk str m ]

unfoldable pub find_one : List ℕ → Node → Found
find_one query n = elim (walk query n) [ none ↦ not_online | some m ↦ found query (chain m) ]
