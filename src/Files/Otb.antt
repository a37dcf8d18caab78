-- ===== src/Files/Otb.antt =====
-- `OTB::Loader` of src/fileloader.cpp: the tree of nodes of a binary file, kept as offsets into its
-- contents, and the properties of a node.
pub mod Tree
pub mod Parse
pub mod View
use otx.Prelude.{
  ℕ, ◌+◌, ◌-◌, Bool, true, false, not, ◌&&◌, ◌||◌, Option, none, some, List, [], ◌∷◌, ltb, ◌==◌,
  if◌then◌else◌, length, take, drop,
}

-- Node::ESCAPE, Node::START and Node::END.
abbrev pub escape_byte : ℕ
escape_byte = 0xFD

abbrev pub start_byte : ℕ
start_byte = 0xFE

abbrev pub end_byte : ℕ
end_byte = 0xFF

mutual
  -- The node's type, where its properties begin and end, and its children.
  pub data Node : Type 0 where
    node : ℕ → ℕ → ℕ → Nodes → Node

  pub data Nodes : Type 0 where
    nil : Nodes
    cons : Node → Nodes → Nodes

abbrev pub snoc : Nodes → Node → Nodes
snoc nil n = cons n nil
snoc (cons m ns) n = cons m (snoc ns n)

abbrev pub is_leaf : Nodes → Bool
is_leaf nil = true
is_leaf (cons n ns) = false

-- A node on the parser's stack: its end is not known yet.
pub record Partial : Type 0 where
  pub type : ℕ
  pub begins : ℕ
  pub ends : ℕ
  pub children : Nodes

-- What the byte behind a START or an ESCAPE is: the `switch` consumes it with its own `++it`.
pub data Pending : Type 0 where
  regular node_type escaped : Pending

-- The stack, its top first; the root once it has been popped; and the next byte's role.
pub record Parser : Type 0 where
  pub stack : List Partial
  pub root : Option Node
  pub pending : Pending

-- `propsEnd = it`, unless a child has set it before.
abbrev pub mark_end : ℕ → Partial → Partial
mark_end it p = if is_leaf p.children then record p { ends = it } else p

abbrev pub complete : Partial → Node
complete p = node p.type p.begins p.ends p.children

abbrev pub attach : Node → Partial → Partial
attach n p = record p { children = snoc p.children n }

-- `case Node::START`, as far as the type; `none` is `InvalidOTBFormat`.
unfoldable pub start_node : ℕ → Parser → Option Parser
start_node it s = elim s.stack [
  | [] ↦ none
  | p ∷ ps ↦ some (record s { stack = mark_end it p ∷ ps; pending = node_type })
]

-- The node's type, and the push of the child.
unfoldable pub push_node : ℕ → ℕ → Parser → Parser
push_node b it s = record s {
  stack = record { type = b; begins = it + 1; ends = 0; children = nil } ∷ s.stack;
  pending = regular;
}

-- A popped node stands in its parent's children already; the root stands by itself.
abbrev pub popped : Node → List Partial → Parser → Parser
popped n [] s = record s { stack = []; root = some n }
popped n (p ∷ ps) s = record s { stack = attach n p ∷ ps }

-- `case Node::END`.
unfoldable pub end_node : ℕ → Parser → Option Parser
end_node it s = elim s.stack [ [] ↦ none | p ∷ ps ↦ some (popped (complete (mark_end it p)) ps s) ]

-- One byte of the loop, at its offset.
unfoldable pub step_regular : ℕ → ℕ → Parser → Option Parser
step_regular b it s =
    if b == start_byte
    then start_node it s
    else if b == end_byte
    then end_node it s
    else if b == escape_byte
    then some (record s { pending = escaped })
    else some s

abbrev pub step_as : Pending → ℕ → ℕ → Parser → Option Parser
step_as regular b it s = step_regular b it s
step_as node_type b it s = some (push_node b it s)
step_as escaped b it s = some (record s { pending = regular })

abbrev pub step : ℕ → ℕ → Parser → Option Parser
step b it s = step_as s.pending b it s

infixl 5 ◌>>=◌
abbrev pub ◌>>=◌ {ℓ κ} : {A : Type ℓ} {B : Type κ} → Option A → (A → Option B) → Option B
none >>= k = none
some a >>= k = k a

-- The loop over the contents from an offset on.
unfoldable pub loop : List ℕ → ℕ → Parser → Option Parser
loop [] it s = some s
loop (b ∷ bs) it s = step b it s >>= loop bs (it + 1)

-- At the end no byte may be missing, and every node must be closed.
abbrev pub finish_as : Pending → List Partial → Option Node → Option Node
finish_as regular [] root = root
finish_as regular (p ∷ ps) root = none
finish_as node_type ps root = none
finish_as escaped ps root = none

abbrev pub finish : Parser → Option Node
finish s = finish_as s.pending s.stack s.root

-- `parseTree`, on the contents behind the 4 bytes of the identifier; offsets count from there.
unfoldable pub parse_tree : List ℕ → Option Node
parse_tree [] = none
parse_tree (b ∷ []) = none
parse_tree (b ∷ type ∷ bs) =
    if b == start_byte
    then loop bs 2 (record {
      stack = record { type = type; begins = 2; ends = 0; children = nil } ∷ [];
      root = none;
      pending = regular;
    })
      >>= finish
    else none

-- The accepted identifier is the expected one or the wildcard.
abbrev pub is_zeros : List ℕ → Bool
is_zeros [] = true
is_zeros (x ∷ xs) = x == 0 && is_zeros xs

abbrev pub same : List ℕ → List ℕ → Bool
same [] [] = true
same [] (y ∷ ys) = false
same (x ∷ xs) [] = false
same (x ∷ xs) (y ∷ ys) = x == y && same xs ys

-- The constructor's test of a file: more than an identifier and three bytes, and the identifier.
unfoldable pub accepts : List ℕ → List ℕ → ℕ → Bool
accepts identifier accepted file_size =
    ltb 7 file_size && (same identifier accepted || is_zeros identifier)

-- The constructor and `parseTree` on the contents of a file; offsets count from behind the
-- identifier.
unfoldable pub load_tree : List ℕ → List ℕ → Option Node
load_tree accepted contents =
    if accepts (take 4 contents) accepted (length contents)
    then parse_tree (drop 4 contents)
    else none

-- `getProps`: the bytes without the escapes.
unfoldable pub unescape : Bool → List ℕ → List ℕ
unescape last_escaped [] = []
unescape last_escaped (b ∷ bs) =
    let escapes = b == escape_byte && not last_escaped in
    let rest = unescape escapes bs in if escapes then rest else b ∷ rest

-- The properties of a node of a file with these contents; `none` where it has none.
unfoldable pub get_props : List ℕ → Node → Option (List ℕ)
get_props contents (node type begins ends children) =
    let n = ends - begins in
    if n == 0 then none else some (unescape false (take n (drop begins contents)))
