-- ===== src/Paths.antt =====
-- The path finder of src/map.cpp: `AStarNodes` and `Map::getPathMatching`. Whether a creature can
-- walk to a tile, what stands there, and the condition that ends the search are arguments.
pub mod Routes
pub mod Array
pub mod Steps
pub mod Search
pub mod Visits
pub mod Rounds
pub mod Ways
mod Tests
use otx.Prelude.{
  ℕ, zero, suc, ◌+◌, ◌-◌, ◌*◌, ◌%◌, ◌≡◌, Bool, true, false, not, ◌&&◌, ◌||◌, Option, none, some,
  List, [], ◌∷◌, ◌++◌, ltb, leb, ◌==◌, if◌then◌else◌, length, get_elem?, take,
}
use otx.Chat.Maps.{find}

-- A pointer to a node is its index in the array.
pub record Node : Type 0 where
  pub parent : Option ℕ
  pub f : ℕ
  pub x : ℕ
  pub y : ℕ
  pub is_open : Bool

-- The array as far as it is in use, and the indexes of positions, the last that was set in front.
pub record AStarNodes : Type 0 where
  pub nodes : List Node
  pub node_table : List (ℕ × ℕ)
  pub closed_nodes : ℕ

pub record Setting : Type 0 where
  pub can_walk_to : ℕ → ℕ → Bool
  pub has_visible_creature : ℕ → ℕ → Bool
  pub has_harmful_field : ℕ → ℕ → Bool
  pub path_condition : ℕ × ℕ → ℕ × ℕ → ℕ → Bool × ℕ
  pub is_in_range : ℕ × ℕ → ℕ × ℕ → Bool
  pub allow_diagonal : Bool
  pub keep_distance : Bool
  pub max_search_dist : ℕ

abbrev pub max_nodes : ℕ
max_nodes = 512

-- `(x << 16) | y`.
abbrev pub key : ℕ → ℕ → ℕ
key x y = x * 65536 + y

unfoldable pub start_nodes : ℕ → ℕ → AStarNodes
start_nodes x y = record {
  nodes = record { parent = none; f = 0; x = x; y = y; is_open = true } ∷ [];
  node_table = (key x y, 0) ∷ [];
  closed_nodes = 0;
}

unfoldable pub create_open_node : ℕ → ℕ → ℕ → ℕ → AStarNodes → Option AStarNodes
create_open_node i x y f a =
    if leb max_nodes (length a.nodes)
    then none
    else some (record a {
      nodes = a.nodes ++ record { parent = some i; f = f; x = x; y = y; is_open = true } ∷ [];
      node_table = (key x y, length a.nodes) ∷ a.node_table;
    })

-- The loop of `getBestNode` from the node `i` on, with the best so far.
unfoldable pub best_from : ℕ → ℕ → Option ℕ → List Node → Option ℕ
best_from i best_f best [] = best
best_from i best_f best (n ∷ ns) =
    let better = best_from (i + 1) n.f (some i) ns in
    let rest = best_from (i + 1) best_f best ns in
    if n.is_open && ltb n.f best_f then better else rest

unfoldable pub get_best_node : AStarNodes → Option ℕ
get_best_node a = best_from 0 2147483647 none a.nodes

unfoldable pub change_node : ℕ → (Node → Node) → List Node → List Node
change_node i g [] = []
change_node zero g (n ∷ ns) = g n ∷ ns
change_node (suc i) g (n ∷ ns) = n ∷ change_node i g ns

unfoldable pub close_node : ℕ → AStarNodes → AStarNodes
close_node i a = record a {
  nodes = change_node i (λ n. record n { is_open = false }) a.nodes;
  closed_nodes = a.closed_nodes + 1;
}

-- `openNode` after the node has its new cost and parent.
unfoldable pub reopen_node : ℕ → Node → ℕ → ℕ → AStarNodes → AStarNodes
reopen_node k m i f a = record a {
  nodes = change_node k (λ n. record n { f = f; parent = some i; is_open = true }) a.nodes;
  closed_nodes = if m.is_open then a.closed_nodes else a.closed_nodes - 1;
}

unfoldable pub get_node_by_position : ℕ → ℕ → AStarNodes → Option ℕ
get_node_by_position x y a = find (key x y) a.node_table

abbrev pub distance : ℕ → ℕ → ℕ
distance a b = (a - b) + (b - a)

unfoldable pub get_map_walk_cost : Node → ℕ → ℕ → ℕ
get_map_walk_cost n x y = if distance n.x x == distance n.y y then 25 else 10

unfoldable pub get_tile_walk_cost : Setting → ℕ → ℕ → ℕ
get_tile_walk_cost e x y =
    (if e.has_visible_creature x y then 30 else 0) + (if e.has_harmful_field x y then 180 else 0)

-- The steps on numbers of 16 bits, 65535 for -1, in the order of the source's tables. A node that
-- has a parent looks ahead of the way it was reached, straight first; `straight` leaves out the
-- diagonal steps.
abbrev pub all_neighbors : List (ℕ × ℕ)
all_neighbors =
    (65535, 0)
    ∷ (0, 1)
    ∷ (1, 0)
    ∷ (0, 65535)
    ∷ (65535, 65535)
    ∷ (1, 65535)
    ∷ (1, 1)
    ∷ (65535, 1)
    ∷ []

unfoldable pub dir_neighbors : ℕ → List (ℕ × ℕ)
dir_neighbors d =
    if d == 0
    then (65535, 0) ∷ (0, 1) ∷ (1, 0) ∷ (1, 1) ∷ (65535, 1) ∷ []
    else (if d == 1
        then (65535, 0) ∷ (0, 1) ∷ (0, 65535) ∷ (65535, 65535) ∷ (65535, 1) ∷ []
        else (if d == 2
            then (65535, 0) ∷ (1, 0) ∷ (0, 65535) ∷ (65535, 65535) ∷ (1, 65535) ∷ []
            else (if d == 3
                then (0, 1) ∷ (1, 0) ∷ (0, 65535) ∷ (1, 65535) ∷ (1, 1) ∷ []
                else (if d == 4
                    then (1, 0) ∷ (0, 65535) ∷ (65535, 65535) ∷ (1, 65535) ∷ (1, 1) ∷ []
                    else (if d == 5
                        then (65535, 0) ∷ (0, 65535) ∷ (65535, 65535) ∷ (1, 65535) ∷ (65535, 1) ∷ []
                        else (if d == 6
                            then (0, 1) ∷ (1, 0) ∷ (1, 65535) ∷ (1, 1) ∷ (65535, 1) ∷ []
                            else ((65535, 0)
                                ∷ (0, 1)
                                ∷ (65535, 65535)
                                ∷ (1, 1)
                                ∷ (65535, 1)
                                ∷ [])))))))

-- `offset_x` and `offset_y` are the parent's coordinates less the node's.
unfoldable pub direction_from : Bool → Node → Node → ℕ
direction_from allow_diagonal p n =
    if p.y == n.y
    then (if p.x + 1 == n.x then 3 else 1)
    else (if not allow_diagonal || p.x == n.x
        then (if p.y + 1 == n.y then 0 else 2)
        else (if p.y + 1 == n.y
            then (if p.x + 1 == n.x then 6 else 7)
            else (if p.x + 1 == n.x then 4 else 5)))

unfoldable pub neighbors_of : Setting → AStarNodes → Node → List (ℕ × ℕ)
neighbors_of e a n = elim n.parent [
  | none ↦ all_neighbors
  | some k ↦ elim (get_elem? a.nodes k) [
    | none ↦ all_neighbors
    | some p ↦
        take (if e.allow_diagonal then 5 else 3)
          (dir_neighbors (direction_from e.allow_diagonal p n))
  ]
]

-- Whether a position is passed over.
unfoldable pub is_skipped : Setting → ℕ × ℕ → ℕ → ℕ → Bool
is_skipped e (sx, sy) x y =
    not (e.max_search_dist == 0)
      && (ltb e.max_search_dist (distance sx x) || ltb e.max_search_dist (distance sy y))
    || e.keep_distance && not (e.is_in_range (sx, sy) (x, y))

-- One neighbour of the node `n` at `i`. There is no result when the array is full.
unfoldable pub visit : Setting → ℕ × ℕ → ℕ → Node → ℕ × ℕ → AStarNodes → Option AStarNodes
visit e start i n (dx, dy) a =
    let x = (n.x + dx) % 65536 in
    let y = (n.y + dy) % 65536 in
    let new_f = n.f + get_map_walk_cost n x y + get_tile_walk_cost e x y in
    let known : ℕ → Option AStarNodes = λ k. elim (get_elem? a.nodes k) [
      | none ↦ some a
      | some m ↦ if leb m.f new_f then some a else some (reopen_node k m i new_f a)
    ] in
    let unknown = if e.can_walk_to x y then create_open_node i x y new_f a else some a in
    if is_skipped e start x y
    then some a
    else elim (get_node_by_position x y a) [ some k ↦ known k | none ↦ unknown ]

-- The loop over the neighbours, and whether it met a full array.
unfoldable pub visit_all :
    Setting → ℕ × ℕ → ℕ → Node → List (ℕ × ℕ) → AStarNodes → Bool × AStarNodes
visit_all e start i n [] a = (false, a)
visit_all e start i n (d ∷ ds) a = elim (visit e start i n d a) [
  | none ↦ (true, a)
  | some b ↦ visit_all e start i n ds b
]

pub record State : Type 0 where
  pub search : AStarNodes
  pub found : Option ℕ
  pub best_match : ℕ

pub data Outcome : Type 0 where
  running finished : State → Outcome
  failed : Outcome

abbrev pub ends : Option ℕ → State → Outcome
ends none s = failed
ends (some i) s = finished s

-- A round of the loop of `getPathMatching`, its condition first.
unfoldable pub round : Setting → ℕ × ℕ → State → Outcome
round e start s =
    let a = s.search in
    if not (e.max_search_dist == 0) || ltb a.closed_nodes 100
    then elim (get_best_node a) [
      | none ↦ ends s.found s
      | some i ↦ elim (get_elem? a.nodes i) [ none ↦ failed | some n ↦ look i n ]
    ]
    else ends s.found s
  where
    look : ℕ → Node → Outcome
    look i n =
        let (hit, best) = e.path_condition start (n.x, n.y) s.best_match in
        let t : State = record s { found = if hit then some i else s.found; best_match = best } in
        let (full, a) = visit_all e start i n (neighbors_of e s.search n) s.search in
        let closed : State = record t { search = close_node i a } in
        if hit && best == 0 then finished t else elim t.found [
          | none ↦ if full then failed else running closed
          | some k ↦ running closed
        ]

-- The states that the loop comes to.
pub data IsRun (e : Setting) (x y : ℕ) : State → Type 0 where
  begun : IsRun e x y (record { search = start_nodes x y; found = none; best_match = 0 })
  gone_on : {s : State} {t : State} → IsRun e x y s → round e (x, y) s ≡ running t → IsRun e x y t

-- The direction of the step to a node from its parent at `(px, py)`.
pub data Direction : Type 0 where
  north east south west southwest southeast northwest northeast : Direction

unfoldable pub step_to : ℕ × ℕ → ℕ × ℕ → Option Direction
step_to (px, py) (x, y) =
    if px == x + 1 && py == y + 1
    then some northwest
    else (if px + 1 == x && py == y + 1
        then some northeast
        else (if px == x + 1 && py + 1 == y
            then some southwest
            else (if px + 1 == x && py + 1 == y
                then some southeast
                else (if px == x + 1
                    then some west
                    else (if px + 1 == x
                        then some east
                        else (if py == y + 1
                            then some north
                            else (if py + 1 == y then some south else none)))))))

-- The loop along the parents; `fuel` parents are followed.
unfoldable pub walk_back : ℕ → List Node → Node → List Direction → List Direction
walk_back zero ns n dirs = dirs
walk_back (suc fuel) ns n dirs = elim n.parent [
  | none ↦ dirs
  | some k ↦ elim (get_elem? ns k) [
    | none ↦ dirs
    | some p ↦
        walk_back fuel ns p
          (elim (step_to (p.x, p.y) (n.x, n.y)) [ none ↦ dirs | some d ↦ d ∷ dirs ])
  ]
]
