-- ===== src/Paths/Tests.antt =====
-- A search on a small map.
use otx.Prelude.{ℕ, ◌≡◌, refl, true, false, ◌&&◌, none, some, arith, leb, ◌==◌}
use otx.Paths.{
  start_nodes, create_open_node, best_from, get_best_node, change_node, close_node, reopen_node,
  get_node_by_position, get_map_walk_cost, get_tile_walk_cost, dir_neighbors, direction_from,
  neighbors_of, is_skipped, visit, visit_all, round, step_to, walk_back, Setting, State, Outcome,
  running, finished, failed, begun, gone_on,
}
use otx.Paths.Steps.{IsInner}
use otx.Paths.Visits.{IsInland}
use otx.Paths.Ways.{IsWay, round-Leads}

-- The tiles from 1 to 3 each way, the way to (2, 2).
abbrev yard : Setting
yard = record {
  can_walk_to = λ x y. leb 1 x && leb x 3 && (leb 1 y && leb y 3);
  has_visible_creature = λ x y. false;
  has_harmful_field = λ x y. x == 1 && y == 2;
  path_condition = λ start at best. (at.0 == 2 && at.1 == 2, 0);
  is_in_range = λ start at. true;
  allow_diagonal = true;
  keep_distance = false;
  max_search_dist = 10;
}

abbrev in_search : Outcome → State → State
in_search (running t) s = t
in_search (finished t) s = t
in_search failed s = s

abbrev beginning : State
beginning = record { search = start_nodes 1 1; found = none; best_match = 0 }

abbrev next : State → State
next s = in_search (round yard (1, 1) s) s

yard-IsInland : IsInland yard 1 1
yard-IsInland x y h = inside x y h
  where
    inside : (x y : ℕ) → (leb 1 x && leb x 3 && (leb 1 y && leb y 3)) ≡ true → IsInner x × IsInner y
    inside x y h = ground (arith, h)

test_rounds : (next (next (next beginning))).found ≡ some 3
unfolding round start_nodes create_open_node best_from get_best_node change_node close_node
    reopen_node get_node_by_position get_map_walk_cost get_tile_walk_cost dir_neighbors
    direction_from neighbors_of is_skipped visit visit_all step_to walk_back
test_rounds = refl

first_round : round yard (1, 1) beginning ≡ running (next beginning)
unfolding round start_nodes create_open_node best_from get_best_node change_node close_node
    reopen_node get_node_by_position get_map_walk_cost get_tile_walk_cost dir_neighbors
    direction_from neighbors_of is_skipped visit visit_all
first_round = refl

second_round : round yard (1, 1) (next beginning) ≡ running (next (next beginning))
unfolding round start_nodes create_open_node best_from get_best_node change_node close_node
    reopen_node get_node_by_position get_map_walk_cost get_tile_walk_cost dir_neighbors
    direction_from neighbors_of is_skipped visit visit_all
second_round = refl

last_round : round yard (1, 1) (next (next beginning)) ≡ finished (next (next (next beginning)))
unfolding round start_nodes create_open_node best_from get_best_node change_node close_node
    reopen_node get_node_by_position get_map_walk_cost get_tile_walk_cost dir_neighbors
    direction_from neighbors_of is_skipped visit visit_all
last_round = refl

round-Leads_example : IsWay yard 1 1 (next (next (next beginning)))
round-Leads_example =
    round-Leads yard 1 1 (next (next beginning)) (next (next (next beginning))) yard-IsInland
      ((omega arith, omega arith), (omega arith, omega arith))
      (gone_on (gone_on begun first_round) second_round) last_round
