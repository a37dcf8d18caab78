-- ===== src/Tiles/Tile/Client.antt =====
-- Where a client sees things on a tile: `getClientIndexOfCreature`, `getStackposOfCreature` and
-- `getStackposOfItem` of src/tile.cpp. `see` says which creatures the player can see. A client
-- knows ten things of a tile, and no position is at or over that.
use otx.Prelude.{
  ℕ, ◌+◌, Bool, Option, none, some, List, [], ◌∷◌, ◌++◌, ltb, leb, ◌==◌, if◌then◌else◌,
}
use otx.Tiles.Item.{Item}
use otx.Tiles.Tile.{down_items, top_items, ground_count, top_item_count, ground_is, is_item, Tile}

-- The creatures of a tile from the last to the first.
unfoldable pub reversed : List ℕ → List ℕ
reversed [] = []
reversed (c ∷ cs) = reversed cs ++ c ∷ []

abbrev pub count_seen : (ℕ → Bool) → ℕ → ℕ → List ℕ → Option ℕ
count_seen see c n [] = none
count_seen see c n (d ∷ ds) =
    if c == d then some n else count_seen see c (if see d then n + 1 else n) ds

unfoldable pub get_client_index_of_creature : (ℕ → Bool) → ℕ → Tile → Option ℕ
get_client_index_of_creature see c t =
    count_seen see c (ground_count t + top_item_count t) (reversed t.creatures)

abbrev pub count_seen_below : (ℕ → Bool) → ℕ → ℕ → List ℕ → Option ℕ
count_seen_below see c n [] = none
count_seen_below see c n (d ∷ ds) =
    let next = count_seen_below see c (n + 1) ds in
    let rest = count_seen_below see c n ds in
    if c == d then some n else (if see d then (if leb 10 (n + 1) then none else next) else rest)

unfoldable pub get_stackpos_of_creature : (ℕ → Bool) → ℕ → Tile → Option ℕ
get_stackpos_of_creature see c t =
    let n = ground_count t + top_item_count t in
    if leb 10 n then none else count_seen_below see c n (reversed t.creatures)

-- The loops of `getStackposOfItem`, over items and over the creatures before them.
abbrev pub count_to_below : Item → ℕ → List Item → Option ℕ
count_to_below x n [] = none
count_to_below x n (y ∷ ys) =
    let rest = count_to_below x (n + 1) ys in
    if is_item x y then some n else (if leb 10 (n + 1) then none else rest)

abbrev pub past_seen : (ℕ → Bool) → ℕ → List ℕ → Option ℕ
past_seen see n [] = some n
past_seen see n (d ∷ ds) =
    let next = past_seen see (n + 1) ds in
    let rest = past_seen see n ds in if see d then (if leb 10 (n + 1) then none else next) else rest

unfoldable pub get_stackpos_of_item : (ℕ → Bool) → Item → Tile → Option ℕ
get_stackpos_of_item see x t =
    let n = ground_count t in
    let m = n + top_item_count t in
    let downs : Option ℕ = elim (past_seen see m t.creatures) [
      | none ↦ none
      | some k ↦ count_to_below x k (down_items t)
    ] in
    if ground_is (is_item x) t.ground
    then some 0
    else (if x.type.always_on_top
        then count_to_below x n (top_items t)
        else (if leb 10 m then none else downs))

-- The tile as the client has it: without the creatures it does not see.
abbrev pub visible : (ℕ → Bool) → List ℕ → List ℕ
visible see [] = []
visible see (c ∷ cs) = if see c then c ∷ visible see cs else visible see cs

abbrev pub below_ten : Option ℕ → Option ℕ
below_ten none = none
below_ten (some n) = if ltb n 10 then some n else none
