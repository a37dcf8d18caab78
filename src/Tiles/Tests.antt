-- ===== src/Tiles/Tests.antt =====
-- A small tile and what the theorems on tiles say of it.

use otx.Tiles.Item.{has_property, remove_item, replace_item, ItemType, Item, plain, blocks_solid}
use otx.Tiles.Flags.{TileFlags, set_tile_flags, reset_tile_flags}
use otx.Tiles.Tile.{
  down_items, top_items, tile_has_property, has_property_except, get_thing, get_thing_index, Tile,
  Thing, a_creature, an_item,
}
use otx.Tiles.Tile.Changes.{
  reset_flags, set_flags, set_tops, set_downs, count_left, remove_top, remove_down, remove_thing,
  insert_before, first_where, add_ground, remove_splash, add_top, push_down, add_down, add_thing,
  internal_add_thing, replace_thing,
}
use otx.Tiles.Tile.Soundness.{IsSound}
use otx.Tiles.Tile.Exactness.{solid}
use otx.Tiles.Tile.History.{
  empty_tile, IsReached-IsSound, IsReached-IsExact, IsReached, empty, added, loaded, removed,
  entered,
}
use otx.Tiles.Tile.Things.{things, get_thing_refines}
use otx.Tiles.Tile.Counting.{same, IsRegional}
use otx.Tiles.Tile.Index.{get_thing-get_thing_index}
use otx.Tiles.Tile.Client.{get_stackpos_of_item, below_ten}
use otx.Tiles.Tile.Positions.{client_tile, get_stackpos_of_item_lem}
use otx.Tiles.Tile.Replacement.{replaced, replace_thing_refines}
use otx.Prelude.{ℕ, ◌≡◌, refl, inl, inr, true, false, some, [], ◌∷◌, arith, get_elem?}

abbrev plain_type : ItemType
plain_type = record {
  is_ground_tile = false;
  always_on_top = false;
  always_on_top_order = 0;
  is_splash = false;
  is_magic_field = false;
  replaceable = true;
  stackable = false;
  moveable = true;
  block_solid = false;
  has_height = false;
  block_projectile = false;
  block_path_find = false;
  is_vertical = false;
  is_horizontal = false;
  force_use = false;
  is_container = false;
  look_through = false;
  is_fluid_container = false;
  charges = 0;
  floor_change = [];
}

abbrev item : ℕ → ItemType → Item
item u y = record { uid = u; type = y; class = plain; has_unique_id = false; item_count = 10 }

abbrev grass : Item
grass = item 1 (record plain_type { is_ground_tile = true; moveable = false })

abbrev border : Item
border = item 2 (record plain_type { always_on_top = true; always_on_top_order = 1 })

abbrev ladder : Item
ladder =
    item 3
      (record plain_type { always_on_top = true; always_on_top_order = 2; floor_change = 1 ∷ [] })

abbrev coins : Item
coins = item 4 (record plain_type { stackable = true })

abbrev stone : Item
stone = item 5 (record plain_type { block_solid = true; moveable = false; block_path_find = true })

abbrev no_flags : TileFlags
no_flags n = false

abbrev start : Tile
start = empty_tile no_flags

abbrev grassy : Tile
grassy = add_thing (an_item grass) start

abbrev laddered : Tile
laddered = internal_add_thing (an_item ladder) grassy

abbrev bordered : Tile
bordered = add_thing (an_item border) laddered

abbrev visited : Tile
visited = add_thing (a_creature 77) bordered

abbrev stony : Tile
stony = add_thing (an_item stone) visited

abbrev rich : Tile
rich = add_thing (an_item coins) stony

abbrev spent : Tile
spent = remove_thing (an_item coins) 3 rich

spent_count : get_thing 4 spent ≡ some (an_item (record coins { item_count = 7 }))
unfolding empty_tile add_thing internal_add_thing remove_thing get_thing down_items top_items
    set_flags reset_flags set_tops set_downs count_left remove_top remove_down remove_item
    replace_item insert_before first_where add_ground remove_splash add_top push_down add_down
    get_thing_index
spent_count = refl

reached : IsReached spent
unfolding empty_tile add_thing internal_add_thing remove_thing get_thing down_items top_items
    set_flags reset_flags set_tops set_downs count_left remove_top remove_down remove_item
    replace_item insert_before first_where add_ground remove_splash add_top push_down add_down
    get_thing_index
reached =
    removed coins 3
      (added coins
        (added stone
          (entered 77 (
            added border
              (loaded ladder (added grass (empty no_flags (λ p b k. refl)) new tt) new
                (omega arith, tt))
              new tt))
          new tt)
        new tt)
      (inr (inl (inl refl)))
  where
    new : (false ≡ false) × ((false ≡ false) × (false ≡ false))
    new = (refl, (refl, refl))

IsReached-IsSound_example : IsSound spent
IsReached-IsSound_example = IsReached-IsSound spent reached

IsReached-IsExact_example : spent.flags 17 ≡ tile_has_property blocks_solid spent
IsReached-IsExact_example = IsReached-IsExact blocks_solid 17 spent solid reached

get_thing_refines_example : get_thing 3 spent ≡ get_elem? (things spent) 3
get_thing_refines_example = get_thing_refines 3 spent

get_thing-get_thing_index_example :
    (i : ℕ) × (get_thing_index (an_item stone) spent ≡ some i)
    × ((y : Thing) × (get_thing i spent ≡ some y) × (same (an_item stone) y ≡ true))
unfolding empty_tile add_thing internal_add_thing remove_thing get_thing down_items top_items
    set_flags reset_flags set_tops set_downs count_left remove_top remove_down remove_item
    replace_item insert_before first_where add_ground remove_splash add_top push_down add_down
    get_thing_index IsRegional things
get_thing-get_thing_index_example = get_thing-get_thing_index (an_item stone) spent refl refl

get_stackpos_of_item_lem_example :
    get_stackpos_of_item (λ c. false) stone spent
    ≡ below_ten (get_thing_index (an_item stone) (client_tile (λ c. false) spent))
get_stackpos_of_item_lem_example = get_stackpos_of_item_lem (λ c. false) stone spent

replace_thing_refines_example :
    (u : Tile) × ((replace_thing 4 border spent ≡ some u)
      × (things u ≡ replaced 4 border (things spent)))
replace_thing_refines_example =
    replace_thing_refines 4 border spent (IsReached-IsSound spent reached) (omega arith)

-- The client does not count a creature that it does not see.
stone_seen : get_stackpos_of_item (λ c. false) stone spent ≡ some 4
unfolding empty_tile add_thing internal_add_thing remove_thing get_thing down_items top_items
    set_flags reset_flags set_tops set_downs count_left remove_top remove_down remove_item
    replace_item insert_before first_where add_ground remove_splash add_top push_down add_down
    get_thing_index get_stackpos_of_item
stone_seen = refl

blocked : (spent.flags 17 ≡ true) × ((remove_thing (an_item stone) 1 spent).flags 17 ≡ false)
unfolding empty_tile add_thing internal_add_thing remove_thing get_thing down_items top_items
    set_flags reset_flags set_tops set_downs count_left remove_top remove_down remove_item
    replace_item insert_before first_where add_ground remove_splash add_top push_down add_down
    get_thing_index set_tile_flags reset_tile_flags has_property has_property_except
blocked = (refl, refl)
