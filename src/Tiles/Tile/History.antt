-- ===== src/Tiles/Tile/History.antt =====
-- The tiles that come to be: made empty by the map, then added to and taken from in any order.
use otx.Prelude.{ℕ, ◌≡◌, refl, false, none, [], arith}
use otx.Tiles.Item.{Item, Property}
use otx.Tiles.Flags.{TileFlags}
use otx.Tiles.Tile.{down_items, top_items, tile_has_property, Tile, a_creature, an_item}
use otx.Tiles.Tile.Changes.{remove_thing, add_thing, internal_add_thing}
use otx.Tiles.Tile.Soundness.{IsNew, remove_thing-IsSound, IsSound}
use otx.Tiles.Tile.Additions.{add_thing-IsSound, internal_add_thing-IsSound}
use otx.Tiles.Tile.Exactness.{IsFloorMask, IsExact, IsFlagOf}
use otx.Tiles.Tile.Whereabouts.{IsOn}
use otx.Tiles.Tile.Upkeep.{remove_thing-IsExact}
use otx.Tiles.Tile.Gains.{add_thing-IsExact, internal_add_thing-IsExact}

-- `Tile::Tile`, with the flags that the map gives it, none of which stands for an item's property.
unfoldable pub empty_tile : TileFlags → Tile
empty_tile f = record { ground = none; items = []; down_item_count = 0; creatures = []; flags = f }

-- Items added are nowhere on the tile yet, and items taken from it are its own.
pub data IsReached : Tile → Type 0 where
  empty :
      (f : TileFlags)
      → ((p : Property) (b : ℕ) → IsFlagOf p b → f b ≡ false)
      → IsReached (empty_tile f)
  added :
      {t : Tile} (x : Item)
      → IsReached t
      → IsNew x t
      → IsFloorMask x
      → IsReached (add_thing (an_item x) t)
  loaded :
      {t : Tile} (x : Item)
      → IsReached t
      → IsNew x t
      → IsFloorMask x
      → IsReached (internal_add_thing (an_item x) t)
  removed :
      {t : Tile} (x : Item) (count : ℕ)
      → IsReached t
      → IsOn x t
      → IsReached (remove_thing (an_item x) count t)
  entered : {t : Tile} (c : ℕ) → IsReached t → IsReached (add_thing (a_creature c) t)
  placed : {t : Tile} (c : ℕ) → IsReached t → IsReached (internal_add_thing (a_creature c) t)
  left : {t : Tile} (c count : ℕ) → IsReached t → IsReached (remove_thing (a_creature c) count t)

empty_tile-IsSound : (f : TileFlags) → IsSound (empty_tile f)
unfolding empty_tile down_items top_items
empty_tile-IsSound f = record {
  in_range = omega arith;
  proper = record {
    few = omega arith;
    downs_down = tt;
    tops_top = tt;
    tops_ordered = tt;
    downs_distinct = tt;
    tops_distinct = tt;
    parts_disjoint = λ u h. refl;
    ground_downs = λ u h. refl;
    ground_tops = λ u h. refl;
  };
}

-- Every tile that comes to be by adding items that are not on it yet, loading such, removing items
-- of its own, and creatures that come and go, is sound: no more than 65535 items, the items always
-- on top apart from the others and in their order, and no item in two places.
pub IsReached-IsSound : (t : Tile) → IsReached t → IsSound t
IsReached-IsSound t (empty f e) = empty_tile-IsSound f
IsReached-IsSound t (added {t = s} x h n m) =
    add_thing-IsSound (an_item x) s n (IsReached-IsSound s h)
IsReached-IsSound t (loaded {t = s} x h n m) =
    internal_add_thing-IsSound (an_item x) s n (IsReached-IsSound s h)
IsReached-IsSound t (removed {t = s} x count h o) =
    remove_thing-IsSound (an_item x) count s (IsReached-IsSound s h)
IsReached-IsSound t (entered {t = s} c h) =
    add_thing-IsSound (a_creature c) s tt (IsReached-IsSound s h)
IsReached-IsSound t (placed {t = s} c h) =
    internal_add_thing-IsSound (a_creature c) s tt (IsReached-IsSound s h)
IsReached-IsSound t (left {t = s} c count h) =
    remove_thing-IsSound (a_creature c) count s (IsReached-IsSound s h)

-- On every such tile, if the items added change floors by the floor bits only, each of the flags
-- for solid items, items in the way of paths, immovable solid items, items other than fields in the
-- way and immovable such is set exactly when an item of the tile has that property.
pub IsReached-IsExact :
    (p : Property) (b : ℕ) (t : Tile) → IsFlagOf p b → IsReached t → IsExact p b t
unfolding empty_tile add_thing internal_add_thing remove_thing tile_has_property
IsReached-IsExact p b t k (empty f e) = e p b k
IsReached-IsExact p b t k (added {t = s} x h n m) =
    add_thing-IsExact p b k x s (IsReached-IsSound s h) n m (IsReached-IsExact p b s k h)
IsReached-IsExact p b t k (loaded {t = s} x h n m) =
    internal_add_thing-IsExact p b k x s (IsReached-IsSound s h) n m (IsReached-IsExact p b s k h)
IsReached-IsExact p b t k (removed {t = s} x count h o) =
    remove_thing-IsExact p b k x count s (IsReached-IsSound s h) o (IsReached-IsExact p b s k h)
IsReached-IsExact p b t k (entered {t = s} c h) = IsReached-IsExact p b s k h
IsReached-IsExact p b t k (placed {t = s} c h) = IsReached-IsExact p b s k h
IsReached-IsExact p b t k (left {t = s} c count h) = IsReached-IsExact p b s k h
