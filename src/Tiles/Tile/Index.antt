-- ===== src/Tiles/Tile/Index.antt =====
-- The index that `getThingIndex` gives a thing is its place in the sequence of the tile's things,
-- and `getThing` finds the thing there again.

use otx.Prelude.{
  ℕ, ◌+◌, ◌-◌, ◌≤◌, ◌≡◌, refl, sym, ap, ◌∙◌, inl, inr, Bool, true, some, arith, if◌then◌else◌,
  Option-cases, length, get_elem?, length-drop,
}
use otx.Tiles.Item.{any}
use otx.Tiles.Tile.{
  down_items, top_items, top_item_count, get_thing, count_to, is_item, get_thing_index, Tile, Thing,
  a_creature, an_item,
}
use otx.Tiles.Tile.Things.{things, get_thing_refines}
use otx.Tiles.Tile.Counting.{
  same, IsRegional, count_to-found, count_to-total, items_then, creatures_then, one_part,
}

pub get_thing_index_counts :
    (x : Thing) (t : Tile) → IsRegional x t → get_thing_index x t ≡ count_to (same x) 0 (things t)
unfolding get_thing_index things IsRegional top_items down_items
get_thing_index_counts (a_creature c) t h = elim (Option-cases t.ground) [
  | inl e ↦
      rw
        (
          e,
          creatures_then c 0 (top_items t) t.creatures (down_items t),
          length-drop t.down_item_count t.items,
        )
        refl
  | inr (g, e) ↦
      rw
        (
          e,
          creatures_then c 1 (top_items t) t.creatures (down_items t),
          length-drop t.down_item_count t.items,
        )
        refl
]
get_thing_index_counts (an_item x) t h = elim (Option-cases t.ground) [
  | inl e ↦
      rw
        (
          e,
          items_then x 0 (top_items t) t.creatures (down_items t),
          length-drop t.down_item_count t.items,
        )
        (one_part x 0 (0 + top_item_count t + length t.creatures) (top_items t) (down_items t)
          x.type.always_on_top h)
  | inr (g, e) ↦
      rw
        (
          e,
          items_then x 1 (top_items t) t.creatures (down_items t),
          length-drop t.down_item_count t.items,
        )
        (ap (λ o. if is_item x g then some 0 else o)
          (one_part x 1 (1 + top_item_count t + length t.creatures) (top_items t) (down_items t)
            x.type.always_on_top h))
]

-- Whether a thing stands on a tile.
abbrev pub stands : Thing → Tile → Bool
stands x t = any (same x) (things t)

-- A thing that stands on a tile, and if it is an item does not stand in the part of the vector that
-- is not for its type, has an index, and the thing at that index is the same object.
pub get_thing-get_thing_index :
    (x : Thing) (t : Tile)
    → IsRegional x t
    → stands x t ≡ true
    → (i : ℕ) × (get_thing_index x t ≡ some i)
      × ((y : Thing) × (get_thing i t ≡ some y) × (same x y ≡ true))
get_thing-get_thing_index x t h s = found (count_to-total (same x) 0 (things t) s)
  where
    found :
        (i : ℕ) × (count_to (same x) 0 (things t) ≡ some i)
        → (i : ℕ) × (get_thing_index x t ≡ some i)
          × ((y : Thing) × (get_thing i t ≡ some y) × (same x y ≡ true))
    found (i, e) =
        (i, get_thing_index_counts x t h ∙ e, back (count_to-found (same x) 0 (things t) i e))
      where
        zeroed : i - 0 ≡ i
        zeroed = omega arith

        back :
            (0 ≤ i) × ((y : Thing) × (get_elem? (things t) (i - 0) ≡ some y) × (same x y ≡ true))
            → (y : Thing) × (get_thing i t ≡ some y) × (same x y ≡ true)
        back (_, (y, f, q)) =
            (y, get_thing_refines i t ∙ (ap (get_elem? (things t)) (sym zeroed) ∙ f), q)
