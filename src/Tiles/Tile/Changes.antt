-- ===== src/Tiles/Tile/Changes.antt =====
-- What changes a tile: `addThing`, `internalAddThing`, `removeThing`, `replaceThing` and
-- `updateThing` of src/tile.cpp. Messages to spectators, parents of things and the windows that
-- browse the field are left out; `onAddTileItem` and `onRemoveTileItem` set and reset the flags.

use otx.Prelude.{
  ℕ, zero, suc, ◌+◌, ◌-◌, ◌%◌, Bool, not, ◌&&◌, Option, none, some, List, [], ◌∷◌, ◌++◌, ltb, leb,
  ◌==◌, if◌then◌else◌, length, get_elem?,
}
use otx.Prelude.Sets.{has, remove}
use otx.Tiles.Item.{
  is_magic_field_object, uids, set_id, set_sub_type, remove_item, replace_item, ItemType, Item,
}
use otx.Tiles.Flags.{set_tile_flags, reset_tile_flags}
use otx.Tiles.Tile.{
  down_items, top_items, top_item_count, ground_is, has_property_except, is_item, get_thing_index,
  Tile, Thing, a_creature, an_item,
}

unfoldable pub reset_flags : Item → Tile → Tile
reset_flags x t = record t { flags = reset_tile_flags (λ p. has_property_except x p t) x t.flags }

unfoldable pub set_flags : Item → Tile → Tile
set_flags x t = record t { flags = set_tile_flags x t.flags }

-- The vector of items, in its two parts. The count of the first is of 16 bits.
unfoldable pub set_tops : List Item → Tile → Tile
set_tops xs t = record t { items = down_items t ++ xs }

unfoldable pub set_downs : List Item → ℕ → Tile → Tile
set_downs xs n t = record t { items = xs ++ top_items t; down_item_count = n % 65536 }

-- `newCount` of `removeThing`: the difference is of 32 bits, then signed, then a byte.
unfoldable pub count_left : ℕ → ℕ → ℕ
count_left have count =
    let left = (have + 4294967296 - count % 4294967296) % 4294967296 in
    if ltb left 2147483648 then left % 256 else 0

unfoldable pub remove_top : Item → Tile → Tile
remove_top x t =
    if has x.uid (uids (top_items t))
    then reset_flags x (set_tops (remove_item x.uid (top_items t)) t)
    else t

unfoldable pub remove_down : Item → ℕ → Tile → Tile
remove_down x count t =
    let counted = record x { item_count = count_left x.item_count count } in
    let less = set_downs (replace_item x.uid counted (down_items t)) t.down_item_count t in
    let gone = set_downs (remove_item x.uid (down_items t)) (t.down_item_count + 65535) t in
    if has x.uid (uids (down_items t))
    then (if x.type.stackable && not (count == x.item_count) then less else reset_flags x gone)
    else t

-- The thing is the object that the caller points at, so its fields are those of the object.
unfoldable pub remove_thing : Thing → ℕ → Tile → Tile
remove_thing (a_creature c) count t = record t { creatures = remove c t.creatures }
remove_thing (an_item x) count t =
    let bare = reset_flags x (record t { ground = none }) in
    let less = if x.type.always_on_top then remove_top x t else remove_down x count t in
    elim (get_thing_index (an_item x) t) [
      | none ↦ t
      | some i ↦ if ground_is (is_item x) t.ground then bare else less
    ]

-- The place of a new item among those that are always on top: before the first that passes a test.
unfoldable pub insert_before : (Item → Bool) → Item → List Item → List Item
insert_before p x [] = x ∷ []
insert_before p x (y ∷ ys) = let rest = insert_before p x ys in if p y then x ∷ y ∷ ys else y ∷ rest

unfoldable pub first_where : (Item → Bool) → List Item → Option Item
first_where p [] = none
first_where p (x ∷ xs) = if p x then some x else first_where p xs

unfoldable pub add_ground : Item → Tile → Tile
add_ground x t =
    let placed = record t { ground = some x } in
    elim t.ground [ none ↦ set_flags x placed | some old ↦ set_flags x (reset_flags old placed) ]

unfoldable pub remove_splash : Item → Tile → Tile
remove_splash x t =
    if x.type.is_splash
    then elim (first_where (λ y. y.type.is_splash) (top_items t)) [
      | none ↦ t
      | some old ↦ remove_thing (an_item old) 1 t
    ]
    else t

unfoldable pub add_top : Item → Tile → Tile
add_top x t =
    let s = remove_splash x t in
    let below : Item → Bool = λ y. leb x.type.always_on_top_order y.type.always_on_top_order in
    set_flags x (set_tops (insert_before below x (top_items s)) s)

unfoldable pub push_down : Item → Tile → Tile
push_down x t = set_downs (x ∷ down_items t) (t.down_item_count + 1) t

unfoldable pub add_down : Item → Tile → Tile
add_down x t =
    let plainly = set_flags x (push_down x t) in
    if x.type.is_magic_field
    then elim (first_where is_magic_field_object (down_items t)) [
      | none ↦ plainly
      | some old ↦
          let s = remove_thing (an_item old) 1 t in
          if old.type.replaceable then set_flags x (push_down x s) else t
    ]
    else plainly

unfoldable pub add_thing : Thing → Tile → Tile
add_thing (a_creature c) t = record t { creatures = c ∷ t.creatures }
add_thing (an_item x) t =
    let placed = if x.type.always_on_top then add_top x t else add_down x t in
    if leb 65535 (length t.items)
    then t
    else (if x.type.is_ground_tile then add_ground x t else placed)

unfoldable pub internal_add_thing : Thing → Tile → Tile
internal_add_thing (a_creature c) t = record t { creatures = c ∷ t.creatures }
internal_add_thing (an_item x) t =
    let grounded : Tile = elim t.ground [
      | none ↦ set_flags x (record t { ground = some x })
      | some old ↦ t
    ] in
    let below : Item → Bool = λ y. ltb x.type.always_on_top_order y.type.always_on_top_order in
    let placed =
      if x.type.always_on_top
      then set_tops (insert_before below x (top_items t)) t
      else push_down x t in
    if x.type.is_ground_tile
    then grounded
    else (if leb 65535 (length t.items) then t else set_flags x placed)

-- The item at a place of a list, changed for another.
unfoldable pub set_at : ℕ → Item → List Item → List Item
set_at i y [] = []
set_at zero y (x ∷ xs) = y ∷ xs
set_at (suc i) y (x ∷ xs) = x ∷ set_at i y xs

-- Past the end nothing is replaced, and a creature's place is refused.
unfoldable pub replace_at : ℕ → Item → Tile → Tile
replace_at index x t = elim t.ground [
  | none ↦ above_ground index
  | some g ↦ if index == 0 then swap g (record t { ground = some x }) else above_ground (index - 1)
]
  where
    swap : Item → Tile → Tile
    swap old s = set_flags x (reset_flags old s)

    at : List Item → ℕ → (List Item → Tile) → Tile
    at xs i put = elim (get_elem? xs i) [ none ↦ t | some old ↦ swap old (put (set_at i x xs)) ]

    above_tops : ℕ → Tile
    above_tops i =
        if ltb i (length t.creatures)
        then t
        else at (down_items t) (i - length t.creatures) (λ ys. set_downs ys t.down_item_count t)

    above_ground : ℕ → Tile
    above_ground i =
        if ltb i (top_item_count t)
        then at (top_items t) i (λ ys. set_tops ys t)
        else above_tops (i - top_item_count t)

-- The index is read as a signed number of 32 bits; where it is negative, the source looks in front of
-- its vectors, and there is no result.
unfoldable pub replace_thing : ℕ → Item → Tile → Option Tile
replace_thing index x t = if ltb index 2147483648 then some (replace_at index x t) else none

-- `updateThing`: the object changes where it stands, whatever part its new type belongs to.
unfoldable pub update_thing : Item → ItemType → ℕ → Tile → Tile
update_thing x type count t =
    let new = set_sub_type count (set_id type x) in
    let s = reset_flags x t in
    let put =
      if ground_is (is_item x) s.ground
      then record s { ground = some new }
      else record s { items = replace_item x.uid new s.items } in
    elim (get_thing_index (an_item x) t) [ none ↦ t | some i ↦ set_flags new put ]
