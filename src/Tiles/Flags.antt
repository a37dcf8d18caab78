-- ===== src/Tiles/Flags.antt =====
-- The flags of a tile, `tileflags_t` of src/tile.h, and what `setTileFlags` and `resetTileFlags` of
-- src/tile.cpp do to them. The word of flags is the function from its bits.

use otx.Prelude.{ℕ, Bool, true, false, not, ◌&&◌, ◌||◌, List, [], ◌∷◌, ltb, ◌==◌, if◌then◌else◌}
use otx.Prelude.Sets.{has}
use otx.Tiles.Item.{
  has_property, ItemClass, Item, Property, plain, teleport, magic_field, mailbox, trash_holder, bed,
  container, depot_locker, blocks_solid, blocks_path, immovable_blocks_solid, immovable_blocks_path,
  immovable_no_field_blocks_path, no_field_blocks_path, supports_hangable,
}

abbrev pub TileFlags : Type 0
TileFlags = ℕ → Bool

abbrev pub set_if : Bool → ℕ → TileFlags → TileFlags
set_if c bit f n = if n == bit then c || f n else f n

abbrev pub reset_if : Bool → ℕ → TileFlags → TileFlags
reset_if c bit f n = if n == bit then not c && f n else f n

-- The mask of an item type, and the bits of TILESTATE_FLOORCHANGE.
abbrev pub set_mask : List ℕ → TileFlags → TileFlags
set_mask bits f n = has n bits || f n

abbrev pub has_floor_change : TileFlags → Bool
has_floor_change f = f 0 || f 1 || f 2 || f 3 || f 4 || f 5 || f 6

abbrev pub reset_floor_change : Bool → TileFlags → TileFlags
reset_floor_change c f n = if ltb n 7 then not c && f n else f n

abbrev pub is_of_class : ItemClass → ItemClass → Bool
is_of_class teleport c = elim c [ teleport ↦ true | _ ↦ false ]
is_of_class magic_field c = elim c [ magic_field ↦ true | _ ↦ false ]
is_of_class mailbox c = elim c [ mailbox ↦ true | _ ↦ false ]
is_of_class trash_holder c = elim c [ trash_holder ↦ true | _ ↦ false ]
is_of_class bed c = elim c [ bed ↦ true | _ ↦ false ]
is_of_class container c = elim c [ container ↦ true | depot_locker ↦ true | _ ↦ false ]
is_of_class depot_locker c = elim c [ depot_locker ↦ true | _ ↦ false ]
is_of_class plain c = true

unfoldable pub set_tile_flags : Item → TileFlags → TileFlags
set_tile_flags x f =
    let f₁ = if has_floor_change f then f else set_mask x.type.floor_change f in
    let f₂ = set_if (has_property immovable_blocks_solid x) 19 f₁ in
    let f₃ = set_if (has_property blocks_path x) 18 f₂ in
    let f₄ = set_if (has_property no_field_blocks_path x) 22 f₃ in
    let f₅ = set_if (has_property immovable_no_field_blocks_path x) 21 f₄ in
    let f₆ = set_if (is_of_class teleport x.class) 11 f₅ in
    let f₇ = set_if (is_of_class magic_field x.class) 12 f₆ in
    let f₈ = set_if (is_of_class mailbox x.class) 13 f₇ in
    let f₉ = set_if (is_of_class trash_holder x.class) 14 f₈ in
    let f₁₀ = set_if (has_property blocks_solid x) 17 f₉ in
    let f₁₁ = set_if (is_of_class bed x.class) 15 f₁₀ in
    let f₁₂ = set_if (is_of_class depot_locker x.class) 16 f₁₁ in
    set_if (has_property supports_hangable x) 23 f₁₂

-- `others` says whether another item of the tile has a property.
unfoldable pub reset_tile_flags : (Property → Bool) → Item → TileFlags → TileFlags
reset_tile_flags others x f =
    let alone : Property → Bool = λ p. has_property p x && not (others p) in
    let f₁ = reset_floor_change (elim x.type.floor_change [ [] ↦ false | b ∷ bs ↦ true ]) f in
    let f₂ = reset_if (alone blocks_solid) 17 f₁ in
    let f₃ = reset_if (alone immovable_blocks_solid) 19 f₂ in
    let f₄ = reset_if (alone blocks_path) 18 f₃ in
    let f₅ = reset_if (alone no_field_blocks_path) 22 f₄ in
    let f₆ = reset_if (alone immovable_blocks_path) 20 f₅ in
    let f₇ = reset_if (alone immovable_no_field_blocks_path) 21 f₆ in
    let f₈ = reset_if (is_of_class teleport x.class) 11 f₇ in
    let f₉ = reset_if (is_of_class magic_field x.class) 12 f₈ in
    let f₁₀ = reset_if (is_of_class mailbox x.class) 13 f₉ in
    let f₁₁ = reset_if (is_of_class trash_holder x.class) 14 f₁₀ in
    let f₁₂ = reset_if (is_of_class bed x.class) 15 f₁₁ in
    let f₁₃ = reset_if (is_of_class depot_locker x.class) 16 f₁₂ in
    reset_if (has_property supports_hangable x) 23 f₁₃
