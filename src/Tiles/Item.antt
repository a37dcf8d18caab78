-- ===== src/Tiles/Item.antt =====
-- `ItemType` of src/items.h and `Item` of src/item.h, as far as tiles read them. An item carries
-- its type, which the source looks up in a table by the item's id, and is told from others by its
-- `uid`, where the source compares pointers. A mask of flags is the list of its bits.

use otx.Prelude.{ℕ, ◌%◌, Bool, true, false, not, ◌&&◌, ◌||◌, List, [], ◌∷◌, ◌==◌, if◌then◌else◌}

pub record ItemType : Type 0 where
  pub is_ground_tile : Bool
  pub always_on_top : Bool
  pub always_on_top_order : ℕ
  pub is_splash : Bool
  pub is_magic_field : Bool
  pub replaceable : Bool
  pub stackable : Bool
  pub moveable : Bool
  pub block_solid : Bool
  pub has_height : Bool
  pub block_projectile : Bool
  pub block_path_find : Bool
  pub is_vertical : Bool
  pub is_horizontal : Bool
  pub force_use : Bool
  pub is_container : Bool
  pub look_through : Bool
  pub is_fluid_container : Bool
  pub charges : ℕ
  pub floor_change : List ℕ

-- The class of an item's object.
pub data ItemClass : Type 0 where
  plain teleport magic_field mailbox trash_holder bed container depot_locker : ItemClass

pub record Item : Type 0 where
  pub uid : ℕ
  pub type : ItemType
  pub class : ItemClass
  pub has_unique_id : Bool
  pub item_count : ℕ

-- `ITEMPROPERTY`.
pub data Property : Type 0 where
  blocks_solid moves has_height blocks_projectile blocks_path vertical horizontal : Property
  immovable_blocks_solid immovable_blocks_path immovable_no_field_blocks_path : Property
  no_field_blocks_path supports_hangable : Property

unfoldable pub has_property : Property → Item → Bool
has_property blocks_solid x = x.type.block_solid
has_property moves x = x.type.moveable && not x.has_unique_id
has_property has_height x = x.type.has_height
has_property blocks_projectile x = x.type.block_projectile
has_property blocks_path x = x.type.block_path_find
has_property vertical x = x.type.is_vertical
has_property horizontal x = x.type.is_horizontal
has_property immovable_blocks_solid x =
    x.type.block_solid && (not x.type.moveable || x.has_unique_id)
has_property immovable_blocks_path x =
    x.type.block_path_find && (not x.type.moveable || x.has_unique_id)
has_property immovable_no_field_blocks_path x =
    not x.type.is_magic_field && x.type.block_path_find && (not x.type.moveable || x.has_unique_id)
has_property no_field_blocks_path x = not x.type.is_magic_field && x.type.block_path_find
has_property supports_hangable x = x.type.is_horizontal || x.type.is_vertical

abbrev pub is_magic_field_object : Item → Bool
is_magic_field_object x = elim x.class [ magic_field ↦ true | _ ↦ false ]

-- Whether an element of a list satisfies a test.
abbrev pub any {ℓ} : {A : Type ℓ} → (A → Bool) → List A → Bool
any p [] = false
any p (x ∷ xs) = p x || any p xs

abbrev pub uids : List Item → List ℕ
uids [] = []
uids (x ∷ xs) = x.uid ∷ uids xs

-- `setID` and `setSubType`: the type the new id stands for and, where the subtype is neither a fluid
-- nor a number of charges, the count, a byte.
unfoldable pub set_id : ItemType → Item → Item
set_id y x = record x { type = y }

unfoldable pub set_sub_type : ℕ → Item → Item
set_sub_type n x =
    let counted = record x { item_count = n % 256 } in
    if x.type.is_fluid_container || x.type.is_splash
    then x
    else (if x.type.stackable then counted else (if x.type.charges == 0 then counted else x))

-- `erase` of the item that a pointer is found at.
unfoldable pub remove_item : ℕ → List Item → List Item
remove_item u [] = []
remove_item u (x ∷ xs) = let rest = remove_item u xs in if u == x.uid then xs else x ∷ rest

-- An item put in another's place.
unfoldable pub replace_item : ℕ → Item → List Item → List Item
replace_item u y [] = []
replace_item u y (x ∷ xs) =
    let rest = replace_item u y xs in if u == x.uid then y ∷ xs else x ∷ rest
