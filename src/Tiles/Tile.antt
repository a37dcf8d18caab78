-- ===== src/Tiles/Tile.antt =====
-- The class `Tile` of src/tile.h and what src/tile.cpp reads off a tile: where the ground, the items
-- that are always on top, the creatures and the other items stand, for the server and for a client.
pub mod Changes
pub mod Things
pub mod Counting
pub mod Index
pub mod Client
pub mod Positions
pub mod Parts
pub mod Proper
pub mod Soundness
pub mod Room
pub mod Additions
pub mod Lookups
pub mod Exactness
pub mod Whereabouts
pub mod Upkeep
pub mod Gains
pub mod Replacement
pub mod History
use otx.Prelude.{
  ℕ, ◌+◌, ◌-◌, Bool, true, false, not, ◌&&◌, ◌||◌, Option, none, some, List, [], ◌∷◌, ltb, ◌==◌,
  if◌then◌else◌, length, get_elem?, take, drop,
}
use otx.Tiles.Item.{has_property, any, Item, Property}
use otx.Tiles.Flags.{TileFlags}

-- One vector holds the items: first those that are not always on top, as many as
-- `down_item_count`, then those that are. A vector that the source has not made yet is empty.
pub record Tile : Type 0 where
  pub ground : Option Item
  pub items : List Item
  pub down_item_count : ℕ
  pub creatures : List ℕ
  pub flags : TileFlags

pub data Thing : Type 0 where
  a_creature : ℕ → Thing
  an_item : Item → Thing

-- From `getBeginDownItem` to `getEndDownItem`, and from there to the end.
unfoldable pub down_items : Tile → List Item
down_items t = take t.down_item_count t.items

unfoldable pub top_items : Tile → List Item
top_items t = drop t.down_item_count t.items

abbrev pub ground_count : Tile → ℕ
ground_count t = elim t.ground [ none ↦ 0 | some g ↦ 1 ]

abbrev pub top_item_count : Tile → ℕ
top_item_count t = length t.items - t.down_item_count

unfoldable pub get_thing_count : Tile → ℕ
get_thing_count t = length t.creatures + length t.items + ground_count t

-- Whether the ground satisfies a test.
abbrev pub ground_is : (Item → Bool) → Option Item → Bool
ground_is p none = false
ground_is p (some g) = p g

unfoldable pub tile_has_property : Property → Tile → Bool
tile_has_property p t = ground_is (has_property p) t.ground || any (has_property p) t.items

unfoldable pub has_property_except : Item → Property → Tile → Bool
has_property_except x p t =
    let other : Item → Bool = λ y. not (x.uid == y.uid) && has_property p y in
    ground_is other t.ground || any other t.items

-- The loop of `hasHeight`.
unfoldable pub reaches_height : ℕ → ℕ → List Item → Bool
reaches_height n height [] = false
reaches_height n height (x ∷ xs) =
    let next = if has_property Property.has_height x then height + 1 else height in
    let rest = reaches_height n next xs in if n == next then true else rest

unfoldable pub tile_has_height : ℕ → Tile → Bool
tile_has_height n t = elim t.ground [
  | none ↦ reaches_height n 0 t.items
  | some g ↦
      let height = if has_property Property.has_height g then 1 else 0 in
      let rest = reaches_height n height t.items in if n == height then true else rest
]

unfoldable pub get_thing : ℕ → Tile → Option Thing
get_thing index t = elim t.ground [
  | none ↦ above_ground index
  | some g ↦ if index == 0 then some (an_item g) else above_ground (index - 1)
]
  where
    item_at : ℕ → Option Thing
    item_at i = elim (get_elem? t.items i) [ none ↦ none | some x ↦ some (an_item x) ]

    creature_at : ℕ → Option Thing
    creature_at i = elim (get_elem? t.creatures i) [ none ↦ none | some c ↦ some (a_creature c) ]

    above_creatures : ℕ → Option Thing
    above_creatures i = if ltb i t.down_item_count then item_at i else none

    above_tops : ℕ → Option Thing
    above_tops i =
        if ltb i (length t.creatures)
        then creature_at i
        else above_creatures (i - length t.creatures)

    above_ground : ℕ → Option Thing
    above_ground i =
        if ltb i (top_item_count t)
        then item_at (t.down_item_count + i)
        else above_tops (i - top_item_count t)

-- A loop that counts from `n` to the first element that satisfies a test.
abbrev pub count_to {ℓ} : {A : Type ℓ} → (A → Bool) → ℕ → List A → Option ℕ
count_to p n [] = none
count_to p n (x ∷ xs) = if p x then some n else count_to p (n + 1) xs

abbrev pub is_item : Item → Item → Bool
is_item x y = x.uid == y.uid

abbrev pub or_else {ℓ} : {A : Type ℓ} → Option A → Option A → Option A
or_else none b = b
or_else (some a) b = some a

-- An index of the source starts at -1 and counts up before it compares; here it compares first.
unfoldable pub get_thing_index : Thing → Tile → Option ℕ
get_thing_index (a_creature c) t = count_to (◌==◌ c) (ground_count t + top_item_count t) t.creatures
get_thing_index (an_item x) t =
    let n = ground_count t in
    let m = n + top_item_count t + length t.creatures in
    if ground_is (is_item x) t.ground
    then some 0
    else (if x.type.always_on_top
        then count_to (is_item x) n (top_items t)
        else count_to (is_item x) m (down_items t))

unfoldable pub get_use_item : Tile → Option Item
get_use_item t = elim t.items [
  | [] ↦ t.ground
  | y ∷ ys ↦
      or_else (last_forced t.items) (or_else (get_elem? (down_items t) 0) (last (top_items t)))
]
  where
    last : List Item → Option Item
    last [] = none
    last (x ∷ xs) = or_else (last xs) (some x)

    last_forced : List Item → Option Item
    last_forced [] = none
    last_forced (x ∷ xs) =
        or_else (last_forced xs)
          (if x.type.force_use && not x.type.is_container then some x else none)

unfoldable pub get_item_by_top_order : ℕ → Tile → Option Item
get_item_by_top_order order t = last_of (top_items t)
  where
    last_of : List Item → Option Item
    last_of [] = none
    last_of (x ∷ xs) =
        or_else (last_of xs) (if x.type.always_on_top_order == order then some x else none)
