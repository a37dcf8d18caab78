-- ===== src/Tiles/Tile/Exactness.antt =====
-- Five of a tile's flags say exactly whether one of its items has a property: `setTileFlags` and
-- `resetTileFlags` keep them so.
use otx.Prelude.{
  ℕ, ◌≤◌, ◌<◌, ◌≡◌, refl, sym, ap, ap₂, ◌∙◌, Bool, true, false, not, ◌&&◌, ◌||◌, Option, none, some,
  List, [], ◌∷◌, arith, ◌==◌, if◌then◌else◌, if-both, All, take, drop, take-append-drop,
}
use otx.Prelude.Sets.{has}
use otx.Tiles.Item.{
  has_property, any, Item, Property, blocks_solid, blocks_path, immovable_blocks_solid,
  immovable_no_field_blocks_path, no_field_blocks_path,
}
use otx.Tiles.Flags.{TileFlags, set_mask, has_floor_change, set_tile_flags, reset_tile_flags}
use otx.Tiles.Tile.{down_items, top_items, ground_is, tile_has_property, has_property_except, Tile}
use otx.Tiles.Tile.Changes.{reset_flags, set_flags}
use otx.Tiles.Tile.Parts.{ground_uids}
use otx.Tiles.Tile.Soundness.{IsNew}
use otx.Tiles.Tile.Lookups.{any-append, any_except}

-- The properties that the flags stand for, and their bits.
pub data IsFlagOf : Property → ℕ → Type 0 where
  solid : IsFlagOf blocks_solid 17
  path : IsFlagOf blocks_path 18
  immovable_solid : IsFlagOf immovable_blocks_solid 19
  immovable_no_field : IsFlagOf immovable_no_field_blocks_path 21
  no_field : IsFlagOf no_field_blocks_path 22

-- An item type changes floors by the bits of TILESTATE_FLOORCHANGE only.
abbrev pub IsFloorMask : Item → Type 0
IsFloorMask x = All (λ b. b < 7) x.type.floor_change

high_bit : (p : Property) (b : ℕ) → IsFlagOf p b → 7 ≤ b
high_bit p b solid = omega arith
high_bit p b path = omega arith
high_bit p b immovable_solid = omega arith
high_bit p b immovable_no_field = omega arith
high_bit p b no_field = omega arith

not_masked : (b : ℕ) (bits : List ℕ) → All (λ c. c < 7) bits → 7 ≤ b → has b bits ≡ false
not_masked b [] h l = refl
not_masked b (c ∷ cs) h l = rw (not_masked b cs h.1 l, apart b c h.0 l) refl
  where
    apart : (b c : ℕ) → c < 7 → 7 ≤ b → (b == c) ≡ false
    apart b c k l = ground (arith, k, l)

floor_first :
    (x : Item) (f : TileFlags) (b : ℕ)
    → has b x.type.floor_change ≡ false
    → (if has_floor_change f then f else set_mask x.type.floor_change f) b ≡ f b
floor_first x f b h =
    if-both (λ g. g b ≡ f b) (has_floor_change f) f (set_mask x.type.floor_change f) refl
      (rw (h) refl)

floored :
    (b : ℕ) (x : Item) (f : TileFlags) (c : Bool)
    → IsFloorMask x
    → 7 ≤ b
    → (c || (if has_floor_change f then f else set_mask x.type.floor_change f) b) ≡ (c || f b)
floored b x f c m l = ap (◌||◌ c) (floor_first x f b (not_masked b x.type.floor_change m l))

pub set_tile_flags_exact :
    (p : Property) (b : ℕ) (x : Item) (f : TileFlags)
    → IsFlagOf p b
    → IsFloorMask x
    → set_tile_flags x f b ≡ (has_property p x || f b)
unfolding set_tile_flags
set_tile_flags_exact p b x f solid m = floored 17 x f _ m (omega arith)
set_tile_flags_exact p b x f path m = floored 18 x f _ m (omega arith)
set_tile_flags_exact p b x f immovable_solid m = floored 19 x f _ m (omega arith)
set_tile_flags_exact p b x f immovable_no_field m = floored 21 x f _ m (omega arith)
set_tile_flags_exact p b x f no_field m = floored 22 x f _ m (omega arith)

pub reset_tile_flags_exact :
    (p : Property) (b : ℕ) (others : Property → Bool) (x : Item) (f : TileFlags)
    → IsFlagOf p b
    → reset_tile_flags others x f b ≡ (not (has_property p x && not (others p)) && f b)
unfolding reset_tile_flags
reset_tile_flags_exact p b others x f solid = refl
reset_tile_flags_exact p b others x f path = refl
reset_tile_flags_exact p b others x f immovable_solid = refl
reset_tile_flags_exact p b others x f immovable_no_field = refl
reset_tile_flags_exact p b others x f no_field = refl

abbrev pub IsExact : Property → ℕ → Tile → Type 0
IsExact p b t = t.flags b ≡ tile_has_property p t

-- What is found on the ground and in the two parts.
abbrev pub seen : (Item → Bool) → Option Item → List Item → List Item → Bool
seen q g ds ts = ground_is q g || (any q ds || any q ts)

seen-parts :
    (q : Item → Bool) (t : Tile)
    → (ground_is q t.ground || any q t.items) ≡ seen q t.ground (down_items t) (top_items t)
unfolding down_items top_items
seen-parts q t = ap (◌||◌ (ground_is q t.ground)) (
    ap (any q) (sym (take-append-drop t.down_item_count t.items))
    ∙ any-append q (take t.down_item_count t.items) (drop t.down_item_count t.items))

pub tile_has_property-seen :
    (p : Property) (t : Tile)
    → tile_has_property p t ≡ seen (has_property p) t.ground (down_items t) (top_items t)
unfolding tile_has_property
tile_has_property-seen p t = seen-parts (has_property p) t

pub has_property_except-seen :
    (x : Item) (p : Property) (t : Tile)
    → IsNew x t
    → has_property_except x p t ≡ tile_has_property p t
unfolding has_property_except tile_has_property
has_property_except-seen x p t n =
    seen-parts other t ∙ (apart ∙ sym (seen-parts (has_property p) t))
  where
    other : Item → Bool
    other y = not (x.uid == y.uid) && has_property p y

    in_vector :
        (any other (down_items t) || any other (top_items t))
        ≡ (any (has_property p) (down_items t) || any (has_property p) (top_items t))
    in_vector =
        ap₂ (◌||◌) (any_except (has_property p) x (down_items t) n.1.0)
          (any_except (has_property p) x (top_items t) n.1.1)

    on_ground :
        (g : Option Item)
        → has x.uid (ground_uids g) ≡ false
        → ground_is other g ≡ ground_is (has_property p) g
    on_ground none f = refl
    on_ground (some g) f = ground (arith, f)

    apart :
        seen other t.ground (down_items t) (top_items t)
        ≡ seen (has_property p) t.ground (down_items t) (top_items t)
    apart = ap₂ (◌||◌) (on_ground t.ground n.0) in_vector

-- The flag of a property after an item that the tile does not have now is reset, and after one that
-- it has now is set.
pub reset_flags-IsExact :
    (p : Property) (b : ℕ) (x : Item) (t : Tile)
    → IsFlagOf p b
    → IsNew x t
    → t.flags b ≡ (has_property p x || tile_has_property p t)
    → IsExact p b (reset_flags x t)
unfolding reset_flags tile_has_property
reset_flags-IsExact p b x t k n e =
    reset_tile_flags_exact p b (λ q. has_property_except x q t) x t.flags k
    ∙ rw (has_property_except-seen x p t n, e) (left (has_property p x) (tile_has_property p t))
  where
    left : (a o : Bool) → (not (a && not o) && (a || o)) ≡ o
    left true true = refl
    left true false = refl
    left false o = refl

pub set_flags-IsExact :
    (p : Property) (b : ℕ) (x : Item) (t : Tile)
    → IsFlagOf p b
    → IsFloorMask x
    → (has_property p x || t.flags b) ≡ tile_has_property p t
    → IsExact p b (set_flags x t)
unfolding set_flags tile_has_property
set_flags-IsExact p b x t k m e = set_tile_flags_exact p b x t.flags k m ∙ e
