-- ===== src/Tiles/Tile/Whereabouts.antt =====
-- Where an object that a tile has stands, and what a change of its count leaves.
use otx.Prelude.{
  ℕ, ◌≡◌, refl, sym, subst, ◌⊎◌, inl, inr, Bool, true, false, Option, none, some, List, [], ◌∷◌,
  arith, ==_refl, Bool-cases, All,
}
use otx.Prelude.Sets.{has}
use otx.Tiles.Item.{
  has_property, Item, Property, blocks_solid, moves, blocks_projectile, blocks_path, vertical,
  horizontal, immovable_blocks_solid, immovable_blocks_path, immovable_no_field_blocks_path,
  no_field_blocks_path, supports_hangable,
}
use otx.Tiles.Tile.{down_items, top_items, ground_is, is_item, Tile}
use otx.Tiles.Tile.Parts.{IsDown, IsTop, IsDisjoint, ground_uids}
use otx.Tiles.Tile.Soundness.{IsSound}
use otx.Tiles.Tile.Lookups.{IsMember, has-IsMember}

-- The object is one of the tile's.
abbrev pub IsOn : Item → Tile → Type 0
IsOn x t = (t.ground ≡ some x) ⊎ (IsMember x (down_items t) ⊎ IsMember x (top_items t))

pub clash : (b : Bool) → b ≡ true → b ≡ false → ⊥
clash b h k = cc

-- What is in a list is in no list that is disjoint from it.
pub absent : (u : ℕ) (us vs : List ℕ) → IsDisjoint us vs → has u vs ≡ true → has u us ≡ false
absent u us vs d h = elim (Bool-cases (has u us)) [
  | inl e ↦ absurd (clash (has u vs) h (d u e))
  | inr e ↦ e
]

pub All-IsMember : (P : Item → Type 0) (x : Item) (xs : List Item) → All P xs → IsMember x xs → P x
All-IsMember P x [] h m = absurd m
All-IsMember P x (y ∷ ys) h (inl e) = subst P (sym e) h.0
All-IsMember P x (y ∷ ys) h (inr m) = All-IsMember P x ys h.1 m

pub ground_uid :
    (x : Item) (g : Option Item) → ground_is (is_item x) g ≡ true → has x.uid (ground_uids g) ≡ true
ground_uid x none h = h
ground_uid x (some g) h = ground (arith, h)

pub ground_self : (x : Item) (g : Option Item) → g ≡ some x → ground_is (is_item x) g ≡ true
ground_self x g e = rw (e) (==_refl x.uid)

-- Where an object is, by its type and by whether it is the ground.
pub only_ground :
    (x : Item) (t : Tile)
    → IsSound t
    → IsOn x t
    → ground_is (is_item x) t.ground ≡ true
    → t.ground ≡ some x
only_ground x t h (inl e) g = e
only_ground x t h (inr (inl m)) g = absurd (
    clash _ (has-IsMember x (down_items t) m)
      (h.proper.ground_downs x.uid (ground_uid x t.ground g)))
only_ground x t h (inr (inr m)) g = absurd (
    clash _ (has-IsMember x (top_items t) m) (h.proper.ground_tops x.uid (ground_uid x t.ground g)))

pub only_tops :
    (x : Item) (t : Tile)
    → IsSound t
    → IsOn x t
    → ground_is (is_item x) t.ground ≡ false
    → IsTop x
    → IsMember x (top_items t)
only_tops x t h (inl e) g k = absurd (clash _ (ground_self x t.ground e) g)
only_tops x t h (inr (inl m)) g k =
    absurd (clash _ k (All-IsMember IsDown x (down_items t) h.proper.downs_down m))
only_tops x t h (inr (inr m)) g k = m

pub only_downs :
    (x : Item) (t : Tile)
    → IsSound t
    → IsOn x t
    → ground_is (is_item x) t.ground ≡ false
    → IsDown x
    → IsMember x (down_items t)
only_downs x t h (inl e) g k = absurd (clash _ (ground_self x t.ground e) g)
only_downs x t h (inr (inl m)) g k = m
only_downs x t h (inr (inr m)) g k =
    absurd (clash _ (All-IsMember IsTop x (top_items t) h.proper.tops_top m) k)

-- A count that changes leaves the item's properties.
pub counted_property :
    (p : Property) (x : Item) (n : ℕ)
    → has_property p (record x { item_count = n }) ≡ has_property p x
unfolding has_property
counted_property blocks_solid x n = refl
counted_property moves x n = refl
counted_property Property.has_height x n = refl
counted_property blocks_projectile x n = refl
counted_property blocks_path x n = refl
counted_property vertical x n = refl
counted_property horizontal x n = refl
counted_property immovable_blocks_solid x n = refl
counted_property immovable_blocks_path x n = refl
counted_property immovable_no_field_blocks_path x n = refl
counted_property no_field_blocks_path x n = refl
counted_property supports_hangable x n = refl
