-- ===== src/Tiles/Tile/Soundness.antt =====
-- A tile stays sound: what is added to it and taken from it leaves its items in their parts and in
-- their order, and each of them in one place.

use otx.Prelude.{
  ℕ, ◌+◌, ◌%◌, ◌≤◌, ◌≡◌, subst, inl, inr, true, not, ◌&&◌, Option, none, List, ◌++◌, arith, ◌==◌,
  if◌then◌else◌, Option-cases, if-both, if-cases, length, length-append, take, drop, length-take,
  length-drop, take-length-append, drop-length-append,
}
use otx.Prelude.Sets.{has, remove}
use otx.Tiles.Item.{uids, remove_item, replace_item, Item}
use otx.Tiles.Flags.{TileFlags, set_tile_flags, reset_tile_flags}
use otx.Tiles.Tile.{
  down_items, top_items, ground_is, has_property_except, is_item, get_thing_index, Tile, Thing,
  a_creature, an_item,
}
use otx.Tiles.Tile.Changes.{
  reset_flags, set_flags, set_tops, set_downs, count_left, remove_top, remove_down, remove_thing,
}
use otx.Tiles.Tile.Parts.{IsDown, length-remove_item, length-replace_item, ProperParts}
use otx.Tiles.Tile.Proper.{
  IsFresh, remove_down-ProperParts, remove_top-ProperParts, replace_down-ProperParts,
  bare-ProperParts,
}

pub record IsSound (t : Tile) : Type 0 where
  pub in_range : t.down_item_count ≤ length t.items
  pub proper : ProperParts t.ground (down_items t) (top_items t)

-- An item that is nowhere on a tile.
abbrev pub IsNew : Item → Tile → Type 0
IsNew x t = IsFresh x t.ground (down_items t) (top_items t)

flags-IsSound : (f : TileFlags) (t : Tile) → IsSound t → IsSound (record t { flags = f })
unfolding down_items top_items
flags-IsSound f t h = record { in_range = h.in_range; proper = h.proper }

pub set_flags-IsSound : (x : Item) (t : Tile) → IsSound t → IsSound (set_flags x t)
unfolding set_flags
set_flags-IsSound x t h = flags-IsSound (set_tile_flags x t.flags) t h

pub reset_flags-IsSound : (x : Item) (t : Tile) → IsSound t → IsSound (reset_flags x t)
unfolding reset_flags
reset_flags-IsSound x t h =
    flags-IsSound (reset_tile_flags (λ p. has_property_except x p t) x t.flags) t h

pub ground-IsSound :
    (g : Option Item) (t : Tile)
    → ProperParts g (down_items t) (top_items t)
    → IsSound t
    → IsSound (record t { ground = g })
unfolding down_items top_items
ground-IsSound g t p h = record { in_range = h.in_range; proper = p }

pub creatures-IsSound : (cs : List ℕ) (t : Tile) → IsSound t → IsSound (record t { creatures = cs })
unfolding down_items top_items
creatures-IsSound cs t h = record { in_range = h.in_range; proper = h.proper }

pub length-down_items :
    (t : Tile) → t.down_item_count ≤ length t.items → length (down_items t) ≡ t.down_item_count
unfolding down_items
length-down_items t h = length-take t.down_item_count t.items h

pub length-parts :
    (t : Tile)
    → t.down_item_count ≤ length t.items
    → length (down_items t) + length (top_items t) ≡ length t.items
unfolding top_items
length-parts t h = omega (arith, h, length-down_items t h, length-drop t.down_item_count t.items)

pub set_tops-parts :
    (xs : List Item) (t : Tile)
    → t.down_item_count ≤ length t.items
    → (down_items (set_tops xs t) ≡ down_items t) × (top_items (set_tops xs t) ≡ xs)
unfolding set_tops down_items top_items
set_tops-parts xs t h = (
  subst (λ n. take n (down_items t ++ xs) ≡ down_items t) (length-down_items t h)
      (take-length-append (down_items t) xs),
  subst (λ n. drop n (down_items t ++ xs) ≡ xs) (length-down_items t h)
      (drop-length-append (down_items t) xs),
)

pub set_downs-parts :
    (xs : List Item) (n : ℕ) (t : Tile)
    → n % 65536 ≡ length xs
    → (down_items (set_downs xs n t) ≡ xs) × (top_items (set_downs xs n t) ≡ top_items t)
unfolding set_downs down_items top_items
set_downs-parts xs n t e =
    rw (e) (take-length-append xs (top_items t), drop-length-append xs (top_items t))

moved :
    (g : Option Item) {ds ds' ts ts' : List Item}
    → (ds' ≡ ds) × (ts' ≡ ts)
    → ProperParts g ds ts
    → ProperParts g ds' ts'
moved g (e, f) p = rw (e, f) p

pub set_tops-IsSound :
    (xs : List Item) (t : Tile)
    → IsSound t
    → ProperParts t.ground (down_items t) xs
    → IsSound (set_tops xs t)
unfolding set_tops
set_tops-IsSound xs t h p = record {
  in_range =
      omega (arith, h.in_range, length-append (down_items t) xs, length-down_items t h.in_range);
  proper = moved t.ground (set_tops-parts xs t h.in_range) p;
}

pub set_downs-IsSound :
    (xs : List Item) (n : ℕ) (t : Tile)
    → n % 65536 ≡ length xs
    → ProperParts t.ground xs (top_items t)
    → IsSound (set_downs xs n t)
unfolding set_downs
set_downs-IsSound xs n t e p = record {
  in_range = omega (arith, e, length-append xs (top_items t));
  proper = moved t.ground (set_downs-parts xs n t e) p;
}

remove_top-IsSound : (x : Item) (t : Tile) → IsSound t → IsSound (remove_top x t)
unfolding remove_top
remove_top-IsSound x t h =
    if-cases IsSound (has x.uid (uids (top_items t))) _ t
      (λ f. reset_flags-IsSound x _ (
        set_tops-IsSound (remove_item x.uid (top_items t)) t h
          (remove_top-ProperParts x.uid t.ground (down_items t) (top_items t) f h.proper)))
      (λ _. h)

pub replaced_count :
    (x : Item) (t : Tile)
    → IsSound t
    → t.down_item_count % 65536 ≡ length (replace_item x.uid x (down_items t))
replaced_count x t h = omega (
  arith,
  h.proper.few,
  length-down_items t h.in_range,
  length-replace_item x.uid x (down_items t),
)

pub replace_down-IsSound :
    (x : Item) (t : Tile)
    → IsDown x
    → IsSound t
    → IsSound (set_downs (replace_item x.uid x (down_items t)) t.down_item_count t)
replace_down-IsSound x t k h =
    set_downs-IsSound _ t.down_item_count t (replaced_count x t h)
      (replace_down-ProperParts x t.ground (down_items t) (top_items t) k h.proper)

pub removed_count :
    (u : ℕ) (t : Tile)
    → has u (uids (down_items t)) ≡ true
    → IsSound t
    → (t.down_item_count + 65535) % 65536 ≡ length (remove_item u (down_items t))
removed_count u t f h =
    omega
      (arith, h.proper.few, length-down_items t h.in_range, length-remove_item u (down_items t) f)

pub remove_down_item-IsSound :
    (u : ℕ) (t : Tile)
    → has u (uids (down_items t)) ≡ true
    → IsSound t
    → IsSound (set_downs (remove_item u (down_items t)) (t.down_item_count + 65535) t)
remove_down_item-IsSound u t f h =
    set_downs-IsSound _ (t.down_item_count + 65535) t (removed_count u t f h)
      (remove_down-ProperParts u t.ground (down_items t) (top_items t) f h.proper)

remove_down-IsSound :
    (x : Item) (count : ℕ) (t : Tile) → IsDown x → IsSound t → IsSound (remove_down x count t)
unfolding remove_down
remove_down-IsSound x count t k h =
    if-cases IsSound (has x.uid (uids (down_items t))) _ t
      (λ f. if-both IsSound (x.type.stackable && not (count == x.item_count)) _ _ less (gone f))
      (λ _. h)
  where
    less : IsSound (
        set_downs
          (replace_item x.uid
            (record x { item_count = count_left x.item_count count })
            (down_items t))
          t.down_item_count
          t)
    less = replace_down-IsSound (record x { item_count = count_left x.item_count count }) t k h

    gone :
        has x.uid (uids (down_items t)) ≡ true
        → IsSound (
            reset_flags x
              (set_downs (remove_item x.uid (down_items t)) (t.down_item_count + 65535) t))
    gone f = reset_flags-IsSound x _ (remove_down_item-IsSound x.uid t f h)

pub remove_thing-IsSound :
    (x : Thing) (count : ℕ) (t : Tile) → IsSound t → IsSound (remove_thing x count t)
unfolding remove_thing
remove_thing-IsSound (a_creature c) count t h = creatures-IsSound (remove c t.creatures) t h
remove_thing-IsSound (an_item x) count t h = elim (Option-cases (get_thing_index (an_item x) t)) [
  | inl e ↦ rw (remove_thing, e) h
  | inr (i, e) ↦
      rw (remove_thing, e) (if-both IsSound (ground_is (is_item x) t.ground) _ _ bare less)
]
  where
    bare : IsSound (reset_flags x (record t { ground = none }))
    bare =
        reset_flags-IsSound x _ (
          ground-IsSound none t (bare-ProperParts t.ground (down_items t) (top_items t) h.proper) h)

    less : IsSound (if x.type.always_on_top then remove_top x t else remove_down x count t)
    less =
        if-cases IsSound x.type.always_on_top _ _ (λ _. remove_top-IsSound x t h)
          (λ k. remove_down-IsSound x count t k h)
