-- ===== src/Tiles/Tile/Room.antt =====
-- A tile that has room for an item keeps it when another is taken away.
use otx.Prelude.{
  ℕ, ◌+◌, ◌<◌, ◌≡◌, refl, sym, ap, ◌∙◌, ◌≢◌, inl, inr, true, false, not, ◌&&◌, none, List, arith,
  ◌==◌, if◌then◌else◌, Bool-cases, Option-cases, if-both, if-cases, length,
}
use otx.Prelude.Sets.{has, has_of_has-remove}
use otx.Tiles.Item.{uids, remove_item, replace_item, Item}
use otx.Tiles.Tile.{down_items, top_items, ground_is, is_item, get_thing_index, Tile, an_item}
use otx.Tiles.Tile.Changes.{
  reset_flags, set_tops, set_downs, count_left, remove_top, remove_down, remove_thing,
}
use otx.Tiles.Tile.Parts.{
  IsDown, uids-remove_item, length-remove_item, uids-replace_item, length-replace_item,
}
use otx.Tiles.Tile.Proper.{IsFresh, remove_top-ProperParts, bare-ProperParts}
use otx.Tiles.Tile.Soundness.{
  IsNew, reset_flags-IsSound, ground-IsSound, set_tops-parts, set_downs-parts, set_tops-IsSound,
  replaced_count, replace_down-IsSound, removed_count, remove_down_item-IsSound, IsSound,
}

-- The tile is sound, the item is nowhere on it, and its vector can grow.
pub record HasRoom (x : Item) (t : Tile) : Type 0 where
  pub sound : IsSound t
  pub new : IsNew x t
  pub room : length (down_items t) + length (top_items t) < 65535

pub absent-remove_item :
    (u v : ℕ) (xs : List Item) → has u (uids xs) ≡ false → has u (uids (remove_item v xs)) ≡ false
absent-remove_item u v xs h = elim (Bool-cases (has u (uids (remove_item v xs)))) [
  | inl e ↦ absurd (
      true_false
        (sym (has_of_has-remove u v (uids xs) (ap (has u) (sym (uids-remove_item v xs)) ∙ e)) ∙ h))
  | inr e ↦ e
]
  where
    true_false : true ≢ false
    true_false k = cc

pub reset_flags-HasRoom : (x y : Item) (t : Tile) → HasRoom x t → HasRoom x (reset_flags y t)
unfolding reset_flags down_items top_items
reset_flags-HasRoom x y t h = record {
  sound = reset_flags-IsSound y t h.sound;
  new = h.new;
  room = h.room;
}

-- With the parts of the vector known, a sound tile has room when they leave some.
pub parts-HasRoom :
    (x : Item) (t : Tile) {ds ts : List Item}
    → IsSound t
    → (down_items t ≡ ds) × (top_items t ≡ ts)
    → IsFresh x t.ground ds ts
    → length ds + length ts < 65535
    → HasRoom x t
parts-HasRoom x t s (e, f) n l = record { sound = s; new = rw (e, f) n; room = rw (e, f) l }

pub remove_top-HasRoom : (x y : Item) (t : Tile) → HasRoom x t → HasRoom x (remove_top y t)
unfolding remove_top set_tops
remove_top-HasRoom x y t h = if-cases (HasRoom x) (has y.uid (uids (top_items t))) _ t gone (λ _. h)
  where
    gone :
        has y.uid (uids (top_items t)) ≡ true
        → HasRoom x (reset_flags y (set_tops (remove_item y.uid (top_items t)) t))
    gone f =
        reset_flags-HasRoom x y _
          (parts-HasRoom x _ sound (set_tops-parts _ t h.sound.in_range) new room)
      where
        sound : IsSound (set_tops (remove_item y.uid (top_items t)) t)
        sound =
            set_tops-IsSound _ t h.sound
              (remove_top-ProperParts y.uid t.ground (down_items t) (top_items t) f h.sound.proper)

        new : IsFresh x t.ground (down_items t) (remove_item y.uid (top_items t))
        new = (h.new.0, (h.new.1.0, absent-remove_item x.uid y.uid (top_items t) h.new.1.1))

        room : length (down_items t) + length (remove_item y.uid (top_items t)) < 65535
        room = omega (arith, h.room, length-remove_item y.uid (top_items t) f)

pub remove_down-HasRoom :
    (x y : Item) (count : ℕ) (t : Tile) → IsDown y → HasRoom x t → HasRoom x (remove_down y count t)
unfolding remove_down set_downs
remove_down-HasRoom x y count t k h =
    if-cases (HasRoom x) (has y.uid (uids (down_items t))) _ t
      (λ f. if-both (HasRoom x) (y.type.stackable && not (count == y.item_count)) _ _ less (gone f))
      (λ _. h)
  where
    counted : Item
    counted = record y { item_count = count_left y.item_count count }

    less : HasRoom x (set_downs (replace_item y.uid counted (down_items t)) t.down_item_count t)
    less =
        parts-HasRoom x _ (replace_down-IsSound counted t k h.sound)
          (set_downs-parts _ t.down_item_count t (replaced_count counted t h.sound))
          (h.new.0, (rw (uids-replace_item counted (down_items t)) h.new.1.0, h.new.1.1))
          (rw (length-replace_item y.uid counted (down_items t)) h.room)

    gone :
        has y.uid (uids (down_items t)) ≡ true
        → HasRoom x (
            reset_flags y
              (set_downs (remove_item y.uid (down_items t)) (t.down_item_count + 65535) t))
    gone f = reset_flags-HasRoom x y _ (
        parts-HasRoom x _ (remove_down_item-IsSound y.uid t f h.sound)
          (set_downs-parts _ (t.down_item_count + 65535) t (removed_count y.uid t f h.sound))
          (h.new.0, (absent-remove_item x.uid y.uid (down_items t) h.new.1.0, h.new.1.1)) room)
      where
        room : length (remove_item y.uid (down_items t)) + length (top_items t) < 65535
        room = omega (arith, h.room, length-remove_item y.uid (down_items t) f)

pub ground-HasRoom : (x : Item) (t : Tile) → HasRoom x t → HasRoom x (record t { ground = none })
unfolding down_items top_items
ground-HasRoom x t h = record {
  sound =
      ground-IsSound none t (bare-ProperParts t.ground (down_items t) (top_items t) h.sound.proper)
        h.sound;
  new = (refl, h.new.1);
  room = h.room;
}

pub remove_thing-HasRoom :
    (x y : Item) (count : ℕ) (t : Tile) → HasRoom x t → HasRoom x (remove_thing (an_item y) count t)
unfolding remove_thing
remove_thing-HasRoom x y count t h = elim (Option-cases (get_thing_index (an_item y) t)) [
  | inl e ↦ rw (remove_thing, e) h
  | inr (i, e) ↦
      rw (remove_thing, e) (if-both (HasRoom x) (ground_is (is_item y) t.ground) _ _ bare less)
]
  where
    bare : HasRoom x (reset_flags y (record t { ground = none }))
    bare = reset_flags-HasRoom x y _ (ground-HasRoom x t h)

    less : HasRoom x (if y.type.always_on_top then remove_top y t else remove_down y count t)
    less =
        if-cases (HasRoom x) y.type.always_on_top _ _ (λ _. remove_top-HasRoom x y t h)
          (λ k. remove_down-HasRoom x y count t k h)
