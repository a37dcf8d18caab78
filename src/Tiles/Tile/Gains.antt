-- ===== src/Tiles/Tile/Gains.antt =====
-- The flags that say exactly what is on a tile still do after a thing is added to it.

use otx.Prelude.{
  ℕ, ◌+◌, ◌≡◌, refl, ap, subst, ◌∙◌, inl, inr, Bool, true, false, not, ◌&&◌, ◌||◌, none, some, ◌∷◌,
  arith, leb, ◌==◌, ==_refl, Option-cases, if-both, if-cases, length,
}
use otx.Prelude.Sets.{has}
use otx.Tiles.Item.{has_property, is_magic_field_object, any, Item, Property}
use otx.Tiles.Flags.{reset_tile_flags}
use otx.Tiles.Tile.{
  down_items, top_items, ground_is, tile_has_property, has_property_except, Tile, an_item,
}
use otx.Tiles.Tile.Changes.{
  reset_flags, set_flags, set_tops, set_downs, remove_thing, insert_before, first_where, add_ground,
  remove_splash, add_top, push_down, add_down, add_thing, internal_add_thing,
}
use otx.Tiles.Tile.Parts.{ground_uids}
use otx.Tiles.Tile.Soundness.{IsNew, set_tops-parts, set_downs-parts, IsSound}
use otx.Tiles.Tile.Room.{remove_thing-HasRoom, HasRoom}
use otx.Tiles.Tile.Additions.{pushed_count, remove_splash-HasRoom, has_room}
use otx.Tiles.Tile.Lookups.{any-insert_before, first_where-IsMember}
use otx.Tiles.Tile.Exactness.{
  IsFloorMask, reset_tile_flags_exact, IsExact, seen, tile_has_property-seen,
  has_property_except-seen, set_flags-IsExact, IsFlagOf,
}
use otx.Tiles.Tile.Upkeep.{set_to, remove_thing-IsExact}

module _ (p : Property) (b : ℕ) (k : IsFlagOf p b) where
  push-IsExact :
      (x : Item) (t : Tile)
      → HasRoom x t
      → IsFloorMask x
      → IsExact p b t
      → IsExact p b (set_flags x (push_down x t))
  unfolding push_down set_downs
  push-IsExact x t h m f =
      set_to p b k x _
        (set_downs-parts (x ∷ down_items t) (t.down_item_count + 1) t (pushed_count x t h)) m
        seen_now
    where
      regroup : (g a d s : Bool) → (a || (g || (d || s))) ≡ (g || (a || d || s))
      regroup true true d s = refl
      regroup true false d s = refl
      regroup false true d s = refl
      regroup false false d s = refl

      seen_now :
          (has_property p x || t.flags b)
          ≡ seen (has_property p) t.ground (x ∷ down_items t) (top_items t)
      seen_now =
          rw (f, tile_has_property-seen p t)
            (regroup (ground_is (has_property p) t.ground) (has_property p x)
              (any (has_property p) (down_items t)) (any (has_property p) (top_items t)))

  insert-IsExact :
      (q : Item → Bool) (x : Item) (t : Tile)
      → IsSound t
      → IsFloorMask x
      → IsExact p b t
      → IsExact p b (set_flags x (set_tops (insert_before q x (top_items t)) t))
  unfolding set_tops
  insert-IsExact q x t h m f = set_to p b k x _ (set_tops-parts _ t h.in_range) m seen_now
    where
      regroup : (g d a s : Bool) → (a || (g || (d || s))) ≡ (g || (d || (a || s)))
      regroup true d true s = refl
      regroup true d false s = refl
      regroup false true true s = refl
      regroup false true false s = refl
      regroup false false a s = refl

      seen_now :
          (has_property p x || t.flags b)
          ≡ seen (has_property p) t.ground (down_items t) (insert_before q x (top_items t))
      seen_now =
          rw (f, tile_has_property-seen p t, any-insert_before (has_property p) q x (top_items t))
            (regroup (ground_is (has_property p) t.ground) (any (has_property p) (down_items t))
              (has_property p x) (any (has_property p) (top_items t)))

  first_ground-IsExact :
      (x : Item) (t : Tile)
      → t.ground ≡ none
      → IsFloorMask x
      → IsExact p b t
      → IsExact p b (set_flags x (record t { ground = some x }))
  unfolding tile_has_property
  first_ground-IsExact x t e m f = set_flags-IsExact p b x _ k m (rw (f, e) refl)

  -- The old ground's flags go by what is on the tile with the new one.
  next_ground-IsExact :
      (x old : Item) (t : Tile)
      → IsSound t
      → t.ground ≡ some old
      → IsNew x t
      → IsFloorMask x
      → IsExact p b t
      → IsExact p b (set_flags x (reset_flags old (record t { ground = some x })))
  unfolding tile_has_property reset_flags down_items top_items
  next_ground-IsExact x old t h e n m f =
      set_flags-IsExact p b x (reset_flags old placed) k m seen_now
    where
      placed : Tile
      placed = record t { ground = some x }

      own : has old.uid (ground_uids t.ground) ≡ true
      own = rw (e) (ap (λ c. c || false) (==_refl old.uid))

      apart : (x.uid == old.uid || false) ≡ false → (old.uid == x.uid || false) ≡ false
      apart c = ground (arith, c)

      new : IsNew old placed
      new = (
        apart (subst (λ g. has x.uid (ground_uids g) ≡ false) e n.0),
        (h.proper.ground_downs old.uid own, h.proper.ground_tops old.uid own),
      )

      before : t.flags b ≡ (has_property p old || any (has_property p) t.items)
      before = f ∙ rw (e) refl

      now : reset_tile_flags (λ q. has_property_except old q placed) old t.flags b ≡ (
          not (has_property p old && not (has_property p x || any (has_property p) t.items))
          && (has_property p old || any (has_property p) t.items))
      now =
          reset_tile_flags_exact p b (λ q. has_property_except old q placed) old t.flags k
          ∙ rw (has_property_except-seen old p placed new, before) refl

      settled : (a o s : Bool) → (a || (not (o && not (a || s)) && (o || s))) ≡ (a || s)
      settled true o s = refl
      settled false true true = refl
      settled false true false = refl
      settled false false s = refl

      seen_now :
          (has_property p x
            || reset_tile_flags (λ q. has_property_except old q placed) old t.flags b)
          ≡ (has_property p x || any (has_property p) t.items)
      seen_now =
          ap (◌||◌ (has_property p x)) now
          ∙ settled (has_property p x) (has_property p old) (any (has_property p) t.items)

  ground-IsExact :
      (x : Item) (t : Tile)
      → IsSound t
      → IsNew x t
      → IsFloorMask x
      → IsExact p b t
      → IsExact p b (add_ground x t)
  unfolding add_ground
  ground-IsExact x t h n m f = elim (Option-cases t.ground) [
    | inl e ↦ rw (add_ground, e) (first_ground-IsExact x t e m f)
    | inr (old, e) ↦ rw (add_ground, e) (next_ground-IsExact x old t h e n m f)
  ]

  splash-IsExact :
      (x : Item) (t : Tile) → IsSound t → IsExact p b t → IsExact p b (remove_splash x t)
  unfolding remove_splash
  splash-IsExact x t h f =
      if-both (IsExact p b) x.type.is_splash _ t
        (elim (Option-cases (first_where (λ y. y.type.is_splash) (top_items t))) [
          | inl e ↦ rw (e) f
          | inr (old, e) ↦ rw (e) (
              remove_thing-IsExact p b k old 1 t h
                (inr (inr (first_where-IsMember _ (top_items t) old e))) f)
        ])
        f

  top-IsExact :
      (x : Item) (t : Tile)
      → HasRoom x t
      → IsFloorMask x
      → IsExact p b t
      → IsExact p b (add_top x t)
  unfolding add_top
  top-IsExact x t h m f =
      insert-IsExact _ x (remove_splash x t) (remove_splash-HasRoom x t h).sound m
        (splash-IsExact x t h.sound f)

  down-IsExact :
      (x : Item) (t : Tile)
      → HasRoom x t
      → IsFloorMask x
      → IsExact p b t
      → IsExact p b (add_down x t)
  unfolding add_down
  down-IsExact x t h m f =
      if-both (IsExact p b) x.type.is_magic_field _ _
        (elim (Option-cases (first_where is_magic_field_object (down_items t))) [
          | inl e ↦ rw (e) (push-IsExact x t h m f)
          | inr (old, e) ↦
              rw (e) (if-both (IsExact p b) old.type.replaceable _ t (replaced old e) f)
        ])
        (push-IsExact x t h m f)
    where
      replaced :
          (old : Item)
          → first_where is_magic_field_object (down_items t) ≡ some old
          → IsExact p b (set_flags x (push_down x (remove_thing (an_item old) 1 t)))
      replaced old e = push-IsExact x _ (remove_thing-HasRoom x old 1 t h) m (
          remove_thing-IsExact p b k old 1 t h.sound
            (inr (inl (first_where-IsMember is_magic_field_object (down_items t) old e))) f)

  pub add_thing-IsExact :
      (x : Item) (t : Tile)
      → IsSound t
      → IsNew x t
      → IsFloorMask x
      → IsExact p b t
      → IsExact p b (add_thing (an_item x) t)
  unfolding add_thing
  add_thing-IsExact x t h n m f =
      if-cases (IsExact p b) (leb 65535 (length t.items)) t _ (λ _. f)
        (λ e. if-both (IsExact p b) x.type.is_ground_tile _ _ (ground-IsExact x t h n m f) (
          if-both (IsExact p b) x.type.always_on_top _ _ (top-IsExact x t (has_room x t n h e) m f)
            (down-IsExact x t (has_room x t n h e) m f)))

  pub internal_add_thing-IsExact :
      (x : Item) (t : Tile)
      → IsSound t
      → IsNew x t
      → IsFloorMask x
      → IsExact p b t
      → IsExact p b (internal_add_thing (an_item x) t)
  unfolding internal_add_thing
  internal_add_thing-IsExact x t h n m f =
      if-both (IsExact p b) x.type.is_ground_tile _ _
        (elim (Option-cases t.ground) [
          | inl e ↦ rw (e) (first_ground-IsExact x t e m f)
          | inr (old, e) ↦ rw (e) f
        ])
        (if-cases (IsExact p b) (leb 65535 (length t.items)) t _ (λ _. f)
          (λ e.
            if-both (λ s. IsExact p b (set_flags x s)) x.type.always_on_top _ _
              (insert-IsExact _ x t h m f) (push-IsExact x t (has_room x t n h e) m f)))
