-- ===== src/Tiles/Tile/Upkeep.antt =====
-- The flags that say exactly what is on a tile still do after a thing is taken from it.

use otx.Prelude.{
  ℕ, ◌+◌, ◌≡◌, refl, sym, ap, ◌∙◌, inl, inr, Bool, true, false, not, ◌&&◌, ◌||◌, none, some, List,
  ◌==◌, Option-cases, if-both, if-cases,
}
use otx.Prelude.Sets.{has, has-remove_self}
use otx.Tiles.Item.{has_property, any, uids, remove_item, replace_item, Item, Property}
use otx.Tiles.Tile.{
  down_items, top_items, ground_is, tile_has_property, is_item, get_thing_index, Tile, an_item,
}
use otx.Tiles.Tile.Changes.{
  reset_flags, set_flags, set_tops, set_downs, count_left, remove_top, remove_down, remove_thing,
}
use otx.Tiles.Tile.Parts.{ground_uids, uids-remove_item}
use otx.Tiles.Tile.Proper.{IsFresh}
use otx.Tiles.Tile.Soundness.{
  IsNew, set_tops-parts, set_downs-parts, replaced_count, removed_count, IsSound,
}
use otx.Tiles.Tile.Lookups.{IsMember, has-IsMember, any-remove_item, any-replace_item}
use otx.Tiles.Tile.Exactness.{
  IsFloorMask, IsExact, seen, tile_has_property-seen, reset_flags-IsExact, set_flags-IsExact,
  IsFlagOf,
}
use otx.Tiles.Tile.Whereabouts.{
  IsOn, absent, ground_uid, ground_self, only_ground, only_tops, only_downs, counted_property,
}

module _ (p : Property) (b : ℕ) (k : IsFlagOf p b) where
  -- With the parts of the vector known.
  pub seen_at :
      (t : Tile) {ds ts : List Item}
      → (down_items t ≡ ds) × (top_items t ≡ ts)
      → tile_has_property p t ≡ seen (has_property p) t.ground ds ts
  seen_at t (e, f) = rw (tile_has_property-seen p t, e, f) refl

  pub reset_to :
      (x : Item) (t : Tile) {ds ts : List Item}
      → (down_items t ≡ ds) × (top_items t ≡ ts)
      → IsFresh x t.ground ds ts
      → t.flags b ≡ (has_property p x || seen (has_property p) t.ground ds ts)
      → IsExact p b (reset_flags x t)
  reset_to x t (e, f) n g =
      reset_flags-IsExact p b x t k (rw (e, f) n)
        (g ∙ ap (◌||◌ (has_property p x)) (sym (seen_at t (e, f))))

  pub set_to :
      (x : Item) (t : Tile) {ds ts : List Item}
      → (down_items t ≡ ds) × (top_items t ≡ ts)
      → IsFloorMask x
      → (has_property p x || t.flags b) ≡ seen (has_property p) t.ground ds ts
      → IsExact p b (set_flags x t)
  set_to x t (e, f) m g = set_flags-IsExact p b x t k m (g ∙ sym (seen_at t (e, f)))

  bare-IsExact :
      (x : Item) (t : Tile)
      → IsSound t
      → t.ground ≡ some x
      → IsExact p b t
      → IsExact p b (reset_flags x (record t { ground = none }))
  unfolding down_items top_items tile_has_property
  bare-IsExact x t h e f =
      reset_flags-IsExact p b x (record t { ground = none }) k new (f ∙ rw (e) refl)
    where
      own : has x.uid (ground_uids t.ground) ≡ true
      own = ground_uid x t.ground (ground_self x t.ground e)

      new : IsNew x (record t { ground = none })
      new = (refl, (h.proper.ground_downs x.uid own, h.proper.ground_tops x.uid own))

  remove_top-IsExact :
      (x : Item) (t : Tile)
      → IsSound t
      → IsMember x (top_items t)
      → IsExact p b t
      → IsExact p b (remove_top x t)
  unfolding remove_top set_tops
  remove_top-IsExact x t h m f =
      rw (found) (reset_to x _ (set_tops-parts _ t h.in_range) new before)
    where
      found : has x.uid (uids (top_items t)) ≡ true
      found = has-IsMember x (top_items t) m

      new : IsFresh x t.ground (down_items t) (remove_item x.uid (top_items t))
      new = (
        absent x.uid _ _ h.proper.ground_tops found,
        (
          absent x.uid _ _ h.proper.parts_disjoint found,
          rw (uids-remove_item x.uid (top_items t))
              (has-remove_self x.uid _ h.proper.tops_distinct),
        ),
      )

      regroup : (g d a s : Bool) → (g || (d || (a || s))) ≡ (a || (g || (d || s)))
      regroup true d true s = refl
      regroup true d false s = refl
      regroup false true true s = refl
      regroup false true false s = refl
      regroup false false a s = refl

      before : t.flags b ≡ (
          has_property p x
          || seen (has_property p) t.ground (down_items t) (remove_item x.uid (top_items t)))
      before =
          f
          ∙ (tile_has_property-seen p t
              ∙ rw (any-remove_item (has_property p) x (top_items t) m h.proper.tops_distinct) (
                  regroup (ground_is (has_property p) t.ground)
                    (any (has_property p) (down_items t)) (has_property p x)
                    (any (has_property p) (remove_item x.uid (top_items t)))))

  remove_down-IsExact :
      (x : Item) (count : ℕ) (t : Tile)
      → IsSound t
      → IsMember x (down_items t)
      → IsExact p b t
      → IsExact p b (remove_down x count t)
  unfolding remove_down set_downs
  remove_down-IsExact x count t h m f =
      rw (found)
        (if-both (IsExact p b) (x.type.stackable && not (count == x.item_count)) _ _ less gone)
    where
      found : has x.uid (uids (down_items t)) ≡ true
      found = has-IsMember x (down_items t) m

      counted : Item
      counted = record x { item_count = count_left x.item_count count }

      less : IsExact p b (set_downs (replace_item x.uid counted (down_items t)) t.down_item_count t)
      less = f ∙ (tile_has_property-seen p t ∙ sym after)
        where
          parts :
              (down_items
                  (set_downs (replace_item x.uid counted (down_items t)) t.down_item_count t)
                ≡ replace_item x.uid counted (down_items t))
              × (top_items
                    (set_downs (replace_item x.uid counted (down_items t)) t.down_item_count t)
                  ≡ top_items t)
          parts = set_downs-parts _ t.down_item_count t (replaced_count counted t h)

          after :
              tile_has_property p
                (set_downs (replace_item x.uid counted (down_items t)) t.down_item_count t)
              ≡ seen (has_property p) t.ground (down_items t) (top_items t)
          after =
              seen_at _ parts
              ∙ ap
                  (λ d.
                    ground_is (has_property p) t.ground
                    || (d || any (has_property p) (top_items t)))
                  (any-replace_item (has_property p) x counted (down_items t) m
                    h.proper.downs_distinct (counted_property p x (count_left x.item_count count)))

      gone : IsExact p b (
          reset_flags x
            (set_downs (remove_item x.uid (down_items t)) (t.down_item_count + 65535) t))
      gone =
          reset_to x _
            (set_downs-parts _ (t.down_item_count + 65535) t (removed_count x.uid t found h)) new
            before
        where
          new : IsFresh x t.ground (remove_item x.uid (down_items t)) (top_items t)
          new = (
            absent x.uid _ _ h.proper.ground_downs found,
            (
              rw (uids-remove_item x.uid (down_items t))
                  (has-remove_self x.uid _ h.proper.downs_distinct),
              h.proper.parts_disjoint x.uid found,
            ),
          )

          regroup : (g a d s : Bool) → (g || (a || d || s)) ≡ (a || (g || (d || s)))
          regroup true true d s = refl
          regroup true false d s = refl
          regroup false true d s = refl
          regroup false false d s = refl

          before : t.flags b ≡ (
              has_property p x
              || seen (has_property p) t.ground (remove_item x.uid (down_items t)) (top_items t))
          before =
              f
              ∙ (tile_has_property-seen p t
                  ∙ rw (any-remove_item (has_property p) x (down_items t) m h.proper.downs_distinct)
                      (regroup (ground_is (has_property p) t.ground) (has_property p x)
                        (any (has_property p) (remove_item x.uid (down_items t)))
                        (any (has_property p) (top_items t))))

  pub remove_thing-IsExact :
      (x : Item) (count : ℕ) (t : Tile)
      → IsSound t
      → IsOn x t
      → IsExact p b t
      → IsExact p b (remove_thing (an_item x) count t)
  unfolding remove_thing
  remove_thing-IsExact x count t h o f = elim (Option-cases (get_thing_index (an_item x) t)) [
    | inl e ↦ rw (remove_thing, e) f
    | inr (i, e) ↦
        rw (remove_thing, e)
          (if-cases (IsExact p b) (ground_is (is_item x) t.ground) _ _
            (λ g. bare-IsExact x t h (only_ground x t h o g) f)
            (λ g.
              if-cases (IsExact p b) x.type.always_on_top _ _
                (λ a. remove_top-IsExact x t h (only_tops x t h o g a) f)
                (λ a. remove_down-IsExact x count t h (only_downs x t h o g a) f)))
  ]
