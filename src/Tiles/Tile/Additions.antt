-- ===== src/Tiles/Tile/Additions.antt =====
-- Adding to a tile that has room for an item keeps it sound, whether an old splash or field goes
-- first or not.
use otx.Prelude.{
  ℕ, suc, ◌+◌, ◌%◌, ◌≤◌, ◌<◌, ◌≡◌, inl, inr, Bool, true, false, some, ◌∷◌, arith, ltb, leb, leb→le,
  Option-cases, if-both, if-cases, length,
}
use otx.Tiles.Item.{is_magic_field_object, Item}
use otx.Tiles.Tile.{down_items, top_items, Tile, Thing, a_creature, an_item}
use otx.Tiles.Tile.Changes.{
  set_flags, set_tops, remove_thing, insert_before, first_where, add_ground, remove_splash, add_top,
  push_down, add_down, add_thing, internal_add_thing,
}
use otx.Tiles.Tile.Parts.{IsDown, IsTop, order_of}
use otx.Tiles.Tile.Proper.{push-ProperParts, insert-ProperParts, ground-ProperParts}
use otx.Tiles.Tile.Soundness.{
  IsNew, set_flags-IsSound, reset_flags-IsSound, ground-IsSound, creatures-IsSound,
  length-down_items, length-parts, set_tops-IsSound, set_downs-IsSound, IsSound,
}
use otx.Tiles.Tile.Room.{remove_thing-HasRoom, HasRoom}

-- Each way of putting an item on a tile that has room.
pub pushed_count :
    (x : Item) (t : Tile)
    → HasRoom x t
    → (t.down_item_count + 1) % 65536 ≡ suc (length (down_items t))
pushed_count x t h = omega (arith, h.room, length-down_items t h.sound.in_range)

push_down-IsSound : (x : Item) (t : Tile) → IsDown x → HasRoom x t → IsSound (push_down x t)
unfolding push_down
push_down-IsSound x t k h =
    set_downs-IsSound (x ∷ down_items t) (t.down_item_count + 1) t (pushed_count x t h)
      (push-ProperParts x t.ground (down_items t) (top_items t) k h.new h.room h.sound.proper)

insert_top-IsSound :
    (p : Item → Bool) (x : Item) (t : Tile)
    → ((y : Item) → p y ≡ true → order_of x ≤ order_of y)
    → ((y : Item) → p y ≡ false → order_of y ≤ order_of x)
    → IsTop x
    → HasRoom x t
    → IsSound (set_tops (insert_before p x (top_items t)) t)
insert_top-IsSound p x t yes_le no_le k h = set_tops-IsSound _ t h.sound (
    insert-ProperParts p x t.ground (down_items t) (top_items t) yes_le no_le k h.new h.room
      h.sound.proper)

pub remove_splash-HasRoom : (x : Item) (t : Tile) → HasRoom x t → HasRoom x (remove_splash x t)
unfolding remove_splash
remove_splash-HasRoom x t h =
    if-both (HasRoom x) x.type.is_splash _ t
      (elim (Option-cases (first_where (λ y. y.type.is_splash) (top_items t))) [
        | inl e ↦ rw (e) h
        | inr (old, e) ↦ rw (e) (remove_thing-HasRoom x old 1 t h)
      ])
      h

add_top-IsSound : (x : Item) (t : Tile) → IsTop x → HasRoom x t → IsSound (add_top x t)
unfolding add_top
add_top-IsSound x t k h = set_flags-IsSound x _ (
    insert_top-IsSound _ x (remove_splash x t) (λ y e. leb→le (order_of x) (order_of y) e)
      (λ y e. over (order_of x) (order_of y) e) k (remove_splash-HasRoom x t h))
  where
    over : (a b : ℕ) → leb a b ≡ false → b ≤ a
    over a b e = ground (arith, e)

add_down-IsSound : (x : Item) (t : Tile) → IsDown x → HasRoom x t → IsSound (add_down x t)
unfolding add_down
add_down-IsSound x t k h =
    if-both IsSound x.type.is_magic_field _ _
      (elim (Option-cases (first_where is_magic_field_object (down_items t))) [
        | inl e ↦ rw (e) plainly
        | inr (old, e) ↦ rw (e) (if-both IsSound old.type.replaceable _ t (replaced old) h.sound)
      ])
      plainly
  where
    plainly : IsSound (set_flags x (push_down x t))
    plainly = set_flags-IsSound x _ (push_down-IsSound x t k h)

    replaced : (old : Item) → IsSound (set_flags x (push_down x (remove_thing (an_item old) 1 t)))
    replaced old =
        set_flags-IsSound x _ (push_down-IsSound x _ k (remove_thing-HasRoom x old 1 t h))

add_ground-IsSound : (x : Item) (t : Tile) → IsNew x t → IsSound t → IsSound (add_ground x t)
unfolding add_ground
add_ground-IsSound x t n h = elim (Option-cases t.ground) [
  | inl e ↦ rw (add_ground, e) (set_flags-IsSound x _ placed)
  | inr (old, e) ↦ rw (add_ground, e) (set_flags-IsSound x _ (reset_flags-IsSound old _ placed))
]
  where
    placed : IsSound (record t { ground = some x })
    placed =
        ground-IsSound (some x) t
          (ground-ProperParts x t.ground (down_items t) (top_items t) n h.proper) h

-- A thing that can be added.
abbrev pub IsAddable : Thing → Tile → Type 0
IsAddable (a_creature c) t = Unit {0}
IsAddable (an_item x) t = IsNew x t

pub has_room :
    (x : Item) (t : Tile) → IsNew x t → IsSound t → leb 65535 (length t.items) ≡ false → HasRoom x t
has_room x t n h e = record {
  sound = h;
  new = n;
  room = omega (arith, length-parts t h.in_range, under);
}
  where
    under : length t.items < 65535
    under = ground (arith, e)

pub add_thing-IsSound : (x : Thing) (t : Tile) → IsAddable x t → IsSound t → IsSound (add_thing x t)
unfolding add_thing
add_thing-IsSound (a_creature c) t n h = creatures-IsSound (c ∷ t.creatures) t h
add_thing-IsSound (an_item x) t n h =
    if-cases IsSound (leb 65535 (length t.items)) t _ (λ _. h)
      (λ e. if-both IsSound x.type.is_ground_tile _ _ (add_ground-IsSound x t n h) (
        if-cases IsSound x.type.always_on_top _ _ (λ k. add_top-IsSound x t k (has_room x t n h e))
          (λ k. add_down-IsSound x t k (has_room x t n h e))))

pub internal_add_thing-IsSound :
    (x : Thing) (t : Tile) → IsAddable x t → IsSound t → IsSound (internal_add_thing x t)
unfolding internal_add_thing
internal_add_thing-IsSound (a_creature c) t n h = creatures-IsSound (c ∷ t.creatures) t h
internal_add_thing-IsSound (an_item x) t n h =
    if-both IsSound x.type.is_ground_tile _ _
      (elim (Option-cases t.ground) [
        | inl e ↦ rw (e) (
            set_flags-IsSound x _ (
              ground-IsSound (some x) t
                (ground-ProperParts x t.ground (down_items t) (top_items t) n h.proper) h))
        | inr (old, e) ↦ rw (e) h
      ])
      (if-cases IsSound (leb 65535 (length t.items)) t _ (λ _. h)
        (λ e. set_flags-IsSound x _ (
          if-cases IsSound x.type.always_on_top _ _
            (λ k.
              insert_top-IsSound _ x t (λ y. weakly (order_of x) (order_of y))
                (λ y. over (order_of x) (order_of y)) k (has_room x t n h e))
            (λ k. push_down-IsSound x t k (has_room x t n h e)))))
  where
    weakly : (a b : ℕ) → ltb a b ≡ true → a ≤ b
    weakly a b e = ground (arith, e)

    over : (a b : ℕ) → ltb a b ≡ false → b ≤ a
    over a b e = ground (arith, e)
