-- ===== src/Tiles/Tile/Replacement.antt =====
-- `replaceThing` changes one item of the sequence of the tile's things for another.
use otx.Tiles.Item.{Item}
use otx.Tiles.Tile.{down_items, top_items, top_item_count, Tile, Thing, a_creature, an_item}
use otx.Tiles.Tile.Changes.{
  reset_flags, set_flags, set_tops, set_downs, set_at, replace_at, replace_thing,
}
use otx.Tiles.Tile.Soundness.{length-down_items, set_tops-parts, set_downs-parts, IsSound}
use otx.Tiles.Tile.Things.{
  items_of, creatures_of, ground_of, things, length-items_of, length-creatures_of,
}
use otx.Prelude.{
  ℕ, zero, suc, ◌-◌, ◌%◌, ◌<◌, ◌≡◌, refl, sym, ap, ap₂, ◌∙◌, Bool, true, false, Option, none, some,
  List, [], ◌∷◌, ◌++◌, arith, ltb, ◌==◌, if◌then◌else◌, lt→ltb, length, get_elem?, length-drop,
}

-- The item at a place of a sequence of things, changed; a creature stays.
unfoldable pub replaced : ℕ → Item → List Thing → List Thing
replaced i x [] = []
replaced zero x (an_item y ∷ zs) = an_item x ∷ zs
replaced zero x (a_creature c ∷ zs) = a_creature c ∷ zs
replaced (suc i) x (z ∷ zs) = let rest = replaced i x zs in z ∷ rest

-- A function of a conditional.
if-float {ℓ κ} :
    {A : Type ℓ} {B : Type κ} (f : A → B) (b : Bool) (x y : A)
    → f (if b then x else y) ≡ (if b then f x else f y)
if-float f true x y = refl
if-float f false x y = refl

replaced-append :
    (i : ℕ) (x : Item) (xs ys : List Thing)
    → replaced i x (xs ++ ys)
      ≡ (if ltb i (length xs) then replaced i x xs ++ ys else xs ++ replaced (i - length xs) x ys)
unfolding replaced
replaced-append i x [] ys = rw (over i, same_place i) refl
  where
    over : (i : ℕ) → ltb i 0 ≡ false
    over i = ground arith

    same_place : (i : ℕ) → i - 0 ≡ i
    same_place i = omega arith
replaced-append zero x (an_item y ∷ xs) ys = ground arith
replaced-append zero x (a_creature c ∷ xs) ys = ground arith
replaced-append (suc i) x (z ∷ xs) ys =
    rw (replaced-append i x xs ys, shift_test, shift_place)
      (if-float (◌∷◌ z) (ltb i (length xs)) _ _)
  where
    shift_test : ltb (suc i) (suc (length xs)) ≡ ltb i (length xs)
    shift_test = ground arith

    shift_place : suc i - suc (length xs) ≡ i - length xs
    shift_place = omega arith

replaced-items_of :
    (i : ℕ) (x : Item) (xs : List Item) → replaced i x (items_of xs) ≡ items_of (set_at i x xs)
unfolding replaced set_at
replaced-items_of i x [] = refl
replaced-items_of zero x (y ∷ ys) = refl
replaced-items_of (suc i) x (y ∷ ys) = ap (◌∷◌ (an_item y)) (replaced-items_of i x ys)

replaced-creatures_of :
    (i : ℕ) (x : Item) (cs : List ℕ) → replaced i x (creatures_of cs) ≡ creatures_of cs
unfolding replaced
replaced-creatures_of i x [] = refl
replaced-creatures_of zero x (c ∷ cs) = refl
replaced-creatures_of (suc i) x (c ∷ cs) = ap (◌∷◌ (a_creature c)) (replaced-creatures_of i x cs)

length-set_at : (i : ℕ) (x : Item) (xs : List Item) → length (set_at i x xs) ≡ length xs
unfolding set_at
length-set_at i x [] = refl
length-set_at zero x (y ∷ ys) = refl
length-set_at (suc i) x (y ∷ ys) = ap suc (length-set_at i x ys)

set_at_nowhere : (i : ℕ) (x : Item) (xs : List Item) → get_elem? xs i ≡ none → set_at i x xs ≡ xs
unfolding set_at
set_at_nowhere i x [] h = refl
set_at_nowhere zero x (y ∷ ys) h = cc
set_at_nowhere (suc i) x (y ∷ ys) h = ap (◌∷◌ y) (set_at_nowhere i x ys h)

-- The things above the ground.
abbrev pub above : List Item → List ℕ → List Item → List Thing
above ts cs ds = items_of ts ++ (creatures_of cs ++ items_of ds)

replaced-above :
    (i : ℕ) (x : Item) (ts : List Item) (cs : List ℕ) (ds : List Item)
    → replaced i x (above ts cs ds) ≡ (
        if ltb i (length ts)
        then above (set_at i x ts) cs ds
        else (if ltb (i - length ts) (length cs)
            then above ts cs ds
            else above ts cs (set_at (i - length ts - length cs) x ds)))
replaced-above i x ts cs ds =
    rw
      (
        replaced-append i x (items_of ts) (creatures_of cs ++ items_of ds),
        replaced-append (i - length (items_of ts)) x (creatures_of cs) (items_of ds),
        length-items_of ts,
        length-creatures_of cs,
        replaced-items_of i x ts,
        replaced-creatures_of (i - length ts) x cs,
        replaced-items_of (i - length ts - length cs) x ds,
      )
      (ap (λ r. if ltb i (length ts) then above (set_at i x ts) cs ds else r)
        (if-float (λ r. items_of ts ++ r) (ltb (i - length ts) (length cs)) _ _))

things_put :
    (x old : Item) (t : Tile) {ds ts : List Item}
    → (down_items t ≡ ds) × (top_items t ≡ ts)
    → things (set_flags x (reset_flags old t)) ≡ ground_of t.ground ++ above ts t.creatures ds
unfolding things set_flags reset_flags down_items top_items
things_put x old t (e, f) = ap₂ (λ ds ts. ground_of t.ground ++ above ts t.creatures ds) e f

found_or_not :
    (x : Item) (t s : Tile) (zs : List Thing) (o : Option Item)
    → (o ≡ none → things t ≡ zs)
    → ((old : Item) → things (set_flags x (reset_flags old s)) ≡ zs)
    → things (elim o [ none ↦ t | some old ↦ set_flags x (reset_flags old s) ]) ≡ zs
found_or_not x t s zs none h k = h refl
found_or_not x t s zs (some old) h k = k old

length-top_items : (t : Tile) → length (top_items t) ≡ top_item_count t
unfolding top_items
length-top_items t = length-drop t.down_item_count t.items

ground_parts :
    (g : Option Item) (t : Tile)
    → (down_items (record t { ground = g }) ≡ down_items t)
      × (top_items (record t { ground = g }) ≡ top_items t)
unfolding down_items top_items
ground_parts g t = (refl, refl)

if-map {ℓ κ μ} :
    {A : Type ℓ} {B : Type κ} {C : Type μ} (f : A → C) (g : B → C) (b : Bool) (x y : A) (u v : B)
    → f x ≡ g u
    → f y ≡ g v
    → f (if b then x else y) ≡ g (if b then u else v)
if-map f g true x y u v h k = h
if-map f g false x y u v h k = k

replace_at_refines :
    (i : ℕ) (x : Item) (t : Tile) → IsSound t → things (replace_at i x t) ≡ replaced i x (things t)
unfolding replace_at things replaced set_tops set_downs
replace_at_refines i x t h = split t.ground refl
  where
    swap : Item → Tile → Tile
    swap old s = set_flags x (reset_flags old s)

    at : List Item → ℕ → (List Item → Tile) → Tile
    at xs j put = elim (get_elem? xs j) [ none ↦ t | some old ↦ swap old (put (set_at j x xs)) ]

    rest : List Thing → List Thing
    rest zs = ground_of t.ground ++ zs

    at_top :
        (j : ℕ)
        → things (at (top_items t) j (λ ys. set_tops ys t))
          ≡ rest (above (set_at j x (top_items t)) t.creatures (down_items t))
    at_top j =
        found_or_not x t _ _ (get_elem? (top_items t) j)
          (λ e.
            ap (λ ts. rest (above ts t.creatures (down_items t)))
              (sym (set_at_nowhere j x (top_items t) e)))
          (λ old. things_put x old _ (set_tops-parts _ t h.in_range))

    at_down :
        (j : ℕ)
        → things (at (down_items t) j (λ ys. set_downs ys t.down_item_count t))
          ≡ rest (above (top_items t) t.creatures (set_at j x (down_items t)))
    at_down j =
        found_or_not x t _ _ (get_elem? (down_items t) j)
          (λ e.
            ap (λ ds. rest (above (top_items t) t.creatures ds))
              (sym (set_at_nowhere j x (down_items t) e)))
          (λ old. things_put x old _ (set_downs-parts _ t.down_item_count t same_count))
      where
        same_count : t.down_item_count % 65536 ≡ length (set_at j x (down_items t))
        same_count =
            omega (
              arith,
              h.proper.few,
              length-down_items t h.in_range,
              length-set_at j x (down_items t),
            )

    tops_length : length (top_items t) ≡ top_item_count t
    tops_length = length-top_items t

    above_ground : ℕ → Tile
    above_ground j =
        if ltb j (top_item_count t)
        then at (top_items t) j (λ ys. set_tops ys t)
        else (if ltb (j - top_item_count t) (length t.creatures)
            then t
            else at (down_items t) (j - top_item_count t - length t.creatures)
                (λ ys. set_downs ys t.down_item_count t))

    higher :
        (j : ℕ)
        → things (above_ground j)
          ≡ rest (replaced j x (above (top_items t) t.creatures (down_items t)))
    higher j =
        three
        ∙ ap rest (
            sym
              (rw (sym tops_length) (replaced-above j x (top_items t) t.creatures (down_items t))))
      where
        three :
            things (above_ground j)
            ≡ rest (
                if ltb j (top_item_count t)
                then above (set_at j x (top_items t)) t.creatures (down_items t)
                else (if ltb (j - top_item_count t) (length t.creatures)
                    then above (top_items t) t.creatures (down_items t)
                    else above
                        (top_items t)
                        t.creatures
                        (set_at (j - top_item_count t - length t.creatures) x (down_items t))))
        three = if-map things rest (ltb j (top_item_count t)) _ _ _ _ (at_top j) (
            if-map things rest (ltb (j - top_item_count t) (length t.creatures)) _ _ _ _ refl
              (at_down (j - top_item_count t - length t.creatures)))

    apart : (j : ℕ) → (suc j == 0) ≡ false
    apart j = ground arith

    back : (j : ℕ) → suc j - 1 ≡ j
    back j = omega arith

    on_ground :
        (j : ℕ) (g : Item)
        → t.ground ≡ some g
        → things (if j == 0 then swap g (record t { ground = some x }) else above_ground (j - 1))
          ≡ replaced j x (an_item g ∷ above (top_items t) t.creatures (down_items t))
    on_ground zero g e = things_put x g (record t { ground = some x }) (ground_parts (some x) t)
    on_ground (suc j) g e =
        rw (apart j, back j)
          (higher j
            ∙ ap (λ o. ground_of o ++ replaced j x (above (top_items t) t.creatures (down_items t)))
                e)

    split :
        (o : Option Item)
        → t.ground ≡ o
        → things (elim o [
          | none ↦ above_ground i
          | some g ↦ if i == 0 then swap g (record t { ground = some x }) else above_ground (i - 1)
        ])
          ≡ replaced i x (ground_of o ++ above (top_items t) t.creatures (down_items t))
    split none e =
        higher i
        ∙ ap (λ o. ground_of o ++ replaced i x (above (top_items t) t.creatures (down_items t))) e
    split (some g) e = on_ground i g e

-- On a sound tile, replacing the thing at an index under 2^31 by an item changes, in the sequence of
-- the tile's things, the item at that index for the new one, and nothing else; at a creature's index
-- or past the end it changes nothing.
pub replace_thing_refines :
    (i : ℕ) (x : Item) (t : Tile)
    → IsSound t
    → i < 2147483648
    → (u : Tile) × ((replace_thing i x t ≡ some u) × (things u ≡ replaced i x (things t)))
unfolding replace_thing
replace_thing_refines i x t h b =
    (replace_at i x t, (rw (lt→ltb i 2147483648 b) refl, replace_at_refines i x t h))
