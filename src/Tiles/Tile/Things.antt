-- ===== src/Tiles/Tile/Things.antt =====
-- What a tile promises to those that name things by their index: a sequence of things, the ground
-- first, then the items always on top, the creatures and the other items.

use otx.Prelude.{
  ℕ, zero, suc, ◌+◌, ◌-◌, ◌≡◌, refl, sym, ap, inl, inr, false, Option, none, some, List, [], ◌∷◌,
  ◌++◌, arith, ltb, ◌==◌, if◌then◌else◌, Option-cases, length, get_elem?, take, drop, length-drop,
  get_elem?-append, get_elem?-drop,
}
use otx.Tiles.Item.{Item}
use otx.Tiles.Tile.{down_items, top_items, get_thing, Tile, Thing, a_creature, an_item}

abbrev pub items_of : List Item → List Thing
items_of [] = []
items_of (x ∷ xs) = an_item x ∷ items_of xs

abbrev pub creatures_of : List ℕ → List Thing
creatures_of [] = []
creatures_of (c ∷ cs) = a_creature c ∷ creatures_of cs

abbrev pub ground_of : Option Item → List Thing
ground_of none = []
ground_of (some g) = an_item g ∷ []

unfoldable pub things : Tile → List Thing
things t =
    ground_of t.ground
    ++ (items_of (top_items t) ++ (creatures_of t.creatures ++ items_of (down_items t)))

pub length-items_of : (xs : List Item) → length (items_of xs) ≡ length xs
length-items_of [] = refl
length-items_of (x ∷ xs) = ap suc (length-items_of xs)

pub length-creatures_of : (xs : List ℕ) → length (creatures_of xs) ≡ length xs
length-creatures_of [] = refl
length-creatures_of (x ∷ xs) = ap suc (length-creatures_of xs)

abbrev pub item_in : List Item → ℕ → Option Thing
item_in xs i = elim (get_elem? xs i) [ none ↦ none | some x ↦ some (an_item x) ]

abbrev pub creature_in : List ℕ → ℕ → Option Thing
creature_in cs i = elim (get_elem? cs i) [ none ↦ none | some c ↦ some (a_creature c) ]

pub get_elem?-items_of : (xs : List Item) (i : ℕ) → get_elem? (items_of xs) i ≡ item_in xs i
get_elem?-items_of [] i = refl
get_elem?-items_of (x ∷ xs) zero = refl
get_elem?-items_of (x ∷ xs) (suc i) = get_elem?-items_of xs i

pub get_elem?-creatures_of :
    (cs : List ℕ) (i : ℕ) → get_elem? (creatures_of cs) i ≡ creature_in cs i
get_elem?-creatures_of [] i = refl
get_elem?-creatures_of (c ∷ cs) zero = refl
get_elem?-creatures_of (c ∷ cs) (suc i) = get_elem?-creatures_of cs i

item_in-drop : (d : ℕ) (xs : List Item) (i : ℕ) → item_in (drop d xs) i ≡ item_in xs (d + i)
item_in-drop d xs i =
    ap (λ o. elim o [ none ↦ none | some x ↦ some (an_item x) ]) (get_elem?-drop d xs i)

item_in-take :
    (d : ℕ) (xs : List Item) (i : ℕ)
    → item_in (take d xs) i ≡ (if ltb i d then item_in xs i else none)
item_in-take zero xs i = ground arith
item_in-take (suc d) [] i = ground arith
item_in-take (suc d) (x ∷ xs) zero = ground arith
item_in-take (suc d) (x ∷ xs) (suc i) = rw (same) (item_in-take d xs i)
  where
    same : ltb (suc i) (suc d) ≡ ltb i d
    same = ground arith

-- An index of a tile whose first `d` items are the others is one of three cases.
pub get_elem?-parts :
    (d : ℕ) (xs : List Item) (cs : List ℕ) (i : ℕ)
    → get_elem? (items_of (drop d xs) ++ (creatures_of cs ++ items_of (take d xs))) i ≡ (
        if ltb i (length xs - d)
        then item_in xs (d + i)
        else (if ltb (i - (length xs - d)) (length cs)
            then creature_in cs (i - (length xs - d))
            else (if ltb (i - (length xs - d) - length cs) d
                then item_in xs (i - (length xs - d) - length cs)
                else none)))
get_elem?-parts d xs cs i =
    rw
      (
        get_elem?-append (items_of (drop d xs)) (creatures_of cs ++ items_of (take d xs)) i,
        get_elem?-append (creatures_of cs) (items_of (take d xs))
            (i - length (items_of (drop d xs))),
        length-items_of (drop d xs),
        length-drop d xs,
        length-creatures_of cs,
        get_elem?-items_of (drop d xs) i,
        item_in-drop d xs i,
        get_elem?-creatures_of cs (i - (length xs - d)),
        get_elem?-items_of (take d xs) (i - (length xs - d) - length cs),
        item_in-take d xs (i - (length xs - d) - length cs),
      )
      refl

-- `getThing` finds at every index what the sequence of the tile's things has there.
pub get_thing_refines : (i : ℕ) (t : Tile) → get_thing i t ≡ get_elem? (things t) i
unfolding get_thing things top_items down_items
get_thing_refines i t = elim (Option-cases t.ground) [
  | inl e ↦ rw (e) (sym (get_elem?-parts t.down_item_count t.items t.creatures i))
  | inr (g, e) ↦ rw (e) (placed g i)
]
  where
    apart : (i : ℕ) → (suc i == 0) ≡ false
    apart i = ground arith

    back : (i : ℕ) → suc i - 1 ≡ i
    back i = omega arith

    placed :
        (g : Item) (i : ℕ)
        → get_thing i (record t { ground = some g })
          ≡ get_elem? (an_item g ∷ things (record t { ground = none })) i
    placed g zero = ground arith
    placed g (suc i) =
        rw (apart i, back i) (sym (get_elem?-parts t.down_item_count t.items t.creatures i))
