-- ===== src/Tiles/Tile/Counting.antt =====
-- What counting along a tile's things to one of them comes to.
use otx.Prelude.{
  ℕ, suc, ◌+◌, ◌-◌, ◌≤◌, ◌≡◌, refl, sym, ap, subst, inl, inr, Bool, true, false, ◌||◌, Option, none,
  some, List, [], ◌∷◌, ◌++◌, arith, ◌==◌, if◌then◌else◌, Bool-cases, length, get_elem?,
}
use otx.Prelude.Sets.{has}
use otx.Tiles.Item.{any, uids, Item}
use otx.Tiles.Tile.{
  down_items, top_items, count_to, is_item, or_else, Tile, Thing, a_creature, an_item,
}
use otx.Tiles.Tile.Things.{items_of, creatures_of, length-items_of, length-creatures_of}

-- The same object.
abbrev pub same : Thing → Thing → Bool
same (a_creature c) (a_creature d) = c == d
same (an_item x) (an_item y) = is_item x y
same _ _ = false

-- An item is searched for in the part of the tile that its type belongs to, so it must not stand in
-- the other part.
unfoldable pub IsRegional : Thing → Tile → Type 0
IsRegional (a_creature c) t = Unit {0}
IsRegional (an_item x) t =
    has x.uid (uids (if x.type.always_on_top then down_items t else top_items t)) ≡ false

module _ {ℓ} {A : Type ℓ} where
  pub count_to-append :
      (p : A → Bool) (n : ℕ) (xs ys : List A)
      → count_to p n (xs ++ ys) ≡ or_else (count_to p n xs) (count_to p (n + length xs) ys)
  count_to-append p n [] ys = ap (λ m. count_to p m ys) (omega arith)
  count_to-append p n (x ∷ xs) ys = elim (Bool-cases (p x)) [
    | inl e ↦ rw (e) refl
    | inr e ↦ rw (e, count_to-append p (n + 1) xs ys, shift n) refl
  ]
    where
      shift : (n : ℕ) → n + 1 + length xs ≡ n + suc (length xs)
      shift n = omega arith

  or_else-none : (a : Option A) → or_else a none ≡ a
  or_else-none none = refl
  or_else-none (some a) = refl

  -- The count ends at an element that satisfies the test.
  pub count_to-found :
      (p : A → Bool) (n : ℕ) (xs : List A) (i : ℕ)
      → count_to p n xs ≡ some i
      → (n ≤ i) × ((y : A) × (get_elem? xs (i - n) ≡ some y) × (p y ≡ true))
  count_to-found p n [] i h = cc
  count_to-found p n (x ∷ xs) i h = elim (Bool-cases (p x)) [
    | inl e ↦
        here e
          (injective n i (subst (λ b. (if b then some n else count_to p (n + 1) xs) ≡ some i) e h))
    | inr e ↦ there (
        count_to-found p (n + 1) xs i
          (subst (λ b. (if b then some n else count_to p (n + 1) xs) ≡ some i) e h))
  ]
    where
      injective : (a b : ℕ) → some a ≡ some b → a ≡ b
      injective a b k = cc

      here :
          p x ≡ true
          → n ≡ i
          → (n ≤ i) × ((y : A) × (get_elem? (x ∷ xs) (i - n) ≡ some y) × (p y ≡ true))
      here e k = (omega (arith, k), (x, rw (zeroed) refl, e))
        where
          zeroed : i - n ≡ 0
          zeroed = omega (arith, k)

      there :
          (n + 1 ≤ i) × ((y : A) × (get_elem? xs (i - (n + 1)) ≡ some y) × (p y ≡ true))
          → (n ≤ i) × ((y : A) × (get_elem? (x ∷ xs) (i - n) ≡ some y) × (p y ≡ true))
      there (k, (y, e, q)) = (omega (arith, k), (y, rw (onward) e, q))
        where
          onward : i - n ≡ suc (i - (n + 1))
          onward = omega (arith, k)

pub count_to-total {ℓ} :
    {A : Type ℓ} (p : A → Bool) (n : ℕ) (xs : List A)
    → any p xs ≡ true
    → (i : ℕ) × (count_to p n xs ≡ some i)
count_to-total p n [] h = cc
count_to-total p n (x ∷ xs) h = elim (Bool-cases (p x)) [
  | inl e ↦ (n, rw (e) refl)
  | inr e ↦ rw (e) (count_to-total p (n + 1) xs (subst (λ b. (b || any p xs) ≡ true) e h))
]

pub count_to-items_of :
    (x : Item) (n : ℕ) (xs : List Item)
    → count_to (same (an_item x)) n (items_of xs) ≡ count_to (is_item x) n xs
count_to-items_of x n [] = refl
count_to-items_of x n (y ∷ ys) = rw (count_to-items_of x (n + 1) ys) refl

pub count_to-creatures_of :
    (c : ℕ) (n : ℕ) (cs : List ℕ)
    → count_to (same (a_creature c)) n (creatures_of cs) ≡ count_to (◌==◌ c) n cs
count_to-creatures_of c n [] = refl
count_to-creatures_of c n (d ∷ ds) = rw (count_to-creatures_of c (n + 1) ds) refl

pub item_among_creatures :
    (x : Item) (n : ℕ) (cs : List ℕ) → count_to (same (an_item x)) n (creatures_of cs) ≡ none
item_among_creatures x n [] = refl
item_among_creatures x n (c ∷ cs) = item_among_creatures x (n + 1) cs

pub creature_among_items :
    (c : ℕ) (n : ℕ) (xs : List Item) → count_to (same (a_creature c)) n (items_of xs) ≡ none
creature_among_items c n [] = refl
creature_among_items c n (x ∷ xs) = creature_among_items c (n + 1) xs

pub missing :
    (x : Item) (n : ℕ) (xs : List Item)
    → has x.uid (uids xs) ≡ false
    → count_to (is_item x) n xs ≡ none
missing x n [] h = refl
missing x n (y ∷ ys) h = ground (arith, missing x (n + 1) ys)

pub items_then :
    (x : Item) (n : ℕ) (tops : List Item) (cs : List ℕ) (downs : List Item)
    → count_to (same (an_item x)) n (items_of tops ++ (creatures_of cs ++ items_of downs))
      ≡ or_else
          (count_to (is_item x) n tops)
          (count_to (is_item x) (n + length tops + length cs) downs)
items_then x n tops cs downs =
    rw
      (
        count_to-append (same (an_item x)) n (items_of tops) (creatures_of cs ++ items_of downs),
        count_to-append (same (an_item x)) (n + length (items_of tops)) (creatures_of cs)
            (items_of downs),
        item_among_creatures x (n + length (items_of tops)) cs,
        length-items_of tops,
        length-creatures_of cs,
        count_to-items_of x n tops,
        count_to-items_of x (n + length tops + length cs) downs,
      )
      refl

pub creatures_then :
    (c : ℕ) (n : ℕ) (tops : List Item) (cs : List ℕ) (downs : List Item)
    → count_to (same (a_creature c)) n (items_of tops ++ (creatures_of cs ++ items_of downs))
      ≡ count_to (◌==◌ c) (n + length tops) cs
creatures_then c n tops cs downs =
    rw
      (
        count_to-append (same (a_creature c)) n (items_of tops) (creatures_of cs ++ items_of downs),
        count_to-append (same (a_creature c)) (n + length (items_of tops)) (creatures_of cs)
            (items_of downs),
        creature_among_items c n tops,
        creature_among_items c (n + length (items_of tops) + length (creatures_of cs)) downs,
        length-items_of tops,
        count_to-creatures_of c (n + length tops) cs,
      )
      (or_else-none (count_to (◌==◌ c) (n + length tops) cs))

-- The parts that an item is not in do not matter.
pub one_part :
    (x : Item) (n m : ℕ) (tops downs : List Item) (b : Bool)
    → has x.uid (uids (if b then downs else tops)) ≡ false
    → (if b then count_to (is_item x) n tops else count_to (is_item x) m downs)
      ≡ or_else (count_to (is_item x) n tops) (count_to (is_item x) m downs)
one_part x n m tops downs true h =
    rw (missing x m downs h) (sym (or_else-none (count_to (is_item x) n tops)))
one_part x n m tops downs false h = rw (missing x n tops h) refl
