-- ===== src/Tiles/Tile/Positions.antt =====
-- A client's position of a thing is its index on the tile as the client has it, below ten.

use otx.Prelude.{
  ℕ, suc, ◌+◌, ◌≤◌, ◌<◌, ◌≡◌, refl, sym, ap, ◌∙◌, inl, inr, Bool, true, false, none, some, List, [],
  ◌∷◌, arith, ltb, leb, ◌==◌, if◌then◌else◌, ltb→lt, ltb-false, leb→le, Bool-cases, Option-cases,
  if-both, if-cases, length,
}
use otx.Tiles.Item.{Item}
use otx.Tiles.Tile.{
  down_items, top_items, ground_count, top_item_count, ground_is, count_to, is_item,
  get_thing_index, Tile, an_item,
}
use otx.Tiles.Tile.Client.{
  reversed, count_seen, get_client_index_of_creature, count_seen_below, get_stackpos_of_creature,
  count_to_below, past_seen, get_stackpos_of_item, visible, below_ten,
}

is_below : (n : ℕ) → n < 10 → below_ten (some n) ≡ some n
is_below n h = ground (arith, h)

is_over : (n : ℕ) → 10 ≤ n → below_ten (some n) ≡ none
is_over n h = ground (arith, h)

under : (n : ℕ) → leb 10 n ≡ false → n < 10
under n h = ground (arith, h)

count_to_over {ℓ} :
    {A : Type ℓ} (p : A → Bool) (n : ℕ) (xs : List A) → 10 ≤ n → below_ten (count_to p n xs) ≡ none
count_to_over p n [] h = refl
count_to_over p n (x ∷ xs) h =
    if-both (λ o. below_ten o ≡ none) (p x) (some n) (count_to p (n + 1) xs) (is_over n h)
      (count_to_over p (n + 1) xs (omega (arith, h)))

count_to_below_lem :
    (x : Item) (n : ℕ) (xs : List Item)
    → n < 10
    → count_to_below x n xs ≡ below_ten (count_to (is_item x) n xs)
count_to_below_lem x n [] h = refl
count_to_below_lem x n (y ∷ ys) h = elim (Bool-cases (is_item x y)) [
  | inl e ↦ rw (e) (sym (is_below n h))
  | inr e ↦ rw (e) (
      if-cases (λ o. o ≡ below_ten (count_to (is_item x) (n + 1) ys)) (leb 10 (n + 1)) none _
        (λ l. sym (count_to_over (is_item x) (n + 1) ys (leb→le 10 (n + 1) l)))
        (λ l. count_to_below_lem x (n + 1) ys (under (n + 1) l)))
]

past_seen_lem :
    (see : ℕ → Bool) (n : ℕ) (ds : List ℕ)
    → n < 10
    → past_seen see n ds ≡ below_ten (some (n + length (visible see ds)))
past_seen_lem see n [] h = sym (ap (λ k. below_ten (some k)) (add_zero n) ∙ is_below n h)
  where
    add_zero : (n : ℕ) → n + 0 ≡ n
    add_zero n = omega arith
past_seen_lem see n (d ∷ ds) h = elim (Bool-cases (see d)) [
  | inl e ↦ rw (e) (
      if-cases (λ o. o ≡ below_ten (some (n + suc (length (visible see ds))))) (leb 10 (n + 1)) none
        _
        (λ l.
          sym (is_over (n + suc (length (visible see ds))) (omega (arith, leb→le 10 (n + 1) l))))
        (λ l.
          past_seen_lem see (n + 1) ds (under (n + 1) l)
          ∙ ap (λ k. below_ten (some k)) (shift n (length (visible see ds)))))
  | inr e ↦ rw (e) (past_seen_lem see n ds h)
]
  where
    shift : (n m : ℕ) → n + 1 + m ≡ n + suc m
    shift n m = omega arith

downs_lem :
    (x : Item) (k : ℕ) (xs : List Item)
    → (elim (below_ten (some k)) [ none ↦ none | some n ↦ count_to_below x n xs ])
      ≡ below_ten (count_to (is_item x) k xs)
downs_lem x k xs = elim (Bool-cases (ltb k 10)) [
  | inl e ↦ rw (e) (count_to_below_lem x k xs (ltb→lt k 10 e))
  | inr e ↦ rw (e) (sym (count_to_over (is_item x) k xs (ltb-false k 10 e)))
]

abbrev pub client_tile : (ℕ → Bool) → Tile → Tile
client_tile see t = record t { creatures = visible see t.creatures }

-- The position of an item that a client is told is its index on the tile without the creatures that
-- the player cannot see, if that is below ten, and none else.
pub get_stackpos_of_item_lem :
    (see : ℕ → Bool) (x : Item) (t : Tile)
    → get_stackpos_of_item see x t ≡ below_ten (get_thing_index (an_item x) (client_tile see t))
unfolding get_stackpos_of_item get_thing_index down_items top_items
get_stackpos_of_item_lem see x t = elim (Bool-cases (ground_is (is_item x) t.ground)) [
  | inl e ↦ rw (e) refl
  | inr e ↦ rw (e) (branches x.type.always_on_top)
]
  where
    small : ground_count t < 10
    small = elim (Option-cases t.ground) [
      | inl e ↦ rw (e) (omega arith)
      | inr (g, e) ↦ rw (e) (omega arith)
    ]

    m : ℕ
    m = ground_count t + top_item_count t

    downs :
        (if leb 10 m then none else elim (past_seen see m t.creatures) [
          | none ↦ none
          | some k ↦ count_to_below x k (down_items t)
        ])
        ≡ below_ten (count_to (is_item x) (m + length (visible see t.creatures)) (down_items t))
    downs =
        if-cases
          (λ o.
            o
            ≡ below_ten
                (count_to (is_item x) (m + length (visible see t.creatures)) (down_items t)))
          (leb 10 m) none _
          (λ l. sym (count_to_over (is_item x) _ (down_items t) (far (leb→le 10 m l))))
          (λ l. rw (past_seen_lem see m t.creatures (under m l)) (downs_lem x _ (down_items t)))
      where
        far : 10 ≤ m → 10 ≤ m + length (visible see t.creatures)
        far l = omega (arith, l)

    branches :
        (b : Bool)
        → (if b
            then count_to_below x (ground_count t) (top_items t)
            else (if leb 10 m then none else elim (past_seen see m t.creatures) [
              | none ↦ none
              | some k ↦ count_to_below x k (down_items t)
            ]))
          ≡ below_ten (
              if b
              then count_to (is_item x) (ground_count t) (top_items t)
              else count_to (is_item x) (m + length (visible see t.creatures)) (down_items t))
    branches true = count_to_below_lem x (ground_count t) (top_items t) small
    branches false = downs

count_seen_over :
    (see : ℕ → Bool) (c n : ℕ) (ds : List ℕ) → 10 ≤ n → below_ten (count_seen see c n ds) ≡ none
count_seen_over see c n [] h = refl
count_seen_over see c n (d ∷ ds) h =
    if-both (λ o. below_ten o ≡ none) (c == d) (some n) _ (is_over n h)
      (count_seen_over see c (if see d then n + 1 else n) ds
        (if-both (λ k. 10 ≤ k) (see d) (n + 1) n (omega (arith, h)) h))

count_seen_below_lem :
    (see : ℕ → Bool) (c n : ℕ) (ds : List ℕ)
    → n < 10
    → count_seen_below see c n ds ≡ below_ten (count_seen see c n ds)
count_seen_below_lem see c n [] h = refl
count_seen_below_lem see c n (d ∷ ds) h = elim (Bool-cases (c == d)) [
  | inl e ↦ rw (e) (sym (is_below n h))
  | inr e ↦ elim (Bool-cases (see d)) [
    | inl f ↦
        rw (e, f)
          (if-cases (λ o. o ≡ below_ten (count_seen see c (n + 1) ds)) (leb 10 (n + 1)) none _
            (λ l. sym (count_seen_over see c (n + 1) ds (leb→le 10 (n + 1) l)))
            (λ l. count_seen_below_lem see c (n + 1) ds (under (n + 1) l)))
    | inr f ↦ rw (e, f) (count_seen_below_lem see c n ds h)
  ]
]

-- The position of a creature that a client is told is its client index if that is below ten, and
-- none else.
pub get_stackpos_of_creature_lem :
    (see : ℕ → Bool) (c : ℕ) (t : Tile)
    → get_stackpos_of_creature see c t ≡ below_ten (get_client_index_of_creature see c t)
unfolding get_stackpos_of_creature get_client_index_of_creature
get_stackpos_of_creature_lem see c t =
    if-cases
      (λ o.
        o ≡ below_ten (count_seen see c (ground_count t + top_item_count t) (reversed t.creatures)))
      (leb 10 (ground_count t + top_item_count t)) none _
      (λ l. sym (count_seen_over see c _ (reversed t.creatures) (leb→le 10 _ l)))
      (λ l. count_seen_below_lem see c _ (reversed t.creatures) (under _ l))
