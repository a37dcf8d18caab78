-- ===== src/Tiles/Tile/Parts.antt =====
-- What the two parts of a tile's vector and its ground satisfy, and how that survives an item put
-- in, taken out or changed.

use otx.Prelude.{
  ℕ, suc, ◌+◌, ◌≤◌, ◌≡◌, refl, ap, subst, inl, inr, Bool, true, false, ◌||◌, Option, none, some,
  List, [], ◌∷◌, arith, ◌==◌, ==_iff, Bool-cases, if-both, length, All,
}
use otx.Prelude.Sets.{has, remove, IsDistinct}
use otx.Tiles.Item.{uids, remove_item, replace_item, Item}
use otx.Tiles.Tile.Changes.{insert_before}

abbrev pub IsDown : Item → Type 0
IsDown x = x.type.always_on_top ≡ false

abbrev pub IsTop : Item → Type 0
IsTop x = x.type.always_on_top ≡ true

abbrev pub order_of : Item → ℕ
order_of x = x.type.always_on_top_order

abbrev pub IsOrdered : List Item → Type 0
IsOrdered [] = Unit {0}
IsOrdered (x ∷ xs) = All (λ y. order_of x ≤ order_of y) xs × IsOrdered xs

abbrev pub IsDisjoint : List ℕ → List ℕ → Type 0
IsDisjoint us vs = (u : ℕ) → has u us ≡ true → has u vs ≡ false

abbrev pub ground_uids : Option Item → List ℕ
ground_uids none = []
ground_uids (some g) = g.uid ∷ []

-- No vector grows over 65535 items, each item is in its part, those on top in their order, and no
-- item is in two places.
pub record ProperParts (g : Option Item) (ds : List Item) (ts : List Item) : Type 0 where
  pub few : length ds + length ts ≤ 65535
  pub downs_down : All IsDown ds
  pub tops_top : All IsTop ts
  pub tops_ordered : IsOrdered ts
  pub downs_distinct : IsDistinct (uids ds)
  pub tops_distinct : IsDistinct (uids ts)
  pub parts_disjoint : IsDisjoint (uids ds) (uids ts)
  pub ground_downs : IsDisjoint (ground_uids g) (uids ds)
  pub ground_tops : IsDisjoint (ground_uids g) (uids ts)

pub uids-remove_item : (u : ℕ) (xs : List Item) → uids (remove_item u xs) ≡ remove u (uids xs)
unfolding remove_item
uids-remove_item u [] = refl
uids-remove_item u (x ∷ xs) = elim (Bool-cases (u == x.uid)) [
  | inl e ↦ rw (e) refl
  | inr e ↦ rw (e) (ap (◌∷◌ x.uid) (uids-remove_item u xs))
]

pub length-remove_item :
    (u : ℕ) (xs : List Item) → has u (uids xs) ≡ true → suc (length (remove_item u xs)) ≡ length xs
unfolding remove_item
length-remove_item u [] h = cc
length-remove_item u (x ∷ xs) h = elim (Bool-cases (u == x.uid)) [
  | inl e ↦ rw (e) refl
  | inr e ↦
      rw (e) (ap suc (length-remove_item u xs (subst (λ b. (b || has u (uids xs)) ≡ true) e h)))
]

pub remove_item-All :
    (P : Item → Type 0) (u : ℕ) (xs : List Item) → All P xs → All P (remove_item u xs)
unfolding remove_item
remove_item-All P u [] h = h
remove_item-All P u (x ∷ xs) h =
    if-both (All P) (u == x.uid) xs (x ∷ remove_item u xs) h.1 (h.0, remove_item-All P u xs h.1)

pub remove_item-IsOrdered : (u : ℕ) (xs : List Item) → IsOrdered xs → IsOrdered (remove_item u xs)
unfolding remove_item
remove_item-IsOrdered u [] h = h
remove_item-IsOrdered u (x ∷ xs) h =
    if-both IsOrdered (u == x.uid) xs (x ∷ remove_item u xs) h.1
      (remove_item-All _ u xs h.0, remove_item-IsOrdered u xs h.1)

pub uids-replace_item : (y : Item) (xs : List Item) → uids (replace_item y.uid y xs) ≡ uids xs
unfolding replace_item
uids-replace_item y [] = refl
uids-replace_item y (x ∷ xs) = elim (Bool-cases (y.uid == x.uid)) [
  | inl e ↦ rw (e) (ap (λ u. u ∷ uids xs) ((==_iff y.uid x.uid).0 e))
  | inr e ↦ rw (e) (ap (◌∷◌ x.uid) (uids-replace_item y xs))
]

pub length-replace_item :
    (u : ℕ) (y : Item) (xs : List Item) → length (replace_item u y xs) ≡ length xs
unfolding replace_item
length-replace_item u y [] = refl
length-replace_item u y (x ∷ xs) = elim (Bool-cases (u == x.uid)) [
  | inl e ↦ rw (e) refl
  | inr e ↦ rw (e) (ap suc (length-replace_item u y xs))
]

pub replace_item-All :
    (P : Item → Type 0) (u : ℕ) (y : Item) (xs : List Item)
    → P y
    → All P xs
    → All P (replace_item u y xs)
unfolding replace_item
replace_item-All P u y [] k h = h
replace_item-All P u y (x ∷ xs) k h =
    if-both (All P) (u == x.uid) (y ∷ xs) (x ∷ replace_item u y xs) (k, h.1)
      (h.0, replace_item-All P u y xs k h.1)

pub has-insert_before :
    (u : ℕ) (p : Item → Bool) (x : Item) (xs : List Item)
    → has u (uids (insert_before p x xs)) ≡ (u == x.uid || has u (uids xs))
unfolding insert_before
has-insert_before u p x [] = refl
has-insert_before u p x (y ∷ ys) = elim (Bool-cases (p y)) [
  | inl e ↦ rw (e) refl
  | inr e ↦ rw (e, has-insert_before u p x ys) (swapped (u == y.uid) (u == x.uid) (has u (uids ys)))
]
  where
    swapped : (a b c : Bool) → (a || (b || c)) ≡ (b || (a || c))
    swapped true true c = refl
    swapped true false c = refl
    swapped false b c = refl

pub length-insert_before :
    (p : Item → Bool) (x : Item) (xs : List Item) → length (insert_before p x xs) ≡ suc (length xs)
unfolding insert_before
length-insert_before p x [] = refl
length-insert_before p x (y ∷ ys) = elim (Bool-cases (p y)) [
  | inl e ↦ rw (e) refl
  | inr e ↦ rw (e) (ap suc (length-insert_before p x ys))
]

pub insert_before-All :
    (P : Item → Type 0) (p : Item → Bool) (x : Item) (xs : List Item)
    → P x
    → All P xs
    → All P (insert_before p x xs)
unfolding insert_before
insert_before-All P p x [] k h = (k, h)
insert_before-All P p x (y ∷ ys) k h =
    if-both (All P) (p y) (x ∷ y ∷ ys) (y ∷ insert_before p x ys) (k, h)
      (h.0, insert_before-All P p x ys k h.1)

pub insert_before-IsDistinct :
    (p : Item → Bool) (x : Item) (xs : List Item)
    → has x.uid (uids xs) ≡ false
    → IsDistinct (uids xs)
    → IsDistinct (uids (insert_before p x xs))
unfolding insert_before
insert_before-IsDistinct p x [] f d = (f, d)
insert_before-IsDistinct p x (y ∷ ys) f d = elim (Bool-cases (p y)) [
  | inl e ↦ rw (e) (f, d)
  | inr e ↦
      rw (e) (rw (has-insert_before y.uid p x ys) (apart), insert_before-IsDistinct p x ys rest d.1)
]
  where
    apart : (y.uid == x.uid || has y.uid (uids ys)) ≡ false
    apart = ground (arith, f, d.0)

    rest : has x.uid (uids ys) ≡ false
    rest = ground (arith, f)

All-weaken : {P Q : Item → Type 0} (xs : List Item) → ((y : Item) → P y → Q y) → All P xs → All Q xs
All-weaken [] k h = h
All-weaken (x ∷ xs) k h = (k x h.0, All-weaken xs k h.1)

-- The two tests of the source, the weak one and the strict one, both keep the order.
pub insert_before-IsOrdered :
    (p : Item → Bool) (x : Item) (xs : List Item)
    → ((y : Item) → p y ≡ true → order_of x ≤ order_of y)
    → ((y : Item) → p y ≡ false → order_of y ≤ order_of x)
    → IsOrdered xs
    → IsOrdered (insert_before p x xs)
unfolding insert_before
insert_before-IsOrdered p x [] yes_le no_le h = (tt, h)
insert_before-IsOrdered p x (y ∷ ys) yes_le no_le h = elim (Bool-cases (p y)) [
  | inl e ↦ rw (e) (
    (
      yes_le y e,
      All-weaken ys (λ z k. le_trans (order_of x) (order_of y) (order_of z) (yes_le y e) k) h.0,
    ),
    h,
  )
  | inr e ↦
      rw (e) (
        insert_before-All _ p x ys (no_le y e) h.0,
        insert_before-IsOrdered p x ys yes_le no_le h.1,
      )
]
  where
    le_trans : (a b c : ℕ) → a ≤ b → b ≤ c → a ≤ c
    le_trans a b c k l = omega (arith, k, l)
