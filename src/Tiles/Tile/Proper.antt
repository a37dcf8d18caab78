-- ===== src/Tiles/Tile/Proper.antt =====
-- The parts of a tile's vector stay proper, each when an item is put in it, taken out of it or
-- changed, and so does the ground.

use otx.Prelude.{
  ℕ, ◌+◌, ◌≤◌, ◌<◌, ◌≡◌, sym, ap, ◌∙◌, ◌≢◌, ◌⊎◌, inl, inr, Bool, true, false, ◌||◌, Option, none,
  some, List, [], ◌∷◌, arith, ◌==◌, Bool-cases, length,
}
use otx.Prelude.Sets.{has, IsDistinct, has_of_has-remove, remove-IsDistinct}
use otx.Tiles.Item.{uids, remove_item, replace_item, Item}
use otx.Tiles.Tile.Changes.{insert_before}
use otx.Tiles.Tile.Parts.{
  IsDown, IsTop, order_of, IsDisjoint, ground_uids, uids-remove_item, length-remove_item,
  remove_item-All, remove_item-IsOrdered, uids-replace_item, length-replace_item, replace_item-All,
  has-insert_before, length-insert_before, insert_before-All, insert_before-IsDistinct,
  insert_before-IsOrdered, ProperParts,
}

-- An item that is not on the tile.
abbrev pub IsFresh : Item → Option Item → List Item → List Item → Type 0
IsFresh x g ds ts =
    (has x.uid (ground_uids g) ≡ false)
    × ((has x.uid (uids ds) ≡ false) × (has x.uid (uids ts) ≡ false))

either : (u v : ℕ) (b : Bool) → (u == v || b) ≡ true → (u ≡ v) ⊎ (b ≡ true)
either u v b h = ground (arith, h)

-- What meets neither the new item nor the others.
cons-IsDisjoint :
    (v : ℕ) (us vs : List ℕ) → has v vs ≡ false → IsDisjoint us vs → IsDisjoint (v ∷ us) vs
cons-IsDisjoint v us vs f d u h = elim (either u v (has u us) h) [
  | inl e ↦ rw (e) f
  | inr k ↦ d u k
]

cons-IsDisjoint-right :
    (v : ℕ) (us vs : List ℕ) → has v us ≡ false → IsDisjoint us vs → IsDisjoint us (v ∷ vs)
cons-IsDisjoint-right v us vs f d u h = ground (arith, d u h, apart)
  where
    apart : u ≢ v
    apart e = cc

insert-IsDisjoint :
    (p : Item → Bool) (x : Item) (us : List ℕ) (ts : List Item)
    → has x.uid us ≡ false
    → IsDisjoint us (uids ts)
    → IsDisjoint us (uids (insert_before p x ts))
insert-IsDisjoint p x us ts f d u h =
    has-insert_before u p x ts ∙ cons-IsDisjoint-right x.uid us (uids ts) f d u h

remove-IsDisjoint :
    (v : ℕ) (us : List ℕ) (xs : List Item)
    → IsDisjoint us (uids xs)
    → IsDisjoint us (uids (remove_item v xs))
remove-IsDisjoint v us xs d u h = elim (Bool-cases (has u (uids (remove_item v xs)))) [
  | inl e ↦ absurd (true_false (sym (kept e) ∙ d u h))
  | inr e ↦ e
]
  where
    kept : has u (uids (remove_item v xs)) ≡ true → has u (uids xs) ≡ true
    kept e = has_of_has-remove u v (uids xs) (ap (has u) (sym (uids-remove_item v xs)) ∙ e)

    true_false : true ≢ false
    true_false k = cc

removed-IsDisjoint :
    (v : ℕ) (xs : List Item) (vs : List ℕ)
    → IsDisjoint (uids xs) vs
    → IsDisjoint (uids (remove_item v xs)) vs
removed-IsDisjoint v xs vs d u h =
    d u (has_of_has-remove u v (uids xs) (ap (has u) (sym (uids-remove_item v xs)) ∙ h))

remove_item-IsDistinct :
    (v : ℕ) (xs : List Item) → IsDistinct (uids xs) → IsDistinct (uids (remove_item v xs))
remove_item-IsDistinct v xs d = rw (uids-remove_item v xs) (remove-IsDistinct v (uids xs) d)

-- Each part of the vector, changed.
pub push-ProperParts :
    (x : Item) (g : Option Item) (ds ts : List Item)
    → IsDown x
    → IsFresh x g ds ts
    → length ds + length ts < 65535
    → ProperParts g ds ts
    → ProperParts g (x ∷ ds) ts
push-ProperParts x g ds ts k (fg, (fd, ft)) l h = record {
  few = omega (arith, l);
  downs_down = (k, h.downs_down);
  tops_top = h.tops_top;
  tops_ordered = h.tops_ordered;
  downs_distinct = (fd, h.downs_distinct);
  tops_distinct = h.tops_distinct;
  parts_disjoint = cons-IsDisjoint x.uid (uids ds) (uids ts) ft h.parts_disjoint;
  ground_downs = cons-IsDisjoint-right x.uid (ground_uids g) (uids ds) fg h.ground_downs;
  ground_tops = h.ground_tops;
}

pub insert-ProperParts :
    (p : Item → Bool) (x : Item) (g : Option Item) (ds ts : List Item)
    → ((y : Item) → p y ≡ true → order_of x ≤ order_of y)
    → ((y : Item) → p y ≡ false → order_of y ≤ order_of x)
    → IsTop x
    → IsFresh x g ds ts
    → length ds + length ts < 65535
    → ProperParts g ds ts
    → ProperParts g ds (insert_before p x ts)
insert-ProperParts p x g ds ts yes_le no_le k (fg, (fd, ft)) l h = record {
  few = omega (arith, l, length-insert_before p x ts);
  downs_down = h.downs_down;
  tops_top = insert_before-All IsTop p x ts k h.tops_top;
  tops_ordered = insert_before-IsOrdered p x ts yes_le no_le h.tops_ordered;
  downs_distinct = h.downs_distinct;
  tops_distinct = insert_before-IsDistinct p x ts ft h.tops_distinct;
  parts_disjoint = insert-IsDisjoint p x (uids ds) ts fd h.parts_disjoint;
  ground_downs = h.ground_downs;
  ground_tops = insert-IsDisjoint p x (ground_uids g) ts fg h.ground_tops;
}

pub remove_down-ProperParts :
    (u : ℕ) (g : Option Item) (ds ts : List Item)
    → has u (uids ds) ≡ true
    → ProperParts g ds ts
    → ProperParts g (remove_item u ds) ts
remove_down-ProperParts u g ds ts f h = record {
  few = omega (arith, h.few, length-remove_item u ds f);
  downs_down = remove_item-All IsDown u ds h.downs_down;
  tops_top = h.tops_top;
  tops_ordered = h.tops_ordered;
  downs_distinct = remove_item-IsDistinct u ds h.downs_distinct;
  tops_distinct = h.tops_distinct;
  parts_disjoint = removed-IsDisjoint u ds (uids ts) h.parts_disjoint;
  ground_downs = remove-IsDisjoint u (ground_uids g) ds h.ground_downs;
  ground_tops = h.ground_tops;
}

pub remove_top-ProperParts :
    (u : ℕ) (g : Option Item) (ds ts : List Item)
    → has u (uids ts) ≡ true
    → ProperParts g ds ts
    → ProperParts g ds (remove_item u ts)
remove_top-ProperParts u g ds ts f h = record {
  few = omega (arith, h.few, length-remove_item u ts f);
  downs_down = h.downs_down;
  tops_top = remove_item-All IsTop u ts h.tops_top;
  tops_ordered = remove_item-IsOrdered u ts h.tops_ordered;
  downs_distinct = h.downs_distinct;
  tops_distinct = remove_item-IsDistinct u ts h.tops_distinct;
  parts_disjoint = remove-IsDisjoint u (uids ds) ts h.parts_disjoint;
  ground_downs = h.ground_downs;
  ground_tops = remove-IsDisjoint u (ground_uids g) ts h.ground_tops;
}

pub replace_down-ProperParts :
    (x : Item) (g : Option Item) (ds ts : List Item)
    → IsDown x
    → ProperParts g ds ts
    → ProperParts g (replace_item x.uid x ds) ts
replace_down-ProperParts x g ds ts k h = record {
  few = rw (length-replace_item x.uid x ds) h.few;
  downs_down = replace_item-All IsDown x.uid x ds k h.downs_down;
  tops_top = h.tops_top;
  tops_ordered = h.tops_ordered;
  downs_distinct = rw (uids-replace_item x ds) h.downs_distinct;
  tops_distinct = h.tops_distinct;
  parts_disjoint = rw (uids-replace_item x ds) h.parts_disjoint;
  ground_downs = rw (uids-replace_item x ds) h.ground_downs;
  ground_tops = h.ground_tops;
}

single-IsDisjoint : (u : ℕ) (vs : List ℕ) → has u vs ≡ false → IsDisjoint (u ∷ []) vs
single-IsDisjoint u vs f = cons-IsDisjoint u [] vs f (λ v h. absurd (true_false h))
  where
    true_false : false ≢ true
    true_false k = cc

pub ground-ProperParts :
    (x : Item) (g : Option Item) (ds ts : List Item)
    → IsFresh x g ds ts
    → ProperParts g ds ts
    → ProperParts (some x) ds ts
ground-ProperParts x g ds ts (fg, (fd, ft)) h = record {
  few = h.few;
  downs_down = h.downs_down;
  tops_top = h.tops_top;
  tops_ordered = h.tops_ordered;
  downs_distinct = h.downs_distinct;
  tops_distinct = h.tops_distinct;
  parts_disjoint = h.parts_disjoint;
  ground_downs = single-IsDisjoint x.uid (uids ds) fd;
  ground_tops = single-IsDisjoint x.uid (uids ts) ft;
}

pub bare-ProperParts :
    (g : Option Item) (ds ts : List Item) → ProperParts g ds ts → ProperParts none ds ts
bare-ProperParts g ds ts h = record {
  few = h.few;
  downs_down = h.downs_down;
  tops_top = h.tops_top;
  tops_ordered = h.tops_ordered;
  downs_distinct = h.downs_distinct;
  tops_distinct = h.tops_distinct;
  parts_disjoint = h.parts_disjoint;
  ground_downs = λ u k. absurd (true_false k);
  ground_tops = λ u k. absurd (true_false k);
}
  where
    true_false : false ≢ true
    true_false k = cc
