-- ===== src/Tiles/Tile/Lookups.antt =====
-- What looking through a tile's items for a property finds after one is put in, taken out or
-- changed, and which items a tile that is sound does not have twice.

use otx.Prelude.{
  ◌≡◌, refl, sym, ap, ◌∙◌, ◌≢◌, ◌⊎◌, inl, inr, Bool, true, false, not, ◌&&◌, ◌||◌, some, List, [],
  ◌∷◌, ◌++◌, arith, ◌==◌, ==_iff, ==_refl, Bool-cases, if-cases,
}
use otx.Prelude.Sets.{has, IsDistinct}
use otx.Tiles.Item.{any, uids, remove_item, replace_item, Item}
use otx.Tiles.Tile.Changes.{insert_before, first_where}

pub any-append {ℓ} :
    {A : Type ℓ} (p : A → Bool) (xs ys : List A) → any p (xs ++ ys) ≡ (any p xs || any p ys)
any-append p [] ys = refl
any-append p (x ∷ xs) ys = rw (any-append p xs ys) (regroup (p x) (any p xs) (any p ys))
  where
    regroup : (a b c : Bool) → (a || (b || c)) ≡ (a || b || c)
    regroup true b c = refl
    regroup false b c = refl

pub any-insert_before :
    (q p : Item → Bool) (x : Item) (xs : List Item)
    → any q (insert_before p x xs) ≡ (q x || any q xs)
unfolding insert_before
any-insert_before q p x [] = refl
any-insert_before q p x (y ∷ ys) = elim (Bool-cases (p y)) [
  | inl e ↦ rw (e) refl
  | inr e ↦ rw (e, any-insert_before q p x ys) (swapped (q y) (q x) (any q ys))
]
  where
    swapped : (a b c : Bool) → (a || (b || c)) ≡ (b || (a || c))
    swapped true true c = refl
    swapped true false c = refl
    swapped false b c = refl

abbrev pub IsMember : Item → List Item → Type 0
IsMember x [] = ⊥
IsMember x (y ∷ ys) = (x ≡ y) ⊎ IsMember x ys

pub has-IsMember : (x : Item) (xs : List Item) → IsMember x xs → has x.uid (uids xs) ≡ true
has-IsMember x [] h = absurd h
has-IsMember x (y ∷ ys) (inl e) = rw (sym e) (ap (λ b. b || has x.uid (uids ys)) (==_refl x.uid))
has-IsMember x (y ∷ ys) (inr h) = rw (has-IsMember x ys h) (or_true (x.uid == y.uid))
  where
    or_true : (b : Bool) → (b || true) ≡ true
    or_true true = refl
    or_true false = refl

-- An item is not the one that stands where none with its `uid` does.
other_uid :
    (x y : Item) (xs : List Item)
    → has y.uid (uids xs) ≡ false
    → IsMember x xs
    → (x.uid == y.uid) ≡ false
other_uid x y xs f h = elim (Bool-cases (x.uid == y.uid)) [
  | inl e ↦ absurd (
      true_false
        (sym (has-IsMember x xs h) ∙ (ap (λ u. has u (uids xs)) ((==_iff x.uid y.uid).0 e) ∙ f)))
  | inr e ↦ e
]
  where
    true_false : true ≢ false
    true_false k = cc

pub any-remove_item :
    (q : Item → Bool) (x : Item) (xs : List Item)
    → IsMember x xs
    → IsDistinct (uids xs)
    → any q xs ≡ (q x || any q (remove_item x.uid xs))
unfolding remove_item
any-remove_item q x [] h d = absurd h
any-remove_item q x (y ∷ ys) (inl e) d = rw (sym e, ==_refl x.uid) refl
any-remove_item q x (y ∷ ys) (inr h) d =
    rw (other_uid x y ys d.0 h, any-remove_item q x ys h d.1)
      (swapped (q y) (q x) (any q (remove_item x.uid ys)))
  where
    swapped : (a b c : Bool) → (a || (b || c)) ≡ (b || (a || c))
    swapped true true c = refl
    swapped true false c = refl
    swapped false b c = refl

-- A changed item that keeps a property keeps what is found.
pub any-replace_item :
    (q : Item → Bool) (x y : Item) (xs : List Item)
    → IsMember x xs
    → IsDistinct (uids xs)
    → q y ≡ q x
    → any q (replace_item x.uid y xs) ≡ any q xs
unfolding replace_item
any-replace_item q x y [] h d k = absurd h
any-replace_item q x y (z ∷ zs) (inl e) d k = rw (sym e, ==_refl x.uid, k) refl
any-replace_item q x y (z ∷ zs) (inr h) d k =
    rw (other_uid x z zs d.0 h, any-replace_item q x y zs h d.1 k) refl

pub any_except :
    (q : Item → Bool) (x : Item) (xs : List Item)
    → has x.uid (uids xs) ≡ false
    → any (λ y. not (x.uid == y.uid) && q y) xs ≡ any q xs
any_except q x [] h = refl
any_except q x (y ∷ ys) h = rw (apart, any_except q x ys rest) refl
  where
    apart : (x.uid == y.uid) ≡ false
    apart = ground (arith, h)

    rest : has x.uid (uids ys) ≡ false
    rest = ground (arith, h)

pub first_where-IsMember :
    (p : Item → Bool) (xs : List Item) (x : Item) → first_where p xs ≡ some x → IsMember x xs
unfolding first_where
first_where-IsMember p [] x h = cc
first_where-IsMember p (y ∷ ys) x h =
    if-cases (λ o. o ≡ some x → IsMember x (y ∷ ys)) (p y) (some y) (first_where p ys)
      (λ _ e. inl (same_item e)) (λ _ e. inr (first_where-IsMember p ys x e)) h
  where
    same_item : some y ≡ some x → x ≡ y
    same_item e = cc
