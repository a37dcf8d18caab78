-- ===== src/Chat/Maps.antt =====
-- `std::map` from numbers, as a list of entries in the order of their keys: `find`, `emplace`, which
-- leaves a key that is there as it is, `erase`, and a change of the value at a key.

use otx.Prelude.{
  ℕ, ◌≡◌, refl, sym, subst, inl, inr, Bool, true, false, not, ◌&&◌, ◌||◌, Option, none, some, List,
  [], ◌∷◌, arith, ltb, ◌==◌, if◌then◌else◌, ==_iff, ==_refl, Bool-cases, if-both, All,
}
use otx.Prelude.Sets.{has}

module _ {ℓ} {A : Type ℓ} where
  abbrev pub find : ℕ → List (ℕ × A) → Option A
  find k [] = none
  find k ((j, a) ∷ m) = if k == j then some a else find k m

  abbrev pub keys : List (ℕ × A) → List ℕ
  keys [] = []
  keys ((j, a) ∷ m) = j ∷ keys m

  unfoldable pub emplace : ℕ → A → List (ℕ × A) → List (ℕ × A)
  emplace k b [] = (k, b) ∷ []
  emplace k b ((j, a) ∷ m) =
      let rest = emplace k b m in
      if ltb k j then (k, b) ∷ (j, a) ∷ m else (if k == j then (j, a) ∷ m else (j, a) ∷ rest)

  unfoldable pub erase : ℕ → List (ℕ × A) → List (ℕ × A)
  erase k [] = []
  erase k ((j, a) ∷ m) = let rest = erase k m in if k == j then rest else (j, a) ∷ rest

  unfoldable pub adjust : ℕ → (A → A) → List (ℕ × A) → List (ℕ × A)
  adjust k f [] = []
  adjust k f ((j, a) ∷ m) =
      let rest = adjust k f m in if k == j then (j, f a) ∷ m else (j, a) ∷ rest

-- A set of numbers in their order, the keys of a map whose values do not matter.
unfoldable pub insert_id : ℕ → List ℕ → List ℕ
insert_id i [] = i ∷ []
insert_id i (j ∷ js) =
    let rest = insert_id i js in
    if ltb i j then i ∷ j ∷ js else (if i == j then j ∷ js else j ∷ rest)

unfoldable pub erase_id : ℕ → List ℕ → List ℕ
erase_id i [] = []
erase_id i (j ∷ js) = let rest = erase_id i js in if i == j then rest else j ∷ rest

pub has-insert_id : (i j : ℕ) (js : List ℕ) → has i (insert_id j js) ≡ (i == j || has i js)
unfolding insert_id
has-insert_id i j [] = refl
has-insert_id i j (l ∷ ls) = ground (arith, has-insert_id i j ls)

pub has-erase_id : (i j : ℕ) (js : List ℕ) → has i (erase_id j js) ≡ (not (i == j) && has i js)
unfolding erase_id
has-erase_id i j [] = ground arith
has-erase_id i j (l ∷ ls) = ground (arith, has-erase_id i j ls)

module _ {ℓ} {A : Type ℓ} where
  pub emplace-All {κ} :
      (P : ℕ × A → Type κ) (k : ℕ) (b : A) (m : List (ℕ × A))
      → P (k, b)
      → All P m
      → All P (emplace k b m)
  unfolding emplace
  emplace-All P k b [] h t = (h, t)
  emplace-All P k b ((j, a) ∷ m) h t =
      if-both (All P) (ltb k j) _ _ (h, t)
        (if-both (All P) (k == j) _ _ t (t.0, emplace-All P k b m h t.1))

  pub erase-All {κ} : (P : ℕ × A → Type κ) (k : ℕ) (m : List (ℕ × A)) → All P m → All P (erase k m)
  unfolding erase
  erase-All P k [] t = t
  erase-All P k ((j, a) ∷ m) t =
      if-both (All P) (k == j) _ _ (erase-All P k m t.1) (t.0, erase-All P k m t.1)

  pub adjust-All {κ} :
      (P : ℕ × A → Type κ) (k : ℕ) (f : A → A) (m : List (ℕ × A))
      → ((j : ℕ) (a : A) → P (j, a) → P (j, f a))
      → All P m
      → All P (adjust k f m)
  unfolding adjust
  adjust-All P k f [] h t = t
  adjust-All P k f ((j, a) ∷ m) h t =
      if-both (All P) (k == j) _ _ (h j a t.0, t.1) (t.0, adjust-All P k f m h t.1)

  pub has-keys-emplace :
      (i k : ℕ) (b : A) (m : List (ℕ × A))
      → has i (keys (emplace k b m)) ≡ (i == k || has i (keys m))
  unfolding emplace
  has-keys-emplace i k b [] = refl
  has-keys-emplace i k b ((j, a) ∷ m) = elim (Bool-cases (ltb k j)) [
    | inl e ↦ rw (e) refl
    | inr e ↦ elim (Bool-cases (k == j)) [
      | inl f ↦
          rw (e, f)
            (subst (λ l. (i == j || has i (keys m)) ≡ (i == l || (i == j || has i (keys m))))
              (sym ((==_iff k j).0 f)) (twice (i == j) (has i (keys m))))
      | inr f ↦ rw (e, f, has-keys-emplace i k b m) (swapped (i == j) (i == k) (has i (keys m)))
    ]
  ]
    where
      swapped : (a b c : Bool) → (a || (b || c)) ≡ (b || (a || c))
      swapped true true c = refl
      swapped true false c = refl
      swapped false b c = refl

      twice : (a c : Bool) → (a || c) ≡ (a || (a || c))
      twice true c = refl
      twice false c = refl

  -- A change of the one entry that is found at a key.
  pub adjust_found-All {κ} :
      (P : ℕ × A → Type κ) (k : ℕ) (f : A → A) (a : A) (m : List (ℕ × A))
      → find k m ≡ some a
      → (P (k, a) → P (k, f a))
      → All P m
      → All P (adjust k f m)
  unfolding adjust
  adjust_found-All P k f a [] e h t = t
  adjust_found-All P k f a ((j, b) ∷ m) e h t = elim (Bool-cases (k == j)) [
    | inl c ↦ rw (c) (
      here j ((==_iff k j).0 c)
          (the_same (subst (λ d. (if d then some b else find k m) ≡ some a) c e)) t.0,
      t.1,
    )
    | inr c ↦ rw (c) (
      t.0,
      adjust_found-All P k f a m (subst (λ d. (if d then some b else find k m) ≡ some a) c e) h t.1,
    )
  ]
    where
      the_same : some b ≡ some a → a ≡ b
      the_same q = cc

      here : (l : ℕ) → k ≡ l → a ≡ b → P (l, b) → P (l, f b)
      here l p q u =
          subst (λ i. P (i, f b)) p
            (subst (λ x. P (k, f x)) q
              (h (subst (λ i. P (i, a)) (sym p) (subst (λ x. P (l, x)) (sym q) u))))

  pub find-emplace :
      (k : ℕ) (b : A) (m : List (ℕ × A)) → has k (keys m) ≡ false → find k (emplace k b m) ≡ some b
  unfolding emplace
  find-emplace k b [] h = rw (==_refl k) refl
  find-emplace k b ((j, a) ∷ m) h = elim (Bool-cases (ltb k j)) [
    | inl e ↦ rw (e, ==_refl k) refl
    | inr e ↦ rw (e, apart, apart) (find-emplace k b m rest)
  ]
    where
      apart : (k == j) ≡ false
      apart = ground (arith, h)

      rest : has k (keys m) ≡ false
      rest = ground (arith, h)
