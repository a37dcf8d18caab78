-- ===== src/Paths/Steps.antt =====
-- The steps that the search takes from a node lead to positions next to it, away from the map's edge.

use otx.Prelude.{
  ℕ, zero, suc, ◌+◌, ◌%◌, ◌≤◌, ◌<◌, ◌≡◌, refl, ◌∙◌, ◌⊎◌, inl, inr, Bool, true, not, ◌&&◌, ◌||◌,
  List, [], ◌∷◌, arith, ◌==◌, &&-eq-true, if-both, Option-both, All, get_elem?, take,
}
use otx.Paths.{
  all_neighbors, dir_neighbors, direction_from, neighbors_of, Node, AStarNodes, Setting,
}
use otx.Paths.Routes.{Near, IsBeside}

abbrev pub is_unit : ℕ → Bool
is_unit d = d == 0 || (d == 1 || d == 65535)

-- A step to one of the eight neighbours.
abbrev pub is_step : ℕ × ℕ → Bool
is_step (dx, dy) = is_unit dx && (is_unit dy && not (dx == 0 && dy == 0))

abbrev pub IsStep : ℕ × ℕ → Type 0
IsStep d = is_step d ≡ true

all_neighbors-IsStep : All IsStep all_neighbors
all_neighbors-IsStep = (refl, (refl, (refl, (refl, (refl, (refl, (refl, (refl, tt))))))))

dir_neighbors-IsStep : (d : ℕ) → All IsStep (dir_neighbors d)
unfolding dir_neighbors
dir_neighbors-IsStep d = if-both Steps (d == 0) _ _ five (
    if-both Steps (d == 1) _ _ five (
      if-both Steps (d == 2) _ _ five (
        if-both Steps (d == 3) _ _ five (
          if-both Steps (d == 4) _ _ five
            (if-both Steps (d == 5) _ _ five (if-both Steps (d == 6) _ _ five five))))))
  where
    Steps : List (ℕ × ℕ) → Type 0
    Steps ds = All IsStep ds

    five :
        (true ≡ true)
        × ((true ≡ true) × ((true ≡ true) × ((true ≡ true) × ((true ≡ true) × Unit {0}))))
    five = (refl, (refl, (refl, (refl, (refl, tt)))))

take-All : (k : ℕ) (ds : List (ℕ × ℕ)) → All IsStep ds → All IsStep (take k ds)
take-All zero ds h = tt
take-All (suc k) [] h = tt
take-All (suc k) (d ∷ ds) h = (h.0, take-All k ds h.1)

pub neighbors_of-IsStep :
    (e : Setting) (a : AStarNodes) (n : Node) → All IsStep (neighbors_of e a n)
unfolding neighbors_of
neighbors_of-IsStep e a n =
    Option-both (All IsStep) n.parent _ _ (λ _. all_neighbors-IsStep)
      (λ k _.
        Option-both (All IsStep) (get_elem? a.nodes k) _ _ (λ _. all_neighbors-IsStep)
          (λ p _.
            take-All _ (dir_neighbors (direction_from e.allow_diagonal p n))
              (dir_neighbors-IsStep _)))

unit_cases : (d : ℕ) → is_unit d ≡ true → (d ≡ 0) ⊎ ((d ≡ 1) ⊎ (d ≡ 65535))
unit_cases d h = ground (arith, h)

near : (a d : ℕ) → 1 ≤ a → a < 65535 → (d ≡ 0) ⊎ ((d ≡ 1) ⊎ (d ≡ 65535)) → Near a ((a + d) % 65536)
near a d h k (inl e) = inl (omega (arith, h, k, e))
near a d h k (inr (inl e)) = inr (inr (omega (arith, h, k, e)))
near a d h k (inr (inr e)) = inr (inl (omega (arith, h, k, e)))

stays : (a d : ℕ) → 1 ≤ a → a < 65535 → is_unit d ≡ true → a ≡ (a + d) % 65536 → d ≡ 0
stays a d h k u e = elim (unit_cases d u) [
  | inl z ↦ z
  | inr (inl z) ↦ absurd (omega (arith, h, k, e, z))
  | inr (inr z) ↦ absurd (omega (arith, h, k, e, z))
]

abbrev pub IsInner : ℕ → Type 0
IsInner a = (1 ≤ a) × (a < 65535)

pub IsStep-IsBeside :
    (n m : Node) (dx dy : ℕ)
    → IsInner n.x
    → IsInner n.y
    → IsStep (dx, dy)
    → m.x ≡ (n.x + dx) % 65536
    → m.y ≡ (n.y + dy) % 65536
    → IsBeside n m
IsStep-IsBeside n m dx dy (a, b) (c, d) h u v = (
  rw (u) (near n.x dx a b (unit_cases dx x_unit)),
  (rw (v) (near n.y dy c d (unit_cases dy y_unit)), moves),
)
  where
    x_unit : is_unit dx ≡ true
    x_unit = (&&-eq-true (is_unit dx) (is_unit dy && not (dx == 0 && dy == 0)) h).0

    y_unit : is_unit dy ≡ true
    y_unit =
        (&&-eq-true (is_unit dy) (not (dx == 0 && dy == 0))
          (&&-eq-true (is_unit dx) (is_unit dy && not (dx == 0 && dy == 0)) h).1).0

    moves : n.x ≡ m.x → n.y ≡ m.y → ⊥
    moves p q =
        both (stays n.x dx a b x_unit (p ∙ u)) (stays n.y dy c d y_unit (q ∙ v))
          (&&-eq-true (is_unit dy) (not (dx == 0 && dy == 0))
            (&&-eq-true (is_unit dx) (is_unit dy && not (dx == 0 && dy == 0)) h).1).1
      where
        both : dx ≡ 0 → dy ≡ 0 → not (dx == 0 && dy == 0) ≡ true → ⊥
        both s t w = ground (arith, s, t, w)
