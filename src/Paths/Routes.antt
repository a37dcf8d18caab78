-- ===== src/Paths/Routes.antt =====
-- The directions that lead back along the parents of a node lead from the start to it, over tiles
-- that can be walked to.

use otx.Prelude.{
  ℕ, zero, suc, ◌+◌, ◌-◌, ◌<◌, ◌≡◌, sym, ap₂, subst, ◌⊎◌, inl, inr, true, none, some, List, [], ◌∷◌,
  arith, get_elem?,
}
use otx.Paths.{
  step_to, walk_back, Node, Setting, Direction, north, east, south, west, southwest, southeast,
  northwest, northeast,
}

abbrev pub Near : ℕ → ℕ → Type 0
Near a b = (a ≡ b) ⊎ ((a ≡ b + 1) ⊎ (a + 1 ≡ b))

-- Two nodes next to each other.
abbrev pub IsBeside : Node → Node → Type 0
IsBeside p n = Near p.x n.x × (Near p.y n.y × ((p.x ≡ n.x → p.y ≡ n.y → ⊥)))

-- A node is the start, or it was reached from one next to it that is cheaper, and can be walked to.
abbrev pub IsReached : Setting → ℕ × ℕ → List Node → Node → Type 0
IsReached e (sx, sy) ns n =
    ((n.parent ≡ none) × ((n.x ≡ sx) × ((n.y ≡ sy) × (n.f ≡ 0))))
    ⊎ ((k : ℕ) × ((p : Node) × (n.parent ≡ some k)
          × ((get_elem? ns k ≡ some p)
              × ((p.f < n.f) × (IsBeside p n × (e.can_walk_to n.x n.y ≡ true))))))

abbrev pub AllReached : Setting → ℕ × ℕ → List Node → Type 0
AllReached e start ns = (j : ℕ) (n : Node) → get_elem? ns j ≡ some n → IsReached e start ns n

abbrev pub move : Direction → ℕ × ℕ → ℕ × ℕ
move north (x, y) = (x, y - 1)
move east (x, y) = (x + 1, y)
move south (x, y) = (x, y + 1)
move west (x, y) = (x - 1, y)
move southwest (x, y) = (x - 1, y + 1)
move southeast (x, y) = (x + 1, y + 1)
move northwest (x, y) = (x - 1, y - 1)
move northeast (x, y) = (x + 1, y - 1)

-- Directions lead from one position to another over tiles that can be walked to.
abbrev pub Leads : Setting → ℕ × ℕ → List Direction → ℕ → ℕ → Type 0
Leads e (a, b) [] x y = (a ≡ x) × (b ≡ y)
Leads e from (d ∷ ds) x y =
    (e.can_walk_to (move d from).0 (move d from).1 ≡ true) × Leads e (move d from) ds x y

-- What the step between nodes next to each other is.
step_to-move :
    (px py x y : ℕ)
    → Near px x
    → Near py y
    → (px ≡ x → py ≡ y → ⊥)
    → (d : Direction) × ((step_to (px, py) (x, y) ≡ some d)
        × (((move d (px, py)).0 ≡ x) × ((move d (px, py)).1 ≡ y)))
unfolding step_to
step_to-move px py x y (inl a) (inl b) h = absurd (h a b)
step_to-move px py x y (inl a) (inr (inl b)) h = (north, ground (arith, a, b))
step_to-move px py x y (inl a) (inr (inr b)) h = (south, ground (arith, a, b))
step_to-move px py x y (inr (inl a)) (inl b) h = (west, ground (arith, a, b))
step_to-move px py x y (inr (inl a)) (inr (inl b)) h = (northwest, ground (arith, a, b))
step_to-move px py x y (inr (inl a)) (inr (inr b)) h = (southwest, ground (arith, a, b))
step_to-move px py x y (inr (inr a)) (inl b) h = (east, ground (arith, a, b))
step_to-move px py x y (inr (inr a)) (inr (inl b)) h = (northeast, ground (arith, a, b))
step_to-move px py x y (inr (inr a)) (inr (inr b)) h = (southeast, ground (arith, a, b))

moved-Leads :
    (e : Setting) (d : Direction) (a b x y u v : ℕ) (ds : List Direction)
    → (move d (a, b)).0 ≡ x
    → (move d (a, b)).1 ≡ y
    → e.can_walk_to x y ≡ true
    → Leads e (x, y) ds u v
    → Leads e (a, b) (d ∷ ds) u v
moved-Leads e d a b x y u v ds p q w l =
    (rw (p, q) w, subst (λ z. Leads e z ds u v) (ap₂ (λ s t. (s, t)) (sym p) (sym q)) l)

-- The directions that a walk along the parents collects, in front of those that lead on.
pub walk_back-Leads :
    (fuel : ℕ) (e : Setting) (sx sy : ℕ) (ns : List Node) (n : Node) (dirs : List Direction)
    (u v : ℕ)
    → AllReached e (sx, sy) ns
    → IsReached e (sx, sy) ns n
    → n.f < fuel
    → Leads e (n.x, n.y) dirs u v
    → Leads e (sx, sy) (walk_back fuel ns n dirs) u v
unfolding walk_back
walk_back-Leads zero e sx sy ns n dirs u v all r f l = absurd (omega (arith, f))
walk_back-Leads (suc fuel) e sx sy ns n dirs u v all (inl (o, (p, (q, z)))) f l =
    rw (walk_back, o) (subst (λ a. Leads e a dirs u v) (ap₂ (λ s t. (s, t)) p q) l)
walk_back-Leads (suc fuel) e sx sy ns n dirs u v all (inr (k, (p, o, (g, (lt, (beside, w)))))) f l =
    rw (walk_back, o, g)
      (walk_back-Leads fuel e sx sy ns p _ u v all (all k p g) (omega (arith, f, lt)) stepped)
  where
    stepped :
        Leads e
          (p.x, p.y)
          (elim (step_to (p.x, p.y) (n.x, n.y)) [ none ↦ dirs | some d ↦ d ∷ dirs ])
          u
          v
    stepped = along (step_to-move p.x p.y n.x n.y beside.0 beside.1.0 beside.1.1)
      where
        along :
            (d : Direction) × ((step_to (p.x, p.y) (n.x, n.y) ≡ some d)
                × (((move d (p.x, p.y)).0 ≡ n.x) × ((move d (p.x, p.y)).1 ≡ n.y)))
            → Leads e
                (p.x, p.y)
                (elim (step_to (p.x, p.y) (n.x, n.y)) [ none ↦ dirs | some d ↦ d ∷ dirs ])
                u
                v
        along (d, (s, (a, b))) = rw (s) (moved-Leads e d p.x p.y n.x n.y u v dirs a b w l)
