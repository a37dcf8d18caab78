-- ===== src/Growth/Table.antt =====
-- What `getExpForLevel` computes: up to level 700000 nothing wraps, and each level needs more than
-- the one before.
use otx.Prelude.{
  ℕ, zero, suc, ◌+◌, ◌-◌, ◌*◌, ◌/◌, ◌%◌, ◌≤◌, ◌<◌, ◌≡◌, refl, ap, subst, ◌∙◌, inl, inr, arith, ltb,
  ltb→lt, ltb-false, Bool-cases,
}
use otx.Growth.{get_exp_for_level}

-- The experience that `l` levels over the first take, by the steps.
abbrev pub total : ℕ → ℕ
total zero = 0
total (suc l) = total l + 50 * (l * l + 2 - l)

square_le : (l : ℕ) → l ≤ l * l
square_le zero = omega arith
square_le (suc l) = omega arith

cubic : (l : ℕ) → 3 * total l + 150 * l * l ≡ 50 * l * l * l + 400 * l
cubic zero = omega arith
cubic (suc l) = omega (arith, cubic l, square_le l)

mul_le : (a b c d : ℕ) → a ≤ b → c ≤ d → a * c ≤ b * d
mul_le a b c d h k =
    subst (λ x. a * c ≤ x * d) (back a b h)
      (subst (λ y. a * c ≤ (a + (b - a)) * y) (back c d k) (wider a (b - a) c (d - c)))
  where
    back : (a b : ℕ) → a ≤ b → a + (b - a) ≡ b
    back a b h = omega (arith, h)

    wider : (a x c y : ℕ) → a * c ≤ (a + x) * (c + y)
    wider a x c y = omega arith

pub get_exp_for_level-total : (l : ℕ) → l ≤ 700000 → get_exp_for_level (suc l) ≡ total l
unfolding get_exp_for_level
get_exp_for_level-total l h = ap formula (back l) ∙ omega (arith, cubic l, square, cube, h)
  where
    formula : ℕ → ℕ
    formula m =
        ((50 * m * m * m + (18446744073709551616 - 150 * m * m % 18446744073709551616))
            % 18446744073709551616
          + 400 * m)
        % 18446744073709551616
        / 3

    back : (l : ℕ) → suc l - 1 ≡ l
    back l = omega arith

    square : l * l ≤ 490000000000
    square = mul_le l 700000 l 700000 h h

    cube : l * l * l ≤ 343000000000000000
    cube = mul_le (l * l) 490000000000 l 700000 square h

step_up : (l : ℕ) → total l < total (suc l)
step_up l = omega (arith, square_le l)

total_lt : (l n : ℕ) → total l < total (suc (l + n))
total_lt l zero = subst (λ x. total l < total (suc x)) (add_zero l) (step_up l)
  where
    add_zero : (l : ℕ) → l ≡ l + 0
    add_zero l = omega arith
total_lt l (suc n) =
    subst (λ x. total l < total (suc x)) (shift l n) (later (total_lt l n) (step_up (suc (l + n))))
  where
    shift : (l n : ℕ) → suc (l + n) ≡ l + suc n
    shift l n = omega arith

    later : {a b c : ℕ} → a < b → b < c → a < c
    later h k = omega (arith, h, k)

-- The levels' bounds, up to the last that does not wrap.
pub exp_lt : (a b : ℕ) → 1 ≤ a → a < b → b ≤ 700001 → get_exp_for_level a < get_exp_for_level b
exp_lt zero b h k m = absurd (omega (arith, h))
exp_lt (suc a) zero h k m = absurd (omega (arith, k))
exp_lt (suc a) (suc b) h k m =
    rw
      (
        get_exp_for_level-total a (omega (arith, k, m)),
        get_exp_for_level-total b (omega (arith, m)),
      )
      (subst (λ x. total a < total x) (back a b k) (total_lt a (b - suc a)))
  where
    back : (a b : ℕ) → suc a < suc b → suc (a + (b - suc a)) ≡ b
    back a b k = omega (arith, k)

pub exp_le : (a b : ℕ) → 1 ≤ a → a ≤ b → b ≤ 700001 → get_exp_for_level a ≤ get_exp_for_level b
exp_le a b h k m = elim (Bool-cases (ltb a b)) [
  | inl e ↦ weaker (exp_lt a b h (ltb→lt a b e) m)
  | inr e ↦
      subst (λ c. get_exp_for_level a ≤ get_exp_for_level c) (equal (ltb-false a b e))
        (self (get_exp_for_level a))
]
  where
    weaker : {x y : ℕ} → x < y → x ≤ y
    weaker q = omega (arith, q)

    equal : b ≤ a → a ≡ b
    equal q = omega (arith, q, k)

    self : (x : ℕ) → x ≤ x
    self x = omega arith

pub exp_top : get_exp_for_level 700001 ≡ 5716642166760000000
unfolding get_exp_for_level
exp_top = refl

pub exp_first : get_exp_for_level 1 ≡ 0
exp_first = get_exp_for_level-total 0 (omega arith)
