-- ===== src/Position/Order.antt =====
-- The order on positions and their wrapping arithmetic.
use otx.Prelude.{◌≡◌, true, false, not, ◌↔◌, ◌⊎◌, arith}
use otx.Position.{Position, IsPosition, lt, gt, eq, add, sub}

eq_iff : (p q : Position) → (eq p q ≡ true) ↔ (p ≡ q)
unfolding eq
eq_iff p q = ground arith

lt_irrefl : (p : Position) → lt p p ≡ false
unfolding lt
lt_irrefl p = ground arith

lt_trans : (p q r : Position) → lt p q ≡ true → lt q r ≡ true → lt p r ≡ true
unfolding lt
lt_trans p q r h k = ground arith

-- `operator<` is transitive, and of any two positions exactly one of `p < q`, `p == q` and
-- `q < p` holds, where `==` is equality of the three fields.
pub lt_total_order :
    (p q r : Position)
    → (lt p q ≡ true → lt q r ≡ true → lt p r ≡ true)
      × ((eq p q ≡ true) ↔ (p ≡ q))
      × (eq p q ≡ true → (lt p q ≡ false) × (lt q p ≡ false))
      × (eq p q ≡ false → lt q p ≡ not (lt p q))
unfolding lt eq
lt_total_order p q r = (lt_trans p q r, eq_iff p q, ground arith, ground arith)

-- `operator>` is not the converse of `operator<`: it holds of two positions exactly when the
-- first is not below the second, so every position is greater than itself.
pub gt_not_strict : (p q : Position) → (gt p q ≡ true) ↔ ((eq p q ≡ true) ⊎ (lt q p ≡ true))
unfolding gt lt eq
gt_not_strict p q = ground arith

-- Subtracting a position undoes adding it, across the wrap of the machine types, and adding
-- undoes subtracting, for positions whose fields fit those types.
pub add-sub_inverse :
    (p q : Position) → IsPosition p → IsPosition q → (sub (add p q) q ≡ p) × (add (sub p q) q ≡ p)
unfolding add sub
add-sub_inverse p q hp hq = (ground arith, ground arith)
