-- ===== src/Position/Range.antt =====
-- The range test as a metric: symmetric, reflexive, and subject to a triangle inequality.
use otx.Prelude.{ℕ, ◌+◌, ◌≡◌, Bool, true, arith, leb, &&-eq-true}
use otx.Prelude.Int.{sub_ℕ, abs}
use otx.Position.{Position, are_in_range}

-- One axis of the test.
abbrev near : ℕ → ℕ → ℕ → Bool
near d a b = leb (abs (sub_ℕ a b)) d

near_symm : (d a b : ℕ) → near d a b ≡ near d b a
near_symm d a b = ground arith

near_self : (d a : ℕ) → near d a a ≡ true
near_self d a = ground arith

near_triangle : (d e a b c : ℕ) → near d a b ≡ true → near e b c ≡ true → near (d + e) a c ≡ true
near_triangle d e a b c h k = ground arith

-- The range test is symmetric, holds of a position and itself, and ranges add up along a path
-- of two legs.
pub are_in_range_metric :
    (dx dy dz ex ey ez : ℕ) (p q r : Position)
    → (are_in_range dx dy dz p q ≡ are_in_range dx dy dz q p)
      × (are_in_range dx dy dz p p ≡ true)
      × (are_in_range dx dy dz p q ≡ true
          → are_in_range ex ey ez q r ≡ true
          → are_in_range (dx + ex) (dy + ey) (dz + ez) p r ≡ true)
unfolding are_in_range
are_in_range_metric dx dy dz ex ey ez p q r = (
  cc (near_symm dx p.x q.x, near_symm dy p.y q.y, near_symm dz p.z q.z),
  cc (near_self dx p.x, near_self dy p.y, near_self dz p.z),
  λ h k.
      let (hxy, hz) = &&-eq-true _ _ h in
      let (hx, hy) = &&-eq-true _ _ hxy in
      let (kxy, kz) = &&-eq-true _ _ k in
      let (kx, ky) = &&-eq-true _ _ kxy in
      cc (
        near_triangle dx ex p.x q.x r.x hx kx,
        near_triangle dy ey p.y q.y r.y hy ky,
        near_triangle dz ez p.z q.z r.z hz kz,
      ),
)
