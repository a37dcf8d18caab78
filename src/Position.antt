-- ===== src/Position.antt =====
-- src/position.h: a map position, `uint16_t` x and y and `uint8_t` z, with its order, its
-- wrapping arithmetic, and the distance tests that the game's range checks are made of.
pub mod Order
pub mod Range
mod Tests
use otx.Prelude.{
  ℕ, ◌+◌, ◌-◌, ◌%◌, ◌^◌, ◌<◌, Bool, true, false, not, ◌&&◌, ltb, leb, ◌==◌, if◌then◌else◌,
}
use otx.Prelude.Int.{ℤ, sub_ℕ, abs}

pub record Position : Type 0 where
  pub x : ℕ
  pub y : ℕ
  pub z : ℕ

-- `operator<`: by floor, then row, then column.
unfoldable pub lt : Position → Position → Bool
lt p q =
    if ltb p.z q.z
    then true
    else if ltb q.z p.z
    then false
    else if ltb p.y q.y
    then true
    else if ltb q.y p.y
    then false
    else if ltb p.x q.x
    then true
    else if ltb q.x p.x
    then false
    else false

-- `operator>`, which negates `operator<`.
unfoldable pub gt : Position → Position → Bool
gt p q = not (lt p q)

-- `operator==` and `operator!=`.
unfoldable pub eq : Position → Position → Bool
eq p q = q.x == p.x && q.y == p.y && q.z == p.z

unfoldable pub add : Position → Position → Position
add p q = record { x = (p.x + q.x) % 2 ^ 16; y = (p.y + q.y) % 2 ^ 16; z = (p.z + q.z) % 2 ^ 8 }

unfoldable pub sub : Position → Position → Position
sub p q = record {
  x = (p.x + 2 ^ 16 - q.x) % 2 ^ 16;
  y = (p.y + 2 ^ 16 - q.y) % 2 ^ 16;
  z = (p.z + 2 ^ 8 - q.z) % 2 ^ 8;
}

unfoldable pub offset_x : Position → Position → ℤ
offset_x p q = sub_ℕ p.x q.x

unfoldable pub offset_y : Position → Position → ℤ
offset_y p q = sub_ℕ p.y q.y

unfoldable pub offset_z : Position → Position → ℤ
offset_z p q = sub_ℕ p.z q.z

unfoldable pub distance_x : Position → Position → ℕ
unfolding offset_x
distance_x p q = abs (offset_x p q)

unfoldable pub distance_y : Position → Position → ℕ
unfolding offset_y
distance_y p q = abs (offset_y p q)

unfoldable pub distance_z : Position → Position → ℕ
unfolding offset_z
distance_z p q = abs (offset_z p q)

-- `areInRange<dx, dy, dz>`.
unfoldable pub are_in_range : ℕ → ℕ → ℕ → Position → Position → Bool
unfolding distance_x distance_y distance_z
are_in_range dx dy dz p q =
    leb (distance_x p q) dx && leb (distance_y p q) dy && leb (distance_z p q) dz

-- The fields fit their machine types.
pub record IsPosition (p : Position) : Type 0 where
  pub x_fits : p.x < 2 ^ 16
  pub y_fits : p.y < 2 ^ 16
  pub z_fits : p.z < 2 ^ 8
