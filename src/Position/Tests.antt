-- ===== src/Position/Tests.antt =====
-- Runs of the position operations, and the theorems on them at concrete positions.

use otx.Prelude.{◌≡◌, refl, true}
use otx.Position.{lt, gt, add, Position}

abbrev temple : Position
temple = record { x = 32369; y = 32241; z = 7 }

abbrev depot : Position
depot = record { x = 32347; y = 32225; z = 7 }

abbrev edge : Position
edge = record { x = 65535; y = 3; z = 15 }

ordered : (lt depot temple ≡ true) × (gt temple temple ≡ true) × (lt temple edge ≡ true)
unfolding lt gt
ordered = (refl, refl, refl)

wrapped : add edge temple ≡ record { x = 32368; y = 32244; z = 22 }
unfolding add
wrapped = refl
