-- ===== src/Growth.antt =====
-- The levels of players: `getExpForLevel` of src/player.h, and `addExperience`, `removeExperience`
-- and `getPercentLevel` of src/player.cpp. Health, mana and capacity are the 32 bits that the
-- source keeps, health's read there as a signed number; what the script of the event leaves of an amount is an argument.
pub mod Table
pub mod Rounds
pub mod Levels
mod Tests
use otx.Prelude.{
  ℕ, zero, suc, ◌+◌, ◌-◌, ◌*◌, ◌/◌, ◌%◌, true, false, ◌&&◌, ◌||◌, ltb, leb, ◌==◌, if◌then◌else◌,
}

pub record Vocation : Type 0 where
  pub hp_gain : ℕ
  pub mana_gain : ℕ
  pub cap_gain : ℕ

pub record Player : Type 0 where
  pub level : ℕ
  pub level_percent : ℕ
  pub experience : ℕ
  pub health : ℕ
  pub health_max : ℕ
  pub mana : ℕ
  pub mana_max : ℕ
  pub capacity : ℕ

-- 64 bits; the middle term is subtracted before the last is added.
unfoldable pub get_exp_for_level : ℕ → ℕ
get_exp_for_level lv =
    let l = lv - 1 in
    let w : ℕ = 18446744073709551616 in
    ((50 * l * l * l + (w - 150 * l * l % w)) % w + 400 * l) % w / 3

unfoldable pub get_percent_level : ℕ → ℕ → ℕ
get_percent_level count next_level_count =
    let result = count * 100 % 18446744073709551616 / next_level_count % 256 in
    if next_level_count == 0 then 0 else (if ltb 100 result then 0 else result)

-- `std::max<int32_t>(0, ...)` of 32 bits.
abbrev pub positive : ℕ → ℕ
positive n = if ltb n 2147483648 then n else 0

-- What one level more and one level less do.
unfoldable pub advance : Vocation → Player → Player
advance v p = record p {
  level = p.level + 1;
  health_max = (p.health_max + v.hp_gain) % 4294967296;
  health = (p.health + v.hp_gain) % 4294967296;
  mana_max = (p.mana_max + v.mana_gain) % 4294967296;
  mana = (p.mana + v.mana_gain) % 4294967296;
  capacity = (p.capacity + v.cap_gain) % 4294967296;
}

unfoldable pub downgrade : Vocation → Player → Player
downgrade v p = record p {
  level = p.level - 1;
  health_max = positive ((p.health_max + (4294967296 - v.hp_gain)) % 4294967296);
  mana_max = positive ((p.mana_max + (4294967296 - v.mana_gain)) % 4294967296);
  capacity = positive ((p.capacity + (4294967296 - v.cap_gain)) % 4294967296);
}

-- The player and the bounds of its level that the loop of `addExperience` leaves.
pub record Climb : Type 0 where
  pub player : Player
  pub curr_level_exp : ℕ
  pub next_level_exp : ℕ

unfoldable pub climb : ℕ → Vocation → Climb → Climb
climb zero v c = c
climb (suc fuel) v c = elim (leb c.next_level_exp c.player.experience) [
  | false ↦ c
  | true ↦
      let q = advance v c.player in
      let further = get_exp_for_level (q.level + 1) in
      let d : Climb = record {
        player = q;
        curr_level_exp = c.next_level_exp;
        next_level_exp = further;
      } in
      elim (leb further c.next_level_exp) [ true ↦ d | false ↦ climb fuel v d ]
]

-- The last steps of both methods.
unfoldable pub refilled : ℕ → Player → Player
refilled old_level p =
    if p.level == old_level then p else record p { health = p.health_max; mana = p.mana_max }

unfoldable pub with_percent : ℕ → ℕ → Player → Player
with_percent curr next p = record p {
  level_percent =
      if ltb curr next then get_percent_level (p.experience - curr) (next - curr) else 0;
}

-- A player that is at the top level gains nothing. The loop's fuel is over any level it reaches.
unfoldable pub add_experience : (ℕ → ℕ) → ℕ → Vocation → Player → Player
add_experience script exp v p =
    let curr = get_exp_for_level p.level in
    let next = get_exp_for_level (p.level + 1) in
    let richer = record p { experience = (p.experience + script exp) % 18446744073709551616 } in
    let c =
      climb 700000 v (record { player = richer; curr_level_exp = curr; next_level_exp = next }) in
    if leb next curr
    then record p { level_percent = 0 }
    else (if script exp == 0
        then p
        else with_percent c.curr_level_exp c.next_level_exp (refilled p.level c.player))

-- The loop of `removeExperience`; each round lowers the level.
unfoldable pub descend : ℕ → Vocation → Player → Player
descend zero v p = p
descend (suc fuel) v p = elim (ltb 1 p.level && ltb p.experience (get_exp_for_level p.level)) [
  | false ↦ p
  | true ↦ descend fuel v (downgrade v p)
]

-- The difference is of 64 bits and read as a signed number.
unfoldable pub less_experience : ℕ → ℕ → ℕ
less_experience experience exp =
    let left = (experience + (18446744073709551616 - exp)) % 18446744073709551616 in
    if ltb left 9223372036854775808 then left else 0

unfoldable pub remove_experience : (ℕ → ℕ) → ℕ → Vocation → Player → Player
remove_experience script exp v p =
    let poorer = record p { experience = less_experience p.experience (script exp) } in
    let q = descend p.level v poorer in
    if p.experience == 0 || exp == 0
    then p
    else (if script exp == 0
        then p
        else with_percent (get_exp_for_level q.level) (get_exp_for_level (q.level + 1))
            (refilled p.level q))
