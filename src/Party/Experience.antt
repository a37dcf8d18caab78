-- ===== src/Party/Experience.antt =====
-- src/party.cpp: when the members of a party share experience. The least level is computed in
-- single precision, with the rounding written out.

pub mod Levels
use otx.Prelude.{
  ℕ, zero, suc, ◌+◌, ◌-◌, ◌*◌, ◌/◌, ◌%◌, ◌^◌, max, Bool, true, false, not, ◌&&◌, ◌||◌, none, some,
  List, [], ◌∷◌, ltb, leb, ◌==◌, if◌then◌else◌, length,
}
use otx.Prelude.Sets.{has}
use otx.Position.{are_in_range}
use otx.Party.{Players, is_empty, Party, Setting}

abbrev pub highest_level : Players → ℕ → List ℕ → ℕ
highest_level ps l [] = l
highest_level ps l (i ∷ is) = highest_level ps (if ltb l (ps i).level then (ps i).level else l) is

-- A float has 24 bits: the unit of its last one, for numbers up to 2^33.
abbrev pub unit_from : ℕ → ℕ → ℕ → ℕ
unit_from zero u n = u
unit_from (suc fuel) u n =
    let larger = unit_from fuel (2 * u) n in if ltb n (16777216 * u) then u else larger

abbrev pub unit_of : ℕ → ℕ
unit_of n = unit_from 9 1 n

-- The multiple of a unit that is nearest to `n / d`, of two the even one.
abbrev pub nearest : ℕ → ℕ → ℕ → ℕ
nearest u n d =
    let whole = n / (d * u) in
    let left = n % (d * u) in
    if ltb (2 * left) (d * u)
    then whole * u
    else (if ltb (d * u) (2 * left) then (whole + 1) * u else (whole + whole % 2) * u)

abbrev pub to_float : ℕ → ℕ
to_float n = if ltb n 16777216 then n else nearest (unit_of n) n 1

-- A third of a number below 2^23 has half units at least, so rounding moves no third past a whole
-- number and `std::ceil` is that of the exact one; a larger third is rounded to a whole number.
unfoldable pub min_level : ℕ → ℕ
min_level highest =
    let twice = to_float highest * 2 in
    if ltb twice 25165824 then (twice + 2) / 3 else nearest (unit_of (twice / 3)) twice 3

-- The test of the player's last fight.
abbrev pub was_active : Setting → Party → ℕ → Bool
was_active g p i = elim (p.ticks_map i) [
  | none ↦ false
  | some t ↦ leb ((g.now + 2 ^ 64 - t) % 2 ^ 64) g.pz_locked
]

unfoldable pub can_use_shared_experience : Setting → Players → Party → ℕ → Bool
can_use_shared_experience g ps p i =
    if is_empty p.member_list
    then false
    else if ltb (ps i).level (min_level (highest_level ps (ps p.leader).level p.member_list))
    then false
    else if not (are_in_range 30 30 1 (ps p.leader).position (ps i).position)
    then false
    else if not (ps i).not_gain_in_fight
    then was_active g p i
    else true

abbrev pub all_can_use : Setting → Players → Party → List ℕ → Bool
all_can_use g ps p [] = true
all_can_use g ps p (i ∷ is) = can_use_shared_experience g ps p i && all_can_use g ps p is

unfoldable pub can_enable_shared_experience : Setting → Players → Party → Bool
can_enable_shared_experience g ps p =
    if can_use_shared_experience g ps p p.leader then all_can_use g ps p p.member_list else false

unfoldable pub update_shared_experience : Setting → Players → Party → Party
update_shared_experience g ps p =
    if p.shared_exp_active
    then record p { shared_exp_enabled = can_enable_shared_experience g ps p }
    else p

-- The different vocations, `VOCATION_NONE` left out.
abbrev pub vocation_ids : Players → List ℕ → List ℕ
vocation_ids ps [] = []
vocation_ids ps (i ∷ is) =
    let rest = vocation_ids ps is in
    let v = (ps i).vocation in if v == 0 || has v rest then rest else v ∷ rest

unfoldable pub update_shared_experience_bonus : Players → Party → Party
update_shared_experience_bonus ps p =
    let size = length (vocation_ids ps (p.leader ∷ p.member_list)) in
    record p {
      shared_exp_bonus =
          some (max 20 (size * ((5 * ((size + 2 ^ 64 - 1) % 2 ^ 64) + 10) % 2 ^ 64) % 2 ^ 64));
    }

unfoldable pub set_shared_experience : Setting → Players → ℕ → Bool → Party → Bool × Party
set_shared_experience g ps i active p =
    if not (p.leader == i)
    then (false, p)
    else if same p.shared_exp_active active
    then (true, p)
    else if active
    then (
      true,
      record p {
        shared_exp_active = true;
        shared_exp_enabled =
            can_enable_shared_experience g ps (record p { shared_exp_active = true });
      },
    )
    else (true, record p { shared_exp_active = false })
  where
    same : Bool → Bool → Bool
    same true b = b
    same false b = not b

unfoldable pub update_player_ticks : Setting → Players → ℕ → ℕ → Party → Party
update_player_ticks g ps i points p =
    if not (points == 0) && not (ps i).not_gain_in_fight
    then update_shared_experience g ps
        (record p { ticks_map = λ j. if j == i then some g.now else p.ticks_map j })
    else p

unfoldable pub clear_player_points : Setting → Players → ℕ → Party → Party
clear_player_points g ps i p = elim (p.ticks_map i) [
  | none ↦ p
  | some t ↦
      update_shared_experience g ps
        (record p { ticks_map = λ j. if j == i then none else p.ticks_map j })
]
