-- ===== src/Growth/Tests.antt =====
-- A knight that gains and loses a level.

use otx.Prelude.{ℕ, ◌-◌, ◌≡◌, refl, sym, subst, ◌≢◌, arith}
use otx.Growth.{
  get_exp_for_level, get_percent_level, advance, climb, refilled, with_percent, add_experience,
  remove_experience, Vocation, Player,
}
use otx.Growth.Table.{exp_top}
use otx.Growth.Rounds.{IsFit, HasRoom}
use otx.Growth.Levels.{experience-IsFit, remove_experience-add_experience}

abbrev knight : Vocation
knight = record { hp_gain = 15; mana_gain = 5; cap_gain = 25 }

abbrev hero : Player
hero = record {
  level = 8;
  level_percent = 0;
  experience = 4200;
  health = 100;
  health_max = 185;
  mana = 10;
  mana_max = 40;
  capacity = 470;
}

abbrev unchanged : ℕ → ℕ
unchanged e = e

abbrev amount : ℕ
amount = 2500

hero-IsFit : IsFit hero
unfolding get_exp_for_level
hero-IsFit = record {
  first = omega arith;
  last = omega arith;
  reached = omega arith;
  under = omega arith;
}

one_level : (add_experience (λ e. e) 2500 knight hero).level - 8 ≡ 1
unfolding add_experience climb advance get_exp_for_level with_percent refilled
one_level = refl

hero-HasRoom : HasRoom knight ((add_experience (λ e. e) 2500 knight hero).level - 8) hero
hero-HasRoom =
    subst (λ n. HasRoom knight n hero) (sym one_level)
      (record { health = omega arith; mana = omega arith; capacity = omega arith })

experience-IsFit_example :
    (IsFit (add_experience unchanged 2500 knight hero)
      × ((add_experience unchanged 2500 knight hero).experience ≡ 6700))
    × IsFit (remove_experience unchanged 2500 knight hero)
experience-IsFit_example =
    experience-IsFit unchanged 2500 knight hero hero-IsFit (omega (arith, exp_top))

remove_experience-add_experience_example :
    let q = remove_experience (λ e. e) 2500 knight (add_experience (λ e. e) 2500 knight hero) in
    (q.level ≡ 8)
    × ((q.experience ≡ 4200) × ((q.health_max ≡ 185) × ((q.mana_max ≡ 40) × (q.capacity ≡ 470))))
remove_experience-add_experience_example =
    remove_experience-add_experience 2500 knight hero hero-IsFit hero-HasRoom two_thousand
      (omega (arith, exp_top))
  where
    two_thousand : amount ≢ 0
    two_thousand e = absurd (omega (arith, e))

-- The ninth level starts at 6400, and 300 of the 2900 to the tenth are ten per cent.
ninth :
    ((add_experience unchanged 2500 knight hero).level ≡ 9)
    × (((add_experience unchanged 2500 knight hero).level_percent ≡ 10)
        × ((add_experience unchanged 2500 knight hero).health ≡ 200))
unfolding add_experience climb advance get_exp_for_level with_percent refilled get_percent_level
ninth = (refl, (refl, refl))
