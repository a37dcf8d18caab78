-- ===== src/Party/Tests.antt =====
-- Runs of parties, and the theorems on them at concrete worlds.

use otx.Position.{are_in_range, Position}
use otx.Party.Handlers.{
  found, player_invite_to_party, player_join_party, player_pass_party_leadership,
  player_enable_shared_party_experience,
}
use otx.Party.Preserved.{move, moves, LetsGo, moves-Consistent, Move, invite, join, pass, share}
use otx.Party.Experience.Levels.{can_enable-levels}
use otx.Party.{Players, Party, World, Events, Setting}
use otx.Party.Membership.{new_party, pass_party_leadership, leave_party, join_party, invite_player}
use otx.Party.Consistent.{Consistent}
use otx.Party.Vetoes.{leave_party-Leaderless, Leaderless}
use otx.Prelude.{ℕ, ◌+◌, ◌*◌, ◌≤◌, ◌≡◌, refl, true, false, Option, none, some, List, [], ◌∷◌, arith}
use otx.Party.Experience.{
  min_level, can_use_shared_experience, can_enable_shared_experience, update_shared_experience,
  update_shared_experience_bonus, set_shared_experience,
}

abbrev somewhere : Position
somewhere = record { x = 100; y = 100; z = 7 }

-- Players 1 to 9 are of the levels 11 to 19.
abbrev crowd : Players
crowd i = record {
  online = true;
  party = none;
  invitations = [];
  level = i + 10;
  position = somewhere;
  not_gain_in_fight = true;
  vocation = i;
  in_fight = false;
  tile = none;
}

abbrev start : World
start = record { players = crowd; parties = λ a. none; next_party = 0 }

start-Consistent : Consistent start
start-Consistent = record {
  members = λ a i. refl;
  invites = λ a i. refl;
  proper = λ a. tt;
  fresh = λ a l. refl;
}

abbrev willing : Events
willing = record { on_join = λ a i. true; on_leave = λ a i. true; on_disband = λ a. true }

abbrev setting : Setting
setting = record { events = willing; now = 5000; pz_locked = 60000 }

abbrev evening : List (Setting × Move)
evening =
    (setting, invite 1 2)
    ∷ (setting, invite 1 3)
    ∷ (setting, join 2 1)
    ∷ (setting, join 3 1)
    ∷ (setting, share 1 true)
    ∷ (setting, pass 1 3)
    ∷ []

abbrev late : World
late = moves evening start

people : Option Party → Option (ℕ × List ℕ × List ℕ)
people none = none
people (some p) = some (p.leader, p.member_list, p.invite_list)

-- Player 3 leads players 1 and 2.
evening_party : people (late.parties 0) ≡ some (3, 1 ∷ 2 ∷ [], [])
unfolding people moves move player_invite_to_party player_join_party player_pass_party_leadership
    player_enable_shared_party_experience found invite_player join_party pass_party_leadership
    update_shared_experience update_shared_experience_bonus set_shared_experience
    can_enable_shared_experience can_use_shared_experience are_in_range
evening_party = refl

moves-Consistent_example : Consistent late
moves-Consistent_example =
    moves-Consistent evening start (always, (always, (always, (always, (always, (always, tt))))))
      start-Consistent
  where
    always : LetsGo setting
    always a = refl

abbrev friends : Party
friends = record (new_party 3) { member_list = 1 ∷ 2 ∷ [] }

friends_share : can_enable_shared_experience setting crowd friends ≡ true
unfolding can_enable_shared_experience can_use_shared_experience are_in_range min_level
friends_share = refl

can_enable-levels_example : 2 * (crowd 3).level ≤ 3 * (crowd 1).level
can_enable-levels_example =
    can_enable-levels setting crowd friends 1 3 (omega arith) friends_share refl refl

abbrev stubborn : Setting
stubborn = record setting { events = record willing { on_disband = λ a. false } }

abbrev alone : World
alone = found 4 start

alone_own : (alone.players 4).party ≡ some 0
unfolding found
alone_own = refl

alone_known : alone.parties 0 ≡ some (new_party 4)
unfolding found
alone_known = refl

leave_party-Leaderless_example :
    Leaderless 0 4 (leave_party stubborn 0 4 (new_party 4) alone).1
    × ¬ Consistent (leave_party stubborn 0 4 (new_party 4) alone).1
leave_party-Leaderless_example =
    leave_party-Leaderless stubborn 0 4 (new_party 4) alone alone_known alone_own refl refl refl
      refl

-- Two thirds of 16777217, in single precision, and of a level that players have.
float_levels : (min_level 16777217 ≡ 11184811) × (min_level 100 ≡ 67)
unfolding min_level
float_levels = (refl, refl)
