-- ===== src/Party.antt =====
-- src/party.cpp, src/party.h, and what src/player.cpp and src/game.cpp add to them: parties of
-- players, and who is invited. A `Player*` is the player's number, a `Party*` the party's; a new
-- party has a number that was never used. Messages and icons sent to clients are left out.
pub mod Experience
pub mod Membership
pub mod Handlers
pub mod Lookups
pub mod Consistent
pub mod Operations
pub mod Leaving
pub mod HandOver
pub mod Departures
pub mod Vetoes
pub mod Preserved
mod Tests
use otx.Prelude.{ℕ, Bool, true, false, ◌&&◌, Option, none, some, List, [], ◌∷◌, ◌==◌, if◌then◌else◌}
use otx.Position.{Position}

pub record Player : Type 0 where
  pub online : Bool
  pub party : Option ℕ
  pub invitations : List ℕ
  pub level : ℕ
  pub position : Position
  pub not_gain_in_fight : Bool
  pub vocation : ℕ
  pub in_fight : Bool
  pub tile : Option Bool

-- The bonus is in hundredths; a new party has none yet.
pub record Party : Type 0 where
  pub ticks_map : ℕ → Option ℕ
  pub member_list : List ℕ
  pub invite_list : List ℕ
  pub leader : ℕ
  pub shared_exp_bonus : Option ℕ
  pub shared_exp_active : Bool
  pub shared_exp_enabled : Bool

abbrev pub Players : Type 0
Players = ℕ → Player

pub record World : Type 0 where
  pub players : Players
  pub parties : ℕ → Option Party
  pub next_party : ℕ

-- The scripts that are asked first, by the party and the player.
pub record Events : Type 0 where
  pub on_join : ℕ → ℕ → Bool
  pub on_leave : ℕ → ℕ → Bool
  pub on_disband : ℕ → Bool

-- What the party sees of the clock and the configuration.
pub record Setting : Type 0 where
  pub events : Events
  pub now : ℕ
  pub pz_locked : ℕ

abbrev pub set_player : ℕ → Player → Players → Players
set_player i x ps j = if j == i then x else ps j

abbrev pub set_party : ℕ → Option Party → (ℕ → Option Party) → ℕ → Option Party
set_party a o m b = if b == a then o else m b

abbrev pub is_empty : List ℕ → Bool
is_empty [] = true
is_empty (x ∷ xs) = false

-- `Party::empty`.
abbrev pub empty : Party → Bool
empty p = is_empty p.member_list && is_empty p.invite_list

-- `list::remove`.
abbrev pub remove_all : ℕ → List ℕ → List ℕ
remove_all x [] = []
remove_all x (y ∷ ys) = let rest = remove_all x ys in if x == y then rest else y ∷ rest

-- A player is of a party.
abbrev pub is_of : Option ℕ → ℕ → Bool
is_of none a = false
is_of (some b) a = b == a
