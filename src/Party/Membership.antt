-- ===== src/Party/Membership.antt =====
-- The operations of src/party.cpp that change who is in a party or invited, with the invitations
-- that src/player.cpp keeps.

use otx.Prelude.{
  ℕ, Bool, true, false, not, ◌&&◌, ◌||◌, none, some, List, [], ◌∷◌, ◌++◌, ◌==◌, if◌then◌else◌,
  length,
}
use otx.Prelude.Sets.{has, remove}
use otx.Party.{
  Players, set_player, set_party, is_empty, empty, remove_all, is_of, Party, World, Setting,
}
use otx.Party.Experience.{
  update_shared_experience, update_shared_experience_bonus, clear_player_points,
}

abbrev pub put_out : ℕ → Players → Players
put_out i ps = set_player i (record (ps i) { party = none }) ps

-- `removePartyInvitation` and `addPartyInvitation`.
abbrev pub uninvite : ℕ → ℕ → Players → Players
uninvite a i ps = set_player i (record (ps i) { invitations = remove_all a (ps i).invitations }) ps

abbrev pub add_party_invitation : ℕ → ℕ → Players → Players
add_party_invitation a i ps =
    if has a (ps i).invitations
    then ps
    else set_player i (record (ps i) { invitations = a ∷ (ps i).invitations }) ps

unfoldable pub each : (ℕ → Players → Players) → List ℕ → Players → Players
each f [] ps = ps
each f (i ∷ is) ps = each f is (f i ps)

-- `new Party(player)`.
abbrev pub new_party : ℕ → Party
new_party i = record {
  ticks_map = λ j. none;
  member_list = [];
  invite_list = [];
  leader = i;
  shared_exp_bonus = none;
  shared_exp_active = false;
  shared_exp_enabled = false;
}

-- The party and the players, put back.
abbrev pub put : ℕ → Party → Players → World → World
put a p ps w = record w { players = ps; parties = set_party a (some p) w.parties }

unfoldable pub disband : Setting → ℕ → Party → World → World
disband g a p w = if not (g.events.on_disband a) then w else record w {
  players =
      each put_out p.member_list (each (uninvite a) p.invite_list (put_out p.leader w.players));
  parties = set_party a none w.parties;
}

unfoldable pub pass_party_leadership : Setting → Players → ℕ → ℕ → Party → Bool × Party
pass_party_leadership g ps a i p =
    if p.leader == i || not (is_of (ps i).party a) then (false, p) else (
      true,
      update_shared_experience g ps
          (record p { leader = i; member_list = p.leader ∷ remove i p.member_list }),
    )

-- The front of a list of members with more than one member, or beside invited players.
abbrev pub only_one : List ℕ → List ℕ → Bool
only_one members invited = length members == 1 && is_empty invited

-- What a leaving leader does first: whether no leader is left, and the party.
unfoldable pub hand_over : Setting → Players → ℕ → ℕ → Party → Bool × Party
hand_over g ps a i p =
    if p.leader == i
    then elim p.member_list [
      | [] ↦ (true, p)
      | (m ∷ ms) ↦
          if only_one (m ∷ ms) p.invite_list
          then (true, p)
          else (false, (pass_party_leadership g ps a m p).1)
    ]
    else (false, p)

-- The party without a player, its bonus and its times.
unfoldable pub without : Setting → Players → ℕ → Party → Party
without g ps i p = clear_player_points g ps i (
    update_shared_experience_bonus ps
      (update_shared_experience g ps (record p { member_list = remove i p.member_list })))

unfoldable pub leave_party : Setting → ℕ → ℕ → Party → World → Bool × World
leave_party g a i p w =
    if not (is_of (w.players i).party a) && not (p.leader == i)
    then (false, w)
    else if not (g.events.on_leave a i)
    then (false, w)
    else (let (missing_leader, p₁) = hand_over g w.players a i p in
        let ps = put_out i w.players in
        let p₂ = without g ps i p₁ in
        let w₁ = put a p₂ ps w in
        (true, if missing_leader || empty p₂ then disband g a p₂ w₁ else w₁))

unfoldable pub join_party : Setting → ℕ → ℕ → Party → World → Bool × World
join_party g a i p w =
    if not (g.events.on_join a i)
    then (false, w)
    else if not (has i p.invite_list)
    then (false, w)
    else (let ps =
          uninvite a i (set_player i (record (w.players i) { party = some a }) w.players) in
        let p₁ = record p {
          invite_list = remove i p.invite_list;
          member_list = p.member_list ++ i ∷ [];
        } in
        let p₂ = update_shared_experience_bonus ps (update_shared_experience g ps p₁) in
        (true, put a p₂ ps w))

unfoldable pub remove_invite : Setting → ℕ → ℕ → Bool → Party → World → Bool × World
remove_invite g a i remove_from_player p w =
    if not (has i p.invite_list)
    then (false, w)
    else (let p₁ = record p { invite_list = remove i p.invite_list } in
        let ps = if remove_from_player then uninvite a i w.players else w.players in
        let w₁ = put a p₁ ps w in (true, if empty p₁ then disband g a p₁ w₁ else w₁))

unfoldable pub invite_player : ℕ → ℕ → Party → World → Bool × World
invite_player a i p w = if has i p.invite_list then (false, w) else (
  true,
  put a (record p { invite_list = p.invite_list ++ i ∷ [] }) (add_party_invitation a i w.players) w,
)
