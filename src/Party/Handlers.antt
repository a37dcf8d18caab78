-- ===== src/Party/Handlers.antt =====
-- What players do about parties: the handlers of src/game.cpp, and a player that logs out in
-- src/player.cpp. A pointer to a party that is gone has no behaviour; the handlers then leave the
-- world alone.

use otx.Prelude.{
  ℕ, ◌+◌, Bool, true, false, not, ◌&&◌, Option, none, some, List, [], ◌∷◌, ◌==◌, if◌then◌else◌,
}
use otx.Prelude.Sets.{has}
use otx.Party.{set_player, set_party, is_of, Party, World, Setting}
use otx.Party.Experience.{set_shared_experience}
use otx.Party.Membership.{
  new_party, put, pass_party_leadership, leave_party, join_party, remove_invite, invite_player,
}

abbrev pub party_at : World → ℕ → Option Party
party_at w i = elim (w.players i).party [ none ↦ none | some a ↦ w.parties a ]

-- `Player::isInviting` and `isPartner`.
abbrev pub is_inviting : World → ℕ → ℕ → Bool
is_inviting w i j = elim (party_at w i) [
  | none ↦ false
  | some p ↦ p.leader == i && has j p.invite_list
]

abbrev pub is_partner : World → ℕ → ℕ → Bool
is_partner w i j = elim (w.players i).party [ none ↦ false | some a ↦ is_of (w.players j).party a ]

-- An action on the party that a player is in.
abbrev pub in_party : World → ℕ → (ℕ → Party → World) → World
in_party w i f = elim (w.players i).party [
  | none ↦ w
  | some a ↦ elim (w.parties a) [ none ↦ w | some p ↦ f a p ]
]

abbrev pub has_party : World → ℕ → Bool
has_party w i = elim (w.players i).party [ none ↦ false | some a ↦ true ]

-- A new party of a player.
unfoldable pub found : ℕ → World → World
found i w = record {
  players = set_player i (record (w.players i) { party = some w.next_party }) w.players;
  parties = set_party w.next_party (some (new_party i)) w.parties;
  next_party = w.next_party + 1;
}

unfoldable pub player_invite_to_party : ℕ → ℕ → World → World
player_invite_to_party i j w =
    if not ((w.players i).online && (w.players j).online)
    then w
    else if is_inviting w j i
    then w
    else if has_party w j
    then w
    else if has_party w i
    then in_party w i (λ a p. if p.leader == i then (invite_player a j p w).1 else w)
    else (invite_player w.next_party j (new_party i) (found i w)).1

unfoldable pub player_join_party : Setting → ℕ → ℕ → World → World
player_join_party g i l w =
    if not ((w.players i).online && (w.players l).online)
    then w
    else if not (is_inviting w l i)
    then w
    else in_party w l (λ a p.
      if not (p.leader == l) then w else if has_party w i then w else (join_party g a i p w).1)

unfoldable pub player_revoke_party_invitation : Setting → ℕ → ℕ → World → World
player_revoke_party_invitation g i j w =
    if not (w.players i).online
    then w
    else in_party w i (λ a p.
      if not (p.leader == i)
      then w
      else if not (w.players j).online
      then w
      else if not (is_inviting w i j)
      then w
      else (remove_invite g a j true p w).1)

unfoldable pub player_pass_party_leadership : Setting → ℕ → ℕ → World → World
player_pass_party_leadership g i j w =
    if not (w.players i).online
    then w
    else in_party w i (λ a p.
      if not (p.leader == i)
      then w
      else if not (w.players j).online
      then w
      else if not (is_partner w i j)
      then w
      else put a (pass_party_leadership g w.players a j p).1 w.players w)

unfoldable pub player_leave_party : Setting → ℕ → World → World
player_leave_party g i w =
    if not (w.players i).online
    then w
    else in_party w i (λ a p. if (w.players i).in_fight then w else (leave_party g a i p w).1)

-- The test on the tile: outside a protection zone.
abbrev pub is_exposed : Option Bool → Bool
is_exposed none = false
is_exposed (some protected) = not protected

unfoldable pub player_enable_shared_party_experience : Setting → ℕ → Bool → World → World
player_enable_shared_party_experience g i active w =
    if not (w.players i).online
    then w
    else in_party w i (λ a p.
      if (w.players i).in_fight && is_exposed (w.players i).tile
      then w
      else put a (set_shared_experience g w.players i active p).1 w.players w)

-- `clearPartyInvitations`.
unfoldable pub withdraw : Setting → ℕ → List ℕ → World → World
withdraw g i [] w = w
withdraw g i (a ∷ as_left) w =
    withdraw g i as_left
      (elim (w.parties a) [ none ↦ w | some p ↦ (remove_invite g a i false p w).1 ])

unfoldable pub clear_party_invitations : Setting → ℕ → World → World
clear_party_invitations g i w =
    let w₁ = withdraw g i (w.players i).invitations w in
    record w₁ { players = set_player i (record (w₁.players i) { invitations = [] }) w₁.players }

-- The part of `onRemoveCreature` about parties.
unfoldable pub on_remove_creature : Setting → ℕ → World → World
on_remove_creature g i w =
    let w₁ = clear_party_invitations g i w in in_party w₁ i (λ a p. (leave_party g a i p w₁).1)
