-- ===== src/Party/Preserved.antt =====
-- src/game.cpp: whatever players do about parties, in whatever order, parties and players agree.
use otx.Prelude.{
  ℕ, ◌≡◌, inl, inr, Bool, true, false, not, ◌&&◌, none, some, List, [], ◌∷◌, arith, ◌==◌,
  if◌then◌else◌, Option-cases, if-both, All,
}
use otx.Party.{Players, Party, World, Setting}
use otx.Party.Experience.{set_shared_experience}
use otx.Party.Membership.{
  new_party, put, pass_party_leadership, leave_party, join_party, remove_invite, invite_player,
}
use otx.Party.Lookups.{SamePeople}
use otx.Party.Consistent.{SameBut-refl, Consistent-Apart, Consistent}
use otx.Party.Operations.{
  agree-members, agree-invites, agree-ProperParty, invite_player-Consistent, found-Consistent,
  put_people-Consistent, join_party-Consistent,
}
use otx.Party.Leaving.{pass-Consistent, remove_invite-Consistent}
use otx.Party.Departures.{leave_party-Consistent}
use otx.Party.Handlers.{
  is_inviting, is_partner, in_party, has_party, found, player_invite_to_party, player_join_party,
  player_revoke_party_invitation, player_pass_party_leadership, player_leave_party, is_exposed,
  player_enable_shared_party_experience,
}

-- What players ask for.
pub data Move : Type 0 where
  invite join revoke pass : ℕ → ℕ → Move
  leave : ℕ → Move
  share : ℕ → Bool → Move

unfoldable pub move : Setting → Move → World → World
move g (invite i j) w = player_invite_to_party i j w
move g (join i l) w = player_join_party g i l w
move g (revoke i j) w = player_revoke_party_invitation g i j w
move g (pass i j) w = player_pass_party_leadership g i j w
move g (leave i) w = player_leave_party g i w
move g (share i b) w = player_enable_shared_party_experience g i b w

-- Moves one behind the other, each at its own time.
unfoldable pub moves : List (Setting × Move) → World → World
moves [] w = w
moves ((g, m) ∷ ms) w = moves ms (move g m w)

in_party-Consistent :
    (w : World) (i : ℕ) (f : ℕ → Party → World)
    → Consistent w
    → ((a : ℕ) (p : Party)
        → (w.players i).party ≡ some a
        → w.parties a ≡ some p
        → Consistent (f a p))
    → Consistent (in_party w i f)
in_party-Consistent w i f h k = elim (Option-cases (w.players i).party) [
  | inl without_party ↦ rw (without_party, in_party) h
  | inr (a, own) ↦ elim (Option-cases (w.parties a)) [
    | inl gone ↦ rw (own, gone, in_party) h
    | inr (p, e) ↦ rw (own, e, in_party) (k a p own e)
  ]
]

has_party-none : (w : World) (i : ℕ) → has_party w i ≡ false → (w.players i).party ≡ none
has_party-none w i h = elim (Option-cases (w.players i).party) [
  | inl without_party ↦ without_party
  | inr (a, own) ↦ absurd (ground (arith, h, own))
]

found-new_party : (i : ℕ) (w : World) → (found i w).parties w.next_party ≡ some (new_party i)
unfolding found
found-new_party i w = ground arith

share-SamePeople :
    (g : Setting) (ps : Players) (i : ℕ) (active : Bool) (p : Party)
    → SamePeople p (set_shared_experience g ps i active p).1
unfolding set_shared_experience
share-SamePeople g ps i active p = record {
  leader = ground arith;
  member_list = ground arith;
  invite_list = ground arith;
}

invite-Consistent : (i j : ℕ) (w : World) → Consistent w → Consistent (player_invite_to_party i j w)
unfolding player_invite_to_party
invite-Consistent i j w h = ground (arith, h, of_leader, of_new)
  where
    of_leader :
        Consistent (in_party w i (λ a p. if p.leader == i then (invite_player a j p w).1 else w))
    of_leader =
        in_party-Consistent w i (λ a p. if p.leader == i then (invite_player a j p w).1 else w) h
          (λ a p own e.
            if-both Consistent (p.leader == i) (invite_player a j p w).1 w
              (invite_player-Consistent a j p w h e) h)

    of_new :
        has_party w i ≡ false
        → Consistent (invite_player w.next_party j (new_party i) (found i w)).1
    of_new n =
        invite_player-Consistent w.next_party j (new_party i) (found i w)
          (found-Consistent i w h (has_party-none w i n)) (found-new_party i w)

join-Consistent :
    (g : Setting) (i l : ℕ) (w : World) → Consistent w → Consistent (player_join_party g i l w)
unfolding player_join_party
join-Consistent g i l w h = ground (arith, h, of_leader)
  where
    act : ℕ → Party → World
    act a p =
        if not (p.leader == l) then w else if has_party w i then w else (join_party g a i p w).1

    joins :
        (a : ℕ) (p : Party)
        → w.parties a ≡ some p
        → has_party w i ≡ false
        → Consistent (join_party g a i p w).1
    joins a p e n = join_party-Consistent g a i p w h e (has_party-none w i n)

    of_leader : Consistent (in_party w l act)
    of_leader = in_party-Consistent w l act h (λ a p own e. ground (arith, h, joins a p e))

-- No script forbids the end of a party.
abbrev pub LetsGo : Setting → Type 0
LetsGo g = (a : ℕ) → g.events.on_disband a ≡ true

revoke-Consistent :
    (g : Setting) (i j : ℕ) (w : World)
    → LetsGo g
    → Consistent w
    → Consistent (player_revoke_party_invitation g i j w)
unfolding player_revoke_party_invitation
revoke-Consistent g i j w ok h = ground (arith, h, of_leader)
  where
    act : ℕ → Party → World
    act a p =
        if not (p.leader == i)
        then w
        else if not (w.players j).online
        then w
        else if not (is_inviting w i j)
        then w
        else (remove_invite g a j true p w).1

    of_leader : Consistent (in_party w i act)
    of_leader =
        in_party-Consistent w i act h
          (λ a p own e. ground (arith, h, remove_invite-Consistent g a j p w h e (ok a)))

player_pass-Consistent :
    (g : Setting) (i j : ℕ) (w : World)
    → Consistent w
    → Consistent (player_pass_party_leadership g i j w)
unfolding player_pass_party_leadership
player_pass-Consistent g i j w h = ground (arith, h, of_leader)
  where
    act : ℕ → Party → World
    act a p =
        if not (p.leader == i)
        then w
        else if not (w.players j).online
        then w
        else if not (is_partner w i j)
        then w
        else put a (pass_party_leadership g w.players a j p).1 w.players w

    of_leader : Consistent (in_party w i act)
    of_leader =
        in_party-Consistent w i act h
          (λ a p own e. ground (arith, h, pass-Consistent g a j p w h e))

leave-Consistent :
    (g : Setting) (i : ℕ) (w : World)
    → LetsGo g
    → Consistent w
    → Consistent (player_leave_party g i w)
unfolding player_leave_party
leave-Consistent g i w ok h = ground (arith, h, of_member)
  where
    act : ℕ → Party → World
    act a p = if (w.players i).in_fight then w else (leave_party g a i p w).1

    of_member : Consistent (in_party w i act)
    of_member =
        in_party-Consistent w i act h
          (λ a p own e. ground (arith, h, leave_party-Consistent g a i p w h e own (ok a)))

share-Consistent :
    (g : Setting) (i : ℕ) (b : Bool) (w : World)
    → Consistent w
    → Consistent (player_enable_shared_party_experience g i b w)
unfolding player_enable_shared_party_experience
share-Consistent g i b w h = ground (arith, h, of_member)
  where
    act : ℕ → Party → World
    act a p =
        if (w.players i).in_fight && is_exposed (w.players i).tile
        then w
        else put a (set_shared_experience g w.players i b p).1 w.players w

    shared :
        (a : ℕ) (p : Party)
        → w.parties a ≡ some p
        → Consistent (put a (set_shared_experience g w.players i b p).1 w.players w)
    shared a p e =
        put_people-Consistent a p (set_shared_experience g w.players i b p).1 w.players w
          (share-SamePeople g w.players i b p) (Consistent-Apart a p w h e)
          (SameBut-refl a w.players) (agree-members w a p h e) (agree-invites w a p h e)
          (agree-ProperParty w a p h e)

    of_member : Consistent (in_party w i act)
    of_member = in_party-Consistent w i act h (λ a p own e. ground (arith, h, shared a p e))

move-Consistent :
    (g : Setting) (m : Move) (w : World) → LetsGo g → Consistent w → Consistent (move g m w)
unfolding move
move-Consistent g (invite i j) w ok h = invite-Consistent i j w h
move-Consistent g (join i l) w ok h = join-Consistent g i l w h
move-Consistent g (revoke i j) w ok h = revoke-Consistent g i j w ok h
move-Consistent g (pass i j) w ok h = player_pass-Consistent g i j w h
move-Consistent g (leave i) w ok h = leave-Consistent g i w ok h
move-Consistent g (share i b) w ok h = share-Consistent g i b w h

-- Parties and players that agree at the start agree after any sequence of invitations, joins,
-- revocations, changes of leadership, departures and settings of shared experience, as long as no
-- script forbids the end of a party: a player points to a party exactly when it leads it or is one
-- of its members, keeps exactly the invitations that a party lists, and no party that is gone is
-- pointed to.
pub moves-Consistent :
    (ms : List (Setting × Move)) (w : World)
    → All (λ gm. LetsGo gm.0) ms
    → Consistent w
    → Consistent (moves ms w)
unfolding moves
moves-Consistent [] w ok h = h
moves-Consistent ((g, m) ∷ ms) w ok h =
    moves-Consistent ms (move g m w) ok.1 (move-Consistent g m w ok.0 h)
