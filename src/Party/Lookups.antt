-- ===== src/Party/Lookups.antt =====
-- src/party.cpp: what the loops over members and invited players leave of each player.

use otx.Prelude.{
  ℕ, ◌≡◌, refl, ap, ◌∙◌, not, ◌&&◌, ◌||◌, none, List, [], ◌∷◌, arith, ◌==◌, if◌then◌else◌, ==_iff,
}
use otx.Prelude.Sets.{has, remove, IsDistinct, has-remove_ne, has-remove_self}
use otx.Party.{Players, remove_all, Party, Setting}
use otx.Party.Experience.{
  update_shared_experience, update_shared_experience_bonus, clear_player_points,
}
use otx.Party.Membership.{put_out, uninvite, add_party_invitation, each, without}

pub has-remove_all : (x y : ℕ) (xs : List ℕ) → has x (remove_all y xs) ≡ (has x xs && not (x == y))
has-remove_all x y [] = refl
has-remove_all x y (z ∷ xs) = ground (arith, has-remove_all x y xs)

pub has-remove :
    (x y : ℕ) (xs : List ℕ) → IsDistinct xs → has x (remove y xs) ≡ (has x xs && not (x == y))
has-remove x y xs d = ground (arith, has-remove_ne x y xs, has-remove_self y xs d, ==_iff x y)

pub put_out-party :
    (i j : ℕ) (ps : Players) → (put_out i ps j).party ≡ (if j == i then none else (ps j).party)
put_out-party i j ps = ground arith

pub put_out-invitations :
    (i j : ℕ) (ps : Players) → (put_out i ps j).invitations ≡ (ps j).invitations
put_out-invitations i j ps = ground (arith, ==_iff j i)

pub uninvite-party : (a i j : ℕ) (ps : Players) → (uninvite a i ps j).party ≡ (ps j).party
uninvite-party a i j ps = ground (arith, ==_iff j i)

pub uninvite-has :
    (a i j b : ℕ) (ps : Players)
    → has b (uninvite a i ps j).invitations ≡ (has b (ps j).invitations && not (j == i && b == a))
uninvite-has a i j b ps = ground (arith, ==_iff j i, has-remove_all b a (ps i).invitations)

pub each-put_out-party :
    (xs : List ℕ) (ps : Players) (j : ℕ)
    → (each put_out xs ps j).party ≡ (if has j xs then none else (ps j).party)
unfolding each
each-put_out-party [] ps j = refl
each-put_out-party (x ∷ xs) ps j =
    ground (arith, each-put_out-party xs (put_out x ps) j, put_out-party x j ps)

pub each-put_out-invitations :
    (xs : List ℕ) (ps : Players) (j : ℕ) → (each put_out xs ps j).invitations ≡ (ps j).invitations
unfolding each
each-put_out-invitations [] ps j = refl
each-put_out-invitations (x ∷ xs) ps j =
    each-put_out-invitations xs (put_out x ps) j ∙ put_out-invitations x j ps

pub each-uninvite-party :
    (a : ℕ) (xs : List ℕ) (ps : Players) (j : ℕ) → (each (uninvite a) xs ps j).party ≡ (ps j).party
unfolding each
each-uninvite-party a [] ps j = refl
each-uninvite-party a (x ∷ xs) ps j =
    each-uninvite-party a xs (uninvite a x ps) j ∙ uninvite-party a x j ps

pub each-uninvite-has :
    (a : ℕ) (xs : List ℕ) (ps : Players) (j b : ℕ)
    → has b (each (uninvite a) xs ps j).invitations
      ≡ (has b (ps j).invitations && not (has j xs && b == a))
unfolding each
each-uninvite-has a [] ps j b = ground arith
each-uninvite-has a (x ∷ xs) ps j b =
    ground (arith, each-uninvite-has a xs (uninvite a x ps) j b, uninvite-has a x j b ps)

-- The players after `disband`.
pub disband-party :
    (a : ℕ) (p : Party) (ps : Players) (j : ℕ)
    → (each put_out p.member_list (each (uninvite a) p.invite_list (put_out p.leader ps)) j).party
      ≡ (if j == p.leader || has j p.member_list then none else (ps j).party)
disband-party a p ps j = ground (
  arith,
  each-put_out-party p.member_list (each (uninvite a) p.invite_list (put_out p.leader ps)) j,
  each-uninvite-party a p.invite_list (put_out p.leader ps) j,
  put_out-party p.leader j ps,
)

pub disband-has :
    (a : ℕ) (p : Party) (ps : Players) (j b : ℕ)
    → has b
        (each put_out p.member_list
          (each (uninvite a) p.invite_list (put_out p.leader ps))
          j).invitations
      ≡ (has b (ps j).invitations && not (has j p.invite_list && b == a))
disband-has a p ps j b =
    ap (has b) (
      each-put_out-invitations p.member_list (each (uninvite a) p.invite_list (put_out p.leader ps))
        j)
    ∙ each-uninvite-has a p.invite_list (put_out p.leader ps) j b
    ∙ ap (λ l. has b l && not (has j p.invite_list && b == a)) (put_out-invitations p.leader j ps)

pub add_party_invitation-party :
    (a i j : ℕ) (ps : Players) → (add_party_invitation a i ps j).party ≡ (ps j).party
add_party_invitation-party a i j ps = ground (arith, ==_iff j i)

pub add_party_invitation-has :
    (a i j b : ℕ) (ps : Players)
    → has b (add_party_invitation a i ps j).invitations
      ≡ (has b (ps j).invitations || j == i && b == a)
add_party_invitation-has a i j b ps = ground (arith, ==_iff j i, ==_iff b a)

-- A party with the same people as another.
pub record SamePeople (p q : Party) : Type 0 where
  pub leader : q.leader ≡ p.leader
  pub member_list : q.member_list ≡ p.member_list
  pub invite_list : q.invite_list ≡ p.invite_list

pub update_shared_experience-SamePeople :
    (g : Setting) (ps : Players) (p : Party) → SamePeople p (update_shared_experience g ps p)
unfolding update_shared_experience
update_shared_experience-SamePeople g ps p = record {
  leader = ground arith;
  member_list = ground arith;
  invite_list = ground arith;
}

pub update_shared_experience_bonus-SamePeople :
    (ps : Players) (p : Party) → SamePeople p (update_shared_experience_bonus ps p)
unfolding update_shared_experience_bonus
update_shared_experience_bonus-SamePeople ps p = record {
  leader = refl;
  member_list = refl;
  invite_list = refl;
}

clear_player_points-SamePeople :
    (g : Setting) (ps : Players) (i : ℕ) (p : Party) → SamePeople p (clear_player_points g ps i p)
unfolding clear_player_points update_shared_experience
clear_player_points-SamePeople g ps i p = record {
  leader = ground arith;
  member_list = ground arith;
  invite_list = ground arith;
}

pub SamePeople_trans : (p q r : Party) → SamePeople p q → SamePeople q r → SamePeople p r
SamePeople_trans p q r h k = record {
  leader = k.leader ∙ h.leader;
  member_list = k.member_list ∙ h.member_list;
  invite_list = k.invite_list ∙ h.invite_list;
}

pub without-SamePeople :
    (g : Setting) (ps : Players) (i : ℕ) (p : Party)
    → SamePeople (record p { member_list = remove i p.member_list }) (without g ps i p)
unfolding without
without-SamePeople g ps i p =
    let p₁ : Party = record p { member_list = remove i p.member_list } in
    let p₂ = update_shared_experience g ps p₁ in
    let p₃ = update_shared_experience_bonus ps p₂ in
    SamePeople_trans p₁ p₃ (clear_player_points g ps i p₃)
      (SamePeople_trans p₁ p₂ p₃ (update_shared_experience-SamePeople g ps p₁)
        (update_shared_experience_bonus-SamePeople ps p₂))
      (clear_player_points-SamePeople g ps i p₃)
