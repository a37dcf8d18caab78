-- ===== src/Party/Operations.antt =====
-- src/party.cpp: the operations keep parties and players in agreement.

use otx.Prelude.{
  ℕ, ◌+◌, ◌≡◌, refl, sym, ap, ap₂, subst, ◌∙◌, inl, inr, Bool, true, false, not, ◌&&◌, ◌||◌, Option,
  none, some, [], ◌∷◌, ◌++◌, arith, ◌==◌, if◌then◌else◌, ==_iff, Bool-cases,
}
use otx.Prelude.Sets.{has, remove, IsDistinct, has-append, remove-IsDistinct, append-IsDistinct}
use otx.Party.{Players, set_player, is_of, Party, World, Setting}
use otx.Party.Experience.{update_shared_experience, update_shared_experience_bonus}
use otx.Party.Membership.{uninvite, add_party_invitation, new_party, put, join_party, invite_player}
use otx.Party.Lookups.{
  has-remove_all, has-remove, add_party_invitation-party, add_party_invitation-has,
  update_shared_experience-SamePeople, update_shared_experience_bonus-SamePeople, SamePeople_trans,
  SamePeople,
}
use otx.Party.Handlers.{found}
use otx.Party.Consistent.{
  inside, invited, ProperParty, Proper, Consistent-Apart, put-Consistent, Consistent, Apart,
  SameBut,
}

pub SamePeople-inside :
    (p q : Party) (i : ℕ) → SamePeople p q → inside i (some q) ≡ inside i (some p)
SamePeople-inside p q i h = ap₂ (λ l ms. i == l || has i ms) h.leader h.member_list

pub SamePeople-ProperParty : (p q : Party) → SamePeople p q → ProperParty p → ProperParty q
SamePeople-ProperParty p q h (d, e) = (
  subst IsDistinct (ap₂ ◌∷◌ (sym h.leader) (sym h.member_list)) d,
  subst IsDistinct (sym h.invite_list) e,
)

-- What agreement says of a party at its address.
pub agree-members :
    (w : World) (a : ℕ) (p : Party)
    → Consistent w
    → w.parties a ≡ some p
    → (i : ℕ) → is_of (w.players i).party a ≡ inside i (some p)
agree-members w a p h e i = h.members a i ∙ ap (inside i) e

pub agree-invites :
    (w : World) (a : ℕ) (p : Party)
    → Consistent w
    → w.parties a ≡ some p
    → (i : ℕ) → has a (w.players i).invitations ≡ has i p.invite_list
agree-invites w a p h e i = h.invites a i ∙ ap (invited i) e

pub agree-ProperParty :
    (w : World) (a : ℕ) (p : Party) → Consistent w → w.parties a ≡ some p → ProperParty p
agree-ProperParty w a p h e = subst Proper e (h.proper a)

pub invite_player-Consistent :
    (a j : ℕ) (p : Party) (w : World)
    → Consistent w
    → w.parties a ≡ some p
    → Consistent (invite_player a j p w).1
unfolding invite_player
invite_player-Consistent a j p w h e = elim (Bool-cases (has j p.invite_list)) [
  | inl known ↦ rw (known) h
  | inr new ↦ rw (new) (
      put-Consistent a (record p { invite_list = p.invite_list ++ j ∷ [] })
        (add_party_invitation a j w.players) w (Consistent-Apart a p w h e)
        (record {
          members = λ b i n. ap (λ o. is_of o b) (add_party_invitation-party a j i w.players);
          invites = λ b i n. ground (arith, add_party_invitation-has a j i b w.players, n);
        })
        (λ i.
          ap (λ o. is_of o a) (add_party_invitation-party a j i w.players)
          ∙ agree-members w a p h e i)
        (λ i. ground (
          arith,
          add_party_invitation-has a j i a w.players,
          agree-invites w a p h e i,
          has-append i p.invite_list (j ∷ []),
        ))
        (
          (agree-ProperParty w a p h e).0,
          append-IsDistinct j p.invite_list new (agree-ProperParty w a p h e).1,
        ))
]

pub found-Consistent :
    (j : ℕ) (w : World) → Consistent w → (w.players j).party ≡ none → Consistent (found j w)
unfolding found
found-Consistent j w h no_party =
    let a = w.next_party in
    let e : w.parties a ≡ none = h.fresh a (omega arith) in
    put-Consistent a (new_party j)
      (set_player j (record (w.players j) { party = some a }) w.players)
      (record w { next_party = a + 1 })
      (record {
        members = λ b i n. h.members b i;
        invites = λ b i n. h.invites b i;
        proper = λ b n. h.proper b;
        fresh = λ b n l. h.fresh b (omega (arith, l));
        known = omega arith;
      })
      (record {
        members = λ b i n. ground (arith, n, no_party, ==_iff i j, ==_iff a b);
        invites = λ b i n. ground (arith, ==_iff i j);
      })
      (λ i. ground (arith, h.members a i, e, ==_iff i j))
      (λ i. ground (arith, h.invites a i, e, ==_iff i j)) ((refl, tt), tt)

-- The players after a player joins.
abbrev pub after_join : ℕ → ℕ → Players → Players
after_join a i ps = uninvite a i (set_player i (record (ps i) { party = some a }) ps)

after_join-party :
    (a i j : ℕ) (ps : Players)
    → (after_join a i ps j).party ≡ (if j == i then some a else (ps j).party)
after_join-party a i j ps = ground (arith, ==_iff j i)

after_join-has :
    (a i j b : ℕ) (ps : Players)
    → has b (after_join a i ps j).invitations ≡ (has b (ps j).invitations && not (j == i && b == a))
after_join-has a i j b ps = ground (arith, ==_iff j i, has-remove_all b a (ps i).invitations)

joined_other :
    (t : Bool) (x : Option ℕ) (a b : ℕ)
    → (b == a) ≡ false
    → (t ≡ true → x ≡ none)
    → is_of (if t then some a else x) b ≡ is_of x b
joined_other true x a b n c = ground (arith, c refl, ==_iff a b)
joined_other false x a b n c = refl

-- A party put back, described by one with the same people.
pub put_people-Consistent :
    (a : ℕ) (p q : Party) (ps : Players) (w : World)
    → SamePeople p q
    → Apart a w
    → SameBut a w.players ps
    → ((i : ℕ) → is_of (ps i).party a ≡ inside i (some p))
    → ((i : ℕ) → has a (ps i).invitations ≡ has i p.invite_list)
    → ProperParty p
    → Consistent (put a q ps w)
put_people-Consistent a p q ps w s h b m v r =
    put-Consistent a q ps w h b (λ i. m i ∙ sym (SamePeople-inside p q i s))
      (λ i. v i ∙ ap (has i) (sym s.invite_list)) (SamePeople-ProperParty p q s r)

-- The party after a player joins.
abbrev pub joined : ℕ → Party → Party
joined i p = record p {
  invite_list = remove i p.invite_list;
  member_list = p.member_list ++ i ∷ [];
}

joined-ProperParty :
    (i : ℕ) (p : Party) → inside i (some p) ≡ false → ProperParty p → ProperParty (joined i p)
joined-ProperParty i p out (d, e) = (
  (
    ground (arith, has-append p.leader p.member_list (i ∷ []), d.0, out, ==_iff i p.leader),
    append-IsDistinct i p.member_list (ground (arith, out)) d.1,
  ),
  remove-IsDistinct i p.invite_list e,
)

joined-Consistent :
    (a i : ℕ) (p q : Party) (w : World)
    → Consistent w
    → w.parties a ≡ some p
    → (w.players i).party ≡ none
    → SamePeople (joined i p) q
    → Consistent (put a q (after_join a i w.players) w)
joined-Consistent a i p q w h e no_party s =
    put_people-Consistent a (joined i p) q (after_join a i w.players) w s
      (Consistent-Apart a p w h e)
      (record {
        members = λ b j n.
            ap (λ o. is_of o b) (after_join-party a i j w.players)
            ∙ joined_other (j == i) (w.players j).party a b n
                (λ same. ap (λ k. (w.players k).party) ((==_iff j i).0 same) ∙ no_party);
        invites = λ b j n. ground (arith, after_join-has a i j b w.players, n);
      })
      (λ j. ground (
        arith,
        after_join-party a i j w.players,
        agree-members w a p h e j,
        has-append j p.member_list (i ∷ []),
      ))
      (λ j. ground (
        arith,
        after_join-has a i j a w.players,
        agree-invites w a p h e j,
        has-remove j i p.invite_list (agree-ProperParty w a p h e).1,
      ))
      (joined-ProperParty i p out (agree-ProperParty w a p h e))
  where
    out : inside i (some p) ≡ false
    out = sym (agree-members w a p h e i) ∙ ap (λ o. is_of o a) no_party

pub join_party-Consistent :
    (g : Setting) (a i : ℕ) (p : Party) (w : World)
    → Consistent w
    → w.parties a ≡ some p
    → (w.players i).party ≡ none
    → Consistent (join_party g a i p w).1
unfolding join_party
join_party-Consistent g a i p w h e no_party =
    let ps = after_join a i w.players in
    let p₁ = update_shared_experience g ps (joined i p) in
    let q = update_shared_experience_bonus ps p₁ in
    let s : SamePeople (joined i p) q =
      SamePeople_trans (joined i p) p₁ q (update_shared_experience-SamePeople g ps (joined i p))
        (update_shared_experience_bonus-SamePeople ps p₁) in
    elim (Bool-cases (g.events.on_join a i)) [
      | inr refused ↦ rw (refused) h
      | inl ok ↦ elim (Bool-cases (has i p.invite_list)) [
        | inr new ↦ rw (ok, new) h
        | inl known ↦ rw (ok, known) (joined-Consistent a i p q w h e no_party s)
      ]
    ]
