-- ===== src/Party/Leaving.antt =====
-- src/party.cpp: passing the leadership, taking an invitation back and leaving keep parties and
-- players in agreement, as long as no script forbids the end of a party.
use otx.Prelude.{
  ℕ, ◌≡◌, refl, sym, ap, ◌∙◌, inl, inr, true, false, some, ◌∷◌, arith, ◌==◌, ==_iff, Bool-cases,
  if-both,
}
use otx.Prelude.Sets.{has, remove, has-remove_self, remove-IsDistinct}
use otx.Party.{Players, empty, is_of, Party, World, Setting}
use otx.Party.Experience.{update_shared_experience}
use otx.Party.Membership.{uninvite, put, disband, pass_party_leadership, remove_invite}
use otx.Party.Lookups.{
  has-remove, uninvite-party, uninvite-has, update_shared_experience-SamePeople, SamePeople,
}
use otx.Party.Consistent.{
  inside, ProperParty, SameBut-refl, Consistent-Apart, put-Consistent, disband-Consistent,
  Consistent,
}
use otx.Party.Operations.{
  SamePeople-inside, SamePeople-ProperParty, agree-members, agree-invites, agree-ProperParty,
}

-- A party of the same players as another, led by somebody.
pub record SameCompany (p q : Party) : Type 0 where
  pub insides : (i : ℕ) → inside i (some q) ≡ inside i (some p)
  pub invite_list : q.invite_list ≡ p.invite_list
  pub proper : ProperParty q

passed : ℕ → Party → Party
passed j p = record p { leader = j; member_list = p.leader ∷ remove j p.member_list }

passed-SameCompany :
    (j : ℕ) (p : Party)
    → ProperParty p
    → (p.leader == j) ≡ false
    → inside j (some p) ≡ true
    → SameCompany p (passed j p)
unfolding passed
passed-SameCompany j p (d, e) n m = record {
  insides = λ i. ground (arith, has-remove i j p.member_list d.1, n, m, ==_iff i j);
  invite_list = refl;
  proper = (
    (
      ground (arith, has-remove_self j p.member_list d.1, n, ==_iff j p.leader),
      (
        ground (arith, has-remove p.leader j p.member_list d.1, d.0),
        remove-IsDistinct j p.member_list d.1,
      ),
    ),
    e,
  );
}

people-SameCompany : (p q r : Party) → SameCompany p q → SamePeople q r → SameCompany p r
people-SameCompany p q r h s = record {
  insides = λ i. SamePeople-inside q r i s ∙ h.insides i;
  invite_list = s.invite_list ∙ h.invite_list;
  proper = SamePeople-ProperParty q r s h.proper;
}

pub self-SameCompany : (p : Party) → ProperParty p → SameCompany p p
self-SameCompany p h = record { insides = λ i. refl; invite_list = refl; proper = h }

pub pass-SameCompany :
    (g : Setting) (ps : Players) (a j : ℕ) (p : Party)
    → ProperParty p
    → is_of (ps j).party a ≡ inside j (some p)
    → SameCompany p (pass_party_leadership g ps a j p).1
unfolding pass_party_leadership passed
pass-SameCompany g ps a j p h m = elim (Bool-cases (p.leader == j)) [
  | inl same ↦ rw (same) (self-SameCompany p h)
  | inr other ↦ elim (Bool-cases (is_of (ps j).party a)) [
    | inr out ↦ rw (other, out) (self-SameCompany p h)
    | inl within ↦
        rw (other, within)
          (people-SameCompany p (passed j p) (update_shared_experience g ps (passed j p))
            (passed-SameCompany j p h other (sym m ∙ within))
            (update_shared_experience-SamePeople g ps (passed j p)))
  ]
]

pub pass-Consistent :
    (g : Setting) (a j : ℕ) (p : Party) (w : World)
    → Consistent w
    → w.parties a ≡ some p
    → Consistent (put a (pass_party_leadership g w.players a j p).1 w.players w)
pass-Consistent g a j p w h e =
    let s =
      pass-SameCompany g w.players a j p (agree-ProperParty w a p h e)
        (agree-members w a p h e j) in
    put-Consistent a (pass_party_leadership g w.players a j p).1 w.players w
      (Consistent-Apart a p w h e) (SameBut-refl a w.players)
      (λ i. agree-members w a p h e i ∙ sym (s.insides i))
      (λ i. agree-invites w a p h e i ∙ ap (has i) (sym s.invite_list)) s.proper

-- A party of a world in agreement may go.
pub agreed-disband :
    (g : Setting) (a : ℕ) (p : Party) (w : World)
    → Consistent (put a p w.players w)
    → g.events.on_disband a ≡ true
    → Consistent (disband g a p (put a p w.players w))
agreed-disband g a p w h ok =
    disband-Consistent g a p w₁ (Consistent-Apart a p w₁ h e) ok
      (λ i m. sym (agree-members w₁ a p h e i) ∙ m) (λ i m. inl (agree-members w₁ a p h e i ∙ m))
      (λ i m. sym (agree-invites w₁ a p h e i) ∙ m)
  where
    w₁ : World
    w₁ = put a p w.players w

    e : w₁.parties a ≡ some p
    e = ground arith

uninvited : ℕ → Party → Party
uninvited i p = record p { invite_list = remove i p.invite_list }

uninvited-Consistent :
    (a i : ℕ) (p : Party) (w : World)
    → Consistent w
    → w.parties a ≡ some p
    → Consistent (put a (uninvited i p) (uninvite a i w.players) w)
unfolding uninvited
uninvited-Consistent a i p w h e =
    let (d, v) = agree-ProperParty w a p h e in
    put-Consistent a (uninvited i p) (uninvite a i w.players) w (Consistent-Apart a p w h e)
      (record {
        members = λ b j n. ap (λ o. is_of o b) (uninvite-party a i j w.players);
        invites = λ b j n. ground (arith, uninvite-has a i j b w.players, n);
      })
      (λ j. ap (λ o. is_of o a) (uninvite-party a i j w.players) ∙ agree-members w a p h e j)
      (λ j. ground (
        arith,
        uninvite-has a i j a w.players,
        agree-invites w a p h e j,
        has-remove j i p.invite_list v,
      ))
      (d, remove-IsDistinct i p.invite_list v)

pub remove_invite-Consistent :
    (g : Setting) (a i : ℕ) (p : Party) (w : World)
    → Consistent w
    → w.parties a ≡ some p
    → g.events.on_disband a ≡ true
    → Consistent (remove_invite g a i true p w).1
unfolding remove_invite uninvited
remove_invite-Consistent g a i p w h e ok =
    let p₁ = uninvited i p in
    let ps = uninvite a i w.players in
    let w₁ : World = record w { players = ps } in
    let c = uninvited-Consistent a i p w h e in
    elim (Bool-cases (has i p.invite_list)) [
      | inr new ↦ rw (new) h
      | inl known ↦ rw (known) (
          if-both Consistent (empty p₁) (disband g a p₁ (put a p₁ ps w)) (put a p₁ ps w)
            (agreed-disband g a p₁ w₁ c ok) c)
    ]
