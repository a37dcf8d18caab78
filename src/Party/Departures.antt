-- ===== src/Party/Departures.antt =====
-- src/party.cpp: a player that leaves its party.
use otx.Prelude.{
  ℕ, ◌≡◌, refl, sym, ap, ap₂, ◌∙◌, ◌⊎◌, inl, inr, Bool, true, false, not, ◌&&◌, ◌||◌, Option, none,
  some, arith, ◌==◌, if◌then◌else◌, ==_iff, ==_refl, Bool-cases, if-both,
}
use otx.Prelude.Sets.{has, remove, has-remove_ne, has_of_has-remove, remove-IsDistinct}
use otx.Party.{Players, empty, is_of, Party, World, Setting}
use otx.Party.Membership.{put_out, put, disband, hand_over, without, leave_party}
use otx.Party.Lookups.{
  has-remove, put_out-party, put_out-invitations, without-SamePeople, SamePeople,
}
use otx.Party.Consistent.{
  inside, ProperParty, Consistent-Apart, change-Apart, disband-Consistent, Consistent, SameBut,
}
use otx.Party.Operations.{
  SamePeople-inside, agree-members, agree-invites, agree-ProperParty, put_people-Consistent,
}
use otx.Party.Leaving.{agreed-disband, SameCompany}
use otx.Party.HandOver.{hand_over-Handed}

-- The players after a player is put out.
put_out-SameBut :
    (a i : ℕ) (ps : Players)
    → ((b : ℕ) → (b == a) ≡ false → is_of (ps i).party b ≡ false)
    → SameBut a ps (put_out i ps)
put_out-SameBut a i ps none_else = record {
  members = λ b j n. ground (arith, put_out-party i j ps, none_else b n, ==_iff j i);
  invites = λ b j n. ap (has b) (put_out-invitations i j ps);
}

-- A party without a player that does not lead it.
left : ℕ → Party → Party
left i p = record p { member_list = remove i p.member_list }

left-inside :
    (i j : ℕ) (p : Party)
    → ProperParty p
    → (p.leader == i) ≡ false
    → inside j (some (left i p)) ≡ (inside j (some p) && not (j == i))
unfolding left
left-inside i j p h n =
    ground (arith, has-remove j i p.member_list h.0.1, n, ==_iff j i, ==_iff j p.leader)

left-ProperParty : (i : ℕ) (p : Party) → ProperParty p → ProperParty (left i p)
unfolding left
left-ProperParty i p ((n, d), e) = (
  (ground (arith, has-remove p.leader i p.member_list d, n), remove-IsDistinct i p.member_list d),
  e,
)

left-keeps :
    (i j : ℕ) (p : Party)
    → (j == i) ≡ false
    → inside j (some p) ≡ true
    → inside j (some (left i p)) ≡ true
unfolding left
left-keeps i j p n m = ground (arith, has-remove_ne j i p.member_list n, m)

left-inner : (i j : ℕ) (p : Party) → inside j (some (left i p)) ≡ true → inside j (some p) ≡ true
unfolding left
left-inner i j p m = ground (arith, has_of_has-remove j i p.member_list, m)

left-people :
    (g : Setting) (ps : Players) (i : ℕ) (q : Party) → SamePeople (left i q) (without g ps i q)
unfolding left
left-people g ps i q = without-SamePeople g ps i q

-- What the proofs below share: a world in agreement, a player of the party, and what is handed
-- over.
record Departing (a i : ℕ) (p p₁ p₂ : Party) (w : World) : Type 0 where
  agree : Consistent w
  here : w.parties a ≡ some p
  own : (w.players i).party ≡ some a
  company : SameCompany p p₁
  people : SamePeople (left i p₁) p₂

Departing-SameBut :
    (a i : ℕ) (p p₁ p₂ : Party) (w : World)
    → Departing a i p p₁ p₂ w
    → SameBut a w.players (put_out i w.players)
Departing-SameBut a i p p₁ p₂ w h =
    put_out-SameBut a i w.players (λ b n. ap (λ o. is_of o b) h.own ∙ apart b n)
  where
    apart : (b : ℕ) → (b == a) ≡ false → (a == b) ≡ false
    apart b n = ground (arith, n)

put_out-of :
    (a i j : ℕ) (p p₁ p₂ : Party) (w : World)
    → Departing a i p p₁ p₂ w
    → is_of (put_out i w.players j).party a ≡ (inside j (some p₁) && not (j == i))
put_out-of a i j p p₁ p₂ w h =
    ap (λ o. is_of o a) (put_out-party i j w.players)
    ∙ cut (j == i) (w.players j).party
    ∙ ap (λ t. t && not (j == i)) (agree-members w a p h.agree h.here j ∙ sym (h.company.insides j))
  where
    cut : (t : Bool) (x : Option ℕ) → is_of (if t then none else x) a ≡ (is_of x a && not t)
    cut true x = ground arith
    cut false x = ground arith

put_out-invited :
    (a i j : ℕ) (p p₁ p₂ : Party) (w : World)
    → Departing a i p p₁ p₂ w
    → has a (put_out i w.players j).invitations ≡ has j p₁.invite_list
put_out-invited a i j p p₁ p₂ w h =
    ap (has a) (put_out-invitations i j w.players)
    ∙ agree-invites w a p h.agree h.here j
    ∙ ap (has j) (sym h.company.invite_list)

-- With a leader that stays, the party stays in agreement.
departed-Consistent :
    (a i : ℕ) (p p₁ p₂ : Party) (w : World)
    → Departing a i p p₁ p₂ w
    → (p₁.leader == i) ≡ false
    → Consistent (put a p₂ (put_out i w.players) w)
unfolding left
departed-Consistent a i p p₁ p₂ w h n =
    put_people-Consistent a (left i p₁) p₂ (put_out i w.players) w h.people
      (Consistent-Apart a p w h.agree h.here) (Departing-SameBut a i p p₁ p₂ w h)
      (λ j. put_out-of a i j p p₁ p₂ w h ∙ sym (left-inside i j p₁ h.company.proper n))
      (λ j. put_out-invited a i j p p₁ p₂ w h) (left-ProperParty i p₁ h.company.proper)

-- Without one, the party can be disbanded.
abandoned-Consistent :
    (g : Setting) (a i : ℕ) (p p₁ p₂ : Party) (w : World)
    → Departing a i p p₁ p₂ w
    → g.events.on_disband a ≡ true
    → Consistent (disband g a p₂ (put a p₂ (put_out i w.players) w))
unfolding left
abandoned-Consistent g a i p p₁ p₂ w h ok =
    disband-Consistent g a p₂ (put a p₂ ps w)
      (change-Apart a (some p₂) ps w (Consistent-Apart a p w h.agree h.here)
        (Departing-SameBut a i p p₁ p₂ w h))
      ok inner covered
      (λ j m. ap (has j) h.people.invite_list ∙ sym (put_out-invited a i j p p₁ p₂ w h) ∙ m)
  where
    ps : Players
    ps = put_out i w.players

    inner : (j : ℕ) → is_of (ps j).party a ≡ true → inside j (some p₂) ≡ true
    inner j m =
        let (within, other) = both (sym (put_out-of a i j p p₁ p₂ w h) ∙ m) in
        SamePeople-inside (left i p₁) p₂ j h.people ∙ left-keeps i j p₁ other within
      where
        both :
            (inside j (some p₁) && not (j == i)) ≡ true
            → (inside j (some p₁) ≡ true) × ((j == i) ≡ false)
        both e = ground (arith, e)

    covered :
        (j : ℕ) → inside j (some p₂) ≡ true → (is_of (ps j).party a ≡ true) ⊎ ((ps j).party ≡ none)
    covered j m = elim (Bool-cases (j == i)) [
      | inl same ↦
          inr (put_out-party i j w.players ∙ ap (λ t. if t then none else (w.players j).party) same)
      | inr other ↦ inl (
          put_out-of a i j p p₁ p₂ w h
          ∙ ap₂ (λ s t. s && not t)
              (left-inner i j p₁ (sym (SamePeople-inside (left i p₁) p₂ j h.people) ∙ m)) other)
    ]

-- The end of `leaveParty`.
ending-Consistent :
    (g : Setting) (a i : ℕ) (p p₁ p₂ : Party) (w : World) (missing : Bool)
    → Departing a i p p₁ p₂ w
    → g.events.on_disband a ≡ true
    → (missing ≡ false → (p₁.leader == i) ≡ false)
    → Consistent (
        if missing || empty p₂
        then disband g a p₂ (put a p₂ (put_out i w.players) w)
        else put a p₂ (put_out i w.players) w)
ending-Consistent g a i p p₁ p₂ w true h ok s = abandoned-Consistent g a i p p₁ p₂ w h ok
ending-Consistent g a i p p₁ p₂ w false h ok s =
    let w₁ : World = record w { players = put_out i w.players } in
    let c = departed-Consistent a i p p₁ p₂ w h (s refl) in
    if-both Consistent (empty p₂) (disband g a p₂ (put a p₂ w₁.players w)) (put a p₂ w₁.players w)
      (agreed-disband g a p₂ w₁ c ok) c

pub leave_party-Consistent :
    (g : Setting) (a i : ℕ) (p : Party) (w : World)
    → Consistent w
    → w.parties a ≡ some p
    → (w.players i).party ≡ some a
    → g.events.on_disband a ≡ true
    → Consistent (leave_party g a i p w).1
unfolding leave_party
leave_party-Consistent g a i p w h e own ok =
    let r = hand_over g w.players a i p in
    let k =
      hand_over-Handed g w.players a i p (agree-ProperParty w a p h e) (agree-members w a p h e) in
    let d : Departing a i p r.1 (without g (put_out i w.players) i r.1) w = record {
      agree = h;
      here = e;
      own = own;
      company = k.company;
      people = left_people r.1;
    } in
    elim (Bool-cases (g.events.on_leave a i)) [
      | inr forbidden ↦ rw (own_party, forbidden) h
      | inl allowed ↦
          rw (own_party, allowed)
            (ending-Consistent g a i p r.1 (without g (put_out i w.players) i r.1) w r.0 d ok
              k.stays)
    ]
  where
    own_party : is_of (w.players i).party a ≡ true
    own_party = ap (λ o. is_of o a) own ∙ ==_refl a

    left_people : (q : Party) → SamePeople (left i q) (without g (put_out i w.players) i q)
    left_people q = left-people g (put_out i w.players) i q
