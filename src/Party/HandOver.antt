-- ===== src/Party/HandOver.antt =====
-- src/party.cpp: who leads a party when a player leaves it.
use otx.Prelude.{
  ℕ, ◌≡◌, refl, ◌∙◌, inl, inr, Bool, true, false, some, List, [], ◌∷◌, arith, ◌==◌, if◌then◌else◌,
  ==_iff, Bool-cases, if-both,
}
use otx.Prelude.Sets.{remove}
use otx.Party.{Players, is_of, Party, Setting}
use otx.Party.Membership.{pass_party_leadership, only_one, hand_over}
use otx.Party.Lookups.{update_shared_experience-SamePeople}
use otx.Party.Consistent.{inside, ProperParty}
use otx.Party.Leaving.{self-SameCompany, pass-SameCompany, SameCompany}

-- What `hand_over` gives: the same company, and a leader that stays unless none is left.
pub record Handed (i : ℕ) (p : Party) (r : Bool × Party) : Type 0 where
  pub company : SameCompany p r.1
  pub stays : r.0 ≡ false → (r.1.leader == i) ≡ false
  pub missing : r.0 ≡ true → r.1.leader ≡ i

pass-leader :
    (g : Setting) (ps : Players) (a j : ℕ) (p : Party)
    → (p.leader == j) ≡ false
    → is_of (ps j).party a ≡ true
    → (pass_party_leadership g ps a j p).1.leader ≡ j
unfolding pass_party_leadership
pass-leader g ps a j p n m =
    rw (n, m)
      (update_shared_experience-SamePeople g ps
        (record p { leader = j; member_list = p.leader ∷ remove j p.member_list })).leader

-- The leader hands over to the first member.
Handed-front :
    (g : Setting) (ps : Players) (a i m : ℕ) (ms : List ℕ) (p : Party)
    → ProperParty p
    → p.member_list ≡ m ∷ ms
    → p.leader ≡ i
    → is_of (ps m).party a ≡ inside m (some p)
    → Handed i p (false, (pass_party_leadership g ps a m p).1)
Handed-front g ps a i m ms p h e l k = record {
  company = pass-SameCompany g ps a m p h k;
  stays = λ r. ground (arith, pass-leader g ps a m p apart (k ∙ within), l, apart);
  missing = λ r. cc (r);
}
  where
    within : inside m (some p) ≡ true
    within = ground (arith, e)

    apart : (p.leader == m) ≡ false
    apart = ground (arith, h.0.0, e)

pub hand_over-Handed :
    (g : Setting) (ps : Players) (a i : ℕ) (p : Party)
    → ProperParty p
    → ((j : ℕ) → is_of (ps j).party a ≡ inside j (some p))
    → Handed i p (hand_over g ps a i p)
unfolding hand_over
hand_over-Handed g ps a i p h k = elim (Bool-cases (p.leader == i)) [
  | inr other ↦
      rw (other)
        (record { company = self-SameCompany p h; stays = λ r. other; missing = λ r. cc (r) })
  | inl same ↦ rw (same) (leads p.member_list refl ((==_iff p.leader i).0 same))
]
  where
    keeps : p.leader ≡ i → Handed i p (true, p)
    keeps l = record { company = self-SameCompany p h; stays = λ r. cc (r); missing = λ r. l }

    leads :
        (ms : List ℕ)
        → p.member_list ≡ ms
        → p.leader ≡ i
        → Handed i p (elim ms [
          | [] ↦ (true, p)
          | (n ∷ ns) ↦
              if only_one (n ∷ ns) p.invite_list
              then (true, p)
              else (false, (pass_party_leadership g ps a n p).1)
        ])
    leads [] e l = keeps l
    leads (n ∷ ns) e l =
        if-both (Handed i p) (only_one (n ∷ ns) p.invite_list) (true, p)
          (false, (pass_party_leadership g ps a n p).1) (keeps l)
          (Handed-front g ps a i n ns p h e l (k n))
