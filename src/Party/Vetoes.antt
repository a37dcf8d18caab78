-- ===== src/Party/Vetoes.antt =====
-- src/party.cpp: a leader that leaves while a script forbids the end of its party.
use otx.Prelude.{ℕ, ◌≡◌, refl, sym, ap, subst, ◌∙◌, true, false, none, some, [], arith, ==_refl}
use otx.Party.{Players, set_party, is_of, Party, World, Setting}
use otx.Party.Membership.{put_out, put, disband, hand_over, without, leave_party}
use otx.Party.Lookups.{put_out-party, without-SamePeople}
use otx.Party.Consistent.{inside, Consistent}

hand_over-alone :
    (g : Setting) (ps : Players) (a i : ℕ) (p : Party)
    → p.leader ≡ i
    → p.member_list ≡ []
    → hand_over g ps a i p ≡ (true, p)
unfolding hand_over
hand_over-alone g ps a i p l alone = ground (arith, l, alone)

leave_party-alone :
    (g : Setting) (a i : ℕ) (p : Party) (w : World)
    → (w.players i).party ≡ some a
    → hand_over g w.players a i p ≡ (true, p)
    → g.events.on_leave a i ≡ true
    → g.events.on_disband a ≡ false
    → (leave_party g a i p w).1
      ≡ put a (without g (put_out i w.players) i p) (put_out i w.players) w
unfolding leave_party disband
leave_party-alone g a i p w own over allowed vetoed =
    rw (ap (λ o. is_of o a) own ∙ ==_refl a, allowed, over, vetoed) refl

-- A world in which a party stays, led by a player that is in no party.
pub record Leaderless (a i : ℕ) (w : World) : Type 0 where
  pub stays : (q : Party) × ((w.parties a ≡ some q) × (q.leader ≡ i))
  pub outside : (w.players i).party ≡ none

-- When the scripts allow a leader without members to leave its party and forbid the end of it, the
-- party stays, led by that player, which is in no party, and so parties and players do not agree.
pub leave_party-Leaderless :
    (g : Setting) (a i : ℕ) (p : Party) (w : World)
    → w.parties a ≡ some p
    → (w.players i).party ≡ some a
    → p.leader ≡ i
    → p.member_list ≡ []
    → g.events.on_leave a i ≡ true
    → g.events.on_disband a ≡ false
    → Leaderless a i (leave_party g a i p w).1 × ¬ Consistent (leave_party g a i p w).1
leave_party-Leaderless g a i p w known own l alone allowed vetoed =
    subst (λ v. Leaderless a i v × ¬ Consistent v) (sym left) (leaderless, disagrees)
  where
    ps : Players
    ps = put_out i w.players

    q : Party
    q = without g ps i p

    left : (leave_party g a i p w).1 ≡ put a q ps w
    left =
        leave_party-alone g a i p w own (hand_over-alone g w.players a i p l alone) allowed vetoed

    in_none : (ps i).party ≡ none
    in_none = ground (arith, put_out-party i i w.players)

    stored : set_party a (some q) w.parties a ≡ some q
    stored = rw (==_refl a) refl

    led : q.leader ≡ i
    led = (without-SamePeople g ps i p).leader ∙ l

    leaderless : Leaderless a i (put a q ps w)
    leaderless = record { stays = (q, (stored, led)); outside = in_none }

    disagrees : ¬ Consistent (put a q ps w)
    disagrees k = cc (sym outside ∙ k.members a i ∙ leads)
      where
        outside : is_of (ps i).party a ≡ false
        outside = ground (arith, put_out-party i i w.players)

        leads : inside i (set_party a (some q) w.parties a) ≡ true
        leads = ground (arith, (without-SamePeople g ps i p).leader, l, ==_refl i)
