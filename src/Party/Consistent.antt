-- ===== src/Party/Consistent.antt =====
-- src/party.cpp and src/player.cpp: the parties and the players agree.

use otx.Prelude.{
  ℕ, ◌≤◌, ◌<◌, ◌≡◌, refl, sym, ap, subst, ◌∙◌, ◌⊎◌, inl, inr, Bool, true, false, not, ◌&&◌, ◌||◌,
  Option, none, some, ◌∷◌, arith, ltb, ◌==◌, if◌then◌else◌, ltb→lt, ltb-false, ==_iff, Bool-cases,
}
use otx.Prelude.Sets.{has, IsDistinct}
use otx.Party.{Players, set_party, is_of, Party, World, Setting}
use otx.Party.Membership.{put_out, uninvite, each, put, disband}
use otx.Party.Lookups.{disband-party, disband-has}

abbrev pub inside : ℕ → Option Party → Bool
inside i none = false
inside i (some p) = i == p.leader || has i p.member_list

abbrev pub invited : ℕ → Option Party → Bool
invited i none = false
invited i (some p) = has i p.invite_list

-- The leader is not a member, and nobody is a member or invited twice.
abbrev pub ProperParty : Party → Type 0
ProperParty p = IsDistinct (p.leader ∷ p.member_list) × IsDistinct p.invite_list

abbrev pub Proper : Option Party → Type 0
Proper none = Unit {0}
Proper (some p) = ProperParty p

-- Each player points to the party that has it as its leader or a member, and to no other; each
-- keeps the invitations of exactly the parties that invited it; pointers lead to live parties.
pub record Consistent (w : World) : Type 0 where
  pub members : (a i : ℕ) → is_of (w.players i).party a ≡ inside i (w.parties a)
  pub invites : (a i : ℕ) → has a (w.players i).invitations ≡ invited i (w.parties a)
  pub proper : (a : ℕ) → Proper (w.parties a)
  pub fresh : (a : ℕ) → w.next_party ≤ a → w.parties a ≡ none

-- The same of all parties but one, whose number was given out.
pub record Apart (a : ℕ) (w : World) : Type 0 where
  pub members : (b i : ℕ) → (b == a) ≡ false → is_of (w.players i).party b ≡ inside i (w.parties b)
  pub invites :
      (b i : ℕ) → (b == a) ≡ false → has b (w.players i).invitations ≡ invited i (w.parties b)
  pub proper : (b : ℕ) → (b == a) ≡ false → Proper (w.parties b)
  pub fresh : (b : ℕ) → (b == a) ≡ false → w.next_party ≤ b → w.parties b ≡ none
  pub known : a < w.next_party

-- Players that differ in what they know of one party only.
pub record SameBut (a : ℕ) (ps qs : Players) : Type 0 where
  pub members : (b i : ℕ) → (b == a) ≡ false → is_of (qs i).party b ≡ is_of (ps i).party b
  pub invites : (b i : ℕ) → (b == a) ≡ false → has b (qs i).invitations ≡ has b (ps i).invitations

pub SameBut-refl : (a : ℕ) (ps : Players) → SameBut a ps ps
SameBut-refl a ps = record { members = λ b i n. refl; invites = λ b i n. refl }

pub Consistent-Apart :
    (a : ℕ) (p : Party) (w : World) → Consistent w → w.parties a ≡ some p → Apart a w
Consistent-Apart a p w h e = record {
  members = λ b i n. h.members b i;
  invites = λ b i n. h.invites b i;
  proper = λ b n. h.proper b;
  fresh = λ b n l. h.fresh b l;
  known = elim (Bool-cases (ltb a w.next_party)) [
    | inl below ↦ ltb→lt a w.next_party below
    | inr above ↦ absurd (cc (sym e ∙ h.fresh a (ltb-false a w.next_party above)))
  ];
}

set_party_other :
    (a b : ℕ) (o : Option Party) (m : ℕ → Option Party) → (b == a) ≡ false → set_party a o m b ≡ m b
set_party_other a b o m n = ground (arith, n)

set_party_self : (a : ℕ) (o : Option Party) (m : ℕ → Option Party) → set_party a o m a ≡ o
set_party_self a o m = ground arith

pub change-Apart :
    (a : ℕ) (o : Option Party) (ps : Players) (w : World)
    → Apart a w
    → SameBut a w.players ps
    → Apart a (record w { players = ps; parties = set_party a o w.parties })
change-Apart a o ps w h s = record {
  members = λ b i n.
      s.members b i n ∙ h.members b i n ∙ ap (inside i) (sym (set_party_other a b o w.parties n));
  invites = λ b i n.
      s.invites b i n ∙ h.invites b i n ∙ ap (invited i) (sym (set_party_other a b o w.parties n));
  proper = λ b n. subst Proper (sym (set_party_other a b o w.parties n)) (h.proper b n);
  fresh = λ b n l. set_party_other a b o w.parties n ∙ h.fresh b n l;
  known = h.known;
}

-- The agreement about the one party makes the whole world agree.
pub Apart-Consistent :
    (a : ℕ) (w : World)
    → Apart a w
    → ((i : ℕ) → is_of (w.players i).party a ≡ inside i (w.parties a))
    → ((i : ℕ) → has a (w.players i).invitations ≡ invited i (w.parties a))
    → Proper (w.parties a)
    → Consistent w
Apart-Consistent a w h m v p = record {
  members = λ b i. elim (Bool-cases (b == a)) [
    | inl e ↦
        subst (λ c. is_of (w.players i).party c ≡ inside i (w.parties c)) (sym ((==_iff b a).0 e))
          (m i)
    | inr n ↦ h.members b i n
  ];
  invites = λ b i. elim (Bool-cases (b == a)) [
    | inl e ↦
        subst (λ c. has c (w.players i).invitations ≡ invited i (w.parties c))
          (sym ((==_iff b a).0 e)) (v i)
    | inr n ↦ h.invites b i n
  ];
  proper = λ b. elim (Bool-cases (b == a)) [
    | inl e ↦ subst (λ c. Proper (w.parties c)) (sym ((==_iff b a).0 e)) p
    | inr n ↦ h.proper b n
  ];
  fresh = λ b l. elim (Bool-cases (b == a)) [
    | inl e ↦ absurd (omega (arith, l, h.known, (==_iff b a).0 e))
    | inr n ↦ h.fresh b n l
  ];
}

pub put-Consistent :
    (a : ℕ) (p : Party) (ps : Players) (w : World)
    → Apart a w
    → SameBut a w.players ps
    → ((i : ℕ) → is_of (ps i).party a ≡ inside i (some p))
    → ((i : ℕ) → has a (ps i).invitations ≡ has i p.invite_list)
    → ProperParty p
    → Consistent (put a p ps w)
put-Consistent a p ps w h s m v r =
    let e : set_party a (some p) w.parties a ≡ some p = set_party_self a (some p) w.parties in
    Apart-Consistent a (put a p ps w) (change-Apart a (some p) ps w h s)
      (λ i. m i ∙ ap (inside i) (sym e)) (λ i. v i ∙ ap (invited i) (sym e))
      (subst Proper (sym e) r)

cleared_other :
    (t : Bool) (x : Option ℕ) (a b : ℕ)
    → (b == a) ≡ false
    → (t ≡ true → (is_of x a ≡ true) ⊎ (x ≡ none))
    → is_of (if t then none else x) b ≡ is_of x b
cleared_other true none a b n c = refl
cleared_other true (some k) a b n c = ground (arith, ==_iff k a, ==_iff k b)
cleared_other false x a b n c = refl

cleared_self :
    (t : Bool) (x : Option ℕ) (a : ℕ)
    → (is_of x a ≡ true → t ≡ true)
    → is_of (if t then none else x) a ≡ false
cleared_self true x a c = refl
cleared_self false x a c = ground (arith, c)

forgotten_other : (u v : Bool) (a b : ℕ) → (b == a) ≡ false → (u && not (v && b == a)) ≡ u
forgotten_other u v a b n = ground (arith, n)

forgotten_self : (u v : Bool) (a : ℕ) → (u ≡ true → v ≡ true) → (u && not (v && a == a)) ≡ false
forgotten_self u v a c = ground (arith, c)

-- A party that covers all players that point to it or are invited by it may go.
pub disband-Consistent :
    (g : Setting) (a : ℕ) (p : Party) (w : World)
    → Apart a w
    → g.events.on_disband a ≡ true
    → ((i : ℕ) → is_of (w.players i).party a ≡ true → inside i (some p) ≡ true)
    → ((i : ℕ)
        → inside i (some p) ≡ true
        → (is_of (w.players i).party a ≡ true) ⊎ ((w.players i).party ≡ none))
    → ((i : ℕ) → has a (w.players i).invitations ≡ true → has i p.invite_list ≡ true)
    → Consistent (disband g a p w)
unfolding disband
disband-Consistent g a p w h ok inner covered known = rw (ok) (
    Apart-Consistent a (record w { players = after; parties = set_party a none w.parties })
      (change-Apart a none after w h same)
      (λ i.
        ap (λ o. is_of o a) (disband-party a p w.players i)
        ∙ cleared_self (inside i (some p)) (w.players i).party a (inner i)
        ∙ ap (inside i) gone)
      (λ i.
        disband-has a p w.players i a
        ∙ forgotten_self (has a (w.players i).invitations) (has i p.invite_list) a (known i)
        ∙ ap (invited i) gone)
      (subst Proper gone tt))
  where
    after : Players
    after =
        each put_out p.member_list (each (uninvite a) p.invite_list (put_out p.leader w.players))

    gone : none ≡ set_party a none w.parties a
    gone = sym (set_party_self a none w.parties)

    same : SameBut a w.players after
    same = record {
      members = λ b i n.
          ap (λ o. is_of o b) (disband-party a p w.players i)
          ∙ cleared_other (inside i (some p)) (w.players i).party a b n (covered i);
      invites = λ b i n.
          disband-has a p w.players i b
          ∙ forgotten_other (has b (w.players i).invitations) (has i p.invite_list) a b n;
    }
