-- ===== src/Party/Experience/Levels.antt =====
-- src/party.cpp: the levels of players that share experience.

use otx.Prelude.Sets.{has}
use otx.Prelude.{
  ℕ, ◌+◌, ◌*◌, ◌/◌, ◌≤◌, ◌<◌, ◌≡◌, refl, sym, subst, inl, inr, true, List, [], ◌∷◌, arith, ltb,
  ◌==◌, if◌then◌else◌, lt→ltb, ltb-false, ==_iff, Bool-cases, &&-eq-true,
}
use otx.Party.{Players, Party, Setting}
use otx.Party.Experience.{
  highest_level, min_level, can_use_shared_experience, all_can_use, can_enable_shared_experience,
}

highest_level-bound :
    (ps : Players) (l : ℕ) (is : List ℕ)
    → (l ≤ highest_level ps l is)
      × ((j : ℕ) → has j is ≡ true → (ps j).level ≤ highest_level ps l is)
highest_level-bound ps l [] = (omega arith, λ j m. absurd (cc (m)))
highest_level-bound ps l (i ∷ is) =
    let k = if ltb l (ps i).level then (ps i).level else l in
    let (base, rest) = highest_level-bound ps k is in
    let above : (l ≤ k) × ((ps i).level ≤ k) = (ground arith, ground arith) in
    (
      omega (arith, base, above.0),
      λ j m. elim (Bool-cases (j == i)) [
        | inl same ↦
            subst (λ n. (ps n).level ≤ highest_level ps k is) (sym ((==_iff j i).0 same))
              (omega (arith, base, above.1))
        | inr other ↦ rest j (ground (arith, m, other))
      ],
    )

min_level-exact : (h : ℕ) → h < 12582912 → min_level h ≡ (h * 2 + 2) / 3
unfolding min_level
min_level-exact h b =
    rw (lt→ltb h 16777216 (omega (arith, b)), lt→ltb (h * 2) 25165824 (omega (arith, b))) refl

can_use-level :
    (g : Setting) (ps : Players) (p : Party) (i : ℕ)
    → highest_level ps (ps p.leader).level p.member_list < 12582912
    → can_use_shared_experience g ps p i ≡ true
    → 2 * highest_level ps (ps p.leader).level p.member_list ≤ 3 * (ps i).level
unfolding can_use_shared_experience
can_use-level g ps p i b h = omega (
  arith,
  min_level-exact highest b,
  ltb-false (ps i).level (min_level highest) (ground (arith, h)),
)
  where
    highest : ℕ
    highest = highest_level ps (ps p.leader).level p.member_list

all_can_use-one :
    (g : Setting) (ps : Players) (p : Party) (is : List ℕ) (j : ℕ)
    → all_can_use g ps p is ≡ true
    → has j is ≡ true
    → can_use_shared_experience g ps p j ≡ true
all_can_use-one g ps p [] j h m = absurd (cc (m))
all_can_use-one g ps p (i ∷ is) j h m = ground (
  arith,
  &&-eq-true (can_use_shared_experience g ps p i) (all_can_use g ps p is) h,
  all_can_use-one g ps p is j,
  m,
  ==_iff j i,
)

-- If a party whose highest level is under 12582912 may share experience, the level of none of its
-- players is below two thirds of the level of any other.
pub can_enable-levels :
    (g : Setting) (ps : Players) (p : Party) (i j : ℕ)
    → highest_level ps (ps p.leader).level p.member_list < 12582912
    → can_enable_shared_experience g ps p ≡ true
    → has i (p.leader ∷ p.member_list) ≡ true
    → has j (p.leader ∷ p.member_list) ≡ true
    → 2 * (ps j).level ≤ 3 * (ps i).level
unfolding can_enable_shared_experience
can_enable-levels g ps p i j b h m n = omega (arith, can_use-level g ps p i b usable, reaches)
  where
    usable : can_use_shared_experience g ps p i ≡ true
    usable = ground (arith, h, m, all_can_use-one g ps p p.member_list i, ==_iff i p.leader)

    reaches : (ps j).level ≤ highest_level ps (ps p.leader).level p.member_list
    reaches =
        let (base, rest) = highest_level-bound ps (ps p.leader).level p.member_list in
        elim (Bool-cases (j == p.leader)) [
          | inl same ↦
              subst (λ k. (ps k).level ≤ highest_level ps (ps p.leader).level p.member_list)
                (sym ((==_iff j p.leader).0 same)) base
          | inr other ↦ rest j (ground (arith, n, other))
        ]
