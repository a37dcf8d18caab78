-- ===== src/Growth/Rounds.antt =====
-- The loops of `addExperience` and `removeExperience`: where they end, and what their rounds add up
-- to.
use otx.Prelude.{
  ℕ, zero, suc, ◌+◌, ◌-◌, ◌*◌, ◌%◌, ◌≤◌, ◌<◌, ◌≡◌, refl, sym, ap, subst, ◌∙◌, inl, inr, Bool, true,
  false, ◌&&◌, arith, ltb, leb, if◌then◌else◌, ltb→lt, lt→ltb, ltb-false, leb→le, Bool-cases,
  &&-eq-true,
}
use otx.Growth.{
  get_exp_for_level, positive, advance, downgrade, climb, descend, Vocation, Player, Climb,
}
use otx.Growth.Table.{exp_lt, exp_le, exp_first}

-- One player is another after `n` levels more, with what they bring as far as it fits a signed number
-- of 32 bits.
pub record IsRaised (v : Vocation) (n : ℕ) (p q : Player) : Type 0 where
  pub level_up : q.level ≡ p.level + n
  pub same_experience : q.experience ≡ p.experience
  pub more_health :
      p.health_max + n * v.hp_gain < 2147483648 → q.health_max ≡ p.health_max + n * v.hp_gain
  pub more_mana :
      p.mana_max + n * v.mana_gain < 2147483648 → q.mana_max ≡ p.mana_max + n * v.mana_gain
  pub more_capacity :
      p.capacity + n * v.cap_gain < 2147483648 → q.capacity ≡ p.capacity + n * v.cap_gain

-- The state of the first loop is that of its player's level.
pub record IsAt (c : Climb) : Type 0 where
  pub curr_of : c.curr_level_exp ≡ get_exp_for_level c.player.level
  pub next_of : c.next_level_exp ≡ get_exp_for_level (c.player.level + 1)
  pub reached : c.curr_level_exp ≤ c.player.experience
  pub first : 1 ≤ c.player.level
  pub last : c.player.level ≤ 700000

pub IsRaised-self : (v : Vocation) (p : Player) → IsRaised v 0 p p
IsRaised-self v p = record {
  level_up = omega arith;
  same_experience = refl;
  more_health = λ _. omega arith;
  more_mana = λ _. omega arith;
  more_capacity = λ _. omega arith;
}

pub IsRaised-more :
    (v : Vocation) (n : ℕ) (p q : Player) → IsRaised v n (advance v p) q → IsRaised v (suc n) p q
unfolding advance
IsRaised-more v n p q h = record {
  level_up = omega (arith, h.level_up);
  same_experience = h.same_experience;
  more_health = λ b. omega (arith, b, h.more_health (omega (arith, b)));
  more_mana = λ b. omega (arith, b, h.more_mana (omega (arith, b)));
  more_capacity = λ b. omega (arith, b, h.more_capacity (omega (arith, b)));
}

-- What the first loop ends in: the level whose bounds the experience is between.
pub record HasClimbed (v : Vocation) (n : ℕ) (c d : Climb) : Type 0 where
  pub at : IsAt d
  pub under : d.player.experience < d.next_level_exp
  pub raised : IsRaised v n c.player d.player

pub test-both {ℓ κ} :
    {A : Type ℓ} (P : A → Type κ) (b : Bool) (x y : A)
    → (b ≡ false → P x)
    → (b ≡ true → P y)
    → P (elim b [ false ↦ x | true ↦ y ])
test-both P true x y h k = k refl
test-both P false x y h k = h refl

stopped :
    (v : Vocation) (c : Climb)
    → IsAt c
    → c.player.experience < c.next_level_exp
    → (n : ℕ) × HasClimbed v n c c
stopped v c h u = (0, record { at = h; under = u; raised = IsRaised-self v c.player })

over_bound : (a b : ℕ) → leb a b ≡ false → b < a
over_bound a b e = ground (arith, e)

pub climb-HasClimbed :
    (fuel : ℕ) (v : Vocation) (c : Climb)
    → IsAt c
    → 700000 ≤ c.player.level + fuel
    → c.player.experience < get_exp_for_level 700001
    → (n : ℕ) × HasClimbed v n c (climb fuel v c)
unfolding climb advance
climb-HasClimbed zero v c h f x =
    stopped v c h
      (subst (λ e. c.player.experience < e) (ap get_exp_for_level last ∙ sym h.next_of) x)
  where
    last : 700001 ≡ c.player.level + 1
    last = omega (arith, h.last, f)
climb-HasClimbed (suc fuel) v c h f x =
    test-both (λ r. (n : ℕ) × HasClimbed v n c r) (leb c.next_level_exp c.player.experience) c _
      (λ e. stopped v c h (over_bound c.next_level_exp c.player.experience e))
      (λ e.
        round (leb→le c.next_level_exp c.player.experience e)
          (λ a. climb-HasClimbed fuel v up a (omega (arith, f)) x))
  where
    up : Climb
    up = record {
      player = advance v c.player;
      curr_level_exp = c.next_level_exp;
      next_level_exp = get_exp_for_level (c.player.level + 1 + 1);
    }

    room : c.next_level_exp ≤ c.player.experience → c.player.level + 1 ≤ 700000
    room e = elim (Bool-cases (ltb c.player.level 700000)) [
      | inl q ↦ omega (arith, ltb→lt c.player.level 700000 q)
      | inr q ↦ absurd (
          omega (
            arith,
            e,
            x,
            h.next_of,
            ap get_exp_for_level (top (ltb-false c.player.level 700000 q)),
          ))
    ]
      where
        top : 700000 ≤ c.player.level → c.player.level + 1 ≡ 700001
        top q = omega (arith, q, h.last)

    up-IsAt : c.next_level_exp ≤ c.player.experience → IsAt up
    up-IsAt e = record {
      curr_of = h.next_of;
      next_of = refl;
      reached = e;
      first = omega arith;
      last = room e;
    }

    higher :
        c.next_level_exp ≤ c.player.experience
        → (n : ℕ) × HasClimbed v n up (climb fuel v up)
        → (n : ℕ) × HasClimbed v n c (climb fuel v up)
    higher e (n, r) = (
      suc n,
      record { at = r.at; under = r.under; raised = IsRaised-more v n c.player _ r.raised },
    )

    round :
        c.next_level_exp ≤ c.player.experience
        → (IsAt up → (n : ℕ) × HasClimbed v n up (climb fuel v up))
        → (n : ℕ) × HasClimbed v n c
            (elim (leb (get_exp_for_level (c.player.level + 1 + 1)) c.next_level_exp) [
              | false ↦ climb fuel v up
              | true ↦ up
            ])
    round e go =
        test-both (λ r. (n : ℕ) × HasClimbed v n c r)
          (leb (get_exp_for_level (c.player.level + 1 + 1)) c.next_level_exp) _ up
          (λ _. higher e (go (up-IsAt e)))
          (λ q. absurd (
            omega (
              arith,
              leb→le _ c.next_level_exp q,
              h.next_of,
              exp_lt (c.player.level + 1) (c.player.level + 1 + 1) (omega arith) (omega arith)
                  (omega (arith, room e)),
            )))

-- A player whose experience is that of its level.
pub record IsFit (p : Player) : Type 0 where
  pub first : 1 ≤ p.level
  pub last : p.level ≤ 700000
  pub reached : get_exp_for_level p.level ≤ p.experience
  pub under : p.experience < get_exp_for_level (p.level + 1)

-- Where the second loop may start: the experience is under the level's upper bound.
pub record IsAbove (p : Player) : Type 0 where
  pub first : 1 ≤ p.level
  pub last : p.level ≤ 700000
  pub under : p.experience < get_exp_for_level (p.level + 1)

pub descend-IsFit :
    (fuel : ℕ) (v : Vocation) (p : Player)
    → IsAbove p
    → p.level ≤ fuel
    → IsFit (descend fuel v p) × ((descend fuel v p).experience ≡ p.experience)
unfolding descend downgrade
descend-IsFit zero v p h f = absurd (omega (arith, h.first, f))
descend-IsFit (suc fuel) v p h f =
    test-both (λ q. IsFit q × (q.experience ≡ p.experience))
      (ltb 1 p.level && ltb p.experience (get_exp_for_level p.level)) p _
      (λ e. (record { first = h.first; last = h.last; reached = settled e; under = h.under }, refl))
      (λ e. descend-IsFit fuel v (downgrade v p) (lower (&&-eq-true _ _ e)) (omega (arith, f)))
  where
    settled :
        (ltb 1 p.level && ltb p.experience (get_exp_for_level p.level)) ≡ false
        → get_exp_for_level p.level ≤ p.experience
    settled e = elim (Bool-cases (ltb 1 p.level)) [
      | inl q ↦
          ltb-false p.experience (get_exp_for_level p.level)
            (subst (λ b. (b && ltb p.experience (get_exp_for_level p.level)) ≡ false) q e)
      | inr q ↦ omega (arith, exp_first, ap get_exp_for_level (one (ltb-false 1 p.level q)))
    ]
      where
        one : p.level ≤ 1 → p.level ≡ 1
        one q = omega (arith, q, h.first)

    lower :
        (ltb 1 p.level ≡ true) × (ltb p.experience (get_exp_for_level p.level) ≡ true)
        → IsAbove (downgrade v p)
    lower (a, b) = record {
      first = omega (arith, ltb→lt 1 p.level a);
      last = omega (arith, h.last);
      under =
          subst (λ l. p.experience < get_exp_for_level l) (back (ltb→lt 1 p.level a))
            (ltb→lt p.experience (get_exp_for_level p.level) b);
    }
      where
        back : 1 < p.level → p.level ≡ p.level - 1 + 1
        back q = omega (arith, q)

-- What `n` levels bring fits signed numbers of 32 bits.
pub record HasRoom (v : Vocation) (n : ℕ) (p : Player) : Type 0 where
  pub health : p.health_max + n * v.hp_gain < 2147483648
  pub mana : p.mana_max + n * v.mana_gain < 2147483648
  pub capacity : p.capacity + n * v.cap_gain < 2147483648

-- A gain taken back from what fits with it.
taken_back :
    (a n g x : ℕ)
    → a + (n + 1) * g < 2147483648
    → x ≡ a + (n + 1) * g
    → positive ((x + (4294967296 - g)) % 4294967296) ≡ a + n * g
taken_back a n g x b e = rw (less) (if_true (lt→ltb (a + n * g) 2147483648 (omega (arith, b))))
  where
    less : (x + (4294967296 - g)) % 4294967296 ≡ a + n * g
    less = omega (arith, b, e)

    if_true : {c : Bool} → c ≡ true → (if c then a + n * g else 0) ≡ a + n * g
    if_true q = rw (q) refl

-- A player that was raised and has its old experience again comes down to its old level.
pub descend-IsRaised :
    (n fuel : ℕ) (v : Vocation) (p q : Player)
    → IsFit p
    → HasRoom v n p
    → IsRaised v n p q
    → p.level + n ≤ 700000
    → n ≤ fuel
    → IsRaised v 0 p (descend fuel v q)
unfolding descend downgrade
descend-IsRaised zero zero v p q h o r l f = r
descend-IsRaised zero (suc fuel) v p q h o r l f =
    test-both (IsRaised v 0 p) (ltb 1 q.level && ltb q.experience (get_exp_for_level q.level)) q _
      (λ _. r)
      (λ e. absurd (
        omega (
          arith,
          ltb→lt q.experience (get_exp_for_level q.level) (&&-eq-true _ _ e).1,
          h.reached,
          r.same_experience,
          ap get_exp_for_level same_level,
        )))
  where
    same_level : q.level ≡ p.level
    same_level = omega (arith, r.level_up)
descend-IsRaised (suc n) zero v p q h o r l f = absurd (omega (arith, f))
descend-IsRaised (suc n) (suc fuel) v p q h o r l f =
    test-both (IsRaised v 0 p) (ltb 1 q.level && ltb q.experience (get_exp_for_level q.level)) q _
      (λ e. absurd (clash (ltb 1 q.level) _ above short e))
      (λ _.
        descend-IsRaised n fuel v p (downgrade v q) h less_room lower (omega (arith, l))
          (omega (arith, f)))
  where
    clash : (a b : Bool) → a ≡ true → b ≡ true → (a && b) ≡ false → ⊥
    clash a b h k e = cc

    above : ltb 1 q.level ≡ true
    above = lt→ltb 1 q.level (omega (arith, r.level_up, h.first))

    short : ltb q.experience (get_exp_for_level q.level) ≡ true
    short = lt→ltb q.experience _ (
        omega (
          arith,
          r.same_experience,
          h.under,
          exp_le (p.level + 1) q.level (omega arith) (omega (arith, r.level_up))
              (omega (arith, r.level_up, l)),
        ))

    lower : IsRaised v n p (downgrade v q)
    lower = record {
      level_up = omega (arith, r.level_up);
      same_experience = r.same_experience;
      more_health = λ _.
          taken_back p.health_max n v.hp_gain q.health_max (omega (arith, o.health))
            (omega (arith, r.more_health o.health));
      more_mana = λ _.
          taken_back p.mana_max n v.mana_gain q.mana_max (omega (arith, o.mana))
            (omega (arith, r.more_mana o.mana));
      more_capacity = λ _.
          taken_back p.capacity n v.cap_gain q.capacity (omega (arith, o.capacity))
            (omega (arith, r.more_capacity o.capacity));
    }

    less_room : HasRoom v n p
    less_room = record {
      health = omega (arith, o.health);
      mana = omega (arith, o.mana);
      capacity = omega (arith, o.capacity);
    }
