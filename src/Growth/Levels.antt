-- ===== src/Growth/Levels.antt =====
-- Experience gained and lost keeps a player's level the one that its experience stands for, and what
-- is gained and lost again leaves no trace in the level and what it brings.
use otx.Prelude.{
  ℕ, ◌+◌, ◌-◌, ◌%◌, ◌≤◌, ◌<◌, ◌≡◌, refl, sym, subst, ◌∙◌, ◌≢◌, Bool, true, false, ◌||◌, arith, ltb,
  leb, ◌==◌, if◌then◌else◌, ltb→lt, lt→ltb, leb→le, ==_iff, if-both, if-cases,
}
use otx.Growth.{
  get_exp_for_level, get_percent_level, climb, refilled, with_percent, add_experience,
  less_experience, remove_experience, Vocation, Player, Climb,
}
use otx.Growth.Table.{exp_lt, exp_le, exp_top}
use otx.Growth.Rounds.{
  climb-HasClimbed, descend-IsFit, descend-IsRaised, IsRaised, IsAt, HasClimbed, IsFit, IsAbove,
  HasRoom,
}

-- The last steps change neither the level nor what it goes by.
finished :
    (v : Vocation) (l a b n : ℕ) (p q : Player)
    → IsRaised v n p q
    → IsRaised v n p (with_percent a b (refilled l q))
unfolding with_percent refilled
finished v l a b n p q h =
    if-both
      (λ r. IsRaised v n p (record r {
        level_percent = if ltb a b then get_percent_level (r.experience - a) (b - a) else 0;
      }))
      (q.level == l) q _ (same q h) (same _ (same_levels h))
  where
    same :
        (r : Player)
        → IsRaised v n p r
        → IsRaised v n p (record r {
          level_percent = if ltb a b then get_percent_level (r.experience - a) (b - a) else 0;
        })
    same r k = record {
      level_up = k.level_up;
      same_experience = k.same_experience;
      more_health = k.more_health;
      more_mana = k.more_mana;
      more_capacity = k.more_capacity;
    }

    same_levels :
        IsRaised v n p q → IsRaised v n p (record q { health = q.health_max; mana = q.mana_max })
    same_levels k = record {
      level_up = k.level_up;
      same_experience = k.same_experience;
      more_health = k.more_health;
      more_mana = k.more_mana;
      more_capacity = k.more_capacity;
    }

finished-IsFit : (l a b : ℕ) (q : Player) → IsFit q → IsFit (with_percent a b (refilled l q))
unfolding with_percent refilled
finished-IsFit l a b q h =
    if-both
      (λ r. IsFit (record r {
        level_percent = if ltb a b then get_percent_level (r.experience - a) (b - a) else 0;
      }))
      (q.level == l) q _ (same q h)
      (same (record q { health = q.health_max; mana = q.mana_max })
        (record { first = h.first; last = h.last; reached = h.reached; under = h.under }))
  where
    same :
        (r : Player)
        → IsFit r
        → IsFit (record r {
          level_percent = if ltb a b then get_percent_level (r.experience - a) (b - a) else 0;
        })
    same r k = record { first = k.first; last = k.last; reached = k.reached; under = k.under }

-- What is gained: how many levels, and to which.
record HasGained (v : Vocation) (n e : ℕ) (p q : Player) : Type 0 where
  levels : IsRaised v n (record p { experience = p.experience + e }) q
  fit : IsFit q

gained :
    (script : ℕ → ℕ) (exp : ℕ) (v : Vocation) (p : Player)
    → IsFit p
    → p.experience + script exp < get_exp_for_level 700001
    → (n : ℕ) × HasGained v n (script exp) p (add_experience script exp v p)
unfolding add_experience
gained script exp v p h x =
    if-cases Gains (leb (get_exp_for_level (p.level + 1)) (get_exp_for_level p.level)) _ _
      (λ e. absurd (no_top e))
      (λ _.
        if-cases Gains (script exp == 0) p _ (λ e. (0, nothing ((==_iff (script exp) 0).0 e)))
          (λ _. climbed (
            climb-HasClimbed 700000 v start start-IsAt (omega arith)
              (subst (λ y. y < get_exp_for_level 700001) (sym no_wrap) x))))
  where
    Gains : Player → Type 0
    Gains q = (n : ℕ) × HasGained v n (script exp) p q

    no_top : leb (get_exp_for_level (p.level + 1)) (get_exp_for_level p.level) ≡ true → ⊥
    no_top e = omega (
      arith,
      leb→le _ _ e,
      exp_lt p.level (p.level + 1) h.first (omega arith) (omega (arith, h.last)),
    )

    no_wrap : (p.experience + script exp) % 18446744073709551616 ≡ p.experience + script exp
    no_wrap = omega (arith, x, exp_top)

    richer : Player
    richer = record p { experience = (p.experience + script exp) % 18446744073709551616 }

    start : Climb
    start = record {
      player = richer;
      curr_level_exp = get_exp_for_level p.level;
      next_level_exp = get_exp_for_level (p.level + 1);
    }

    start-IsAt : IsAt start
    start-IsAt = record {
      curr_of = refl;
      next_of = refl;
      reached = omega (arith, h.reached, no_wrap);
      first = h.first;
      last = h.last;
    }

    nothing : script exp ≡ 0 → HasGained v 0 (script exp) p p
    nothing e = record {
      levels = record {
        level_up = omega arith;
        same_experience = omega (arith, e);
        more_health = λ _. omega arith;
        more_mana = λ _. omega arith;
        more_capacity = λ _. omega arith;
      };
      fit = h;
    }

    end : Climb
    end = climb 700000 v start

    climbed :
        (n : ℕ) × HasClimbed v n start end
        → Gains (with_percent end.curr_level_exp end.next_level_exp (refilled p.level end.player))
    climbed (n, c) = (
      n,
      record {
        levels =
            subst
              (λ y.
                IsRaised v n (record p { experience = y })
                  (with_percent end.curr_level_exp end.next_level_exp
                    (refilled p.level end.player)))
              no_wrap
              (finished v p.level end.curr_level_exp end.next_level_exp n richer end.player
                c.raised);
        fit = finished-IsFit p.level end.curr_level_exp end.next_level_exp end.player (record {
          first = c.at.first;
          last = c.at.last;
          reached = omega (arith, c.at.reached, c.at.curr_of);
          under = omega (arith, c.under, c.at.next_of);
        });
      },
    )

less_lem : (x e : ℕ) → x < 9223372036854775808 → e ≤ x → less_experience x e ≡ x - e
unfolding less_experience
less_lem x e h k = rw (small) (if_true (lt→ltb (x - e) 9223372036854775808 (omega (arith, h))))
  where
    small : (x + (18446744073709551616 - e)) % 18446744073709551616 ≡ x - e
    small = omega (arith, h, k)

    if_true : {b : Bool} → b ≡ true → (if b then x - e else 0) ≡ x - e
    if_true q = rw (q) refl

less_below : (x e : ℕ) → x < 9223372036854775808 → e ≤ 9223372036854775808 → less_experience x e ≤ x
unfolding less_experience
less_below x e h k =
    if-cases (λ y. y ≤ x)
      (ltb ((x + (18446744073709551616 - e)) % 18446744073709551616) 9223372036854775808) _ 0
      (λ q. omega (arith, ltb→lt _ 9223372036854775808 q, h, k)) (λ _. omega arith)

lost :
    (script : ℕ → ℕ) (exp : ℕ) (v : Vocation) (p : Player)
    → IsFit p
    → script exp ≤ 9223372036854775808
    → IsFit (remove_experience script exp v p)
unfolding remove_experience
lost script exp v p h k = if-both IsFit (p.experience == 0 || exp == 0) p _ h (
    if-both IsFit (script exp == 0) p _ h
      (finished-IsFit p.level _ _ _ (descend-IsFit p.level v poorer above (omega arith)).0))
  where
    poorer : Player
    poorer = record p { experience = less_experience p.experience (script exp) }

    bounded : p.experience < 9223372036854775808
    bounded = omega (
      arith,
      h.under,
      exp_top,
      exp_le (p.level + 1) 700001 (omega arith) (omega (arith, h.last)) (omega arith),
    )

    above : IsAbove poorer
    above = record {
      first = h.first;
      last = h.last;
      under = omega (arith, h.under, less_below p.experience (script exp) bounded k);
    }

-- For a player of a level up to 700000 whose experience is between the level's bounds, and an amount
-- with which it stays under that of level 700001: gaining the amount adds it and leaves the player
-- at the level whose bounds its new experience is between, and so does losing it.
pub experience-IsFit :
    (script : ℕ → ℕ) (exp : ℕ) (v : Vocation) (p : Player)
    → IsFit p
    → p.experience + script exp < get_exp_for_level 700001
    → (IsFit (add_experience script exp v p)
        × ((add_experience script exp v p).experience ≡ p.experience + script exp))
      × IsFit (remove_experience script exp v p)
experience-IsFit script exp v p h x =
    (kept (gained script exp v p h x), lost script exp v p h (omega (arith, x, exp_top)))
  where
    kept :
        (n : ℕ) × HasGained v n (script exp) p (add_experience script exp v p)
        → IsFit (add_experience script exp v p)
          × ((add_experience script exp v p).experience ≡ p.experience + script exp)
    kept (n, g) = (g.fit, g.levels.same_experience)

undone :
    (exp : ℕ) (v : Vocation) (n : ℕ) (p q : Player)
    → IsFit p
    → HasRoom v n p
    → exp ≢ 0
    → p.experience + exp < get_exp_for_level 700001
    → HasGained v n exp p q
    → IsRaised v 0 p (remove_experience (λ e. e) exp v q)
unfolding remove_experience
undone exp v n p q h o z x g =
    if-cases (IsRaised v 0 p) (q.experience == 0 || exp == 0) q _ (λ e. absurd (nothing_lost e))
      (λ _.
        if-cases (IsRaised v 0 p) (exp == 0) q _ (λ e. absurd (z ((==_iff exp 0).0 e)))
          (λ _. finished v q.level _ _ 0 p _ (
            descend-IsRaised n q.level v p poorer h o raised
              (omega (arith, g.fit.last, g.levels.level_up)) (omega (arith, g.levels.level_up)))))
  where
    poorer : Player
    poorer = record q { experience = less_experience q.experience exp }

    raised : IsRaised v n p poorer
    raised = record {
      level_up = g.levels.level_up;
      same_experience =
          less_lem q.experience exp (omega (arith, g.levels.same_experience, x, exp_top))
            (omega (arith, g.levels.same_experience))
          ∙ omega (arith, g.levels.same_experience);
      more_health = g.levels.more_health;
      more_mana = g.levels.more_mana;
      more_capacity = g.levels.more_capacity;
    }

    nothing_lost : (q.experience == 0 || exp == 0) ≡ true → ⊥
    nothing_lost e = either (q.experience == 0) (exp == 0) rich some_exp e
      where
        rich : (q.experience == 0) ≡ false
        rich = ground (arith, g.levels.same_experience, z)

        some_exp : (exp == 0) ≡ false
        some_exp = ground (arith, z)

        either : (a b : Bool) → a ≡ false → b ≡ false → (a || b) ≡ true → ⊥
        either a b k l m = cc

-- A player of a level up to 700000 whose experience is between the level's bounds, that gains an
-- amount, not zero and staying under the experience of level 700001, with levels whose health, mana
-- and capacity keep the greatest ones under 2^31, and loses the same amount, no script changing it,
-- has its old level, experience, greatest health and mana, and capacity.
pub remove_experience-add_experience :
    (exp : ℕ) (v : Vocation) (p : Player)
    → IsFit p
    → HasRoom v ((add_experience (λ e. e) exp v p).level - p.level) p
    → exp ≢ 0
    → p.experience + exp < get_exp_for_level 700001
    → let q = remove_experience (λ e. e) exp v (add_experience (λ e. e) exp v p) in
      (q.level ≡ p.level)
      × ((q.experience ≡ p.experience)
          × ((q.health_max ≡ p.health_max)
              × ((q.mana_max ≡ p.mana_max) × (q.capacity ≡ p.capacity))))
remove_experience-add_experience exp v p h o z x = fields (raised (gained (λ e. e) exp v p h x))
  where
    q : Player
    q = remove_experience (λ e. e) exp v (add_experience (λ e. e) exp v p)

    raised : (n : ℕ) × HasGained v n exp p (add_experience (λ e. e) exp v p) → IsRaised v 0 p q
    raised (n, g) =
        undone exp v n p (add_experience (λ e. e) exp v p) h
          (subst (λ k. HasRoom v k p) (omega (arith, g.levels.level_up)) o) z x g

    fields :
        IsRaised v 0 p q
        → (q.level ≡ p.level)
          × ((q.experience ≡ p.experience)
              × ((q.health_max ≡ p.health_max)
                  × ((q.mana_max ≡ p.mana_max) × (q.capacity ≡ p.capacity))))
    fields r = (
      omega (arith, r.level_up),
      (
        r.same_experience,
        (
          omega (arith, r.more_health (omega (arith, o.health))),
          (
            omega (arith, r.more_mana (omega (arith, o.mana))),
            omega (arith, r.more_capacity (omega (arith, o.capacity))),
          ),
        ),
      ),
    )
