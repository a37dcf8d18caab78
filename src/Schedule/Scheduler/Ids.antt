-- ===== src/Schedule/Scheduler/Ids.antt =====
-- src/scheduler.cpp: the ids that `addEvent` generates.
use otx.Prelude.{
  ℕ, zero, suc, ◌+◌, ◌%◌, ◌^◌, ◌≤◌, ◌<◌, ◌≡◌, refl, ap, ap₂, subst, ◌∙◌, ◌⊎◌, inl, inr, false, List,
  [], ◌∷◌, arith, ltb, ltb→lt, Bool-cases, length,
}
use otx.Prelude.Sets.{has, IsDistinct}
use otx.Schedule.Dispatcher.{Task, running}
use otx.Schedule.Scheduler.{next_event_id, insert, add_event, Scheduler}

-- The ids and the state after events without an id are added.
unfoldable pub add_all : List Task → Scheduler → List ℕ × Scheduler
add_all [] s = ([], s)
add_all (t ∷ ts) s =
    let (id, s₁) = add_event (record { event_id = 0; task = t }) s in
    let (ids, s₂) = add_all ts s₁ in (id ∷ ids, s₂)

-- The numbers 1 to 2^32 - 1 in a circle, behind a number.
unfoldable circle : ℕ → ℕ → List ℕ
circle zero l = []
circle (suc n) l = (l % 0xFFFFFFFF + 1) ∷ circle n (l + 1)

circle_apart :
    (n l d : ℕ) → 1 ≤ d → d + n ≤ 0xFFFFFFFF → has (l % 0xFFFFFFFF + 1) (circle n (l + d)) ≡ false
unfolding circle
circle_apart zero l d h k = refl
circle_apart (suc n) l d h k = ground (
  arith,
  subst (λ m. has (l % 0xFFFFFFFF + 1) (circle n m) ≡ false) shift
      (circle_apart n l (d + 1) (omega arith) (omega arith)),
)
  where
    shift : l + (d + 1) ≡ l + d + 1
    shift = omega arith

circle-IsDistinct : (n l : ℕ) → n ≤ 0xFFFFFFFF → IsDistinct (circle n l)
unfolding circle
circle-IsDistinct zero l h = tt
circle-IsDistinct (suc n) l h =
    (circle_apart n l 1 (omega arith) (omega arith), circle-IsDistinct n (l + 1) (omega arith))

circle_nonzero : (n l : ℕ) → has 0 (circle n l) ≡ false
unfolding circle
circle_nonzero zero l = refl
circle_nonzero (suc n) l = ground (arith, circle_nonzero n (l + 1))

circle_mod : (n l m : ℕ) → l % 0xFFFFFFFF ≡ m % 0xFFFFFFFF → circle n l ≡ circle n m
unfolding circle
circle_mod zero l m h = refl
circle_mod (suc n) l m h = ap₂ ◌∷◌ (ap (λ k. k + 1) h) (circle_mod n (l + 1) (m + 1) (omega arith))

next_event_id-circle : (l : ℕ) → l < 2 ^ 32 → next_event_id l ≡ l % 0xFFFFFFFF + 1
next_event_id-circle l h = ground arith

add_all-circle :
    (ts : List Task) (s : Scheduler)
    → s.state ≡ running
    → s.last_event_id < 2 ^ 32
    → (add_all ts s).0 ≡ circle (length ts) s.last_event_id
unfolding add_all add_event circle
add_all-circle [] s r h = refl
add_all-circle (t ∷ ts) s r h =
    let id = next_event_id s.last_event_id in
    let e : id ≡ s.last_event_id % 0xFFFFFFFF + 1 = next_event_id-circle s.last_event_id h in
    let s₁ : Scheduler = record {
      state = running;
      last_event_id = id;
      event_list = record { event_id = id; task = t } ∷ s.event_list;
      event_ids = insert id s.event_ids;
    } in
    rw (r) (
      ap₂ ◌∷◌ e (
        add_all-circle ts s₁ refl (omega (arith, e))
        ∙ circle_mod (length ts) id (s.last_event_id + 1) (omega (arith, e))))

-- Each id is the one behind the last, and the one behind 2^32 - 1 is 1.
unfoldable pub Follows : ℕ → List ℕ → Type 0
Follows last [] = Unit {0}
Follows last (id ∷ ids) =
    ((id ≡ last + 1) × (last < 0xFFFFFFFF) ⊎ (id ≡ 1) × (last ≡ 0xFFFFFFFF)) × Follows id ids

next_event_id-cases :
    (l : ℕ)
    → l < 2 ^ 32
    → (next_event_id l ≡ l + 1) × (l < 0xFFFFFFFF) ⊎ (next_event_id l ≡ 1) × (l ≡ 0xFFFFFFFF)
next_event_id-cases l h = elim (Bool-cases (ltb l 0xFFFFFFFF)) [
  | inl below ↦ inl (ground (arith, below), ltb→lt l 0xFFFFFFFF below)
  | inr top ↦ inr (ground (arith, top, h), ground (arith, top, h))
]

next_event_id-Bounded : (l : ℕ) → next_event_id l < 2 ^ 32
next_event_id-Bounded l = ground arith

add_all-Follows :
    (ts : List Task) (s : Scheduler)
    → s.state ≡ running
    → s.last_event_id < 2 ^ 32
    → Follows s.last_event_id (add_all ts s).0
unfolding add_all add_event Follows
add_all-Follows [] s r h = tt
add_all-Follows (t ∷ ts) s r h =
    let id = next_event_id s.last_event_id in
    let s₁ : Scheduler = record {
      state = running;
      last_event_id = id;
      event_list = record { event_id = id; task = t } ∷ s.event_list;
      event_ids = insert id s.event_ids;
    } in
    rw (r) (
      next_event_id-cases s.last_event_id h,
      add_all-Follows ts s₁ refl (next_event_id-Bounded s.last_event_id),
    )

-- A running scheduler gives events that come without an id different ids, none of them 0, as long
-- as fewer than 2^32 are added; each is the one behind the last, and behind 2^32 - 1 it starts again
-- at 1.
pub add_all-IsDistinct :
    (ts : List Task) (s : Scheduler)
    → s.state ≡ running
    → s.last_event_id < 2 ^ 32
    → length ts < 2 ^ 32
    → IsDistinct (add_all ts s).0
      × ((has 0 (add_all ts s).0 ≡ false) × Follows s.last_event_id (add_all ts s).0)
add_all-IsDistinct ts s r h k = (
  rw (add_all-circle ts s r h) (circle-IsDistinct (length ts) s.last_event_id (omega arith)),
  (
    rw (add_all-circle ts s r h) (circle_nonzero (length ts) s.last_event_id),
    add_all-Follows ts s r h,
  ),
)
