-- ===== src/Chat/Requests/Slots.antt =====
-- The id that a new private channel gets: the least free one from 100 on, which there is as long as
-- there are fewer than 9900 private channels.

use otx.Prelude.{
  ℕ, zero, suc, ◌+◌, ◌≤◌, ◌<◌, ◌≡◌, refl, sym, ap, subst, ◌∙◌, ◌≢◌, inl, inr, true, false, ◌||◌,
  Option, none, some, List, [], ◌∷◌, arith, ◌==◌, if◌then◌else◌, ==_iff, Bool-cases, if-cases,
  Option-both, length,
}
use otx.Prelude.Sets.{has, remove, has-remove_ne}
use otx.Chat.Maps.{keys}
use otx.Chat.Channel.{Player, PrivateChatChannel}
use otx.Chat.Rooms.{
  get_private_channel, free_slot, create_private_channel, Chat, Place, private_channel,
}

pub free_slot-some :
    (n i j : ℕ) (ks : List ℕ)
    → free_slot n i ks ≡ some j
    → (i ≤ j) × ((j < i + n) × ((has j ks ≡ false) × ((l : ℕ) → i ≤ l → l < j → has l ks ≡ true)))
unfolding free_slot
free_slot-some zero i j ks h = cc
free_slot-some (suc n) i j ks h = elim (Bool-cases (has i ks)) [
  | inl e ↦ later e (
      free_slot-some n (i + 1) j ks
        (subst (λ b. (if b then free_slot n (i + 1) ks else some i) ≡ some j) e h))
  | inr e ↦
      first e (same_id (subst (λ b. (if b then free_slot n (i + 1) ks else some i) ≡ some j) e h))
]
  where
    Found : Type 0
    Found =
        (i ≤ j)
        × ((j < i + suc n) × ((has j ks ≡ false) × ((l : ℕ) → i ≤ l → l < j → has l ks ≡ true)))

    same_id : some i ≡ some j → i ≡ j
    same_id q = cc

    first : has i ks ≡ false → i ≡ j → Found
    first e q = (
      omega (arith, q),
      (
        omega (arith, q),
        (subst (λ l. has l ks ≡ false) q e, λ l a b. absurd (omega (arith, a, b, q))),
      ),
    )

    later :
        has i ks ≡ true
        → (i + 1 ≤ j)
          × ((j < i + 1 + n)
              × ((has j ks ≡ false) × ((l : ℕ) → i + 1 ≤ l → l < j → has l ks ≡ true)))
        → Found
    later e (a, (b, (c, d))) = (omega (arith, a), (omega (arith, b), (c, below)))
      where
        below : (l : ℕ) → i ≤ l → l < j → has l ks ≡ true
        below l u v = elim (Bool-cases (i == l)) [
          | inl q ↦ subst (λ k. has k ks ≡ true) ((==_iff i l).0 q) e
          | inr q ↦ d l (next u q) v
        ]
          where
            next : i ≤ l → (i == l) ≡ false → i + 1 ≤ l
            next u q = ground (arith, u, q)

length-remove : (i : ℕ) (ks : List ℕ) → has i ks ≡ true → suc (length (remove i ks)) ≡ length ks
length-remove i [] h = cc
length-remove i (k ∷ ks) h = elim (Bool-cases (i == k)) [
  | inl e ↦ rw (e) refl
  | inr e ↦ rw (e) (ap suc (length-remove i ks (subst (λ b. (b || has i ks) ≡ true) e h)))
]

-- As many keys as taken ids in a row.
taken_few :
    (n i : ℕ) (ks : List ℕ) → ((l : ℕ) → i ≤ l → l < i + n → has l ks ≡ true) → n ≤ length ks
taken_few zero i ks h = omega arith
taken_few (suc n) i ks h = omega (
  arith,
  taken_few n (i + 1) (remove i ks) others,
  length-remove i ks (h i (omega arith) (omega arith)),
)
  where
    others : (l : ℕ) → i + 1 ≤ l → l < i + 1 + n → has l (remove i ks) ≡ true
    others l a b = has-remove_ne l i ks apart ∙ h l (omega (arith, a)) (omega (arith, b))
      where
        apart : (l == i) ≡ false
        apart = ground (arith, a)

all_taken :
    (n i : ℕ) (ks : List ℕ)
    → free_slot n i ks ≡ none
    → (l : ℕ) → i ≤ l
    → l < i + n
    → has l ks ≡ true
unfolding free_slot
all_taken zero i ks h l a b = absurd (omega (arith, a, b))
all_taken (suc n) i ks h l a b = elim (Bool-cases (has i ks)) [
  | inl e ↦ elim (Bool-cases (i == l)) [
    | inl q ↦ subst (λ k. has k ks ≡ true) ((==_iff i l).0 q) e
    | inr q ↦
        all_taken n (i + 1) ks
          (subst (λ c. (if c then free_slot n (i + 1) ks else some i) ≡ none) e h) l (next q)
          (omega (arith, b))
  ]
  | inr e ↦
      absurd (some_none (subst (λ c. (if c then free_slot n (i + 1) ks else some i) ≡ none) e h))
]
  where
    some_none : some i ≢ none
    some_none q = cc

    next : (i == l) ≡ false → i + 1 ≤ l
    next q = ground (arith, a, q)

pub free_slot-none : (n i : ℕ) (ks : List ℕ) → free_slot n i ks ≡ none → n ≤ length ks
free_slot-none n i ks h = taken_few n i ks (all_taken n i ks h)

length-keys : (m : List (ℕ × PrivateChatChannel)) → length (keys m) ≡ length m
length-keys [] = refl
length-keys ((k, c) ∷ m) = ap suc (length-keys m)

-- A premium player without a private channel gets one while there are fewer than 9900: its id is the
-- least from 100 on, and under 10000, that no private channel has.
pub create_private_channel-Least :
    (p : Player) (chat : Chat)
    → p.is_premium ≡ true
    → get_private_channel p.guid chat.private_channels ≡ none
    → length chat.private_channels < 9900
    → (i : ℕ) × ((create_private_channel p chat).0 ≡ some (private_channel i))
      × ((100 ≤ i)
          × ((i < 10000)
              × ((has i (keys chat.private_channels) ≡ false)
                  × ((l : ℕ) → 100 ≤ l → l < i → has l (keys chat.private_channels) ≡ true))))
unfolding create_private_channel
create_private_channel-Least p chat premium first few =
    Option-both Made (get_private_channel p.guid chat.private_channels) _ _
      (λ _.
        if-cases Made p.is_premium _ _
          (λ _.
            Option-both Made (free_slot 9900 100 (keys chat.private_channels)) (none, chat) _
              (λ e. absurd (full (free_slot-none 9900 100 (keys chat.private_channels) e)))
              (λ i e. (i, refl, free_slot-some 9900 100 i (keys chat.private_channels) e)))
          (λ e. absurd (clash e)))
      (λ k e. absurd (none_some k (sym first ∙ e)))
  where
    Made : Option Place × Chat → Type 0
    Made r =
        (i : ℕ) × (r.0 ≡ some (private_channel i))
        × ((100 ≤ i)
            × ((i < 10000)
                × ((has i (keys chat.private_channels) ≡ false)
                    × ((l : ℕ) → 100 ≤ l → l < i → has l (keys chat.private_channels) ≡ true))))

    full : 9900 ≤ length (keys chat.private_channels) → ⊥
    full h = omega (arith, h, few, length-keys chat.private_channels)

    clash : p.is_premium ≡ false → ⊥
    clash e = cc

    none_some : (k : ℕ) → none ≢ some k
    none_some k q = cc
