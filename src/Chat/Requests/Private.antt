-- ===== src/Chat/Requests/Private.antt =====
-- What keeps the private channels private: their users invited, their ids in their range, and for
-- each an owner of its own.

use otx.Prelude.{
  ℕ, ◌≤◌, ◌<◌, ◌≡◌, refl, ap, ◌≢◌, inl, inr, true, false, ◌||◌, none, some, List, [], ◌∷◌, arith,
  ltb, ◌==◌, Bool-cases, if-both, if-cases, All,
}
use otx.Prelude.Sets.{has, IsDistinct}
use otx.Chat.Maps.{
  find, emplace, erase, adjust, emplace-All, erase-All, adjust-All, adjust_found-All,
}
use otx.Chat.Channel.{is_invited, remove_invite, add_user, Player, PrivateChatChannel, Scripts}
use otx.Chat.Rooms.{in_private, get_private_channel, new_private_channel}
use otx.Chat.Requests.{stripped, leave_private_channels}
use otx.Chat.Requests.Entries.{
  IsOpen, IsInjective, stripped-IsOpen, add_user-IsOpen, new_private_channel-IsOpen,
}

abbrev pub owners : List (ℕ × PrivateChatChannel) → List ℕ
owners [] = []
owners ((k, c) ∷ m) = c.owner ∷ owners m

abbrev pub InRange : ℕ × PrivateChatChannel → Type 0
InRange (k, c) = (100 ≤ k) × (k < 10000)

pub record IsPrivate (guid_of : ℕ → ℕ) (m : List (ℕ × PrivateChatChannel)) : Type 0 where
  pub open_to : All (IsOpen guid_of) m
  pub in_range : All InRange m
  pub one_each : IsDistinct (owners m)

owners-adjust :
    (k : ℕ) (f : PrivateChatChannel → PrivateChatChannel) (m : List (ℕ × PrivateChatChannel))
    → ((c : PrivateChatChannel) → (f c).owner ≡ c.owner)
    → owners (adjust k f m) ≡ owners m
unfolding adjust
owners-adjust k f [] h = refl
owners-adjust k f ((j, c) ∷ m) h = elim (Bool-cases (k == j)) [
  | inl e ↦ rw (e) (ap (λ o. o ∷ owners m) (h c))
  | inr e ↦ rw (e) (ap (◌∷◌ c.owner) (owners-adjust k f m h))
]

has-owners-emplace :
    (o k : ℕ) (c : PrivateChatChannel) (m : List (ℕ × PrivateChatChannel))
    → (o == c.owner) ≡ false
    → has o (owners m) ≡ false
    → has o (owners (emplace k c m)) ≡ false
unfolding emplace
has-owners-emplace o k c [] a h = ground (arith, a)
has-owners-emplace o k c ((j, d) ∷ m) a h = ground (arith, has-owners-emplace o k c m, a, h)

emplace-one_each :
    (k : ℕ) (c : PrivateChatChannel) (m : List (ℕ × PrivateChatChannel))
    → has c.owner (owners m) ≡ false
    → IsDistinct (owners m)
    → IsDistinct (owners (emplace k c m))
unfolding emplace
emplace-one_each k c [] f d = (refl, tt)
emplace-one_each k c ((j, b) ∷ m) f d =
    if-both (λ n. IsDistinct (owners n)) (ltb k j) _ _ (f, d)
      (if-both (λ n. IsDistinct (owners n)) (k == j) _ _ d
        (has-owners-emplace b.owner k c m other d.0, emplace-one_each k c m rest d.1))
  where
    rest : has c.owner (owners m) ≡ false
    rest = ground (arith, f)

    other : (b.owner == c.owner) ≡ false
    other = ground (arith, f)

has-owners-erase :
    (o k : ℕ) (m : List (ℕ × PrivateChatChannel))
    → has o (owners m) ≡ false
    → has o (owners (erase k m)) ≡ false
unfolding erase
has-owners-erase o k [] h = h
has-owners-erase o k ((j, c) ∷ m) h = ground (arith, has-owners-erase o k m, h)

erase-one_each :
    (k : ℕ) (m : List (ℕ × PrivateChatChannel))
    → IsDistinct (owners m)
    → IsDistinct (owners (erase k m))
unfolding erase
erase-one_each k [] d = d
erase-one_each k ((j, c) ∷ m) d =
    if-both (λ n. IsDistinct (owners n)) (k == j) _ _ (erase-one_each k m d.1)
      (has-owners-erase c.owner k m d.0, erase-one_each k m d.1)

has-owners-leave :
    (o : ℕ) (p : Player) (m : List (ℕ × PrivateChatChannel))
    → has o (owners m) ≡ false
    → has o (owners (leave_private_channels p m)) ≡ false
unfolding leave_private_channels remove_invite
has-owners-leave o p [] h = h
has-owners-leave o p ((j, c) ∷ m) h = ground (arith, has-owners-leave o p m, h)

leave-one_each :
    (p : Player) (m : List (ℕ × PrivateChatChannel))
    → IsDistinct (owners m)
    → IsDistinct (owners (leave_private_channels p m))
unfolding leave_private_channels remove_invite
leave-one_each p [] d = d
leave-one_each p ((j, c) ∷ m) d =
    if-both (λ n. IsDistinct (owners n)) (c.owner == p.guid) _ _ (leave-one_each p m d.1)
      (has-owners-leave c.owner p m d.0, leave-one_each p m d.1)

leave-All :
    (P : ℕ × PrivateChatChannel → Type 0) (p : Player) (m : List (ℕ × PrivateChatChannel))
    → ((j : ℕ) (c : PrivateChatChannel) → P (j, c) → P (j, stripped p c))
    → All P m
    → All P (leave_private_channels p m)
unfolding leave_private_channels
leave-All P p [] h t = t
leave-All P p ((j, c) ∷ m) h t =
    if-both (All P) (c.owner == p.guid) _ _ (leave-All P p m h t.1)
      (h j c t.0, leave-All P p m h t.1)

module _ (guid_of : ℕ → ℕ) where
  pub adjust-IsPrivate :
      (k : ℕ) (f : PrivateChatChannel → PrivateChatChannel) (m : List (ℕ × PrivateChatChannel))
      → ((j : ℕ) (c : PrivateChatChannel) → IsOpen guid_of (j, c) → IsOpen guid_of (j, f c))
      → ((c : PrivateChatChannel) → (f c).owner ≡ c.owner)
      → IsPrivate guid_of m
      → IsPrivate guid_of (adjust k f m)
  adjust-IsPrivate k f m h o t = record {
    open_to = adjust-All (IsOpen guid_of) k f m h t.open_to;
    in_range = adjust-All InRange k f m (λ j c r. r) t.in_range;
    one_each = rw (owners-adjust k f m o) t.one_each;
  }

  -- A player that is invited joins.
  pub joined-IsPrivate :
      (s : Scripts) (k : ℕ) (p : Player) (c : PrivateChatChannel)
      (m : List (ℕ × PrivateChatChannel))
      → p.guid ≡ guid_of p.id
      → find k m ≡ some c
      → is_invited p.guid c ≡ true
      → IsPrivate guid_of m
      → IsPrivate guid_of (adjust k (in_private (λ d. (add_user s p d).1)) m)
  joined-IsPrivate s k p c m known e inv t = record {
    open_to =
        adjust_found-All (IsOpen guid_of) k _ c m e (add_user-IsOpen guid_of s k p c known inv)
          t.open_to;
    in_range = adjust-All InRange k _ m (λ j d r. r) t.in_range;
    one_each = rw (owners-adjust k (in_private (λ d. (add_user s p d).1)) m (λ d. refl)) t.one_each;
  }

  pub emplace-IsPrivate :
      (k g : ℕ) (m : List (ℕ × PrivateChatChannel))
      → 100 ≤ k
      → k < 10000
      → has g (owners m) ≡ false
      → IsPrivate guid_of m
      → IsPrivate guid_of (emplace k (new_private_channel k g) m)
  emplace-IsPrivate k g m a b f t = record {
    open_to = emplace-All (IsOpen guid_of) k _ m (new_private_channel-IsOpen guid_of k g) t.open_to;
    in_range = emplace-All InRange k _ m (a, b) t.in_range;
    one_each = emplace-one_each k (new_private_channel k g) m f t.one_each;
  }

  pub erase-IsPrivate :
      (k : ℕ) (m : List (ℕ × PrivateChatChannel))
      → IsPrivate guid_of m
      → IsPrivate guid_of (erase k m)
  erase-IsPrivate k m t = record {
    open_to = erase-All (IsOpen guid_of) k m t.open_to;
    in_range = erase-All InRange k m t.in_range;
    one_each = erase-one_each k m t.one_each;
  }

  pub leave-IsPrivate :
      (p : Player) (m : List (ℕ × PrivateChatChannel))
      → IsInjective guid_of
      → p.guid ≡ guid_of p.id
      → IsPrivate guid_of m
      → IsPrivate guid_of (leave_private_channels p m)
  leave-IsPrivate p m inj known t = record {
    open_to =
        leave-All (IsOpen guid_of) p m (λ j c. stripped-IsOpen guid_of j p c inj known) t.open_to;
    in_range = leave-All InRange p m (λ j c r. r) t.in_range;
    one_each = leave-one_each p m t.one_each;
  }

pub get_private_channel-none :
    (g : ℕ) (m : List (ℕ × PrivateChatChannel))
    → get_private_channel g m ≡ none
    → has g (owners m) ≡ false
unfolding get_private_channel
get_private_channel-none g [] h = refl
get_private_channel-none g ((k, c) ∷ m) h =
    if-cases (λ o. o ≡ none → has g (owners ((k, c) ∷ m)) ≡ false) (c.owner == g) (some k)
      (get_private_channel g m) (λ _ q. absurd (some_none q))
      (λ e q. both e (get_private_channel-none g m q)) h
  where
    some_none : some k ≢ none
    some_none q = cc

    both :
        (c.owner == g) ≡ false
        → has g (owners m) ≡ false
        → (g == c.owner || has g (owners m)) ≡ false
    both e f = ground (arith, e, f)
