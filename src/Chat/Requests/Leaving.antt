-- ===== src/Chat/Requests/Leaving.antt =====
-- A player that logs out is in no channel any more; who hears what is said in a private channel; and
-- the id that a new private channel gets.

use otx.Prelude.{
  ℕ, ◌≡◌, refl, sym, ap, subst, ◌∙◌, ◌≢◌, Bool, true, false, not, ◌&&◌, Option, none, some, List,
  [], ◌∷◌, ◌==◌, ==_iff, ==_refl, if-cases, Option-both, All,
}
use otx.Prelude.Sets.{has}
use otx.Chat.Maps.{find, has-erase_id}
use otx.Chat.Channel.{
  is_invited, remove_invite, talk, has-remove_user, Player, ChatChannel, PrivateChatChannel,
  Scripts,
}
use otx.Chat.Rooms.{get_channel, channel_at, Chat, Place, private_channel}
use otx.Chat.Requests.{
  remove_user_from_each, leave_private_channels, remove_user_from_all_channels, talk_type,
  talk_to_channel,
}
use otx.Chat.Requests.Entries.{IsOpen}
use otx.Chat.Requests.Private.{IsPrivate}

abbrev pub IsWithout : Player → ℕ × ChatChannel → Type 0
IsWithout p (k, c) = has p.id c.users ≡ false

-- A private channel that a player has nothing to do with.
abbrev pub IsForeign : Player → ℕ × PrivateChatChannel → Type 0
IsForeign p (k, c) =
    (has p.id c.channel.users ≡ false)
    × ((has p.guid c.invites ≡ false) × ((c.owner == p.guid) ≡ false))

not_self : (i : ℕ) (b : Bool) → (not (i == i) && b) ≡ false
not_self i b = rw (==_refl i) refl

remove_user_from_each-Without :
    (p : Player) (m : List (ℕ × ChatChannel)) → All (IsWithout p) (remove_user_from_each p m)
remove_user_from_each-Without p [] = tt
remove_user_from_each-Without p ((k, c) ∷ m) =
    (has-remove_user p.id p c ∙ not_self p.id (has p.id c.users), remove_user_from_each-Without p m)

leave_private_channels-Foreign :
    (p : Player) (m : List (ℕ × PrivateChatChannel))
    → All (IsForeign p) (leave_private_channels p m)
unfolding leave_private_channels remove_invite
leave_private_channels-Foreign p [] = tt
leave_private_channels-Foreign p ((k, c) ∷ m) =
    if-cases (All (IsForeign p)) (c.owner == p.guid) _ _ (λ _. leave_private_channels-Foreign p m)
      (λ e. (
        (
          has-remove_user p.id p c.channel ∙ not_self p.id (has p.id c.channel.users),
          (has-erase_id p.guid p.guid c.invites ∙ not_self p.guid (has p.guid c.invites), e),
        ),
        leave_private_channels-Foreign p m,
      ))

-- After a player is removed from all channels it is a user of none, and no private channel is its own
-- or has it among the invited.
pub remove_user_from_all_channels-Gone :
    (p : Player) (chat : Chat)
    → let left = remove_user_from_all_channels p chat in
      All (IsWithout p) left.normal_channels
      × (All (IsWithout p) left.party_channels
          × (All (IsWithout p) left.guild_channels × All (IsForeign p) left.private_channels))
unfolding remove_user_from_all_channels
remove_user_from_all_channels-Gone p chat = (
  remove_user_from_each-Without p chat.normal_channels,
  (
    remove_user_from_each-Without p chat.party_channels,
    (
      remove_user_from_each-Without p chat.guild_channels,
      leave_private_channels-Foreign p chat.private_channels,
    ),
  ),
)

find-All :
    (P : ℕ × PrivateChatChannel → Type 0) (k : ℕ) (c : PrivateChatChannel)
    (m : List (ℕ × PrivateChatChannel))
    → All P m
    → find k m ≡ some c
    → P (k, c)
find-All P k c [] t e = cc
find-All P k c ((j, d) ∷ m) t e =
    if-cases (λ o. o ≡ some c → P (k, c)) (k == j) (some d) (find k m)
      (λ q r. here ((==_iff k j).0 q) (the_same r)) (λ _ r. find-All P k c m t.1 r) e
  where
    the_same : some d ≡ some c → d ≡ c
    the_same q = cc

    here : k ≡ j → d ≡ c → P (k, c)
    here q r = subst (λ i. P (i, c)) (sym q) (subst (λ x. P (j, x)) r t.0)

channel_at-private :
    (k : ℕ) (chat : Chat) (c : PrivateChatChannel)
    → find k chat.private_channels ≡ some c
    → channel_at (private_channel k) chat ≡ some c.channel
unfolding channel_at
channel_at-private k chat c f = rw (channel_at, f) refl

talk_lem :
    (p : Player) (d : ChatChannel) (vs : List ℕ)
    → talk p d ≡ some vs
    → (has p.id d.users ≡ true) × (vs ≡ d.users)
unfolding talk
talk_lem p d vs h =
    if-cases (λ o. o ≡ some vs → (has p.id d.users ≡ true) × (vs ≡ d.users)) (has p.id d.users)
      (some d.users) none (λ e q. (e, same_users q)) (λ _ q. absurd (none_some q)) h
  where
    same_users : some d.users ≡ some vs → vs ≡ d.users
    same_users q = cc

    none_some : none ≢ some vs
    none_some q = cc

-- What a player says in a private channel goes to a list of users with the player itself in it, each
-- of whom is invited to the channel or its owner, where private channels have only such users.
pub talk_to_channel-Heard :
    (guid_of : ℕ → ℕ) (s : Scripts) (p : Player) (type k : ℕ) (chat : Chat) (c : PrivateChatChannel)
    (spoken : ℕ) (us : List ℕ)
    → IsPrivate guid_of chat.private_channels
    → get_channel s p k chat ≡ some (private_channel k)
    → find k chat.private_channels ≡ some c
    → talk_to_channel s p type k chat ≡ some (spoken, us)
    → (has p.id us ≡ true) × ((i : ℕ) → has i us ≡ true → is_invited (guid_of i) c ≡ true)
unfolding talk_to_channel IsOpen
talk_to_channel-Heard guid_of s p type k chat c spoken us t e f h =
    Option-both Says (get_channel s p k chat) none _ nothing
      (λ place q.
        Option-both Says (s.on_speak p.id k (talk_type p k type)) none _ nothing (λ words _.
          Option-both Says (channel_at place chat) none _ nothing (λ d r.
            Option-both Says (talk p d) none _ nothing
              (λ vs u. said d words vs (reached place d (same_place place (sym q ∙ e)) r) u))))
      h
  where
    Heard : Type 0
    Heard = (has p.id us ≡ true) × ((i : ℕ) → has i us ≡ true → is_invited (guid_of i) c ≡ true)

    Says : Option (ℕ × List ℕ) → Type 0
    Says r = r ≡ some (spoken, us) → Heard

    nothing : {A : Type 0} {o : Option A} → o ≡ none → Says none
    nothing _ r = absurd (none_some r)
      where
        pair : ℕ × List ℕ
        pair = (spoken, us)

        none_some : none ≢ some pair
        none_some q = cc

    same_place : (place : Place) → some place ≡ some (private_channel k) → place ≡ private_channel k
    same_place place q = cc

    reached :
        (place : Place) (d : ChatChannel)
        → place ≡ private_channel k
        → channel_at place chat ≡ some d
        → d ≡ c.channel
    reached place d q r =
        same_channel d (sym r ∙ (ap (λ l. channel_at l chat) q ∙ channel_at-private k chat c f))
      where
        same_channel : (d : ChatChannel) → some d ≡ some c.channel → d ≡ c.channel
        same_channel d q = cc

    said :
        (d : ChatChannel) (words : ℕ) (vs : List ℕ)
        → d ≡ c.channel
        → talk p d ≡ some vs
        → Says (some (words, vs))
    said d words vs q u r = (subst (λ ws. has p.id ws ≡ true) heard (talk_lem p d vs u).0, invited)
      where
        second : Option (ℕ × List ℕ) → List ℕ
        second o = elim o [ none ↦ vs | some pair ↦ pair.1 ]

        heard : d.users ≡ us
        heard = sym (talk_lem p d vs u).1 ∙ ap second r

        invited : (i : ℕ) → has i us ≡ true → is_invited (guid_of i) c ≡ true
        invited i m =
            find-All (IsOpen guid_of) k c chat.private_channels t.open_to f i
              (subst (λ ws. has i ws ≡ true) (sym heard ∙ ap (λ x. x.users) q) m)
