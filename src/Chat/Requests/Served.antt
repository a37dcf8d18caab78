-- ===== src/Chat/Requests/Served.antt =====
-- Whatever the players ask of the chat, its private channels stay private.

use otx.Prelude.{
  ℕ, ◌+◌, ◌≤◌, ◌<◌, ◌≡◌, refl, subst, Bool, true, false, Option, none, some, List, [], ◌∷◌, ◌==◌,
  if-both, Option-both, All,
}
use otx.Prelude.Sets.{has}
use otx.Chat.Maps.{keys, emplace, find-emplace}
use otx.Chat.Channel.{is_invited, invite_player, remove_user, add_user, Player, Scripts}
use otx.Chat.Rooms.{
  get_channel, channel_at, change_at, get_private_channel, free_slot, new_private_channel,
  create_private_channel, create_channel, delete_channel, Chat, Place, normal_channel,
  private_channel, party_channel, guild_channel, dummy,
}
use otx.Chat.Requests.{
  add_user_at, add_user_to_channel, owner_at, remove_user_from_channel,
  remove_user_from_all_channels, own_channel, get_channel_list, player_create_private_channel,
  player_channel_invite, player_channel_exclude, player_open_channel, player_close_channel,
}
use otx.Chat.Requests.Entries.{
  IsInjective, invite_player-IsOpen, exclude_player-IsOpen, remove_user-IsOpen,
  new_private_channel-invited, exclude_player-owner,
}
use otx.Chat.Requests.Private.{
  adjust-IsPrivate, joined-IsPrivate, emplace-IsPrivate, erase-IsPrivate, leave-IsPrivate,
  get_private_channel-none, IsPrivate,
}
use otx.Chat.Requests.Slots.{free_slot-some}
use otx.Chat.Requests.Asked.{
  serve, serve_all, IsKnown, Admits, AdmitsAny, get_channel-AdmitsAny, Request, create, invite,
  exclude, join, close, log_out, list_channels,
}

module _ (guid_of : ℕ → ℕ) where
  -- The private channels after a request.
  Keeps : Chat → Type 0
  Keeps chat = IsPrivate guid_of chat.private_channels

  add_user_at-Keeps :
      (s : Scripts) (p : Player) (place : Place) (chat : Chat)
      → p.guid ≡ guid_of p.id
      → Admits p place chat
      → Keeps chat
      → Keeps (add_user_at s p place chat).1
  unfolding add_user_at change_at Keeps
  add_user_at-Keeps s p place chat known a t =
      Option-both After (channel_at place chat) (none, chat) _ (λ _. t)
        (λ c _. if-both After (add_user s p c).0 _ _ (joined place a) t)
    where
      After : Option Place × Chat → Type 0
      After r = Keeps r.1

      joined : (q : Place) → Admits p q chat → Keeps (change_at q (λ d. (add_user s p d).1) chat)
      joined (normal_channel k) b = t
      joined (private_channel k) (c, e, i) =
          joined-IsPrivate guid_of s k p c chat.private_channels known e i t
      joined (party_channel k) b = t
      joined (guild_channel k) b = t
      joined dummy b = t

  player_open_channel-Keeps :
      (s : Scripts) (p : Player) (id : ℕ) (chat : Chat)
      → p.guid ≡ guid_of p.id
      → Keeps chat
      → Keeps (player_open_channel s p id chat)
  unfolding player_open_channel add_user_to_channel
  player_open_channel-Keeps s p id chat known t =
      Option-both (λ (r : Option Place × Chat). Keeps r.1) (get_channel s p id chat) (none, chat) _
        (λ _. t)
        (λ place e.
          add_user_at-Keeps s p place chat known
            (subst (λ o. AdmitsAny p o chat) e (get_channel-AdmitsAny s p id chat)) t)

  delete_channel-Keeps :
      (p : Player) (id : ℕ) (chat : Chat) → Keeps chat → Keeps (delete_channel p id chat).1
  unfolding delete_channel Keeps
  delete_channel-Keeps p id chat t =
      if-both After (id == 0) _ _ (Option-both After p.guild (false, chat) _ (λ _. t) (λ g _. t)) (
        if-both After (id == 1) _ _ (Option-both After p.party (false, chat) _ (λ _. t) (λ q _. t))
          (erase-IsPrivate guid_of id chat.private_channels t))
    where
      After : Bool × Chat → Type 0
      After r = Keeps r.1

  player_close_channel-Keeps :
      (s : Scripts) (p : Player) (id : ℕ) (chat : Chat)
      → Keeps chat
      → Keeps (player_close_channel s p id chat)
  unfolding player_close_channel remove_user_from_channel change_at Keeps
  player_close_channel-Keeps s p id chat t =
      Option-both After (get_channel s p id chat) (false, chat) _ (λ _. t)
        (λ place _.
          Option-both After (channel_at place chat) (false, chat) _ (λ _. t)
            (λ c _.
              if-both After (remove_user p c).0 _ _
                (if-both Keeps (owner_at place chat == p.guid) _ _
                  (delete_channel-Keeps p id _ (removed place)) (removed place))
                t))
    where
      After : Bool × Chat → Type 0
      After r = Keeps r.1

      removed : (q : Place) → Keeps (change_at q (λ d. (remove_user p d).1) chat)
      removed (normal_channel k) = t
      removed (private_channel k) =
          adjust-IsPrivate guid_of k _ chat.private_channels
            (λ j c. remove_user-IsOpen guid_of j p c) (λ c. refl) t
      removed (party_channel k) = t
      removed (guild_channel k) = t
      removed dummy = t

  -- A channel that was made is open to the one that made it.
  create_private_channel-Keeps :
      (p : Player) (chat : Chat)
      → Keeps chat
      → Keeps (create_private_channel p chat).1
        × AdmitsAny p (create_private_channel p chat).0 (create_private_channel p chat).1
  unfolding create_private_channel Keeps
  create_private_channel-Keeps p chat t =
      Option-both Made (get_private_channel p.guid chat.private_channels) _ _
        (λ e.
          if-both Made p.is_premium _ _
            (Option-both Made (free_slot 9900 100 (keys chat.private_channels)) (none, chat) _
              (λ _. (t, tt)) (λ i f. placed e i f))
            (t, tt))
        (λ k _. (t, tt))
    where
      Made : Option Place × Chat → Type 0
      Made r = Keeps r.1 × AdmitsAny p r.0 r.1

      invited : (i : ℕ) → is_invited p.guid (new_private_channel i p.guid) ≡ true
      invited i = new_private_channel-invited p.guid i

      placed :
          get_private_channel p.guid chat.private_channels ≡ none
          → (i : ℕ) → free_slot 9900 100 (keys chat.private_channels) ≡ some i
          → Made (
            some (private_channel i),
            record chat {
              private_channels = emplace i (new_private_channel i p.guid) chat.private_channels;
            },
          )
      placed e i f = (
        emplace-IsPrivate guid_of i p.guid chat.private_channels slot.0 (upper slot.1.0)
            (get_private_channel-none p.guid chat.private_channels e) t,
        (
          new_private_channel i p.guid,
          find-emplace i _ chat.private_channels slot.1.1.0,
          invited i,
        ),
      )
        where
          slot :
              (100 ≤ i)
              × ((i < 100 + 9900)
                  × ((has i (keys chat.private_channels) ≡ false)
                      × ((l : ℕ) → 100 ≤ l → l < i → has l (keys chat.private_channels) ≡ true)))
          slot = free_slot-some 9900 100 i (keys chat.private_channels) f

          upper : i < 100 + 9900 → i < 10000
          upper u = u

  create_channel-Keeps :
      (s : Scripts) (p : Player) (id : ℕ) (chat : Chat)
      → Keeps chat
      → Keeps (create_channel s p id chat).1
        × AdmitsAny p (create_channel s p id chat).0 (create_channel s p id chat).1
  unfolding create_channel Keeps
  create_channel-Keeps s p id chat t =
      Option-both Made (get_channel s p id chat) _ _
        (λ _.
          if-both Made (id == 0) _ _
            (Option-both Made p.guild (none, chat) _ (λ _. (t, tt)) (λ g _. (t, tt)))
            (if-both Made (id == 1) _ _
              (Option-both Made p.party (none, chat) _ (λ _. (t, tt)) (λ q _. (t, tt)))
              (if-both Made (id == 65535) _ _ (create_private_channel-Keeps p chat t) (t, tt))))
        (λ c _. (t, tt))
    where
      Made : Option Place × Chat → Type 0
      Made r = Keeps r.1 × AdmitsAny p r.0 r.1

  player_create_private_channel-Keeps :
      (s : Scripts) (p : Player) (chat : Chat)
      → p.guid ≡ guid_of p.id
      → Keeps chat
      → Keeps (player_create_private_channel s p chat)
  unfolding player_create_private_channel
  player_create_private_channel-Keeps s p chat known t =
      if-both Keeps p.is_premium _ _
        (joined (create_channel s p 65535 chat) (create_channel-Keeps s p 65535 chat t)) t
    where
      joined :
          (r : Option Place × Chat)
          → Keeps r.1 × AdmitsAny p r.0 r.1
          → Keeps (elim r.0 [ none ↦ r.1 | some place ↦ (add_user_at s p place r.1).1 ])
      joined (none, c) (k, a) = k
      joined (some place, c) (k, a) = add_user_at-Keeps s p place c known a k

  player_channel_invite-Keeps :
      (p : Player) (q : Option Player) (chat : Chat)
      → Keeps chat
      → Keeps (player_channel_invite p q chat)
  unfolding player_channel_invite invite_player Keeps
  player_channel_invite-Keeps p none chat t = t
  player_channel_invite-Keeps p (some q) chat t =
      Option-both Keeps (get_private_channel p.guid chat.private_channels) chat _ (λ _. t)
        (λ k _. if-both Keeps (p.id == q.id) chat _ t (
          adjust-IsPrivate guid_of k _ chat.private_channels
            (λ j c. invite_player-IsOpen guid_of j q c) (λ c. refl) t))

  player_channel_exclude-Keeps :
      (p q : Player) (chat : Chat)
      → IsInjective guid_of
      → q.guid ≡ guid_of q.id
      → Keeps chat
      → Keeps (player_channel_exclude p (some q) chat)
  unfolding player_channel_exclude Keeps
  player_channel_exclude-Keeps p q chat inj known t =
      Option-both Keeps (get_private_channel p.guid chat.private_channels) chat _ (λ _. t)
        (λ k _. if-both Keeps (p.id == q.id) chat _ t (
          adjust-IsPrivate guid_of k _ chat.private_channels
            (λ j c. exclude_player-IsOpen guid_of j q c inj known) (exclude_player-owner q) t))

  own_channel-Keeps :
      (s : Scripts) (p : Player) (id : ℕ) (g : Option ℕ) (chat : Chat)
      → Keeps chat
      → Keeps (own_channel s p id g chat).1
  unfolding own_channel
  own_channel-Keeps s p id none chat t = t
  own_channel-Keeps s p id (some g) chat t =
      Option-both (λ (r : List Place × Chat). Keeps r.1) (get_channel s p id chat) _ _
        (λ _. (create_channel-Keeps s p id chat t).0) (λ c _. t)

  serve-Keeps :
      (s : Scripts) (r : Request) (chat : Chat)
      → IsInjective guid_of
      → IsKnown guid_of r
      → Keeps chat
      → Keeps (serve s r chat)
  unfolding get_channel_list remove_user_from_all_channels player_channel_exclude Keeps
  serve-Keeps s (create p) chat inj k t = player_create_private_channel-Keeps s p chat k t
  serve-Keeps s (invite p q) chat inj k t = player_channel_invite-Keeps p q chat t
  serve-Keeps s (exclude p none) chat inj k t = t
  serve-Keeps s (exclude p (some q)) chat inj k t = player_channel_exclude-Keeps p q chat inj k t
  serve-Keeps s (join p id) chat inj k t = player_open_channel-Keeps s p id chat k t
  serve-Keeps s (close p id) chat inj k t = player_close_channel-Keeps s p id chat t
  serve-Keeps s (log_out p) chat inj k t = leave-IsPrivate guid_of p chat.private_channels inj k t
  serve-Keeps s (list_channels p) chat inj k t =
      own_channel-Keeps s p 1 p.party _ (own_channel-Keeps s p 0 p.guild chat t)

  -- Where no two players have the same guid and those in the requests have their own, private
  -- channels that have only invited users, ids from 100 to 9999 and no two of one owner are such after
  -- any requests: creating, inviting, excluding, opening, closing, logging out and listing.
  pub serve_all-IsPrivate :
      (s : Scripts) (rs : List Request) (chat : Chat)
      → IsInjective guid_of
      → All (IsKnown guid_of) rs
      → IsPrivate guid_of chat.private_channels
      → IsPrivate guid_of (serve_all s rs chat).private_channels
  unfolding Keeps
  serve_all-IsPrivate s [] chat inj k t = t
  serve_all-IsPrivate s (r ∷ rs) chat inj k t =
      serve_all-IsPrivate s rs (serve s r chat) inj k.1 (serve-Keeps s r chat inj k.0 t)
