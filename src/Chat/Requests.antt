-- ===== src/Chat/Requests.antt =====
-- What players ask of the chat: `Chat::addUserToChannel`, `removeUserFromChannel`,
-- `removeUserFromAllChannels`, `talkToChannel` and `getChannelList` of src/chat.cpp, and the handlers
-- of src/game.cpp. A player that a handler finds by a name or an id is an argument.
pub mod Slots
pub mod Entries
pub mod Private
pub mod Asked
pub mod Served
pub mod Leaving
use otx.Prelude.{
  ℕ, Bool, true, false, not, ◌&&◌, ◌||◌, Option, none, some, List, [], ◌∷◌, ◌++◌, ltb, ◌==◌,
  if◌then◌else◌,
}
use otx.Chat.Maps.{find, adjust}
use otx.Chat.Channel.{
  is_invited, remove_invite, invite_player, remove_user, exclude_player, add_user, talk, Player,
  ChatChannel, PrivateChatChannel, Scripts,
}
use otx.Chat.Rooms.{
  get_channel, channel_at, change_at, get_private_channel, create_channel, delete_channel, Chat,
  Place, normal_channel, private_channel, party_channel, guild_channel, dummy,
}

unfoldable pub add_user_at : Scripts → Player → Place → Chat → Option Place × Chat
add_user_at s p place chat = elim (channel_at place chat) [
  | none ↦ (none, chat)
  | some c ↦
      if (add_user s p c).0
      then (some place, change_at place (λ d. (add_user s p d).1) chat)
      else (none, chat)
]

unfoldable pub add_user_to_channel : Scripts → Player → ℕ → Chat → Option Place × Chat
add_user_to_channel s p id chat = elim (get_channel s p id chat) [
  | none ↦ (none, chat)
  | some place ↦ add_user_at s p place chat
]

-- `getOwner` of the channel at a place.
abbrev pub owner_at : Place → Chat → ℕ
owner_at (private_channel k) chat = elim (find k chat.private_channels) [
  | none ↦ 0
  | some c ↦ c.owner
]
owner_at (normal_channel k) chat = 0
owner_at (party_channel k) chat = 0
owner_at (guild_channel k) chat = 0
owner_at dummy chat = 0

unfoldable pub remove_user_from_channel : Scripts → Player → ℕ → Chat → Bool × Chat
remove_user_from_channel s p id chat = elim (get_channel s p id chat) [
  | none ↦ (false, chat)
  | some place ↦ remove_at place
]
  where
    remove_at : Place → Bool × Chat
    remove_at place =
        let left = change_at place (λ d. (remove_user p d).1) chat in
        let closed = (delete_channel p id left).1 in
        elim (channel_at place chat) [
          | none ↦ (false, chat)
          | some c ↦
              if (remove_user p c).0
              then (true, if owner_at place chat == p.guid then closed else left)
              else (false, chat)
        ]

abbrev pub remove_user_from_each : Player → List (ℕ × ChatChannel) → List (ℕ × ChatChannel)
remove_user_from_each p [] = []
remove_user_from_each p ((k, c) ∷ m) = (k, (remove_user p c).1) ∷ remove_user_from_each p m

abbrev pub stripped : Player → PrivateChatChannel → PrivateChatChannel
stripped p c =
    let d = (remove_invite p.guid c).1 in record d { channel = (remove_user p d.channel).1 }

unfoldable pub leave_private_channels :
    Player → List (ℕ × PrivateChatChannel) → List (ℕ × PrivateChatChannel)
leave_private_channels p [] = []
leave_private_channels p ((k, c) ∷ m) =
    let rest = leave_private_channels p m in
    if c.owner == p.guid then rest else (k, stripped p c) ∷ rest

unfoldable pub remove_user_from_all_channels : Player → Chat → Chat
remove_user_from_all_channels p chat = record {
  normal_channels = remove_user_from_each p chat.normal_channels;
  private_channels = leave_private_channels p chat.private_channels;
  party_channels = remove_user_from_each p chat.party_channels;
  guild_channels = remove_user_from_each p chat.guild_channels;
}

-- TALKTYPE_CHANNEL_O is 8 and TALKTYPE_CHANNEL_Y is 7.
unfoldable pub talk_type : Player → ℕ → ℕ → ℕ
talk_type p id type =
    if id == 0 then by_rank p.guild_rank_level else (if id == 65535 || id == 1 then 7 else type)
  where
    by_rank : Option ℕ → ℕ
    by_rank none = 7
    by_rank (some level) = if ltb 1 level then 8 else 7

-- The type of the message that is sent, and who hears it.
unfoldable pub talk_to_channel : Scripts → Player → ℕ → ℕ → Chat → Option (ℕ × List ℕ)
talk_to_channel s p type id chat = elim (get_channel s p id chat) [
  | none ↦ none
  | some place ↦ elim (s.on_speak p.id id (talk_type p id type)) [
    | none ↦ none
    | some spoken ↦ heard spoken (channel_at place chat)
  ]
]
  where
    heard : ℕ → Option ChatChannel → Option (ℕ × List ℕ)
    heard spoken o = elim o [
      | none ↦ none
      | some c ↦ elim (talk p c) [ none ↦ none | some us ↦ some (spoken, us) ]
    ]

-- The part of `getChannelList` for a guild or a party: its channel, made if it is not there.
unfoldable pub own_channel : Scripts → Player → ℕ → Option ℕ → Chat → List Place × Chat
own_channel s p id none chat = ([], chat)
own_channel s p id (some g) chat =
    let made = create_channel s p id chat in
    elim (get_channel s p id chat) [
      | some place ↦ (place ∷ [], chat)
      | none ↦ (elim made.0 [ none ↦ [] | some place ↦ place ∷ [] ], made.1)
    ]

unfoldable pub listed_normal : Scripts → Player → Chat → List (ℕ × ChatChannel) → List Place
listed_normal s p chat [] = []
listed_normal s p chat ((k, c) ∷ m) =
    let rest = listed_normal s p chat m in
    elim (get_channel s p k chat) [ none ↦ rest | some place ↦ place ∷ rest ]

unfoldable pub listed_private : ℕ → List (ℕ × PrivateChatChannel) → List Place
listed_private guid [] = []
listed_private guid ((k, c) ∷ m) =
    let rest = listed_private guid m in if is_invited guid c then private_channel k ∷ rest else rest

unfoldable pub get_channel_list : Scripts → Player → Chat → List Place × Chat
get_channel_list s p chat =
    let (guilds, chat₁) = own_channel s p 0 p.guild chat in
    let (parties, chat₂) = own_channel s p 1 p.party chat₁ in
    let open_to =
      guilds
      ++ (parties
          ++ (listed_normal s p chat₂ chat₂.normal_channels
              ++ listed_private p.guid chat₂.private_channels)) in
    let has_private = elim (get_private_channel p.guid chat₂.private_channels) as (λ o. Bool) [
      | none ↦ false
      | some k ↦ true
    ] in
    (if not has_private && p.is_premium then dummy ∷ open_to else open_to, chat₂)

-- The handlers.
unfoldable pub player_create_private_channel : Scripts → Player → Chat → Chat
player_create_private_channel s p chat =
    let (made, chat₁) = create_channel s p 65535 chat in
    let joined = elim made as (λ o. Chat) [
      | none ↦ chat₁
      | some place ↦ (add_user_at s p place chat₁).1
    ] in
    if p.is_premium then joined else chat

unfoldable pub player_channel_invite : Player → Option Player → Chat → Chat
player_channel_invite p none chat = chat
player_channel_invite p (some q) chat = elim (get_private_channel p.guid chat.private_channels) [
  | none ↦ chat
  | some k ↦
      if p.id == q.id
      then chat
      else record chat { private_channels = adjust k (invite_player q) chat.private_channels }
]

unfoldable pub player_channel_exclude : Player → Option Player → Chat → Chat
player_channel_exclude p none chat = chat
player_channel_exclude p (some q) chat = elim (get_private_channel p.guid chat.private_channels) [
  | none ↦ chat
  | some k ↦
      if p.id == q.id
      then chat
      else record chat { private_channels = adjust k (exclude_player q) chat.private_channels }
]

unfoldable pub player_open_channel : Scripts → Player → ℕ → Chat → Chat
player_open_channel s p id chat = (add_user_to_channel s p id chat).1

unfoldable pub player_close_channel : Scripts → Player → ℕ → Chat → Chat
player_close_channel s p id chat = (remove_user_from_channel s p id chat).1
