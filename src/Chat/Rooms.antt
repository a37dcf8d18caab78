-- ===== src/Chat/Rooms.antt =====
-- `Chat` of src/chat.h and src/chat.cpp: the channels by their ids, those of parties and guilds by
-- party and guild, and the handlers of src/game.cpp.
use otx.Prelude.{
  ℕ, zero, suc, ◌+◌, Bool, false, Option, none, some, List, [], ◌∷◌, ◌==◌, if◌then◌else◌,
}
use otx.Prelude.Sets.{has}
use otx.Chat.Maps.{find, keys, emplace, erase, adjust}
use otx.Chat.Channel.{is_invited, Player, ChatChannel, PrivateChatChannel, Scripts}

pub record Chat : Type 0 where
  pub normal_channels : List (ℕ × ChatChannel)
  pub private_channels : List (ℕ × PrivateChatChannel)
  pub party_channels : List (ℕ × ChatChannel)
  pub guild_channels : List (ℕ × ChatChannel)

-- What a pointer to a channel points at; `dummy` is `dummyPrivate`.
pub data Place : Type 0 where
  normal_channel private_channel party_channel guild_channel : ℕ → Place
  dummy : Place

unfoldable pub get_channel : Scripts → Player → ℕ → Chat → Option Place
get_channel s p id chat =
    if id == 0 then guild_of p.guild else (if id == 1 then party_of p.party else other)
  where
    guild_of : Option ℕ → Option Place
    guild_of o = elim o [
      | none ↦ none
      | some g ↦ if has g (keys chat.guild_channels) then some (guild_channel g) else none
    ]

    party_of : Option ℕ → Option Place
    party_of o = elim o [
      | none ↦ none
      | some q ↦ if has q (keys chat.party_channels) then some (party_channel q) else none
    ]

    other : Option Place
    other = elim (find id chat.normal_channels) [
      | some c ↦ if s.can_join p.id id then some (normal_channel id) else none
      | none ↦ elim (find id chat.private_channels) [
        | some c ↦ if is_invited p.guid c then some (private_channel id) else none
        | none ↦ none
      ]
    ]

-- The channel a pointer points at, and a change of it.
unfoldable pub channel_at : Place → Chat → Option ChatChannel
channel_at (normal_channel k) chat = find k chat.normal_channels
channel_at (private_channel k) chat = elim (find k chat.private_channels) [
  | none ↦ none
  | some c ↦ some c.channel
]
channel_at (party_channel k) chat = find k chat.party_channels
channel_at (guild_channel k) chat = find k chat.guild_channels
channel_at dummy chat = none

abbrev pub in_private : (ChatChannel → ChatChannel) → PrivateChatChannel → PrivateChatChannel
in_private f c = record c { channel = f c.channel }

unfoldable pub change_at : Place → (ChatChannel → ChatChannel) → Chat → Chat
change_at (normal_channel k) f chat = record chat {
  normal_channels = adjust k f chat.normal_channels;
}
change_at (private_channel k) f chat = record chat {
  private_channels = adjust k (in_private f) chat.private_channels;
}
change_at (party_channel k) f chat = record chat { party_channels = adjust k f chat.party_channels }
change_at (guild_channel k) f chat = record chat { guild_channels = adjust k f chat.guild_channels }
change_at dummy f chat = chat

-- The key of the first private channel of an owner.
unfoldable pub get_private_channel : ℕ → List (ℕ × PrivateChatChannel) → Option ℕ
get_private_channel guid [] = none
get_private_channel guid ((k, c) ∷ m) =
    let rest = get_private_channel guid m in if c.owner == guid then some k else rest

-- The loop for a free id: `fuel` ids are tried from `i` on.
unfoldable pub free_slot : ℕ → ℕ → List ℕ → Option ℕ
free_slot zero i ks = none
free_slot (suc fuel) i ks =
    let rest = free_slot fuel (i + 1) ks in if has i ks then rest else some i

abbrev pub new_channel : ℕ → ChatChannel
new_channel id = record { id = id; users = [] }

abbrev pub new_private_channel : ℕ → ℕ → PrivateChatChannel
new_private_channel id owner = record { channel = new_channel id; invites = []; owner = owner }

unfoldable pub create_private_channel : Player → Chat → Option Place × Chat
create_private_channel p chat =
    let place : ℕ → Option Place × Chat = λ i. (
      some (private_channel i),
      record chat {
        private_channels = emplace i (new_private_channel i p.guid) chat.private_channels;
      },
    ) in
    elim (get_private_channel p.guid chat.private_channels) [
      | some k ↦ (none, chat)
      | none ↦
          if p.is_premium
          then elim (free_slot 9900 100 (keys chat.private_channels)) [
            | none ↦ (none, chat)
            | some i ↦ place i
          ]
          else (none, chat)
    ]

unfoldable pub create_channel : Scripts → Player → ℕ → Chat → Option Place × Chat
create_channel s p id chat = elim (get_channel s p id chat) [
  | some c ↦ (none, chat)
  | none ↦
      if id == 0
      then guild_of p.guild
      else (if id == 1
          then party_of p.party
          else (if id == 65535 then create_private_channel p chat else (none, chat)))
]
  where
    guild_of : Option ℕ → Option Place × Chat
    guild_of o = elim o [
      | none ↦ (none, chat)
      | some g ↦ (
        some (guild_channel g),
        record chat { guild_channels = emplace g (new_channel 0) chat.guild_channels },
      )
    ]

    party_of : Option ℕ → Option Place × Chat
    party_of o = elim o [
      | none ↦ (none, chat)
      | some q ↦ (
        some (party_channel q),
        record chat { party_channels = emplace q (new_channel 1) chat.party_channels },
      )
    ]

unfoldable pub delete_channel : Player → ℕ → Chat → Bool × Chat
delete_channel p id chat =
    if id == 0 then guild_of p.guild else (if id == 1 then party_of p.party else other)
  where
    guild_of : Option ℕ → Bool × Chat
    guild_of o = elim o [
      | none ↦ (false, chat)
      | some g ↦ (
        has g (keys chat.guild_channels),
        record chat { guild_channels = erase g chat.guild_channels },
      )
    ]

    party_of : Option ℕ → Bool × Chat
    party_of o = elim o [
      | none ↦ (false, chat)
      | some q ↦ (
        has q (keys chat.party_channels),
        record chat { party_channels = erase q chat.party_channels },
      )
    ]

    other : Bool × Chat
    other = (
      has id (keys chat.private_channels),
      record chat { private_channels = erase id chat.private_channels },
    )
