-- ===== src/Chat/Tests.antt =====
-- A chat with a private channel, and what the theorems say of it.

use otx.Prelude.{ℕ, ◌+◌, ◌≤◌, ◌<◌, ◌≡◌, refl, true, false, none, some, List, [], ◌∷◌, arith, All}
use otx.Prelude.Sets.{has}
use otx.Chat.Channel.{is_invited, talk, Player, PrivateChatChannel, Scripts}
use otx.Chat.Rooms.{
  get_channel, channel_at, get_private_channel, create_private_channel, Chat, private_channel,
}
use otx.Chat.Requests.{
  add_user_to_channel, remove_user_from_all_channels, talk_type, talk_to_channel,
  player_open_channel,
}
use otx.Chat.Requests.Entries.{IsOpen, IsInjective}
use otx.Chat.Requests.Private.{IsPrivate}
use otx.Chat.Requests.Slots.{create_private_channel-Least}
use otx.Chat.Requests.Asked.{
  serve_all, Request, create, invite, exclude, join, close, log_out, list_channels,
}
use otx.Chat.Requests.Served.{serve_all-IsPrivate}
use otx.Chat.Requests.Leaving.{
  IsWithout, IsForeign, remove_user_from_all_channels-Gone, talk_to_channel-Heard,
}

abbrev ann : Player
ann = record {
  id = 1;
  guid = 11;
  is_premium = true;
  guild = none;
  guild_rank_level = none;
  party = none;
}

abbrev bob : Player
bob = record {
  id = 2;
  guid = 12;
  is_premium = false;
  guild = some 5;
  guild_rank_level = some 3;
  party = none;
}

abbrev guid_of : ℕ → ℕ
guid_of i = i + 10

abbrev agreeing : Scripts
agreeing = record {
  can_join = λ p c. true;
  on_join = λ p c. true;
  on_speak = λ p c type. some type;
}

abbrev quiet : Chat
quiet = record {
  normal_channels = [];
  private_channels = [];
  party_channels = [];
  guild_channels = [];
}

abbrev room : PrivateChatChannel
room = record { channel = record { id = 100; users = 1 ∷ 2 ∷ [] }; invites = 12 ∷ []; owner = 11 }

abbrev talking : Chat
talking = record quiet { private_channels = (100, room) ∷ [] }

abbrev requests : List Request
requests =
    create ann
    ∷ invite ann (some bob)
    ∷ join bob 100
    ∷ list_channels bob
    ∷ exclude ann (some bob)
    ∷ close ann 100
    ∷ log_out bob
    ∷ []

guid_of-IsInjective : IsInjective guid_of
guid_of-IsInjective i j e = omega (arith, e)

quiet-IsPrivate : IsPrivate guid_of []
quiet-IsPrivate = record { open_to = tt; in_range = tt; one_each = tt }

talking-IsPrivate : IsPrivate guid_of talking.private_channels
unfolding IsOpen is_invited
talking-IsPrivate = record {
  open_to = (members, tt);
  in_range = ((omega arith, omega arith), tt);
  one_each = (refl, tt);
}
  where
    members : (i : ℕ) → has i (1 ∷ 2 ∷ []) ≡ true → is_invited (guid_of i) room ≡ true
    members i h = ground (arith, h)

serve_all-IsPrivate_example : IsPrivate guid_of (serve_all agreeing requests quiet).private_channels
serve_all-IsPrivate_example =
    serve_all-IsPrivate guid_of agreeing requests quiet guid_of-IsInjective
      (refl, (tt, (refl, (tt, (refl, (refl, (refl, tt))))))) quiet-IsPrivate

remove_user_from_all_channels-Gone_example :
    All (IsWithout bob) (remove_user_from_all_channels bob talking).normal_channels
    × (All (IsWithout bob) (remove_user_from_all_channels bob talking).party_channels
        × (All (IsWithout bob) (remove_user_from_all_channels bob talking).guild_channels
            × All (IsForeign bob) (remove_user_from_all_channels bob talking).private_channels))
remove_user_from_all_channels-Gone_example = remove_user_from_all_channels-Gone bob talking

talk_to_channel-Heard_example :
    (has 2 (1 ∷ 2 ∷ []) ≡ true)
    × ((i : ℕ) → has i (1 ∷ 2 ∷ []) ≡ true → is_invited (guid_of i) room ≡ true)
unfolding get_channel is_invited talk_to_channel talk_type channel_at talk
talk_to_channel-Heard_example =
    talk_to_channel-Heard guid_of agreeing bob 1 100 talking room 1 (1 ∷ 2 ∷ []) talking-IsPrivate
      refl refl refl

create_private_channel-Least_example :
    (i : ℕ) × ((create_private_channel ann quiet).0 ≡ some (private_channel i))
    × ((100 ≤ i)
        × ((i < 10000) × ((has i [] ≡ false) × ((l : ℕ) → 100 ≤ l → l < i → has l [] ≡ true))))
unfolding get_private_channel
create_private_channel-Least_example =
    create_private_channel-Least ann quiet refl refl (omega arith)

-- A player that is not invited stays out.
stays_out :
    (player_open_channel agreeing bob 100 (record talking {
      private_channels = (100, record room { invites = [] }) ∷ [];
    })).private_channels
    ≡ (100, record room { invites = [] }) ∷ []
unfolding player_open_channel add_user_to_channel get_channel is_invited
stays_out = refl

-- A guild's leader speaks in another colour.
leader_speaks : talk_type bob 0 7 ≡ 8
unfolding talk_type
leader_speaks = refl
