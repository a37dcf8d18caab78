-- ===== src/Chat/Requests/Asked.antt =====
-- What players ask of the chat, and that a channel a player gets is one it may enter.
use otx.Prelude.{
  ℕ, ◌≡◌, true, Option, none, some, List, [], ◌∷◌, ◌==◌, if-both, if-cases, Option-both,
}
use otx.Prelude.Sets.{has}
use otx.Chat.Maps.{find, keys}
use otx.Chat.Channel.{is_invited, Player, PrivateChatChannel, Scripts}
use otx.Chat.Rooms.{
  get_channel, Chat, Place, normal_channel, private_channel, party_channel, guild_channel, dummy,
}
use otx.Chat.Requests.{
  remove_user_from_all_channels, get_channel_list, player_create_private_channel,
  player_channel_invite, player_channel_exclude, player_open_channel, player_close_channel,
}

-- What a player can ask, and what is found for the names in it.
pub data Request : Type 0 where
  create : Player → Request
  invite exclude : Player → Option Player → Request
  join close : Player → ℕ → Request
  log_out : Player → Request
  list_channels : Player → Request

abbrev pub serve : Scripts → Request → Chat → Chat
serve s (create p) chat = player_create_private_channel s p chat
serve s (invite p q) chat = player_channel_invite p q chat
serve s (exclude p q) chat = player_channel_exclude p q chat
serve s (join p id) chat = player_open_channel s p id chat
serve s (close p id) chat = player_close_channel s p id chat
serve s (log_out p) chat = remove_user_from_all_channels p chat
serve s (list_channels p) chat = (get_channel_list s p chat).1

abbrev pub serve_all : Scripts → List Request → Chat → Chat
serve_all s [] chat = chat
serve_all s (r ∷ rs) chat = serve_all s rs (serve s r chat)

-- The guids in a request are those of its players.
abbrev pub IsKnown : (ℕ → ℕ) → Request → Type 0
IsKnown guid_of (create p) = p.guid ≡ guid_of p.id
IsKnown guid_of (invite p q) = Unit {0}
IsKnown guid_of (exclude p none) = Unit {0}
IsKnown guid_of (exclude p (some q)) = q.guid ≡ guid_of q.id
IsKnown guid_of (join p id) = p.guid ≡ guid_of p.id
IsKnown guid_of (close p id) = p.guid ≡ guid_of p.id
IsKnown guid_of (log_out p) = p.guid ≡ guid_of p.id
IsKnown guid_of (list_channels p) = Unit {0}

-- A place that leads a player to a private channel that it is invited to.
abbrev pub Admits : Player → Place → Chat → Type 0
Admits p (private_channel k) chat =
    (c : PrivateChatChannel) × (find k chat.private_channels ≡ some c)
    × (is_invited p.guid c ≡ true)
Admits p (normal_channel k) chat = Unit {0}
Admits p (party_channel k) chat = Unit {0}
Admits p (guild_channel k) chat = Unit {0}
Admits p dummy chat = Unit {0}

abbrev pub AdmitsAny : Player → Option Place → Chat → Type 0
AdmitsAny p none chat = Unit {0}
AdmitsAny p (some place) chat = Admits p place chat

pub get_channel-AdmitsAny :
    (s : Scripts) (p : Player) (id : ℕ) (chat : Chat) → AdmitsAny p (get_channel s p id chat) chat
unfolding get_channel
get_channel-AdmitsAny s p id chat =
    if-both Good (id == 0) _ _
      (Option-both Good p.guild none _ (λ _. tt)
        (λ g _. if-both Good (has g (keys chat.guild_channels)) _ _ tt tt))
      (if-both Good (id == 1) _ _
        (Option-both Good p.party none _ (λ _. tt)
          (λ q _. if-both Good (has q (keys chat.party_channels)) _ _ tt tt))
        (Option-both Good (find id chat.normal_channels) _ _
          (λ _.
            Option-both Good (find id chat.private_channels) none _ (λ _. tt)
              (λ c e. if-cases Good (is_invited p.guid c) _ _ (λ i. (c, e, i)) (λ _. tt)))
          (λ c _. if-both Good (s.can_join p.id id) _ _ tt tt)))
  where
    Good : Option Place → Type 0
    Good o = AdmitsAny p o chat
