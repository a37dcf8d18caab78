-- ===== src/Chat/Requests/Entries.antt =====
-- What holds of each private channel: its users are invited, and how the methods of a channel keep
-- that. `guid_of` gives the guid of the player with an id.

use otx.Prelude.{
  ℕ, ◌≡◌, refl, sym, ap, subst, ◌∙◌, ◌≢◌, inl, inr, Bool, true, false, not, ◌&&◌, ◌||◌, List, arith,
  ◌==◌, if◌then◌else◌, ==_refl, Bool-cases, if-both,
}
use otx.Prelude.Sets.{has}
use otx.Chat.Maps.{insert_id, erase_id, has-insert_id, has-erase_id}
use otx.Chat.Channel.{
  is_invited, remove_invite, invite_player, remove_user, exclude_player, add_user, has-remove_user,
  has-add_user, Player, PrivateChatChannel, Scripts,
}
use otx.Chat.Rooms.{in_private, new_private_channel}
use otx.Chat.Requests.{stripped}

unfoldable pub IsOpen : (ℕ → ℕ) → ℕ × PrivateChatChannel → Type 0
IsOpen guid_of (k, c) = (i : ℕ) → has i c.channel.users ≡ true → is_invited (guid_of i) c ≡ true

abbrev pub IsInjective : (ℕ → ℕ) → Type 0
IsInjective g = (i j : ℕ) → g i ≡ g j → i ≡ j

invited_mono :
    (g : ℕ) (c : PrivateChatChannel) (gs : List ℕ)
    → (has g c.invites ≡ true → has g gs ≡ true)
    → is_invited g c ≡ true
    → is_invited g (record c { invites = gs }) ≡ true
unfolding is_invited
invited_mono g c gs h k = elim (Bool-cases (g == c.owner)) [
  | inl e ↦ rw (e) refl
  | inr e ↦ rw (e) (h (subst (λ b. (if b then true else has g c.invites) ≡ true) e k))
]

pub invite_player-IsOpen :
    (guid_of : ℕ → ℕ) (k : ℕ) (p : Player) (c : PrivateChatChannel)
    → IsOpen guid_of (k, c)
    → IsOpen guid_of (k, invite_player p c)
unfolding invite_player IsOpen
invite_player-IsOpen guid_of k p c h i u = invited_mono (guid_of i) c _ more (h i u)
  where
    more : has (guid_of i) c.invites ≡ true → has (guid_of i) (insert_id p.guid c.invites) ≡ true
    more e = has-insert_id (guid_of i) p.guid c.invites ∙ either (guid_of i == p.guid) _ e
      where
        either : (a b : Bool) → b ≡ true → (a || b) ≡ true
        either true b e = refl
        either false b e = e

-- Taking a player out of the users and of the invited.
pub stripped-IsOpen :
    (guid_of : ℕ → ℕ) (k : ℕ) (p : Player) (c : PrivateChatChannel)
    → IsInjective guid_of
    → p.guid ≡ guid_of p.id
    → IsOpen guid_of (k, c)
    → IsOpen guid_of (k, stripped p c)
unfolding remove_invite IsOpen remove_user is_invited
stripped-IsOpen guid_of k p c inj known h i u = invited_mono (guid_of i) c _ kept (h i stays.1)
  where
    stays : (i ≢ p.id) × (has i c.channel.users ≡ true)
    stays = both (sym (has-remove_user i p c.channel) ∙ u)
      where
        both :
            (not (i == p.id) && has i c.channel.users) ≡ true
            → (i ≢ p.id) × (has i c.channel.users ≡ true)
        both e = ground (arith, e)

    kept : has (guid_of i) c.invites ≡ true → has (guid_of i) (erase_id p.guid c.invites) ≡ true
    kept e = has-erase_id (guid_of i) p.guid c.invites ∙ other
      where
        apart : guid_of i ≢ p.guid
        apart q = stays.0 (inj i p.id (q ∙ known))

        other : (not (guid_of i == p.guid) && has (guid_of i) c.invites) ≡ true
        other = ground (arith, e, apart)

pub exclude_player-IsOpen :
    (guid_of : ℕ → ℕ) (k : ℕ) (p : Player) (c : PrivateChatChannel)
    → IsInjective guid_of
    → p.guid ≡ guid_of p.id
    → IsOpen guid_of (k, c)
    → IsOpen guid_of (k, exclude_player p c)
unfolding exclude_player remove_invite
exclude_player-IsOpen guid_of k p c inj known h =
    if-both (λ d. IsOpen guid_of (k, d)) (has p.guid c.invites) _ c
      (stripped-IsOpen guid_of k p c inj known h) h

pub add_user-IsOpen :
    (guid_of : ℕ → ℕ) (s : Scripts) (k : ℕ) (p : Player) (c : PrivateChatChannel)
    → p.guid ≡ guid_of p.id
    → is_invited p.guid c ≡ true
    → IsOpen guid_of (k, c)
    → IsOpen guid_of (k, in_private (λ d. (add_user s p d).1) c)
unfolding IsOpen is_invited
add_user-IsOpen guid_of s k p c known inv h i u = elim (has-add_user s i p c.channel u) [
  | inl e ↦ subst (λ g. is_invited g c ≡ true) (known ∙ ap guid_of (sym e)) inv
  | inr e ↦ h i e
]

pub remove_user-IsOpen :
    (guid_of : ℕ → ℕ) (k : ℕ) (p : Player) (c : PrivateChatChannel)
    → IsOpen guid_of (k, c)
    → IsOpen guid_of (k, in_private (λ d. (remove_user p d).1) c)
unfolding IsOpen is_invited
remove_user-IsOpen guid_of k p c h i u =
    h i (second (not (i == p.id)) (sym (has-remove_user i p c.channel) ∙ u))
  where
    second : (a : Bool) → (a && has i c.channel.users) ≡ true → has i c.channel.users ≡ true
    second true e = e
    second false e = cc

pub new_private_channel-IsOpen :
    (guid_of : ℕ → ℕ) (k g : ℕ) → IsOpen guid_of (k, new_private_channel k g)
unfolding IsOpen
new_private_channel-IsOpen guid_of k g i u = cc

pub new_private_channel-invited : (g k : ℕ) → is_invited g (new_private_channel k g) ≡ true
unfolding is_invited
new_private_channel-invited g k = rw (==_refl g) refl

pub exclude_player-owner :
    (p : Player) (c : PrivateChatChannel) → (exclude_player p c).owner ≡ c.owner
unfolding exclude_player remove_invite
exclude_player-owner p c = if-both (λ d. d.owner ≡ c.owner) (has p.guid c.invites) _ c refl refl
