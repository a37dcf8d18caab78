-- ===== src/Chat/Channel.antt =====
-- The channels of src/chat.h: `ChatChannel` and `PrivateChatChannel`, with what their methods in
-- src/chat.cpp do to the users and the invitations. Messages to the users are left out.
use otx.Prelude.{
  ℕ, ◌≡◌, refl, sym, subst, ◌∙◌, ◌⊎◌, inl, inr, Bool, true, false, not, ◌&&◌, ◌||◌, Option, none,
  some, List, arith, ◌==◌, if◌then◌else◌, ==_iff, Bool-cases, if-both, if-cases,
}
use otx.Prelude.Sets.{has}
use otx.Chat.Maps.{insert_id, erase_id, has-insert_id, has-erase_id}

-- What channels read of a player.
pub record Player : Type 0 where
  pub id : ℕ
  pub guid : ℕ
  pub is_premium : Bool
  pub guild : Option ℕ
  pub guild_rank_level : Option ℕ
  pub party : Option ℕ

-- The users' ids, in their order.
pub record ChatChannel : Type 0 where
  pub id : ℕ
  pub users : List ℕ

pub record PrivateChatChannel : Type 0 where
  pub channel : ChatChannel
  pub invites : List ℕ
  pub owner : ℕ

-- What the scripts of a channel answer to a player: whether it may see it, join it, and speak in
-- it, and as what its words go out then. A channel without a script answers yes.
pub record Scripts : Type 0 where
  pub can_join : ℕ → ℕ → Bool
  pub on_join : ℕ → ℕ → Bool
  pub on_speak : ℕ → ℕ → ℕ → Option ℕ

unfoldable pub is_invited : ℕ → PrivateChatChannel → Bool
is_invited guid c = if guid == c.owner then true else has guid c.invites

unfoldable pub remove_invite : ℕ → PrivateChatChannel → Bool × PrivateChatChannel
remove_invite guid c = (has guid c.invites, record c { invites = erase_id guid c.invites })

unfoldable pub invite_player : Player → PrivateChatChannel → PrivateChatChannel
invite_player p c = record c { invites = insert_id p.guid c.invites }

unfoldable pub remove_user : Player → ChatChannel → Bool × ChatChannel
remove_user p c =
    if has p.id c.users then (true, record c { users = erase_id p.id c.users }) else (false, c)

unfoldable pub exclude_player : Player → PrivateChatChannel → PrivateChatChannel
exclude_player p c =
    let (was_invited, d) = remove_invite p.guid c in
    if was_invited then record d { channel = (remove_user p d.channel).1 } else c

unfoldable pub add_user : Scripts → Player → ChatChannel → Bool × ChatChannel
add_user s p c =
    if has p.id c.users
    then (false, c)
    else (if s.on_join p.id c.id
        then (true, record c { users = insert_id p.id c.users })
        else (false, c))

-- Those that hear what a user of the channel says.
unfoldable pub talk : Player → ChatChannel → Option (List ℕ)
talk p c = if has p.id c.users then some c.users else none

pub has-remove_user :
    (i : ℕ) (p : Player) (c : ChatChannel)
    → has i (remove_user p c).1.users ≡ (not (i == p.id) && has i c.users)
unfolding remove_user
has-remove_user i p c = elim (Bool-cases (has p.id c.users)) [
  | inl e ↦ rw (e) (has-erase_id i p.id c.users)
  | inr e ↦ rw (e) (elim (Bool-cases (i == p.id)) [
    | inl f ↦ rw (f) (subst (λ j. has j c.users ≡ false) (sym ((==_iff i p.id).0 f)) e)
    | inr f ↦ rw (f) refl
  ])
]

pub has-add_user :
    (s : Scripts) (i : ℕ) (p : Player) (c : ChatChannel)
    → has i (add_user s p c).1.users ≡ true
    → (i ≡ p.id) ⊎ (has i c.users ≡ true)
unfolding add_user
has-add_user s i p c h =
    if-cases
      (λ (r : Bool × ChatChannel). has i r.1.users ≡ true → (i ≡ p.id) ⊎ (has i c.users ≡ true))
      (has p.id c.users) (false, c) _ (λ _ k. inr k)
      (λ _.
        if-both
          (λ (r : Bool × ChatChannel). has i r.1.users ≡ true → (i ≡ p.id) ⊎ (has i c.users ≡ true))
          (s.on_join p.id c.id) _ (false, c) (λ k. own (sym (has-insert_id i p.id c.users) ∙ k))
          (λ k. inr k))
      h
  where
    own : (i == p.id || has i c.users) ≡ true → (i ≡ p.id) ⊎ (has i c.users ≡ true)
    own k = ground (arith, k)
