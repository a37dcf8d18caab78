-- ===== src/Access/WaitingList/Admission.antt =====
-- src/waitlist.cpp: who is let in, and what the clean-up of the queues keeps.

use otx.Prelude.{
  ℕ, ◌+◌, ◌^◌, ◌≤◌, ◌<◌, ◌≡◌, refl, ◌⊎◌, true, ◌||◌, some, List, [], ◌∷◌, arith, length, All,
}
use otx.Access.WaitingList.{
  cleanup_list, find_from, find_client, enqueue, login_at, cleaned, client_login, Wait,
  WaitListInfo, Place, Client, in_priority, in_regular, absent, admitted,
}

pub find_from-Within : (guid s : ℕ) (ws : List Wait) (k : ℕ) → find_from guid s ws ≡ some k → s ≤ k
unfolding find_from
find_from-Within guid s [] k h = cc
find_from-Within guid s (w ∷ ws) k h = ground (arith, find_from-Within guid (s + 1) ws k)

-- The client may enter without a place in the queue.
abbrev pub Privileged : Client → Type 0
Privileged c = (c.can_always_login || c.is_gamemaster) ≡ true

find_client-regular :
    (guid : ℕ) (info : WaitListInfo) (slot : ℕ) → find_client guid info ≡ in_regular slot → 1 ≤ slot
unfolding find_client
find_client-regular guid info slot h =
    ground (arith, find_from-Within guid (length info.priority + 1) info.regular slot)

find_client-priority :
    (guid : ℕ) (info : WaitListInfo) (slot : ℕ)
    → find_client guid info ≡ in_priority slot
    → 1 ≤ slot
unfolding find_client
find_client-priority guid info slot h = ground (arith, find_from-Within guid 1 info.priority slot)

login_at-HasRoom :
    (now online max_players : ℕ) (c : Client) (info : WaitListInfo) (p : Place)
    → ((slot : ℕ) → p ≡ in_priority slot → 1 ≤ slot)
    → ((slot : ℕ) → p ≡ in_regular slot → 1 ≤ slot)
    → (login_at now online max_players c info p).0 ≡ admitted
    → online < max_players
unfolding login_at enqueue
login_at-HasRoom now online max_players c info (in_priority slot) k h e =
    ground (arith, k slot refl)
login_at-HasRoom now online max_players c info (in_regular slot) k h e = ground (arith, h slot refl)
login_at-HasRoom now online max_players c info absent k h e = ground arith

-- A client is let in only if it is privileged, the number of players has no bound, or fewer
-- players than the bound are online.
pub client_login-Admits :
    (now online max_players : ℕ) (c : Client) (info : WaitListInfo)
    → (client_login now online max_players c info).0 ≡ admitted
    → Privileged c ⊎ (max_players ≡ 0) ⊎ (online < max_players)
unfolding client_login
client_login-Admits now online max_players c info e = ground (
  arith,
  login_at-HasRoom now online max_players c (cleaned now info)
      (find_client c.guid (cleaned now info)) (find_client-priority c.guid (cleaned now info))
      (find_client-regular c.guid (cleaned now info)),
)

-- The clean-up removes nobody from a list in which every time has run out before the present
-- millisecond.
pub cleanup_list-Kept :
    (now : ℕ) (ws : List Wait)
    → now < 2 ^ 64
    → All (λ w. w.timeout < now) ws
    → cleanup_list now ws ≡ ws
unfolding cleanup_list
cleanup_list-Kept now [] b h = refl
cleanup_list-Kept now (w ∷ ws) b h = ground (arith, cleanup_list-Kept now ws b h.1)
