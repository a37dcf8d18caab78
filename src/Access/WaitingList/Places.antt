-- ===== src/Access/WaitingList/Places.antt =====
-- src/waitlist.cpp: the places in the queues.
use otx.Prelude.Sets.{has, remove, has-append}
use otx.Prelude.{
  ℕ, ◌+◌, ◌≤◌, ◌≡◌, refl, false, ◌||◌, none, some, List, [], ◌∷◌, ◌++◌, arith, if◌then◌else◌,
  length,
}
use otx.Access.WaitingList.{
  cleanup_list, find_from, find_client, renew, erase, deadline, enqueue, login_at, cleaned,
  client_login, get_client_slot, Wait, WaitListInfo, Client, absent, refused,
}

-- The clients of a list, and of both lists in the order of their places.
unfoldable pub guids : List Wait → List ℕ
guids [] = []
guids (w ∷ ws) = w.guid ∷ guids ws

abbrev pub waiting : WaitListInfo → List ℕ
waiting info = guids info.priority ++ guids info.regular

pub guids-append : (ws vs : List Wait) → guids (ws ++ vs) ≡ guids ws ++ guids vs
unfolding guids
guids-append [] vs = refl
guids-append (w ∷ ws) vs = cc (guids-append ws vs)

pub guids-renew : (guid timeout : ℕ) (ws : List Wait) → guids (renew guid timeout ws) ≡ guids ws
unfolding guids renew
guids-renew guid timeout [] = refl
guids-renew guid timeout (w ∷ ws) = ground (arith, guids-renew guid timeout ws)

pub guids-erase : (guid : ℕ) (ws : List Wait) → guids (erase guid ws) ≡ remove guid (guids ws)
unfolding guids erase
guids-erase guid [] = refl
guids-erase guid (w ∷ ws) = ground (arith, guids-erase guid ws)

-- The first place of a client is none exactly when it is not in the list.
find_from-has :
    (guid s : ℕ) (ws : List Wait) → find_from guid s ws ≡ none → has guid (guids ws) ≡ false
unfolding find_from guids
find_from-has guid s [] h = refl
find_from-has guid s (w ∷ ws) h = ground (arith, find_from-has guid (s + 1) ws)

find_from-absent :
    (guid s : ℕ) (ws : List Wait) → has guid (guids ws) ≡ false → find_from guid s ws ≡ none
unfolding find_from guids
find_from-absent guid s [] h = refl
find_from-absent guid s (w ∷ ws) h = ground (arith, find_from-absent guid (s + 1) ws)

find_from-last :
    (guid s timeout : ℕ) (ws : List Wait)
    → has guid (guids ws) ≡ false
    → find_from guid s (ws ++ record { timeout = timeout; guid = guid } ∷ []) ≡ some (s + length ws)
unfolding find_from guids
find_from-last guid s timeout [] h = ground arith
find_from-last guid s timeout (w ∷ ws) h = ground (arith, find_from-last guid (s + 1) timeout ws)

find_client-absent :
    (guid : ℕ) (info : WaitListInfo)
    → has guid (waiting info) ≡ false
    → find_client guid info ≡ absent
unfolding find_client
find_client-absent guid info h = ground (
  arith,
  has-append guid (guids info.priority) (guids info.regular),
  find_from-absent guid 1 info.priority,
  find_from-absent guid (length info.priority + 1) info.regular,
)

pub find_client-has :
    (guid : ℕ) (info : WaitListInfo)
    → find_client guid info ≡ absent
    → has guid (waiting info) ≡ false
unfolding find_client
find_client-has guid info h = ground (
  arith,
  has-append guid (guids info.priority) (guids info.regular),
  find_from-has guid 1 info.priority,
  find_from-has guid (length info.priority + 1) info.regular,
)

enqueue-last :
    (now : ℕ) (c : Client) (info : WaitListInfo)
    → has c.guid (waiting info) ≡ false
    → ((enqueue now c info).0 ≡ refused)
      × (get_client_slot c.guid (enqueue now c info).1
          ≡ length info.priority + (if c.is_premium then 0 else length info.regular) + 1)
unfolding enqueue get_client_slot find_client
enqueue-last now c info h = ground (
  arith,
  has-append c.guid (guids info.priority) (guids info.regular),
  find_from-last c.guid 1 (deadline now (length info.priority + 1)) info.priority,
  find_from-last c.guid (length info.priority + 1)
      (deadline now (length info.priority + length info.regular + 1)) info.regular,
  find_from-absent c.guid 1 info.priority,
)

-- A client without privileges that comes to a full server and does not wait yet is refused, and
-- gets the last place: behind all waiting clients, or behind the clients of the priority list if
-- it has a premium account.
pub client_login-Queues :
    (now online max_players : ℕ) (c : Client) (info : WaitListInfo)
    → (c.can_always_login || c.is_gamemaster) ≡ false
    → 1 ≤ max_players
    → max_players ≤ online
    → has c.guid (waiting (cleaned now info)) ≡ false
    → ((client_login now online max_players c info).0 ≡ refused)
      × (get_client_slot c.guid (client_login now online max_players c info).1
          ≡ length (cleanup_list now info.priority)
            + (if c.is_premium then 0 else length (cleanup_list now info.regular))
            + 1)
unfolding client_login login_at
client_login-Queues now online max_players c info p m f h =
    ground (
      arith,
      find_client-absent c.guid (cleaned now info) h,
      enqueue-last now c (cleaned now info) h,
    )
