-- ===== src/Access/WaitingList.antt =====
-- src/waitlist.cpp: the two queues of clients in front of a full server. The clock, the
-- configuration and the number of players online are arguments. Times are in milliseconds.
pub mod Admission
pub mod Places
pub mod Once
use otx.Prelude.{
  ℕ, ◌+◌, ◌-◌, ◌*◌, ◌%◌, ◌^◌, Bool, true, false, ◌&&◌, ◌||◌, Option, none, some, List, [], ◌∷◌,
  ◌++◌, ltb, leb, ◌==◌, if◌then◌else◌, length,
}

pub record Wait : Type 0 where
  pub timeout : ℕ
  pub guid : ℕ

pub record WaitListInfo : Type 0 where
  pub priority : List Wait
  pub regular : List Wait

-- The test of `cleanupList`. The difference of a `std::size_t` and an `int64_t` is unsigned, so
-- `<= 0` asks whether it is 0.
abbrev pub is_removed : ℕ → Wait → Bool
is_removed now w = leb ((w.timeout + 2 ^ 64 - now) % 2 ^ 64) 0

unfoldable pub cleanup_list : ℕ → List Wait → List Wait
cleanup_list now [] = []
cleanup_list now (w ∷ ws) =
    let rest = cleanup_list now ws in if is_removed now w then rest else w ∷ rest

unfoldable pub get_time : ℕ → ℕ
get_time slot =
    if ltb slot 5
    then 5
    else if ltb slot 10
    then 10
    else if ltb slot 20
    then 20
    else if ltb slot 50
    then 60
    else 120

unfoldable pub get_timeout : ℕ → ℕ
get_timeout slot = get_time slot + 15

-- The place of a client in one list, counted from a first slot.
unfoldable pub find_from : ℕ → ℕ → List Wait → Option ℕ
find_from guid slot [] = none
find_from guid slot (w ∷ ws) =
    let rest = find_from guid (slot + 1) ws in if w.guid == guid then some slot else rest

-- Where `findClient` finds a client.
pub data Place : Type 0 where
  in_priority in_regular : ℕ → Place
  absent : Place

unfoldable pub find_client : ℕ → WaitListInfo → Place
find_client guid info = elim (find_from guid 1 info.priority) [
  | some slot ↦ in_priority slot
  | none ↦ elim (find_from guid (length info.priority + 1) info.regular) [
    | some slot ↦ in_regular slot
    | none ↦ absent
  ]
]

-- What the login knows of a player.
pub record Client : Type 0 where
  pub guid : ℕ
  pub can_always_login : Bool
  pub is_gamemaster : Bool
  pub is_premium : Bool

pub data Login : Type 0 where
  admitted refused : Login

-- The entry of a client with a new timeout, and the list without it.
unfoldable pub renew : ℕ → ℕ → List Wait → List Wait
renew guid timeout [] = []
renew guid timeout (w ∷ ws) =
    let rest = renew guid timeout ws in
    if w.guid == guid then record w { timeout = timeout } ∷ ws else w ∷ rest

unfoldable pub erase : ℕ → List Wait → List Wait
erase guid [] = []
erase guid (w ∷ ws) = let rest = erase guid ws in if w.guid == guid then ws else w ∷ rest

abbrev pub deadline : ℕ → ℕ → ℕ
deadline now slot = (now + get_timeout slot * 1000) % 2 ^ 64

-- The end of `clientLogin`, for a client that does not wait yet.
unfoldable pub enqueue : ℕ → Client → WaitListInfo → Login × WaitListInfo
enqueue now c info =
    let n = length info.priority in
    if c.is_premium
    then (
      refused,
      record info {
        priority = info.priority ++ record { timeout = deadline now (n + 1); guid = c.guid } ∷ [];
      },
    )
    else (
      refused,
      record info {
        regular =
            info.regular
            ++ record { timeout = deadline now (n + length info.regular + 1); guid = c.guid } ∷ [];
      },
    )

-- What is done with a client by its place. A client of the priority list is erased through the other
-- list, `info->waitList.erase(it)`, which C++ leaves undefined; here its entry goes from the list
-- that holds it, as a linked list unlinks it.
unfoldable pub login_at : ℕ → ℕ → ℕ → Client → WaitListInfo → Place → Login × WaitListInfo
login_at now online max_players c info (in_priority slot) =
    if leb (online + slot) max_players
    then (admitted, record info { priority = erase c.guid info.priority })
    else (refused, record info { priority = renew c.guid (deadline now slot) info.priority })
login_at now online max_players c info (in_regular slot) =
    if leb (online + slot) max_players
    then (admitted, record info { regular = erase c.guid info.regular })
    else (refused, record info { regular = renew c.guid (deadline now slot) info.regular })
login_at now online max_players c info absent = enqueue now c info

abbrev pub is_empty : List Wait → Bool
is_empty [] = true
is_empty (w ∷ ws) = false

abbrev pub cleaned : ℕ → WaitListInfo → WaitListInfo
cleaned now info = record {
  priority = cleanup_list now info.priority;
  regular = cleanup_list now info.regular;
}

unfoldable pub client_login : ℕ → ℕ → ℕ → Client → WaitListInfo → Login × WaitListInfo
client_login now online max_players c info =
    if c.can_always_login || c.is_gamemaster
    then (admitted, info)
    else if max_players == 0
        || is_empty info.priority && is_empty info.regular && ltb online max_players
    then (admitted, info)
    else login_at now online max_players c (cleaned now info)
        (find_client c.guid (cleaned now info))

unfoldable pub get_client_slot : ℕ → WaitListInfo → ℕ
get_client_slot guid info = elim (find_client guid info) [
  | in_priority slot ↦ slot
  | in_regular slot ↦ slot
  | absent ↦ 0
]
