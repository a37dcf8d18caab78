-- ===== src/Access/WaitingList/Once.antt =====
-- src/waitlist.cpp: no client waits twice.
use otx.Prelude.Sets.{
  has, IsDistinct, has-append, has_of_has-remove, remove-IsDistinct, append-IsDistinct,
}
use otx.Access.WaitingList.Places.{
  guids, waiting, guids-append, guids-renew, guids-erase, find_client-has,
}
use otx.Prelude.{
  ℕ, ◌+◌, ◌≡◌, refl, sym, ap, subst, ◌∙◌, true, false, ◌||◌, List, [], ◌∷◌, ◌++◌, arith, ◌==◌,
  length,
}
use otx.Access.WaitingList.{
  cleanup_list, find_client, renew, erase, deadline, enqueue, login_at, cleaned, client_login, Wait,
  WaitListInfo, Place, Client, in_priority, in_regular, absent,
}

-- No client has two places.
pub record WaitsOnce (info : WaitListInfo) : Type 0 where
  pub first : IsDistinct (guids info.priority)
  pub second : IsDistinct (guids info.regular)
  pub apart : (x : ℕ) → has x (guids info.priority) ≡ true → has x (guids info.regular) ≡ false

has-cleanup_list :
    (now x : ℕ) (ws : List Wait)
    → has x (guids (cleanup_list now ws)) ≡ true
    → has x (guids ws) ≡ true
unfolding guids cleanup_list
has-cleanup_list now x [] h = h
has-cleanup_list now x (w ∷ ws) h = ground (arith, has-cleanup_list now x ws)

cleanup_list-IsDistinct :
    (now : ℕ) (ws : List Wait) → IsDistinct (guids ws) → IsDistinct (guids (cleanup_list now ws))
unfolding guids cleanup_list
cleanup_list-IsDistinct now [] h = h
cleanup_list-IsDistinct now (w ∷ ws) h =
    ground (arith, has-cleanup_list now w.guid ws, cleanup_list-IsDistinct now ws h.1)

-- Lists with some of the clients.
fewer-WaitsOnce :
    (info less : WaitListInfo)
    → IsDistinct (guids less.priority)
    → IsDistinct (guids less.regular)
    → ((x : ℕ) → has x (guids less.priority) ≡ true → has x (guids info.priority) ≡ true)
    → ((x : ℕ) → has x (guids less.regular) ≡ true → has x (guids info.regular) ≡ true)
    → WaitsOnce info
    → WaitsOnce less
fewer-WaitsOnce info less d e p r h = record {
  first = d;
  second = e;
  apart = λ x m. ground (arith, p x m, r x, h.apart x);
}

cleaned-WaitsOnce : (now : ℕ) (info : WaitListInfo) → WaitsOnce info → WaitsOnce (cleaned now info)
cleaned-WaitsOnce now info h =
    fewer-WaitsOnce info (cleaned now info) (cleanup_list-IsDistinct now info.priority h.first)
      (cleanup_list-IsDistinct now info.regular h.second)
      (λ x. has-cleanup_list now x info.priority) (λ x. has-cleanup_list now x info.regular) h

erase-IsDistinct :
    (guid : ℕ) (ws : List Wait) → IsDistinct (guids ws) → IsDistinct (guids (erase guid ws))
erase-IsDistinct guid ws h =
    subst IsDistinct (sym (guids-erase guid ws)) (remove-IsDistinct guid (guids ws) h)

has-erase :
    (guid : ℕ) (ws : List Wait) (x : ℕ)
    → has x (guids (erase guid ws)) ≡ true
    → has x (guids ws) ≡ true
has-erase guid ws x h =
    has_of_has-remove x guid (guids ws) (ap (has x) (sym (guids-erase guid ws)) ∙ h)

renew-IsDistinct :
    (guid t : ℕ) (ws : List Wait) → IsDistinct (guids ws) → IsDistinct (guids (renew guid t ws))
renew-IsDistinct guid t ws h = subst IsDistinct (sym (guids-renew guid t ws)) h

has-renew :
    (guid t : ℕ) (ws : List Wait) (x : ℕ)
    → has x (guids (renew guid t ws)) ≡ true
    → has x (guids ws) ≡ true
has-renew guid t ws x h = ap (has x) (sym (guids-renew guid t ws)) ∙ h

-- A list with a newcomer at its end.
last-IsDistinct :
    (ws : List Wait) (w : Wait)
    → has w.guid (guids ws) ≡ false
    → IsDistinct (guids ws)
    → IsDistinct (guids (ws ++ w ∷ []))
unfolding guids
last-IsDistinct ws w h d =
    subst IsDistinct (sym (guids-append ws (w ∷ []))) (append-IsDistinct w.guid (guids ws) h d)

has-last :
    (x : ℕ) (ws : List Wait) (w : Wait)
    → has x (guids (ws ++ w ∷ [])) ≡ (has x (guids ws) || x == w.guid)
unfolding guids
has-last x ws w = ground (arith, guids-append ws (w ∷ []), has-append x (guids ws) (w.guid ∷ []))

join-WaitsOnce :
    (info : WaitListInfo) (w : Wait)
    → has w.guid (waiting info) ≡ false
    → WaitsOnce info
    → WaitsOnce (record info { priority = info.priority ++ w ∷ [] })
      × WaitsOnce (record info { regular = info.regular ++ w ∷ [] })
join-WaitsOnce info w h i =
    let (no_priority, no_regular) = neither in
    (
      record {
        first = last-IsDistinct info.priority w no_priority i.first;
        second = i.second;
        apart = λ x m. ground (arith, has-last x info.priority w, i.apart x, no_regular);
      },
      record {
        first = i.first;
        second = last-IsDistinct info.regular w no_regular i.second;
        apart = λ x m. ground (arith, has-last x info.regular w, i.apart x m, no_priority);
      },
    )
  where
    neither : (has w.guid (guids info.priority) ≡ false) × (has w.guid (guids info.regular) ≡ false)
    neither = ground (arith, has-append w.guid (guids info.priority) (guids info.regular))

login_at-WaitsOnce :
    (now online max_players : ℕ) (c : Client) (info : WaitListInfo) (p : Place)
    → (p ≡ absent → has c.guid (waiting info) ≡ false)
    → WaitsOnce info
    → WaitsOnce (login_at now online max_players c info p).1
unfolding login_at enqueue
login_at-WaitsOnce now online max_players c info (in_priority slot) a h = ground (
  arith,
  fewer-WaitsOnce info (record info { priority = erase c.guid info.priority })
      (erase-IsDistinct c.guid info.priority h.first) h.second (has-erase c.guid info.priority)
      (λ x m. m) h,
  fewer-WaitsOnce info (record info { priority = renew c.guid (deadline now slot) info.priority })
      (renew-IsDistinct c.guid (deadline now slot) info.priority h.first) h.second
      (has-renew c.guid (deadline now slot) info.priority) (λ x m. m) h,
)
login_at-WaitsOnce now online max_players c info (in_regular slot) a h = ground (
  arith,
  fewer-WaitsOnce info (record info { regular = erase c.guid info.regular }) h.first
      (erase-IsDistinct c.guid info.regular h.second) (λ x m. m) (has-erase c.guid info.regular) h,
  fewer-WaitsOnce info (record info { regular = renew c.guid (deadline now slot) info.regular })
      h.first (renew-IsDistinct c.guid (deadline now slot) info.regular h.second) (λ x m. m)
      (has-renew c.guid (deadline now slot) info.regular) h,
)
login_at-WaitsOnce now online max_players c info absent a h =
    let n = length info.priority in
    ground (
      arith,
      (join-WaitsOnce info (record { timeout = deadline now (n + 1); guid = c.guid }) (a refl) h).0,
      (join-WaitsOnce info
          (record { timeout = deadline now (n + length info.regular + 1); guid = c.guid }) (a refl)
          h).1,
    )

-- No login gives a client a second place in lists in which no client has two.
pub client_login-WaitsOnce :
    (now online max_players : ℕ) (c : Client) (info : WaitListInfo)
    → WaitsOnce info
    → WaitsOnce (client_login now online max_players c info).1
unfolding client_login
client_login-WaitsOnce now online max_players c info h = ground (
  arith,
  h,
  login_at-WaitsOnce now online max_players c (cleaned now info)
      (find_client c.guid (cleaned now info)) (find_client-has c.guid (cleaned now info))
      (cleaned-WaitsOnce now info h),
)
