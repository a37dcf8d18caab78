-- ===== src/Access/Tests.antt =====
-- Runs of the throttle and of the waiting list, and the theorems on them at concrete inputs.

use otx.Prelude.Sets.{has}
use otx.Access.Throttle.{IpConnectMap, ConnectBlock}
use otx.Access.Throttle.Bursts.{Refuses, burst_refused}
use otx.Access.WaitingList.Admission.{Privileged, client_login-Admits}
use otx.Access.WaitingList.Places.{guids, waiting, client_login-Queues}
use otx.Access.WaitingList.Once.{client_login-WaitsOnce, WaitsOnce}
use otx.Prelude.{ℕ, ◌<◌, ◌≡◌, refl, ◌⊎◌, Bool, true, false, none, [], ◌∷◌, arith}
use otx.Access.WaitingList.{
  cleanup_list, find_from, find_client, erase, login_at, cleaned, client_login, get_client_slot,
  WaitListInfo, Client, in_priority, admitted, refused,
}

abbrev no_blocks : IpConnectMap
no_blocks ip = none

burst_refused_example : Refuses (10 ∷ 20 ∷ 30 ∷ 40 ∷ 500 ∷ []) 900 5 7 no_blocks
burst_refused_example =
    burst_refused 10 20 30 40 500 900 7 no_blocks refl
      (omega arith, (omega arith, (omega arith, (omega arith, (omega arith, tt)))))

abbrev blocked : ConnectBlock
blocked = record { last_attempt = 900; block_time = 3900; count = 0 }

abbrev player : ℕ → Bool → Client
player guid premium = record {
  guid = guid;
  can_always_login = false;
  is_gamemaster = false;
  is_premium = premium;
}

abbrev nobody : WaitListInfo
nobody = record { priority = []; regular = [] }

-- Two players come to a full server, then one of them again when a place is free.
abbrev crowd : WaitListInfo
crowd = record {
  priority = record { timeout = 90000; guid = 11 } ∷ [];
  regular = record { timeout = 90000; guid = 12 } ∷ record { timeout = 90000; guid = 13 } ∷ [];
}

crowd_admits : (client_login 70000 48 50 (player 12 false) crowd).0 ≡ admitted
unfolding client_login login_at find_client find_from cleanup_list
crowd_admits = refl

crowd_refuses : (client_login 70000 48 50 (player 13 false) crowd).0 ≡ refused
unfolding client_login login_at find_client find_from cleanup_list
crowd_refuses = refl

nobody_waits : (client_login 70000 49 50 (player 5 false) nobody).0 ≡ admitted
unfolding client_login
nobody_waits = refl

client_login-Admits_example : Privileged (player 5 false) ⊎ (◌≡◌ {A = ℕ} 50 0) ⊎ (49 < 50)
client_login-Admits_example = client_login-Admits 70000 49 50 (player 5 false) nobody nobody_waits

new_to_crowd : has 5 (waiting (cleaned 70000 crowd)) ≡ false
unfolding cleanup_list guids
new_to_crowd = refl

client_login-Queues_example :
    ((client_login 70000 50 50 (player 5 false) crowd).0 ≡ refused)
    × (get_client_slot 5 (client_login 70000 50 50 (player 5 false) crowd).1 ≡ 4)
unfolding cleanup_list
client_login-Queues_example =
    client_login-Queues 70000 50 50 (player 5 false) crowd refl (omega arith) (omega arith)
      new_to_crowd

first_in_crowd : find_client 11 (cleaned 70000 crowd) ≡ in_priority 1
unfolding find_client find_from cleanup_list
first_in_crowd = refl

-- Its place has come: the first of the priority list is let in and waits no more.
first_let_in :
    ((client_login 70000 40 50 (player 11 true) crowd).0 ≡ admitted)
    × (get_client_slot 11 (client_login 70000 40 50 (player 11 true) crowd).1 ≡ 0)
unfolding client_login login_at find_client find_from cleanup_list erase get_client_slot
first_let_in = (refl, refl)

crowd-WaitsOnce : WaitsOnce crowd
unfolding guids
crowd-WaitsOnce = record {
  first = (refl, tt);
  second = (refl, (refl, tt));
  apart = λ x m. ground arith;
}

client_login-WaitsOnce_example : WaitsOnce (client_login 70000 50 50 (player 5 true) crowd).1
client_login-WaitsOnce_example =
    client_login-WaitsOnce 70000 50 50 (player 5 true) crowd crowd-WaitsOnce
