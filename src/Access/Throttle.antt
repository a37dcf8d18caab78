-- ===== src/Access/Throttle.antt =====
-- `Ban::acceptConnection` of src/ban.cpp: a limit on the connections of one address. Times are
-- milliseconds; a clock that goes back counts as no time passed, in the source as a negative
-- difference.
pub mod Bursts
use otx.Prelude.{ℕ, ◌+◌, ◌-◌, Bool, true, false, Option, none, some, ltb, leb, ◌==◌, if◌then◌else◌}

pub record ConnectBlock : Type 0 where
  pub last_attempt : ℕ
  pub block_time : ℕ
  pub count : ℕ

-- `std::map<uint32_t, ConnectBlock>`.
abbrev pub IpConnectMap : Type 0
IpConnectMap = ℕ → Option ConnectBlock

abbrev pub set_block : ℕ → ConnectBlock → IpConnectMap → IpConnectMap
set_block ip b m j = if j == ip then some b else m j

-- What happens to a block that is known.
unfoldable pub attempt : ℕ → ConnectBlock → Bool × ConnectBlock
attempt now b =
    if ltb now b.block_time
    then (false, record b { block_time = b.block_time + 250 })
    else (let diff = now - b.last_attempt in
        let c = record b { last_attempt = now } in
        if leb diff 5000
        then (if ltb 5 (b.count + 1)
            then (if leb diff 500
                then (false, record c { count = 0; block_time = now + 3000 })
                else (true, record c { count = 0 }))
            else (true, record c { count = b.count + 1 }))
        else (true, record c { count = 1 }))

unfoldable pub accept_connection : ℕ → ℕ → IpConnectMap → Bool × IpConnectMap
accept_connection now ip m = elim (m ip) [
  | none ↦ (true, set_block ip (record { last_attempt = now; block_time = 0; count = 1 }) m)
  | some b ↦ let (ok, b') = attempt now b in (ok, set_block ip b' m)
]
