-- ===== src/Access/Throttle/Bursts.antt =====
-- Which sequences of attempts are refused.
use otx.Prelude.{
  ℕ, zero, suc, ◌+◌, ◌≤◌, ◌<◌, ◌≡◌, refl, sym, ap, subst, ◌≢◌, Bool, true, false, none, some, List,
  [], ◌∷◌, ◌++◌, arith, length,
}
use otx.Access.Throttle.{IpConnectMap, set_block, attempt, accept_connection, ConnectBlock}

-- The answers to attempts of one address at the given times, and the map behind them.
abbrev pub attempts : List ℕ → ℕ → IpConnectMap → List Bool × IpConnectMap
attempts [] ip m = ([], m)
attempts (t ∷ ts) ip m =
    let (ok, m₁) = accept_connection t ip m in let (oks, m₂) = attempts ts ip m₁ in (ok ∷ oks, m₂)

abbrev pub AllTrue : List Bool → Type 0
AllTrue [] = Unit {0}
AllTrue (b ∷ bs) = (b ≡ true) × AllTrue bs

-- Each time is more than half a second after the one before.
abbrev pub IsPatient : ℕ → List ℕ → Type 0
IsPatient last [] = Unit {0}
IsPatient last (t ∷ ts) = (last + 500 < t) × IsPatient t ts

set_block_self : (ip : ℕ) (b : ConnectBlock) (m : IpConnectMap) → set_block ip b m ip ≡ some b
set_block_self ip b m = ground arith

patient_attempt :
    (now : ℕ) (b : ConnectBlock)
    → b.block_time ≡ 0
    → b.last_attempt + 500 < now
    → ((attempt now b).0 ≡ true)
      × ((attempt now b).1.block_time ≡ 0)
      × ((attempt now b).1.last_attempt ≡ now)
unfolding attempt
patient_attempt now b open_ gap = (ground arith, ground arith, ground arith)

patient_from :
    (ts : List ℕ) (ip : ℕ) (m : IpConnectMap) (b : ConnectBlock)
    → m ip ≡ some b
    → b.block_time ≡ 0
    → IsPatient b.last_attempt ts
    → AllTrue (attempts ts ip m).0
unfolding accept_connection
patient_from [] ip m b e open_ p = tt
patient_from (t ∷ ts) ip m b e open_ (gap, rest) =
    let (ok, unblocked, last) = patient_attempt t b open_ gap in
    let b' = (attempt t b).1 in
    rw (e, accept_connection)
      (
        ok,
        patient_from ts ip (set_block ip b' m) b' (set_block_self ip b' m) unblocked
            (subst (λ l. IsPatient l ts) (sym last) rest),
      )

-- An address that was not seen before and lets more than half a second pass between attempts is
-- never refused, however many attempts it makes.
pub patient_accepted :
    (t : ℕ) (ts : List ℕ) (ip : ℕ) (m : IpConnectMap)
    → m ip ≡ none
    → IsPatient t ts
    → AllTrue (attempts (t ∷ ts) ip m).0
unfolding accept_connection
patient_accepted t ts ip m new p =
    let b : ConnectBlock = record { last_attempt = t; block_time = 0; count = 1 } in
    rw (new, accept_connection)
      (refl, patient_from ts ip (set_block ip b m) b (set_block_self ip b m) refl p)

-- Each time is at most half a second after the one before.
abbrev pub IsBurst : ℕ → List ℕ → Type 0
IsBurst last [] = Unit {0}
IsBurst last (t ∷ ts) = (t ≤ last + 500) × IsBurst t ts

abbrev pub trues : ℕ → List Bool
trues zero = []
trues (suc n) = true ∷ trues n

early_attempt :
    (now : ℕ) (b : ConnectBlock)
    → b.block_time ≡ 0
    → now ≤ b.last_attempt + 500
    → b.count + 1 ≤ 5
    → attempt now b ≡ (true, record b { last_attempt = now; count = b.count + 1 })
unfolding attempt
early_attempt now b open_ near low = ground arith

sixth_attempt :
    (now : ℕ) (b : ConnectBlock)
    → b.block_time ≡ 0
    → now ≤ b.last_attempt + 500
    → b.count ≡ 5
    → attempt now b ≡ (false, record { last_attempt = now; block_time = now + 3000; count = 0 })
unfolding attempt
sixth_attempt now b open_ near five = ground arith

-- The answers to a burst, and the block that it leads to.
abbrev pub Refuses : List ℕ → ℕ → ℕ → ℕ → IpConnectMap → Type 0
Refuses ts t k ip m =
    let (answers, m') = attempts (ts ++ t ∷ []) ip m in
    (answers ≡ trues k ++ false ∷ [])
    × (m' ip ≡ some (record { last_attempt = t; block_time = t + 3000; count = 0 }))

accept_known :
    (now ip : ℕ) (m : IpConnectMap) (b : ConnectBlock) (ok : Bool) (c : ConnectBlock)
    → m ip ≡ some b
    → attempt now b ≡ (ok, c)
    → accept_connection now ip m ≡ (ok, set_block ip c m)
unfolding accept_connection
accept_known now ip m b ok c e a = rw (e, accept_connection, a) refl

accept_new :
    (now ip : ℕ) (m : IpConnectMap)
    → m ip ≡ none
    → accept_connection now ip m
      ≡ (true, set_block ip (record { last_attempt = now; block_time = 0; count = 1 }) m)
unfolding accept_connection
accept_new now ip m e = rw (e, accept_connection) refl

burst_from :
    (ts : List ℕ) (t ip : ℕ) (m : IpConnectMap) (b : ConnectBlock)
    → m ip ≡ some b
    → b.block_time ≡ 0
    → b.count + length ts ≡ 5
    → IsBurst b.last_attempt (ts ++ t ∷ [])
    → Refuses ts t (length ts) ip m
burst_from [] t ip m b e open_ five p =
    let c : ConnectBlock = record { last_attempt = t; block_time = t + 3000; count = 0 } in
    rw (accept_known t ip m b false c e (sixth_attempt t b open_ p.0 (omega arith)))
      (refl, set_block_self ip c m)
burst_from (s ∷ ts) t ip m b e open_ five (near, rest) =
    let c : ConnectBlock = record b { last_attempt = s; count = b.count + 1 } in
    let ih =
      burst_from ts t ip (set_block ip c m) c (set_block_self ip c m) open_ (omega arith) rest in
    subst
      (λ (r : Bool × IpConnectMap).
        ((r.0 ∷ (attempts (ts ++ t ∷ []) ip r.1).0) ≡ true ∷ (trues (length ts) ++ false ∷ []))
        × ((attempts (ts ++ t ∷ []) ip r.1).1 ip
            ≡ some (record { last_attempt = t; block_time = t + 3000; count = 0 })))
      (sym (accept_known s ip m b true c e (early_attempt s b open_ near (omega arith))))
      (ap (◌∷◌ true) ih.0, ih.1)

-- Of six attempts of a new address, each at most half a second after the one before, the first five
-- are accepted and the sixth is refused, and blocks the address for three seconds from then on.
pub burst_refused :
    (t₁ t₂ t₃ t₄ t₅ t₆ ip : ℕ) (m : IpConnectMap)
    → m ip ≡ none
    → IsBurst t₁ (t₂ ∷ t₃ ∷ t₄ ∷ t₅ ∷ t₆ ∷ [])
    → Refuses (t₁ ∷ t₂ ∷ t₃ ∷ t₄ ∷ t₅ ∷ []) t₆ 5 ip m
burst_refused t₁ t₂ t₃ t₄ t₅ t₆ ip m new p =
    let b : ConnectBlock = record { last_attempt = t₁; block_time = 0; count = 1 } in
    let ih =
      burst_from (t₂ ∷ t₃ ∷ t₄ ∷ t₅ ∷ []) t₆ ip (set_block ip b m) b (set_block_self ip b m) refl
        (omega arith) p in
    rw (accept_new t₁ ip m new) (ap (◌∷◌ true) ih.0, ih.1)

-- While an address is blocked every attempt is refused and prolongs the block by a quarter of a
-- second; the block of every other address is left alone, whatever the answer.
pub blocked_refused :
    (now ip other : ℕ) (m : IpConnectMap) (b : ConnectBlock)
    → m ip ≡ some b
    → now < b.block_time
    → other ≢ ip
    → ((accept_connection now ip m).0 ≡ false)
      × ((accept_connection now ip m).1 ip ≡ some (record b { block_time = b.block_time + 250 }))
      × ((accept_connection now ip m).1 other ≡ m other)
unfolding accept_connection attempt
blocked_refused now ip other m b e early apart =
    rw (e, accept_connection) (ground arith, ground arith, ground arith)
