-- ===== src/Net/Connection/NameIndex.antt =====
-- The index `serverNameTime` into the server's name while a client sends it.
use otx.Prelude.{
  ℕ, zero, suc, ◌+◌, ◌/◌, ◌%◌, ◌^◌, ◌≤◌, ◌<◌, ◌≡◌, refl, ap, ◌≢◌, inl, inr, Bool, true, false, not,
  ◌&&◌, some, List, [], ◌∷◌, ◌++◌, arith, ltb, ◌==◌, Bool-cases, if-both, length, length-append,
}
use otx.Net.Connection.{
  is_disconnected, is_stage2, close, started, accept, char_at, sent_name, time_passed, parse_size,
  parse_name_byte, parse_name_start, parse_name, counted, parse_header, ConnectionState, Connection,
  Request, Config, disconnected, connecting_stage1, connecting_stage2, game, pending, nothing,
  fault,
}

-- While the connection lives and receives the name, the index that the next byte is compared at is
-- inside the name with its newline.
abbrev pub IsNaming : Config → Connection → Type 0
IsNaming cfg c =
    is_disconnected c.state ≡ false
    → c.received_name ≡ true
    → c.received_last_char ≡ false
    → c.server_name_time + 1 < length (sent_name cfg)

-- No read outside of the name, and the next index is good again.
pub record NamesWell (cfg : Config) (r : Connection × Request) : Type 0 where
  pub inside : r.1 ≢ fault
  pub keeps : IsNaming cfg r.0

char_at-inside : (xs : List ℕ) (i : ℕ) → i < length xs → (x : ℕ) × (char_at xs i ≡ some x)
char_at-inside [] i h = absurd (omega arith)
char_at-inside (x ∷ xs) zero h = (x, refl)
char_at-inside (x ∷ xs) (suc i) h = char_at-inside xs i (omega arith)

char_at-last : (xs : List ℕ) (x : ℕ) → char_at (xs ++ x ∷ []) (length xs) ≡ some x
char_at-last [] x = refl
char_at-last (y ∷ xs) x = char_at-last xs x

started-live : (s : ConnectionState) → is_disconnected (started s) ≡ is_disconnected s
started-live disconnected = refl
started-live connecting_stage1 = refl
started-live connecting_stage2 = refl
started-live game = refl
started-live pending = refl

accept-NamesWell : (cfg : Config) (c : Connection) → IsNaming cfg c → NamesWell cfg (accept c)
unfolding accept
accept-NamesWell cfg c h = record {
  inside = ground arith;
  keeps = ground (arith, h, started-live c.state);
}

parse_size-NamesWell :
    (cfg : Config) (now : ℕ) (c : Connection) → IsNaming cfg c → NamesWell cfg (parse_size now c)
unfolding parse_size close
parse_size-NamesWell cfg now c h = record { inside = ground arith; keeps = ground (arith, h) }

parse_name_byte-NamesWell :
    (cfg : Config) (c : Connection)
    → c.server_name_time < length (sent_name cfg)
    → NamesWell cfg (parse_name_byte cfg c)
unfolding parse_name_byte close
parse_name_byte-NamesWell cfg c h =
    let t = c.server_name_time in
    let (x, found) = char_at-inside (sent_name cfg) t h in
    let last = char_at-last cfg.server_name 0x0A in
    let size = length-append cfg.server_name (0x0A ∷ []) in
    let ends = accept-NamesWell cfg (record c { received_last_char = true }) (λ a b e. cc) in
    elim (Bool-cases (c.msg.buffer 0 == x)) [
      | inr miss ↦
          rw (found, parse_name_byte) (rw miss (record { inside = λ e. cc; keeps = λ a b e. cc }))
      | inl hit ↦ elim (Bool-cases (c.msg.buffer 0 == 0x0A)) [
        | inl nl ↦ rw (found, parse_name_byte) (rw (hit, nl) ends)
        | inr more ↦
            rw (found, parse_name_byte)
              (rw (hit, more)
                (accept-NamesWell cfg c (λ a b e. ground (
                  arith,
                  found,
                  last,
                  size,
                  ap (char_at (sent_name cfg)) {x = t} {y = length cfg.server_name},
                ))))
      ]
    ]

parse_name_start-NamesWell :
    (cfg : Config) (c : Connection)
    → 2 ≤ length cfg.server_name
    → NamesWell cfg (parse_name_start cfg c)
unfolding parse_name_start close
parse_name_start-NamesWell cfg c h =
    let size = length-append cfg.server_name (0x0A ∷ []) in
    let (x, first) = char_at-inside (sent_name cfg) 0 (omega (arith, size)) in
    let (y, second) = char_at-inside (sent_name cfg) 1 (omega (arith, size)) in
    let named =
      accept-NamesWell cfg (record c { received_name = true; server_name_time = 1 })
        (λ a b e. omega (arith, size)) in
    elim (Bool-cases (c.msg.buffer 0 == x && c.msg.buffer 1 == y)) [
      | inl hit ↦ rw (first, second, parse_name_start) (rw hit named)
      | inr miss ↦
          rw (first, second, parse_name_start)
            (rw miss (record { inside = λ e. cc; keeps = λ a b e. cc }))
    ]

parse_name-NamesWell :
    (cfg : Config) (now : ℕ) (c : Connection)
    → 2 ≤ length cfg.server_name
    → length cfg.server_name + 2 < 2 ^ 32
    → is_disconnected c.state ≡ false
    → IsNaming cfg c
    → NamesWell cfg (parse_name cfg now c)
unfolding parse_name
parse_name-NamesWell cfg now c long short live h =
    let size = length-append cfg.server_name (0x0A ∷ []) in
    elim (Bool-cases (not c.received_last_char && is_stage2 c.state)) [
      | inr other ↦ rw other (parse_size-NamesWell cfg now c h)
      | inl naming ↦ elim (Bool-cases (not c.received_name && c.msg.buffer 1 == 0)) [
        | inl old ↦
            rw (naming, old)
              (parse_size-NamesWell cfg now (record c { received_last_char = true }) (λ a b e. cc))
        | inr new ↦ elim (Bool-cases c.received_name) [
          | inr no_name ↦ rw (naming, new, ap not no_name) (parse_name_start-NamesWell cfg c long)
          | inl name ↦
              let t : c.server_name_time + 1 < length (sent_name cfg) =
                h live name (ground (arith, naming)) in
              rw (naming, new, ap not name)
                (parse_name_byte-NamesWell cfg
                  (record c { server_name_time = (c.server_name_time + 1) % 2 ^ 32 })
                  (omega (arith, t, size)))
        ]
      ]
    ]

-- While a client sends the server's name byte by byte, the index into the name never leaves it, for
-- every server name of at least two bytes: no header makes the connection read outside of the name,
-- and the index stays within the name and its newline as long as the connection lives and expects
-- more of the name.
pub parse_header-NamesWell :
    (cfg : Config) (now : ℕ) (error : Bool) (c : Connection)
    → 2 ≤ length cfg.server_name
    → length cfg.server_name + 2 < 2 ^ 32
    → IsNaming cfg c
    → NamesWell cfg (parse_header cfg now error c)
unfolding parse_header close
parse_header-NamesWell cfg now error c long short h = elim (Bool-cases error) [
  | inl e ↦ rw e (record { inside = λ f. cc; keeps = λ a b f. cc })
  | inr e ↦ elim (Bool-cases (is_disconnected c.state)) [
    | inl dead ↦ rw (e, dead) (record { inside = λ f. cc; keeps = h })
    | inr live ↦
        rw (e, live)
          (if-both (NamesWell cfg)
            (ltb (cfg.max_packets_per_second % 2 ^ 32)
                ((counted c).packets_sent / time_passed now c)
              && c.is_game_protocol)
            (close false (counted c), nothing) (parse_name cfg now (counted c))
            (record { inside = λ f. cc; keeps = λ a b f. cc })
            (parse_name-NamesWell cfg now (counted c) long short live h))
  ]
]
