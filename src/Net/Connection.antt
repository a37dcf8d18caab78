-- ===== src/Net/Connection.antt =====
-- src/connection.h and src/connection.cpp: the handlers of one client's socket. The socket, the
-- timers and the locks are the library's; a handler returns the new state with the call that it
-- makes on the socket, and the clock is an argument.
pub mod Handshake
pub mod NameIndex
pub mod Outgoing
use otx.Prelude.{
  ℕ, zero, suc, ◌+◌, ◌-◌, ◌/◌, ◌%◌, ◌^◌, max, Bool, true, false, not, ◌&&◌, ◌||◌, Option, none,
  some, List, [], ◌∷◌, ◌++◌, ltb, leb, ◌==◌, if◌then◌else◌, length, Bytes,
}
use otx.Net.Message.{max_size, initial_position, wrap16, length_header, at_body, Message}
use otx.Net.Output.{Output}

pub data ConnectionState : Type 0 where
  disconnected connecting_stage1 connecting_stage2 game pending : ConnectionState

abbrev pub is_disconnected : ConnectionState → Bool
is_disconnected disconnected = true
is_disconnected _ = false

abbrev pub is_stage2 : ConnectionState → Bool
is_stage2 connecting_stage2 = true
is_stage2 _ = false

pub record Connection : Type 0 where
  pub state : ConnectionState
  pub msg : Message
  pub queue : List Output
  pub socket_open : Bool
  pub has_protocol : Bool
  pub is_game_protocol : Bool
  pub time_connected : ℕ
  pub packets_sent : ℕ
  pub received_first : Bool
  pub server_name_time : ℕ
  pub received_name : Bool
  pub received_last_char : Bool

-- The state that the constructor gives at a time.
unfoldable pub opened : Bytes → ℕ → Connection
opened bytes now = record {
  state = pending;
  msg = record { buffer = bytes; length = 0; position = initial_position; overrun = false };
  queue = [];
  socket_open = true;
  has_protocol = false;
  is_game_protocol = false;
  time_connected = now;
  packets_sent = 0;
  received_first = false;
  server_name_time = 0;
  received_name = false;
  received_last_char = false;
}

-- What a handler asks of the socket; `fault` is a read of the server's name out of its range.
pub data Request : Type 0 where
  read_header read_body : ℕ → Request
  write : Output → Request
  nothing fault : Request

abbrev pub is_empty {ℓ} : {A : Type ℓ} → List A → Bool
is_empty [] = true
is_empty (x ∷ xs) = false

unfoldable pub close : Bool → Connection → Connection
close force c = record c {
  state = disconnected;
  socket_open = if is_empty c.queue || force then false else c.socket_open;
}

abbrev closed : Bool → Connection → Connection × Request
closed force c = (close force c, nothing)

abbrev pub started : ConnectionState → ConnectionState
started pending = connecting_stage1
started s = s

-- `accept()`: the next header, of one byte while the server's name is received.
unfoldable pub accept : Connection → Connection × Request
accept c =
    let d = record c { state = started c.state } in
    if not d.received_last_char && d.received_name && is_stage2 d.state
    then (d, read_header 1)
    else (d, read_header 2)

-- `accept(protocol)`, for a protocol whose server speaks first.
unfoldable pub accept_protocol : Bool → Connection → Connection × Request
accept_protocol is_game c =
    accept (record c { state = connecting_stage2; has_protocol = true; is_game_protocol = is_game })

pub record Config : Type 0 where
  pub max_packets_per_second : ℕ
  pub server_name : List ℕ

-- `serverName[i]` of a `std::string`: the terminator at its end, undefined behind it.
abbrev pub char_at : List ℕ → ℕ → Option ℕ
char_at [] zero = some 0
char_at [] (suc i) = none
char_at (x ∷ xs) zero = some x
char_at (x ∷ xs) (suc i) = char_at xs i

abbrev pub sent_name : Config → List ℕ
sent_name cfg = cfg.server_name ++ 0x0A ∷ []

-- `static_cast<uint32_t>` of the `int64_t` difference; times are below 2 ^ 63.
abbrev pub time_passed : ℕ → Connection → ℕ
time_passed now c = max 1 ((now + 1 + 2 ^ 64 - c.time_connected) % 2 ^ 32)

-- The end of `parseHeader`: the packet counter and the size of the body.
unfoldable pub parse_size : ℕ → Connection → Connection × Request
parse_size now c =
    let c₁ = if c.received_last_char && is_stage2 c.state then record c { state = game } else c in
    let c₂ =
      if ltb 2 (time_passed now c)
      then record c₁ { time_connected = now; packets_sent = 0 }
      else c₁ in
    let size = length_header c₂.msg in
    if size == 0 || leb (max_size - 16) size then closed true c₂ else (
      record c₂ { msg = at_body (record (c₂.msg) { length = wrap16 (size + 2) }) },
      read_body size,
    )

-- A byte of the server's name after the first two; the index has been advanced.
unfoldable pub parse_name_byte : Config → Connection → Connection × Request
parse_name_byte cfg c = elim (char_at (sent_name cfg) c.server_name_time) [
  | none ↦ (c, fault)
  | some x ↦
      if c.msg.buffer 0 == x
      then accept (if c.msg.buffer 0 == 0x0A then record c { received_last_char = true } else c)
      else closed true c
]

-- The first two bytes of the server's name.
unfoldable pub parse_name_start : Config → Connection → Connection × Request
parse_name_start cfg c = elim (char_at (sent_name cfg) 0) [
  | none ↦ (c, fault)
  | some x ↦ elim (char_at (sent_name cfg) 1) [
    | none ↦ if c.msg.buffer 0 == x then (c, fault) else closed true c
    | some y ↦
        if c.msg.buffer 0 == x && c.msg.buffer 1 == y
        then accept (record c { received_name = true; server_name_time = 1 })
        else closed true c
  ]
]

-- The exchange of the server's name, before the first message of a game connection.
unfoldable pub parse_name : Config → ℕ → Connection → Connection × Request
parse_name cfg now c =
    if not c.received_last_char && is_stage2 c.state
    then (if not c.received_name && c.msg.buffer 1 == 0
        then parse_size now (record c { received_last_char = true })
        else if not c.received_name
        then parse_name_start cfg c
        else parse_name_byte cfg
            (record c { server_name_time = (c.server_name_time + 1) % 2 ^ 32 }))
    else parse_size now c

abbrev pub counted : Connection → Connection
counted c = record c { packets_sent = (c.packets_sent + 1) % 2 ^ 32 }

unfoldable pub parse_header : Config → ℕ → Bool → Connection → Connection × Request
parse_header cfg now error c =
    if error
    then closed true c
    else if is_disconnected c.state
    then (c, nothing)
    else if ltb (cfg.max_packets_per_second % 2 ^ 32) ((counted c).packets_sent / time_passed now c)
        && c.is_game_protocol
    then closed false (counted c)
    else parse_name cfg now (counted c)

-- `send`: only a message that finds the queue empty goes to the socket at once. The socket's own
-- failure to take it (`system_error`), which closes the connection by force, is left out.
unfoldable pub send : Output → Connection → Connection × Request
send o c =
    if is_disconnected c.state
    then (c, nothing)
    else (record c { queue = c.queue ++ o ∷ [] }, if is_empty c.queue then write o else nothing)

abbrev pub rest {ℓ} : {A : Type ℓ} → List A → List A
rest [] = []
rest (x ∷ xs) = xs

-- `onWriteOperation`: the front message was written, or failed.
abbrev pub next_write : List Output → Connection → Connection × Request
next_write [] c =
    if is_disconnected c.state
    then (record c { queue = []; socket_open = false }, nothing)
    else (record c { queue = [] }, nothing)
next_write (o ∷ os) c = (record c { queue = o ∷ os }, write o)

unfoldable pub on_write_operation : Bool → Connection → Connection × Request
on_write_operation error c =
    if error then closed true (record c { queue = [] }) else next_write (rest c.queue) c

-- The timer ran out.
unfoldable pub handle_timeout : Connection → Connection
handle_timeout c = close true c
