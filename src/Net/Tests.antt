-- ===== src/Net/Tests.antt =====
-- Runs of the cipher, the checksum, the framing and the connection, and the theorems on them at
-- concrete inputs.

use otx.Prelude.{
  ℕ, ◌+◌, ◌-◌, ◌*◌, ◌%◌, ◌≤◌, ◌<◌, ◌≡◌, refl, ◌⊎◌, true, false, some, [], ◌∷◌, ◌++◌, arith, Bytes,
  load, load_all, IsByte, memory_of,
}
use otx.Net.Message.{max_size, length_header, Message}
use otx.Net.Xtea.{
  Key, scramble, first_term, second_term, encrypt_round, decrypt_round, repeat, encrypt_words,
  decrypt_words, blocks, encrypt_bytes, decrypt_bytes,
}
use otx.Net.Xtea.Blocks.{decrypt_bytes-encrypt_bytes}
use otx.Net.Adler.{sums, chunks, adler_checksum}
use otx.Net.Adler.Chunks.{adler32, adler_checksum-eq-adler32}
use otx.Net.Protocol.{on_send_message, Protocol}
use otx.Net.Protocol.Roundtrip.{unsent, arrived, on_send_message-Delivered, Delivered, IsOutgoing}
use otx.Net.Connection.{
  opened, close, accept, parse_size, parse_name_byte, parse_name, parse_header, send, rest,
  on_write_operation, handle_timeout, Connection, Config, connecting_stage1, connecting_stage2,
  read_header, read_body,
}
use otx.Net.Connection.Handshake.{parse_header-BodyFits, BodyFits}
use otx.Net.Connection.Outgoing.{
  run, accepted, run_queue, ClosesDrained, close-ClosesDrained, sends, written, closes,
}
use otx.Net.Output.{Output}

abbrev some_key : Key
some_key i = 0x01020304 * (i + 1)

decoded : decrypt_words some_key (encrypt_words some_key (0xDEADBEEF, 7)) ≡ (0xDEADBEEF, 7)
unfolding encrypt_words decrypt_words repeat encrypt_round decrypt_round first_term second_term
    scramble
decoded = refl

abbrev ramp : Bytes
ramp i = i % 256

ramp-IsByte : (i : ℕ) → IsByte (ramp i)
ramp-IsByte i = omega arith

decrypt_bytes-encrypt_bytes_example :
    ((i : ℕ)
      → 3 ≤ i
      → i < 3 + 8 * blocks 16
      → decrypt_bytes some_key 16 (encrypt_bytes some_key 16 ramp 3) 3 i ≡ ramp i)
    × ((i : ℕ)
        → (i < 3) ⊎ (3 + 8 * blocks 16 ≤ i)
        → (decrypt_bytes some_key 16 (encrypt_bytes some_key 16 ramp 3) 3 i
            ≡ encrypt_bytes some_key 16 ramp 3 i)
          × (encrypt_bytes some_key 16 ramp 3 i ≡ ramp i))
decrypt_bytes-encrypt_bytes_example =
    decrypt_bytes-encrypt_bytes some_key 16 ramp (encrypt_bytes some_key 16 ramp 3) 3 ramp-IsByte
      (λ i lo hi. refl)

-- The checksum of "Wikipedia".
abbrev wikipedia : Bytes
wikipedia = memory_of (87 ∷ 105 ∷ 107 ∷ 105 ∷ 112 ∷ 101 ∷ 100 ∷ 105 ∷ 97 ∷ [])

checksum : adler_checksum wikipedia 0 9 ≡ 0x11E60398
unfolding adler_checksum chunks sums
checksum = refl

adler_checksum-eq-adler32_example :
    (300 ≤ 24590 → adler_checksum ramp 0 300 ≡ adler32 (load_all 300 ramp 0))
    × (24590 < 300 → adler_checksum ramp 0 300 ≡ 0)
adler_checksum-eq-adler32_example = adler_checksum-eq-adler32 ramp 0 300 ramp-IsByte

abbrev game : Protocol
game = record {
  key = some_key;
  encryption_enabled = true;
  checksum_enabled = true;
  compact_crypt = false;
  raw_messages = false;
}

abbrev news : Message
news = record { buffer = ramp; length = 21; position = 29; overrun = false }

news-IsOutgoing : IsOutgoing news
news-IsOutgoing = record { cursor = refl; room = omega arith; are_bytes = ramp-IsByte }

on_send_message-Delivered_example :
    (sent : Output) × (on_send_message game (unsent news 5 false) ≡ some sent)
    × (sent.start ≡ 0)
    × ((wire : Bytes)
        → ((i : ℕ) → i < sent.msg.length → wire i ≡ sent.msg.buffer i)
        → (load 2 wire 0 + 2 ≡ sent.msg.length)
          × (0 < load 2 wire 0)
          × (load 2 wire 0 < max_size - 16)
          × Delivered game news (arrived wire))
on_send_message-Delivered_example =
    on_send_message-Delivered game game news 5 false
      (record { cooked = refl; encrypts = refl; marks = refl }) refl refl news-IsOutgoing

abbrev config : Config
config = record { max_packets_per_second = 25; server_name = 79 ∷ 84 ∷ 88 ∷ [] }

-- A game connection whose client has sent "OT" and now "X".
abbrev greeted : Connection
greeted = record (opened (memory_of (88 ∷ 84 ∷ [])) 100) {
  state = connecting_stage2;
  has_protocol = true;
  is_game_protocol = true;
  received_name = true;
  server_name_time = 1;
}

third_byte : (parse_header config 101 false greeted).1 ≡ read_header 1
unfolding parse_header parse_name parse_name_byte accept opened
third_byte = refl

-- Ten bytes are announced.
abbrev announced : Connection
announced = record greeted {
  state = connecting_stage1;
  msg = record (greeted.msg) { buffer = memory_of (10 ∷ 0 ∷ []) };
}

ten_bytes : (parse_header config 101 false announced).1 ≡ read_body 10
unfolding parse_header parse_name parse_size length_header load opened
ten_bytes = refl

parse_header-BodyFits_example : BodyFits (parse_header config 101 false announced)
parse_header-BodyFits_example = parse_header-BodyFits config 101 false announced

run_queue_example :
    (run
        (sends (unsent news 0 false) ∷ sends (unsent news 1 false) ∷ closes ∷ written ∷ [])
        greeted).on_socket
      ++ rest
          (run
            (sends (unsent news 0 false) ∷ sends (unsent news 1 false) ∷ closes ∷ written ∷ [])
            greeted).last.queue
    ≡ rest greeted.queue
      ++ accepted
          (sends (unsent news 0 false) ∷ sends (unsent news 1 false) ∷ closes ∷ written ∷ [])
          greeted
run_queue_example =
    run_queue (sends (unsent news 0 false) ∷ sends (unsent news 1 false) ∷ closes ∷ written ∷ [])
      greeted

close-ClosesDrained_example :
    ClosesDrained (close false greeted)
    × ClosesDrained (send (unsent news 0 false) greeted).0
    × ClosesDrained (on_write_operation true greeted).0
    × ClosesDrained (handle_timeout greeted)
unfolding opened
close-ClosesDrained_example =
    close-ClosesDrained false true (unsent news 0 false) greeted (λ dead e. cc)
