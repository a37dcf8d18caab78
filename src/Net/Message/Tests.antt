-- ===== src/Net/Message/Tests.antt =====
-- Runs of the message operations, and the theorems on them at concrete messages.

use otx.Prelude.{
  ◌+◌, ◌*◌, ◌≡◌, refl, true, false, List, [], ◌∷◌, arith, ltb, if◌then◌else◌, store, load,
  store_all, load_all,
}
use otx.Net.Message.Encoding.{write_all, Field, u8, u32, str, pos}
use otx.Net.Message.Codec.{shapes, read_all, read_all-write_all, word, text}
use otx.Net.Message.Reads.{Alike, read_all-Alike, Agrees}
use otx.Net.Message.Bounds.{apply_all, apply_all-Wrote, Write, Wrote, bytes, string, padding, item}
use otx.Net.Message.{
  can_add, can_read, get, get_chars, get_string, add_byte, add, add_string, add_position, Message,
  ItemType,
}

abbrev blank : Message
blank = record { buffer = λ i. 0; length = 0; position = 8; overrun = false }

abbrev greeting : List Field
greeting = u8 0x1F ∷ u32 70000 ∷ str (72 ∷ 105 ∷ []) ∷ pos (record { x = 100; y = 200; z = 7 }) ∷ []

greeting_bytes :
    load_all 14 (write_all greeting blank).buffer 8
    ≡ 0x1F ∷ 112 ∷ 17 ∷ 1 ∷ 0 ∷ 2 ∷ 0 ∷ 72 ∷ 105 ∷ 100 ∷ 0 ∷ 200 ∷ 0 ∷ 7 ∷ []
unfolding load_all add_byte add add_string add_position store store_all can_add
greeting_bytes = refl

-- A string that claims 1000 bytes in a message of 4.
greedy :
    get_string 0 (record blank { buffer = λ i. 232 + 0 * i; length = 2 })
    ≡ ([], record blank { buffer = λ i. 232 + 0 * i; length = 2; position = 10; overrun = true })
unfolding get_string get get_chars can_read load
greedy = refl

read_all-write_all_example :
    read_all (shapes greeting) (record (write_all greeting blank) { position = 8 })
    ≡ (greeting, write_all greeting blank)
read_all-write_all_example =
    read_all-write_all greeting blank (omega arith) (omega arith) (omega arith)

abbrev sword : ItemType
sword = record {
  client_id = 3264;
  stackable = false;
  is_splash = false;
  is_fluid_container = false;
  is_animation = true;
}

abbrev writes : List Write
writes = item sword 1 ∷ string (79 ∷ 75 ∷ []) ∷ padding 3 ∷ bytes (1 ∷ 2 ∷ []) ∷ []

apply_all-Wrote_example : Wrote blank (apply_all writes blank)
apply_all-Wrote_example =
    apply_all-Wrote writes blank (tt, (tt, (omega arith, (tt, tt)))) (omega arith)

-- The same message over a buffer with other bytes behind its end.
abbrev dirty : Message
dirty = record blank { buffer = λ i. if ltb i 8 then 0 else 9; length = 0 }

dirty-Agrees : Agrees blank dirty
dirty-Agrees = record {
  same_length = refl;
  same_position = refl;
  same_overrun = refl;
  same_bytes = λ i h k. ground arith;
}

read_all-Alike_example :
    Alike (read_all (word ∷ text ∷ []) blank) (read_all (word ∷ text ∷ []) dirty)
read_all-Alike_example = read_all-Alike (word ∷ text ∷ []) blank dirty dirty-Agrees
