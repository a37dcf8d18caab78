-- ===== src/Net/Output.antt =====
-- src/outputmessage.h: an outgoing message, whose headers are put in front of its bytes.
use otx.Prelude.{
  ℕ, ◌+◌, ◌-◌, ◌%◌, ◌^◌, Bool, false, Option, none, some, leb, ◌==◌, if◌then◌else◌, Bytes, store,
  store_all, load_all,
}
use otx.Net.Message.{initial_position, wrap16, Message}
use otx.Net.Adler.{adler_checksum}

-- The message with the first byte to send, the sequence number, and the broadcast mark.
pub record Output : Type 0 where
  pub msg : Message
  pub start : ℕ
  pub sequence : ℕ
  pub is_broadcast : Bool

-- A message from the pool, over whatever bytes its memory has.
unfoldable pub fresh : Bytes → Output
fresh bytes = record {
  msg = record { buffer = bytes; length = 0; position = initial_position; overrun = false };
  start = initial_position;
  sequence = 0;
  is_broadcast = false;
}

infixl 5 ◌>>=◌
abbrev pub ◌>>=◌ {ℓ κ} : {A : Type ℓ} {B : Type κ} → Option A → (A → Option B) → Option B
none >>= k = none
some a >>= k = k a

-- `add_header` of an `n`-byte number; `none` is the failed assertion.
unfoldable pub add_header : ℕ → ℕ → Output → Option Output
add_header n v o =
    if leb n o.start
    then some (record o {
      msg = record (o.msg) {
        buffer = store n o.msg.buffer (o.start - n) v;
        length = wrap16 (o.msg.length + n);
      };
      start = o.start - n;
    })
    else none

unfoldable pub write_message_length : Output → Option Output
write_message_length o = add_header 2 o.msg.length o

-- The header that the argument asks for: 1 a checksum, 2 the sequence number.
unfoldable pub crypto_header : ℕ → Output → Option Output
crypto_header kind o =
    if kind == 1
    then add_header 4 (adler_checksum o.msg.buffer o.start o.msg.length) o
    else if kind == 2
    then add_header 4 o.sequence (record o { sequence = (o.sequence + 1) % 2 ^ 32 })
    else some o

unfoldable pub add_crypto_header : ℕ → Output → Option Output
add_crypto_header kind o = crypto_header kind o >>= write_message_length

-- `append`: the body of another message behind the cursor, with no test of the room.
unfoldable pub append : Message → Output → Output
append m o = record o {
  msg = record (o.msg) {
    buffer = store_all (load_all m.length m.buffer 8) o.msg.buffer o.msg.position;
    length = wrap16 (o.msg.length + m.length);
    position = wrap16 (o.msg.position + m.length);
  };
}
