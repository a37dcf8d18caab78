-- ===== src/Net/Protocol.antt =====
-- src/protocol.h and src/protocol.cpp: the encryption of outgoing and the decryption of incoming
-- messages around the handlers of a protocol. `parsePacket` is a protocol's own: here a message
-- that reaches it is the result.
pub mod Roundtrip
use otx.Prelude.{
  ℕ, ◌+◌, ◌-◌, ◌%◌, Bool, true, false, Option, none, some, ltb, leb, ◌==◌, if◌then◌else◌, length,
  Bytes,
}
use otx.Net.Message.{max_body_length, get_byte, get, add_padding_bytes, Message}
use otx.Net.Xtea.{Key, encrypt_bytes, decrypt_bytes}
use otx.Net.Output.{◌>>=◌, write_message_length, add_crypto_header, Output}

pub record Protocol : Type 0 where
  pub key : Key
  pub encryption_enabled : Bool
  pub checksum_enabled : Bool
  pub compact_crypt : Bool
  pub raw_messages : Bool

-- The padding of `XTEA_encrypt` to a multiple of 8 bytes.
unfoldable pub pad : Message → Message
unfolding add_padding_bytes
pad m = let over = m.length % 8 in if over == 0 then m else add_padding_bytes (8 - over) m

unfoldable pub xtea_encrypt : Key → Output → Output
xtea_encrypt k o =
    let m = pad o.msg in
    record o { msg = record m { buffer = encrypt_bytes k m.length m.buffer o.start } }

-- The message as decryption leaves it, before its inner length is read. The test of
-- `(length - 6) & 7` is on an `int`, of which the low bits are those of `length + 2`.
unfoldable pub decrypted : Key → Message → Message
decrypted k m = record m { buffer = decrypt_bytes k (m.length - 6) m.buffer m.position }

-- The end of `XTEA_decrypt`: `innerLength > length - 8` compares as `int`.
unfoldable pub with_inner_length : ℕ × Message → Bool × Message
with_inner_length (inner, m) =
    if ltb m.length (inner + 8) then (false, m) else (true, record m { length = inner })

unfoldable pub xtea_decrypt : Key → Message → Bool × Message
unfolding with_inner_length decrypted
xtea_decrypt k m =
    if (m.length + 2) % 8 == 0 then with_inner_length (get 2 (decrypted k m)) else (false, m)

unfoldable pub on_send_message : Protocol → Output → Option Output
on_send_message pr o =
    if pr.raw_messages
    then some o
    else write_message_length o >>= λ o'.
        if pr.encryption_enabled
        then add_crypto_header
            (if pr.compact_crypt then 2 else if pr.checksum_enabled then 1 else 0)
            (xtea_encrypt pr.key o')
        else some o'

-- `none`: the message is dropped.
unfoldable pub on_recv_message : Protocol → Message → Option Message
on_recv_message pr m =
    if pr.encryption_enabled
    then (let (done, m') = xtea_decrypt pr.key m in if done then some m' else none)
    else some m

-- The RSA decryption of a block in place is the library's; the first byte must come out 0.
unfoldable pub rsa_decrypt : (Bytes → ℕ → Bytes) → Message → Bool × Message
rsa_decrypt rsa m =
    if ltb m.length (m.position + 128)
    then (false, m)
    else let (b, m') = get_byte (record m { buffer = rsa m.buffer m.position }) in (b == 0, m')

-- `getOutputBuffer`: whether the current buffer, if there is one, still takes `size` bytes.
unfoldable pub get_output_buffer : Option Output → ℕ → Output → Output
get_output_buffer none size new = new
get_output_buffer (some o) size new =
    if leb (o.msg.length + size) (max_body_length - 10) then o else new
