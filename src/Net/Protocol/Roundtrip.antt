-- ===== src/Net/Protocol/Roundtrip.antt =====
-- What one side sends, the other side with the same key receives.

use otx.Prelude.{
  ℕ, zero, suc, ◌+◌, ◌-◌, ◌*◌, ◌%◌, ◌^◌, ◌≤◌, ◌<◌, ◌≡◌, refl, ◌∙◌, inl, inr, Bool, true, false,
  ◌||◌, some, arith, Bool-cases, Bytes, poke, store, load, fill, IsByte, store_outside,
  fill_outside, load_ext, load-store, store-IsByte,
}
use otx.Net.Message.{max_size, max_body_length, initial_position, wrap16, get, Message}
use otx.Net.Xtea.{Key, blocks, encrypt_bytes, decrypt_bytes}
use otx.Net.Xtea.Blocks.{decrypt_bytes-encrypt_bytes}
use otx.Net.Output.{add_header, write_message_length, crypto_header, add_crypto_header, Output}
use otx.Net.Adler.{adler_checksum}
use otx.Net.Protocol.{pad, xtea_encrypt, xtea_decrypt, on_send_message, on_recv_message, Protocol}

abbrev AreBytes : Bytes → Type 0
AreBytes b = (i : ℕ) → IsByte (b i)

-- A message padded to whole blocks behind its cursor.
record Padded (m n : Message) : Type 0 where
  whole : n.length % 8 ≡ 0
  longer : m.length ≤ n.length
  short : n.length < m.length + 8
  kept : (i : ℕ) → i < m.position → n.buffer i ≡ m.buffer i
  are_bytes : AreBytes n.buffer

fill-AreBytes : (n : ℕ) (b : Bytes) (p : ℕ) → AreBytes b → AreBytes (fill n b p 0x33)
unfolding fill
fill-AreBytes zero b p h = h
fill-AreBytes (suc n) b p h = fill-AreBytes n (poke b p 0x33) (p + 1) (λ i. ground (arith, h i))

pad-Padded :
    (m : Message)
    → m.position + 8 < max_body_length
    → m.length + 8 < 2 ^ 16
    → AreBytes m.buffer
    → Padded m (pad m)
unfolding pad
pad-Padded m room small h =
    let n = 8 - m.length % 8 in
    record {
      whole = ground arith;
      longer = ground arith;
      short = ground arith;
      kept = λ i lt. ground (arith, fill_outside n m.buffer m.position 0x33 i);
      are_bytes = λ i. ground (arith, h i, fill-AreBytes n m.buffer m.position h i);
    }

-- An outgoing message that no header was put in front of.
abbrev pub unsent : Message → ℕ → Bool → Output
unsent m sequence is_broadcast = record {
  msg = m;
  start = initial_position;
  sequence = sequence;
  is_broadcast = is_broadcast;
}

-- The message behind its length header.
abbrev counted : Message → Message
counted m = record m { buffer = store 2 m.buffer 6 m.length; length = wrap16 (m.length + 2) }

-- The message that is sent, but for the value in the second header.
abbrev sealed : Key → Message → ℕ → ℕ → Bool → Output
sealed k m v sequence is_broadcast =
    let n = pad (counted m) in
    let c = store 4 (encrypt_bytes k n.length n.buffer 6) 2 v in
    record {
      msg = record n {
        buffer = store 2 c 0 (wrap16 (n.length + 4));
        length = wrap16 (wrap16 (n.length + 4) + 2);
      };
      start = 0;
      sequence = sequence;
      is_broadcast = is_broadcast;
    }

-- A protocol whose messages carry one of the two second headers.
pub record IsSealing (pr : Protocol) : Type 0 where
  pub cooked : pr.raw_messages ≡ false
  pub encrypts : pr.encryption_enabled ≡ true
  pub marks : (pr.compact_crypt || pr.checksum_enabled) ≡ true

on_send_message-sealed :
    (pr : Protocol) (m : Message) (sequence : ℕ) (is_broadcast : Bool)
    → IsSealing pr
    → (v : ℕ) × (s : ℕ) × (on_send_message pr (unsent m sequence is_broadcast)
        ≡ some (sealed pr.key m v s is_broadcast))
unfolding on_send_message write_message_length add_header add_crypto_header crypto_header
    xtea_encrypt
on_send_message-sealed pr m sequence is_broadcast h = elim (Bool-cases pr.compact_crypt) [
  | inl e ↦ (sequence, (sequence + 1) % 2 ^ 32, rw (h.cooked, h.encrypts, e) refl)
  | inr e ↦
      let n = pad (counted m) in
      let on : pr.checksum_enabled ≡ true = ground (arith, h.marks, e) in
      (
        adler_checksum (encrypt_bytes pr.key n.length n.buffer 6) 6 n.length,
        sequence,
        rw (h.cooked, h.encrypts, e, on) refl,
      )
]

-- The message of a connection when the two header bytes were read and the body is in place.
abbrev pub arrived : Bytes → Message
arrived wire = record {
  buffer = wire;
  length = wrap16 (load 2 wire 0 + 2);
  position = 2;
  overrun = false;
}

-- The receiving side: a message for the protocol's handler with the sender's bytes.
pub record Delivered (pr : Protocol) (m : Message) (r : Message) : Type 0 where
  pub received : Message
  pub accepted : on_recv_message pr (get 4 r).1 ≡ some received
  pub same_length : received.length ≡ m.length
  pub at_body : received.position ≡ 8
  pub same_bytes : (i : ℕ) → 8 ≤ i → i < 8 + m.length → received.buffer i ≡ m.buffer i
  pub no_overrun : received.overrun ≡ false

-- A message that may be sent: the cursor behind its bytes, and room for the padding.
pub record IsOutgoing (m : Message) : Type 0 where
  pub cursor : m.position ≡ m.length + 8
  pub room : m.length + 16 < max_body_length
  pub are_bytes : (i : ℕ) → IsByte (m.buffer i)

module _ (k : Key) (m : Message) (v s : ℕ) (bc : Bool) (ok : IsOutgoing m) where
  abbrev n : Message
  n = pad (counted m)

  n-Padded : Padded (counted m) n
  n-Padded =
      pad-Padded (counted m) (omega (arith, ok.cursor, ok.room)) (omega (arith, ok.room))
        (store-IsByte 2 m.buffer 6 m.length ok.are_bytes)

  n-length : (n.length % 8 ≡ 0) × (m.length + 2 ≤ n.length) × (n.length < m.length + 10)
  n-length = omega (arith, n-Padded.whole, n-Padded.longer, n-Padded.short, ok.room)

  sealed-length : (sealed k m v s bc).msg.length ≡ n.length + 6
  sealed-length = omega (arith, n-length, ok.room)

  -- The bytes of the padded message: the length, then those of the message.
  n-bytes : (i : ℕ) → 8 ≤ i → i < 8 + m.length → n.buffer i ≡ m.buffer i
  n-bytes i lo hi =
      n-Padded.kept i (omega (arith, ok.cursor))
      ∙ store_outside 2 m.buffer 6 m.length i (inr (omega arith))

  n-header : load 2 n.buffer 6 ≡ m.length
  n-header =
      load_ext 2 n.buffer (counted m).buffer 6
        (λ i lo hi. n-Padded.kept i (omega (arith, ok.cursor)))
      ∙ load-store 2 m.buffer 6 m.length (omega (arith, ok.room))

  module _ (wire : Bytes)
      (carried : (i : ℕ)
        → i < (sealed k m v s bc).msg.length
        → wire i ≡ (sealed k m v s bc).msg.buffer i) where
    wire-header : load 2 wire 0 ≡ n.length + 4
    wire-header =
        load_ext 2 wire (sealed k m v s bc).msg.buffer 0
          (λ i lo hi. carried i (omega (arith, sealed-length)))
        ∙ load-store 2 _ 0 (wrap16 (n.length + 4)) (omega arith)
        ∙ omega (arith, n-length, ok.room)

    wire-coded :
        (i : ℕ)
        → 6 ≤ i
        → i < 6 + 8 * blocks n.length
        → wire i ≡ encrypt_bytes k n.length n.buffer 6 i
    wire-coded i lo hi =
        carried i (omega (arith, sealed-length, n-length))
        ∙ store_outside 2 _ 0 (wrap16 (n.length + 4)) i (inr (omega arith))
        ∙ store_outside 4 (encrypt_bytes k n.length n.buffer 6) 2 v i (inr lo)

    -- The buffer as decryption leaves it.
    abbrev plain : Bytes
    plain = decrypt_bytes k n.length wire 6

    plain-n : (i : ℕ) → 6 ≤ i → i < 6 + 8 * blocks n.length → plain i ≡ n.buffer i
    plain-n =
        (decrypt_bytes-encrypt_bytes k n.length n.buffer wire 6 n-Padded.are_bytes wire-coded).0

    plain-header : load 2 plain 6 ≡ m.length
    plain-header =
        load_ext 2 plain n.buffer 6 (λ i lo hi. plain-n i lo (omega (arith, n-length))) ∙ n-header

    -- The message that the handler gets.
    abbrev result : Message
    result = record { buffer = plain; length = m.length; position = 8; overrun = false }

    get-arrived : (get 4 (arrived wire)).1 ≡ record (arrived wire) { position = 6 }
    unfolding get
    get-arrived = ground (arith, wire-header, n-length, ok.room)

    xtea_decrypt-arrived : xtea_decrypt k (record (arrived wire) { position = 6 }) ≡ (true, result)
    unfolding xtea_decrypt get
    xtea_decrypt-arrived =
        let counts : wrap16 (load 2 wire 0 + 2) ≡ n.length + 6 =
          omega (arith, wire-header, n-length, ok.room) in
        let body : wrap16 (load 2 wire 0 + 2) - 6 ≡ n.length = omega (arith, counts) in
        rw body (ground (arith, wire-header, n-length, ok.room, plain-header))

    delivered :
        (pr : Protocol) → pr.key ≡ k → pr.encryption_enabled ≡ true → Delivered pr m (arrived wire)
    unfolding on_recv_message
    delivered pr same on = record {
      received = result;
      accepted = rw (get-arrived, on, same, xtea_decrypt-arrived) refl;
      same_length = refl;
      at_body = refl;
      same_bytes = λ i lo hi. plain-n i (omega arith) (omega (arith, n-length)) ∙ n-bytes i lo hi;
      no_overrun = refl;
    }

-- A message that an encrypting protocol sends, with a checksum or a sequence number in its header,
-- is sent from the buffer's first byte, its length header counts the bytes behind it and passes the
-- connection's test of the size, and a protocol with the same key that gets these bytes hands its
-- handler a message of the same length and the same bytes, with the cursor at the first of them:
-- for any message whose cursor stands behind its bytes and that leaves 16 bytes below the limit.
pub on_send_message-Delivered :
    (pr peer : Protocol) (m : Message) (sequence : ℕ) (is_broadcast : Bool)
    → IsSealing pr
    → peer.key ≡ pr.key
    → peer.encryption_enabled ≡ true
    → IsOutgoing m
    → (sent : Output) × (on_send_message pr (unsent m sequence is_broadcast) ≡ some sent)
      × (sent.start ≡ 0)
      × ((wire : Bytes)
          → ((i : ℕ) → i < sent.msg.length → wire i ≡ sent.msg.buffer i)
          → (load 2 wire 0 + 2 ≡ sent.msg.length)
            × (0 < load 2 wire 0)
            × (load 2 wire 0 < max_size - 16)
            × Delivered peer m (arrived wire))
on_send_message-Delivered pr peer m sequence bc h same on ok =
    let (v, s, sends) = on_send_message-sealed pr m sequence bc h in
    (
      sealed pr.key m v s bc,
      sends,
      refl,
      λ wire carried.
          let header = wire-header pr.key m v s bc ok wire carried in
          let whole = sealed-length pr.key m v s bc ok in
          let bounds = n-length pr.key m v s bc ok in
          (
            omega (arith, header, whole),
            omega (arith, header),
            omega (arith, header, bounds, ok.room),
            delivered pr.key m v s bc ok wire carried peer same on,
          ),
    )
