-- ===== src/Net/Xtea.antt =====
-- The block cipher of src/protocol.cpp: the XTEA loops of `XTEA_encrypt` and `XTEA_decrypt`. The
-- words are `uint32_t`; each operation's wrap is written out.
pub mod Words
pub mod Blocks
use otx.Prelude.{ℕ, zero, suc, ◌+◌, ◌-◌, ◌*◌, ◌/◌, ◌%◌, ◌^◌, bit_and, bit_xor, Bytes, store, load}

abbrev pub wrap32 : ℕ → ℕ
wrap32 n = n % 2 ^ 32

-- a - b on `uint32_t`.
abbrev pub minus32 : ℕ → ℕ → ℕ
minus32 a b = (a + 2 ^ 32 - b % 2 ^ 32) % 2 ^ 32

abbrev pub delta : ℕ
delta = 0x61C88647

-- The four words of the key, by index.
abbrev pub Key : Type 0
Key = ℕ → ℕ

-- (v << 4 ^ v >> 5) + v
unfoldable pub scramble : ℕ → ℕ
scramble v = wrap32 (bit_xor (wrap32 (v * 2 ^ 4)) (v / 2 ^ 5) + v)

-- What is added to the first word in a round, and to the second.
unfoldable pub first_term : Key → ℕ → ℕ → ℕ
first_term k v sum = bit_xor (scramble v) (wrap32 (sum + k (bit_and sum 3)))

unfoldable pub second_term : Key → ℕ → ℕ → ℕ
second_term k v sum = bit_xor (scramble v) (wrap32 (sum + k (bit_and (sum / 2 ^ 11) 3)))

-- The variables of the loop over the rounds.
pub record Rounds : Type 0 where
  pub v0 : ℕ
  pub v1 : ℕ
  pub sum : ℕ

unfoldable pub encrypt_round : Key → Rounds → Rounds
encrypt_round k r =
    let v0 = wrap32 (r.v0 + first_term k r.v1 r.sum) in
    let sum = minus32 r.sum delta in
    record { v0 = v0; v1 = wrap32 (r.v1 + second_term k v0 sum); sum = sum }

unfoldable pub decrypt_round : Key → Rounds → Rounds
decrypt_round k r =
    let v1 = minus32 r.v1 (second_term k r.v0 r.sum) in
    let sum = wrap32 (r.sum + delta) in
    record { v0 = minus32 r.v0 (first_term k v1 sum); v1 = v1; sum = sum }

unfoldable pub repeat : ℕ → (Rounds → Rounds) → Rounds → Rounds
repeat zero step r = r
repeat (suc n) step r = repeat n step (step r)

-- The 32 rounds on one block of two words.
unfoldable pub encrypt_words : Key → ℕ × ℕ → ℕ × ℕ
encrypt_words k (v0, v1) =
    let r = repeat 32 (encrypt_round k) (record { v0 = v0; v1 = v1; sum = 0 }) in (r.v0, r.v1)

unfoldable pub decrypt_words : Key → ℕ × ℕ → ℕ × ℕ
decrypt_words k (v0, v1) =
    let r = repeat 32 (decrypt_round k) (record { v0 = v0; v1 = v1; sum = 0xC6EF3720 }) in
    (r.v0, r.v1)

-- One pass of the loop over the blocks: two words are loaded, coded and stored back.
unfoldable pub on_block : (ℕ × ℕ → ℕ × ℕ) → Bytes → ℕ → Bytes
on_block code b p =
    let (w0, w1) = code (load 4 b p, load 4 b (p + 4)) in store 4 (store 4 b p w0) (p + 4) w1

-- `while (readPos < messageLength)`, by the number of blocks that are left.
unfoldable pub each_block : (ℕ × ℕ → ℕ × ℕ) → ℕ → Bytes → ℕ → Bytes
each_block code zero b p = b
each_block code (suc n) b p = each_block code n (on_block code b p) (p + 8)

-- The rounds of that loop for a length in bytes.
abbrev pub blocks : ℕ → ℕ
blocks len = (len + 7) / 8

unfoldable pub encrypt_bytes : Key → ℕ → Bytes → ℕ → Bytes
encrypt_bytes k len b p = each_block (encrypt_words k) (blocks len) b p

unfoldable pub decrypt_bytes : Key → ℕ → Bytes → ℕ → Bytes
decrypt_bytes k len b p = each_block (decrypt_words k) (blocks len) b p
