-- ===== src/Net/Adler.antt =====
-- `adlerChecksum` of src/tools.cpp: Adler-32 in chunks of 5552 bytes, with `uint32_t` sums that are
-- reduced once for each chunk.
pub mod Chunks
use otx.Prelude.{ℕ, zero, suc, ◌+◌, ◌-◌, ◌*◌, ◌%◌, ◌^◌, ltb, if◌then◌else◌, Bytes}

abbrev pub adler_mod : ℕ
adler_mod = 65521

abbrev pub chunk : ℕ
chunk = 5552

abbrev pub wrap32 : ℕ → ℕ
wrap32 n = n % 2 ^ 32

-- `do { a += *bytes++; b += a; } while (--tmp);` for `n` bytes.
unfoldable pub sums : ℕ → Bytes → ℕ → ℕ × ℕ → ℕ × ℕ
sums zero bytes p (a, b) = (a, b)
sums (suc n) bytes p (a, b) =
    let a' = wrap32 (a + bytes p) in sums n bytes (p + 1) (a', wrap32 (b + a'))

abbrev pub reduced : ℕ × ℕ → ℕ × ℕ
reduced (a, b) = (a % adler_mod, b % adler_mod)

-- `while (length > 0)`, on fuel for the chunks.
unfoldable pub chunks : ℕ → ℕ → Bytes → ℕ → ℕ × ℕ → ℕ × ℕ
chunks zero len bytes p s = s
chunks (suc fuel) len bytes p s =
    let tmp = if ltb chunk len then chunk else len in
    let rest = chunks fuel (len - tmp) bytes (p + tmp) (reduced (sums tmp bytes p s)) in
    if ltb 0 len then rest else s

-- The checksum; the halves of `(b << 16) | a` do not overlap, so their sum is taken. The loop
-- takes a byte at least in each round: the length is fuel enough.
unfoldable pub adler_checksum : Bytes → ℕ → ℕ → ℕ
adler_checksum bytes p len =
    if ltb 24590 len
    then 0
    else let (a, b) = chunks len len bytes p (1, 0) in wrap32 (b * 2 ^ 16) + a
