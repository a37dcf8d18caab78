-- ===== src/Net/Message/Codec.antt =====
-- Reading what was written: the fields of a message come back in order.
use otx.Net.Message.Encoding.{
  encode, encode_all, write_all, IsField, appended, IsWriter, write_all-appends, Field, u8, u16,
  u32, u64, str, pos,
}
use otx.Prelude.{
  ℕ, ◌+◌, ◌^◌, ◌≤◌, ◌<◌, ◌≡◌, ap, subst, ◌∙◌, List, [], ◌∷◌, ◌++◌, arith, length, length-append,
  All, le_bytes, Holds, Holds-append, store_all-Holds, load-Holds, load_all-Holds,
}
use otx.Position.{Position}
use otx.Net.Message.{
  max_body_length, wrap16, skipped, get_byte, get, get_chars, get_string, get_position, Message,
}

-- The types of the fields, which a reader knows beforehand.
pub data Shape : Type 0 where
  byte word dword qword text place : Shape

abbrev pub shape : Field → Shape
shape (u8 v) = byte
shape (u16 v) = word
shape (u32 v) = dword
shape (u64 v) = qword
shape (str xs) = text
shape (pos p) = place

abbrev pub shapes : List Field → List Shape
shapes [] = []
shapes (f ∷ fs) = shape f ∷ shapes fs

abbrev tagged {ℓ} : {A : Type ℓ} → (A → Field) → A × Message → Field × Message
tagged c (v, m) = (c v, m)

-- The operation of the message that reads a field.
abbrev pub read : Shape → Message → Field × Message
read byte m = tagged u8 (get_byte m)
read word m = tagged u16 (get 2 m)
read dword m = tagged u32 (get 4 m)
read qword m = tagged u64 (get 8 m)
read text m = tagged str (get_string 0 m)
read place m = tagged pos (get_position m)

abbrev pub read_all : List Shape → Message → List Field × Message
read_all [] m = ([], m)
read_all (s ∷ ss) m = let (f, m₁) = read s m in let (fs, m₂) = read_all ss m₁ in (f ∷ fs, m₂)

-- `n` more bytes may be read.
abbrev pub Readable : ℕ → Message → Type 0
Readable n m = (m.position + n ≤ m.length + 8) × (m.position + n < max_body_length)

get-Holds :
    (n v : ℕ) (m : Message)
    → v < 256 ^ n
    → Readable n m
    → Holds m.buffer m.position (le_bytes n v)
    → get n m ≡ (v, skipped n m)
unfolding get
get-Holds n v m fits r h = ground (arith, load-Holds n v m.buffer m.position fits h)

get_byte-Holds :
    (v : ℕ) (m : Message)
    → v < 2 ^ 8
    → Readable 1 m
    → Holds m.buffer m.position (le_bytes 1 v)
    → get_byte m ≡ (v, skipped 1 m)
unfolding get_byte
get_byte-Holds v m fits r h = ground arith

get_chars-Holds :
    (xs : List ℕ) (m : Message)
    → Readable (length xs) m
    → Holds m.buffer m.position xs
    → get_chars (length xs, m) ≡ (xs, skipped (length xs) m)
unfolding get_chars
get_chars-Holds xs m r h = ground (arith, load_all-Holds xs m.buffer m.position h)

skipped-skipped :
    (a b : ℕ) (m : Message)
    → m.position + a + b < 2 ^ 16
    → skipped b (skipped a m) ≡ skipped (a + b) m
skipped-skipped a b m h = ground arith

get_string-Holds :
    (xs : List ℕ) (m : Message)
    → length xs ≤ 8192
    → Readable (length xs + 2) m
    → Holds m.buffer m.position (le_bytes 2 (length xs) ++ xs)
    → get_string 0 m ≡ (xs, skipped (length xs + 2) m)
unfolding get_string
get_string-Holds xs m small r h =
    let (prefix, chars) = Holds-append m.buffer m.position (le_bytes 2 (length xs)) xs h in
    let moved : m.position + 2 ≡ wrap16 (m.position + 2) = omega arith in
    rw (get-Holds 2 (length xs) m (omega arith) (omega arith, omega arith) prefix) (
      rw
        (get_chars-Holds xs (skipped 2 m) (omega arith, omega arith)
          (subst (λ q. Holds m.buffer q xs) moved chars))
        (ground arith))

get_position-Holds :
    (p : Position) (m : Message)
    → IsField (pos p)
    → Readable 5 m
    → Holds m.buffer m.position (encode (pos p))
    → get_position m ≡ (p, skipped 5 m)
unfolding get_position
get_position-Holds p m fits r h =
    let one : m.position + 1 + 1 ≡ wrap16 (m.position + 2) = omega arith in
    let two : m.position + 1 + 1 + 1 + 1 ≡ wrap16 (wrap16 (m.position + 2) + 2) = omega arith in
    rw
      (
        get-Holds 2 p.x m (omega arith) (omega arith, omega arith) (h.0, (h.1.0, tt)),
        get-Holds 2 p.y (skipped 2 m) (omega arith) (omega arith, omega arith)
            (subst (λ q. Holds m.buffer q (le_bytes 2 p.y)) one (h.1.1.0, (h.1.1.1.0, tt))),
        get_byte-Holds p.z (skipped 2 (skipped 2 m)) (omega arith) (omega arith, omega arith)
            (subst (λ q. Holds m.buffer q (le_bytes 1 p.z)) two (h.1.1.1.1.0, tt)),
      )
      (ground arith)

-- A field is read from its encoding, and the cursor moves behind it.
pub read-Holds :
    (f : Field) (m : Message)
    → IsField f
    → Readable (length (encode f)) m
    → Holds m.buffer m.position (encode f)
    → read (shape f) m ≡ (f, skipped (length (encode f)) m)
read-Holds (u8 v) m fits r h = ap (tagged u8) (get_byte-Holds v m fits r h)
read-Holds (u16 v) m fits r h = ap (tagged u16) (get-Holds 2 v m (omega arith) r h)
read-Holds (u32 v) m fits r h = ap (tagged u32) (get-Holds 4 v m (omega arith) r h)
read-Holds (u64 v) m fits r h = ap (tagged u64) (get-Holds 8 v m (omega arith) r h)
read-Holds (str xs) m fits r h =
    ap (tagged str) (get_string-Holds xs m fits (omega arith, omega arith) h)
    ∙ ap (λ n. (str xs, skipped n m)) (omega arith)
read-Holds (pos p) m fits r h = ap (tagged pos) (get_position-Holds p m fits r h)

pub read_all-Holds :
    (fs : List Field) (m : Message)
    → All IsField fs
    → Readable (length (encode_all fs)) m
    → Holds m.buffer m.position (encode_all fs)
    → read_all (shapes fs) m ≡ (fs, skipped (length (encode_all fs)) m)
read_all-Holds [] m ok r h = ground arith
read_all-Holds (f ∷ fs) m ok r h =
    let (hf, hs) = Holds-append m.buffer m.position (encode f) (encode_all fs) h in
    let total = length-append (encode f) (encode_all fs) in
    let moved : m.position + length (encode f) ≡ wrap16 (m.position + length (encode f)) =
      omega (arith, total) in
    rw (read-Holds f m ok.0 (omega (arith, total), omega (arith, total)) hf) (
      rw
        (read_all-Holds fs (skipped (length (encode f)) m) ok.1
          (omega (arith, total), omega (arith, total))
          (subst (λ q. Holds m.buffer q (encode_all fs)) moved hs))
        (ground (arith, total)))

-- A reader that starts where the writer started, and knows the types of the fields, gets back
-- exactly the fields that were written, in order, and ends where the writer ended with no overrun
-- flagged: for every sequence of fields that fit their types, on a message whose cursor stands
-- behind its bytes and whose body limit the encoding does not reach.
pub read_all-write_all :
    (fs : List Field) (m : Message)
    → All IsField fs
    → IsWriter m
    → m.position + length (encode_all fs) < max_body_length
    → read_all (shapes fs) (record (write_all fs m) { position = m.position })
      ≡ (fs, write_all fs m)
read_all-write_all fs m ok w h = rw (write_all-appends fs m ok w h) (
    read_all-Holds fs (record (appended (encode_all fs) m) { position = m.position }) ok
      (omega arith, omega arith) (store_all-Holds (encode_all fs) m.buffer m.position))
