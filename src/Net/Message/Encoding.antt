-- ===== src/Net/Message/Encoding.antt =====
-- The wire format as a plain encoding into bytes, independent of the buffer: what each write
-- appends.
use otx.Prelude.{
  ℕ, zero, suc, ◌+◌, ◌/◌, ◌%◌, ◌^◌, ◌≤◌, ◌<◌, ◌≡◌, refl, sym, ap, ◌∙◌, List, [], ◌∷◌, ◌++◌, arith,
  length, length-append, All, Bytes, poke, store, store_all, le_bytes, length-le_bytes,
}
use otx.Position.{Position}
use otx.Net.Message.{
  max_body_length, wrap16, extended, add_byte, add, add_string, add_position, Message,
}

-- A value of the wire format.
pub data Field : Type 0 where
  u8 u16 u32 u64 : ℕ → Field
  str : List ℕ → Field
  pos : Position → Field

abbrev pub encode : Field → List ℕ
encode (u8 v) = le_bytes 1 v
encode (u16 v) = le_bytes 2 v
encode (u32 v) = le_bytes 4 v
encode (u64 v) = le_bytes 8 v
encode (str xs) = le_bytes 2 (length xs) ++ xs
encode (pos p) = le_bytes 2 p.x ++ le_bytes 2 p.y ++ le_bytes 1 p.z

abbrev pub encode_all : List Field → List ℕ
encode_all [] = []
encode_all (f ∷ fs) = encode f ++ encode_all fs

-- The operation of the message that writes a field.
abbrev pub write : Field → Message → Message
write (u8 v) m = add_byte v m
write (u16 v) m = add 2 v m
write (u32 v) m = add 4 v m
write (u64 v) m = add 8 v m
write (str xs) m = add_string xs m
write (pos p) m = add_position p m

abbrev pub write_all : List Field → Message → Message
write_all [] m = m
write_all (f ∷ fs) m = write_all fs (write f m)

-- The values fit the types of their fields.
abbrev pub IsField : Field → Type 0
IsField (u8 v) = v < 2 ^ 8
IsField (u16 v) = v < 2 ^ 16
IsField (u32 v) = v < 2 ^ 32
IsField (u64 v) = v < 2 ^ 64
IsField (str xs) = length xs ≤ 8192
IsField (pos p) = (p.x < 2 ^ 16) × (p.y < 2 ^ 16) × (p.z < 2 ^ 8)

store-eq-store_all : (n : ℕ) (b : Bytes) (p v : ℕ) → store n b p v ≡ store_all (le_bytes n v) b p
unfolding store store_all
store-eq-store_all zero b p v = refl
store-eq-store_all (suc n) b p v = store-eq-store_all n (poke b p (v % 256)) (p + 1) (v / 256)

pub store_all-append :
    (xs ys : List ℕ) (b : Bytes) (p : ℕ)
    → store_all (xs ++ ys) b p ≡ store_all ys (store_all xs b p) (p + length xs)
unfolding store_all
store_all-append [] ys b p = ap (store_all ys b) (omega arith)
store_all-append (x ∷ xs) ys b p =
    store_all-append xs ys (poke b p x) (p + 1)
    ∙ ap (store_all ys (store_all xs (poke b p x) (p + 1))) (omega arith)

-- The message with the bytes behind its cursor and both counters advanced.
abbrev pub appended : List ℕ → Message → Message
appended xs m = extended (length xs) (store_all xs m.buffer m.position) m

-- Appending in two steps is appending once, below the wrap of the counters.
pub appended-append :
    (xs ys : List ℕ) (m : Message)
    → m.position + length xs + length ys < 2 ^ 16
    → m.length + length xs + length ys < 2 ^ 16
    → appended (xs ++ ys) m ≡ appended ys (appended xs m)
appended-append xs ys m h k = ground (
  arith,
  length-append xs ys,
  store_all-append xs ys m.buffer m.position,
  ap (store_all ys (store_all xs m.buffer m.position)) counted,
)
  where
    counted : m.position + length xs ≡ wrap16 (m.position + length xs)
    counted = omega arith

pub add-appends :
    (n v : ℕ) (m : Message)
    → m.position + n < max_body_length
    → add n v m ≡ appended (le_bytes n v) m
unfolding add
add-appends n v m h =
    ground (arith, length-le_bytes n v, store-eq-store_all n m.buffer m.position v)

add_byte-appends :
    (v : ℕ) (m : Message)
    → m.position + 1 < max_body_length
    → add_byte v m ≡ appended (le_bytes 1 v) m
unfolding add_byte store store_all
add_byte-appends v m h = ground arith

-- The cursor stands behind the written bytes, as after `reset` and any writes but padding.
abbrev pub IsWriter : Message → Type 0
IsWriter m = m.position ≡ m.length + 8

add_string-appends :
    (xs : List ℕ) (m : Message)
    → length xs ≤ 8192
    → IsWriter m
    → m.position + (length xs + 2) < max_body_length
    → add_string xs m ≡ appended (le_bytes 2 (length xs) ++ xs) m
unfolding add_string
add_string-appends xs m small w h = ground (
  arith,
  appended-append (le_bytes 2 (length xs)) xs m (omega arith) (omega arith),
  add-appends 2 (length xs) m (omega arith),
)

add_position-appends :
    (p : Position) (m : Message)
    → IsWriter m
    → m.position + 5 < max_body_length
    → add_position p m ≡ appended (encode (pos p)) m
unfolding add_position
add_position-appends p m w h =
    rw
      (
        add-appends 2 p.x m (omega arith),
        add-appends 2 p.y (appended (le_bytes 2 p.x) m) (omega arith),
        add_byte-appends p.z (appended (le_bytes 2 p.y) (appended (le_bytes 2 p.x) m))
            (omega arith),
        appended-append (le_bytes 2 p.x) (le_bytes 2 p.y ++ le_bytes 1 p.z) m (omega arith)
            (omega arith),
        appended-append (le_bytes 2 p.y) (le_bytes 1 p.z) (appended (le_bytes 2 p.x) m)
            (omega arith) (omega arith),
      )
      refl

-- A write that fits appends exactly the encoding of its field.
pub write-appends :
    (f : Field) (m : Message)
    → IsField f
    → IsWriter m
    → m.position + length (encode f) < max_body_length
    → write f m ≡ appended (encode f) m
write-appends (u8 v) m ok w h = add_byte-appends v m h
write-appends (u16 v) m ok w h = add-appends 2 v m h
write-appends (u32 v) m ok w h = add-appends 4 v m h
write-appends (u64 v) m ok w h = add-appends 8 v m h
write-appends (str xs) m ok w h = add_string-appends xs m ok w (omega arith)
write-appends (pos p) m ok w h = add_position-appends p m w h

pub write_all-appends :
    (fs : List Field) (m : Message)
    → All IsField fs
    → IsWriter m
    → m.position + length (encode_all fs) < max_body_length
    → write_all fs m ≡ appended (encode_all fs) m
unfolding store_all
write_all-appends [] m ok w h = ground arith
write_all-appends (f ∷ fs) m ok w h =
    ap (write_all fs) (write-appends f m ok.0 w (omega (arith, total)))
    ∙ write_all-appends fs (appended (encode f) m) ok.1 (omega (arith, total))
        (omega (arith, total))
    ∙ sym
        (appended-append (encode f) (encode_all fs) m (omega (arith, total)) (omega (arith, total)))
  where
    total : length (encode f ++ encode_all fs) ≡ length (encode f) + length (encode_all fs)
    total = length-append (encode f) (encode_all fs)
