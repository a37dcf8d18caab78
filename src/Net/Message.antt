-- ===== src/Net/Message.antt =====
-- src/networkmessage.h and src/networkmessage.cpp: the message buffer with its cursor. Every
-- integer is read and written little-endian, as `memcpy` does on the program's targets.
-- `MsgSize_t` is `uint16_t`: each update of the length and the position wraps.
pub mod Bounds
pub mod Encoding
pub mod Codec
pub mod Reads
mod Tests
use otx.Prelude.{
  ℕ, zero, suc, ◌+◌, ◌-◌, ◌%◌, ◌^◌, min, bit_and, Bool, true, false, not, ◌&&◌, ◌||◌, List, [], ◌∷◌,
  ltb, leb, ◌==◌, if◌then◌else◌, length, Bytes, store, load, store_all, load_all, fill,
}
use otx.Position.{Position}

-- NETWORKMESSAGE_MAXSIZE and the constants derived from it.
abbrev pub max_size : ℕ
max_size = 24590

abbrev pub max_body_length : ℕ
max_body_length = max_size - 2 - 4 - 8

abbrev pub initial_position : ℕ
initial_position = 8

abbrev pub wrap16 : ℕ → ℕ
wrap16 n = n % 2 ^ 16

pub record Message : Type 0 where
  pub buffer : Bytes
  pub length : ℕ
  pub position : ℕ
  pub overrun : Bool

-- `reset` sets the cursor back and leaves the bytes.
unfoldable pub reset : Message → Message
reset m = record m { length = 0; position = initial_position; overrun = false }

-- The sum is of 64 bits, as `size_t`.
unfoldable pub can_add : ℕ → Message → Bool
can_add size m = ltb ((size + m.position) % 18446744073709551616) max_body_length

-- `canRead`, whose test does not change the message; a refusal sets the overrun flag.
unfoldable pub can_read : ℕ → Message → Bool
can_read size m = not (ltb (m.length + 8) (m.position + size) || leb max_size (size + m.position))

abbrev pub overran : Message → Message
overran m = record m { overrun = true }

-- The cursor after `n` bytes were read.
abbrev pub skipped : ℕ → Message → Message
skipped n m = record m { position = wrap16 (m.position + n) }

-- The message after `n` bytes were written at the cursor.
abbrev pub extended : ℕ → Bytes → Message → Message
extended n b m = record m {
  buffer = b;
  position = wrap16 (m.position + n);
  length = wrap16 (m.length + n);
}

unfoldable pub get_byte : Message → ℕ × Message
unfolding can_read
get_byte m = if can_read 1 m then (m.buffer m.position, skipped 1 m) else (0, overran m)

unfoldable pub get_previous_byte : Message → ℕ × Message
get_previous_byte m =
    let p = wrap16 (m.position + 2 ^ 16 - 1) in (m.buffer p, record m { position = p })

-- `get<T>` for an unsigned `T` of `n` bytes.
unfoldable pub get : ℕ → Message → ℕ × Message
unfolding can_read
get n m = if can_read n m then (load n m.buffer m.position, skipped n m) else (0, overran m)

-- The rest of `getString`, once the length is known.
unfoldable pub get_chars : ℕ × Message → List ℕ × Message
unfolding can_read
get_chars (n, m) =
    if can_read n m then (load_all n m.buffer m.position, skipped n m) else ([], overran m)

unfoldable pub get_string : ℕ → Message → List ℕ × Message
unfolding get get_chars
get_string n m = get_chars (if n == 0 then get 2 m else (n, m))

unfoldable pub get_position : Message → Position × Message
unfolding get get_byte
get_position m =
    let (x, m₁) = get 2 m in
    let (y, m₂) = get 2 m₁ in let (z, m₃) = get_byte m₂ in (record { x = x; y = y; z = z }, m₃)

-- The count is an `int16_t`, given by its bit pattern.
unfoldable pub skip_bytes : ℕ → Message → Message
skip_bytes count m = skipped count m

unfoldable pub add_byte : ℕ → Message → Message
unfolding can_add
add_byte v m = if can_add 1 m then extended 1 (store 1 m.buffer m.position v) m else m

-- `add<T>` for an unsigned `T` of `n` bytes.
unfoldable pub add : ℕ → ℕ → Message → Message
unfolding can_add
add n v m = if can_add n m then extended n (store n m.buffer m.position v) m else m

unfoldable pub add_bytes : List ℕ → Message → Message
unfolding can_add
add_bytes xs m =
    if not (can_add (length xs) m) || ltb 8192 (length xs)
    then m
    else extended (length xs) (store_all xs m.buffer m.position) m

-- The padding counts in the length, and the cursor stays before it.
unfoldable pub add_padding_bytes : ℕ → Message → Message
unfolding can_add
add_padding_bytes n m =
    if can_add n m
    then record m { buffer = fill n m.buffer m.position 0x33; length = wrap16 (m.length + n) }
    else m

-- `value.c_str()` copied behind its own length.
abbrev pub append_chars : List ℕ → Message → Message
append_chars xs m = extended (length xs) (store_all xs m.buffer m.position) m

unfoldable pub add_string : List ℕ → Message → Message
unfolding can_add add
add_string xs m =
    if not (can_add (length xs + 2) m) || ltb 8192 (length xs)
    then m
    else append_chars xs (add 2 (length xs) m)

unfoldable pub add_position : Position → Message → Message
unfolding add add_byte
add_position p m = add_byte p.z (add 2 p.y (add 2 p.x m))

-- The fields of `ItemType` that the wire format depends on.
pub record ItemType : Type 0 where
  pub client_id : ℕ
  pub stackable : Bool
  pub is_splash : Bool
  pub is_fluid_container : Bool
  pub is_animation : Bool

-- The colours of `fluidMap`, in order.
abbrev pub fluid_map : ℕ → ℕ
fluid_map zero = 0
fluid_map (suc zero) = 1
fluid_map (suc (suc zero)) = 5
fluid_map (suc (suc (suc zero))) = 3
fluid_map (suc (suc (suc (suc zero)))) = 6
fluid_map (suc (suc (suc (suc (suc zero))))) = 8
fluid_map (suc (suc (suc (suc (suc (suc zero)))))) = 9
fluid_map _ = 2

-- The random phase byte of an animated item.
abbrev add_phase : ItemType → Message → Message
add_phase it m = if it.is_animation then add_byte 0xFE m else m

-- `addItem(id, count)`, given the type that the item table has for the id.
unfoldable pub add_item : ItemType → ℕ → Message → Message
unfolding add add_byte
add_item it count m =
    let m₁ = add_byte 0xFF (add 2 it.client_id m) in
    let m₂ =
      if it.stackable
      then add_byte count m₁
      else if it.is_splash || it.is_fluid_container
      then add_byte (fluid_map (bit_and count 7)) m₁
      else m₁ in
    add_phase it m₂

-- `addItem(item)`: the count is capped to a byte, and a fluid has its own attribute.
unfoldable pub add_item_of : ItemType → ℕ → ℕ → Message → Message
unfolding add add_byte
add_item_of it count fluid m =
    let m₁ = add_byte 0xFF (add 2 it.client_id m) in
    let m₂ =
      if it.stackable
      then add_byte (min 0xFF count) m₁
      else if it.is_splash || it.is_fluid_container
      then add_byte (fluid_map (bit_and fluid 7)) m₁
      else m₁ in
    add_phase it m₂

unfoldable pub add_item_id : ItemType → Message → Message
unfolding add
add_item_id it m = add 2 it.client_id m

-- `getLengthHeader`: the first two bytes; the shift and the `or` of bytes are a sum.
unfoldable pub length_header : Message → ℕ
length_header m = load 2 m.buffer 0

-- `decodeHeader` stores it as the message's length.
unfoldable pub decode_header : Message → ℕ × Message
unfolding length_header
decode_header m = let n = wrap16 (length_header m) in (n, record m { length = n })

-- `getBodyBuffer` sets the cursor behind the two header bytes.
unfoldable pub at_body : Message → Message
at_body m = record m { position = 2 }
