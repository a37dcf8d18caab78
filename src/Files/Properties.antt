-- ===== src/Files/Properties.antt =====
-- `PropStream` and `PropWriteStream` of src/fileloader.h. A read that fails leaves its result
-- variable alone: here it gives `none`, with the stream as the failure leaves it.
pub mod Roundtrip
use otx.Prelude.{
  ℕ, ◌+◌, ◌-◌, Bool, true, false, Option, none, some, List, [], ◌++◌, ltb, if◌then◌else◌, length,
  Bytes, load, load_all, le_bytes, memory_of,
}

-- The two pointers, as addresses of one memory.
pub record PropStream : Type 0 where
  pub bytes : Bytes
  pub at : ℕ
  pub stop : ℕ

unfoldable pub init : Bytes → ℕ → PropStream
init a size = record { bytes = a; at = 0; stop = size }

unfoldable pub size : PropStream → ℕ
size s = s.stop - s.at

-- The stream behind the next `n` bytes.
abbrev pub advanced : ℕ → PropStream → PropStream
advanced n s = record s { at = s.at + n }

-- `read<T>` for an unsigned `T` of `n` bytes.
unfoldable pub read : ℕ → PropStream → Option ℕ × PropStream
read n s = if ltb (size s) n then (none, s) else (some (load n s.bytes s.at), advanced n s)

-- The characters of a string whose length was read, if it was.
unfoldable pub read_chars : Option ℕ × PropStream → Option (List ℕ) × PropStream
read_chars (none, s) = (none, s)
read_chars (some n, s) =
    if ltb (size s) n then (none, s) else (some (load_all n s.bytes s.at), advanced n s)

unfoldable pub read_string : PropStream → Option (List ℕ) × PropStream
read_string s = read_chars (read 2 s)

unfoldable pub skip : ℕ → PropStream → Bool × PropStream
skip n s = if ltb (size s) n then (false, s) else (true, advanced n s)

-- The buffer of a `PropWriteStream`.
abbrev pub PropWriteStream : Type 0
PropWriteStream = List ℕ

unfoldable pub clear : PropWriteStream → PropWriteStream
clear w = []

unfoldable pub get_stream : PropWriteStream → Bytes × ℕ
get_stream w = (memory_of w, length w)

unfoldable pub write : ℕ → ℕ → PropWriteStream → PropWriteStream
write n v w = w ++ le_bytes n v

-- A string of more than 65535 bytes is written as an empty one.
unfoldable pub write_string : List ℕ → PropWriteStream → PropWriteStream
write_string xs w = if ltb 65535 (length xs) then write 2 0 w else write 2 (length xs) w ++ xs
