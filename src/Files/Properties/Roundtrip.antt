-- ===== src/Files/Properties/Roundtrip.antt =====
-- Reading back what was written to a property stream.

use otx.Prelude.{
  ℕ, ◌+◌, ◌^◌, ◌≤◌, ◌<◌, ◌≡◌, refl, sym, ap, ◌∙◌, inl, inr, Option, none, some, List, [], ◌∷◌, ◌++◌,
  append-nil, append_assoc, arith, ltb, if◌then◌else◌, Bool-cases, length, length-append, All,
  le_bytes, length-le_bytes, Holds, Holds-append, load-Holds, load_all-Holds, memory_of,
  memory_of-Holds,
}
use otx.Files.Properties.{
  init, size, advanced, read, read_chars, read_string, PropWriteStream, clear, get_stream, write,
  write_string, PropStream,
}

pub data Property : Type 0 where
  number : ℕ → ℕ → Property
  text : List ℕ → Property

-- What is read for a property: a number's size, or a string.
pub data Kind : Type 0 where
  number_of : ℕ → Kind
  text_of : Kind

abbrev pub kind : Property → Kind
kind (number n v) = number_of n
kind (text xs) = text_of

abbrev pub kinds : List Property → List Kind
kinds [] = []
kinds (p ∷ ps) = kind p ∷ kinds ps

abbrev pub put : Property → PropWriteStream → PropWriteStream
put (number n v) w = write n v w
put (text xs) w = write_string xs w

abbrev pub put_all : List Property → PropWriteStream → PropWriteStream
put_all [] w = w
put_all (p ∷ ps) w = put_all ps (put p w)

-- What is stored of a string: nothing, if it is too long for its length field.
abbrev pub stored : List ℕ → List ℕ
stored xs = if ltb 65535 (length xs) then [] else xs

-- The value that comes back.
abbrev pub kept : Property → Property
kept (number n v) = number n v
kept (text xs) = text (stored xs)

abbrev pub kept_all : List Property → List Property
kept_all [] = []
kept_all (p ∷ ps) = kept p ∷ kept_all ps

abbrev tagged {ℓ} :
    {A : Type ℓ} → (A → Property) → Option A × PropStream → Option Property × PropStream
tagged c (none, s) = (none, s)
tagged c (some a, s) = (some (c a), s)

abbrev pub take : Kind → PropStream → Option Property × PropStream
take (number_of n) s = tagged (number n) (read n s)
take text_of s = tagged text (read_string s)

abbrev continued :
    Option Property → Option (List Property) × PropStream → Option (List Property) × PropStream
continued none (ps, s) = (none, s)
continued (some p) (none, s) = (none, s)
continued (some p) (some ps, s) = (some (p ∷ ps), s)

-- All properties, or `none` where a read fails.
abbrev pub take_all : List Kind → PropStream → Option (List Property) × PropStream
take_all [] s = (some [], s)
take_all (k ∷ ks) s = let (p, s₁) = take k s in continued p (take_all ks s₁)

abbrev pub IsProperty : Property → Type 0
IsProperty (number n v) = v < 256 ^ n
IsProperty (text xs) = Unit {0}

-- The bytes that a property adds to the buffer.
abbrev encode : Property → List ℕ
encode (number n v) = le_bytes n v
encode (text xs) = le_bytes 2 (length (stored xs)) ++ stored xs

abbrev encode_all : List Property → List ℕ
encode_all [] = []
encode_all (p ∷ ps) = encode p ++ encode_all ps

put-appends : (p : Property) (w : PropWriteStream) → put p w ≡ w ++ encode p
unfolding write write_string
put-appends (number n v) w = refl
put-appends (text xs) w = elim (Bool-cases (ltb 65535 (length xs))) [
  | inl long ↦ rw long refl
  | inr short ↦ rw short (append_assoc w (le_bytes 2 (length xs)) xs)
]

put_all-appends : (ps : List Property) (w : PropWriteStream) → put_all ps w ≡ w ++ encode_all ps
put_all-appends [] w = sym (append-nil w)
put_all-appends (p ∷ ps) w =
    put_all-appends ps (put p w)
    ∙ ap (λ l. l ++ encode_all ps) (put-appends p w)
    ∙ append_assoc w (encode p) (encode_all ps)

read-Holds :
    (n v : ℕ) (s : PropStream)
    → v < 256 ^ n
    → s.at + n ≤ s.stop
    → Holds s.bytes s.at (le_bytes n v)
    → read n s ≡ (some v, advanced n s)
unfolding read size
read-Holds n v s fits room h = ground (arith, load-Holds n v s.bytes s.at fits h)

read_string-Holds :
    (xs : List ℕ) (s : PropStream)
    → length xs ≤ 65535
    → s.at + 2 + length xs ≤ s.stop
    → Holds s.bytes s.at (le_bytes 2 (length xs) ++ xs)
    → read_string s ≡ (some xs, advanced (2 + length xs) s)
unfolding read_string read_chars size
read_string-Holds xs s small room h =
    let (l, r) = Holds-append s.bytes s.at (le_bytes 2 (length xs)) xs h in
    rw (read-Holds 2 (length xs) s (omega arith) (omega arith) l)
      (ground (arith, load_all-Holds xs s.bytes (s.at + 2) r))

take-Holds :
    (p : Property) (s : PropStream)
    → IsProperty p
    → s.at + length (encode p) ≤ s.stop
    → Holds s.bytes s.at (encode p)
    → take (kind p) s ≡ (some (kept p), advanced (length (encode p)) s)
take-Holds (number n v) s ok room h =
    let e = length-le_bytes n v in
    ap (tagged (number n)) (read-Holds n v s ok (omega (arith, e)) h)
    ∙ ap (λ k. (some (number n v), advanced k s)) (sym e)
take-Holds (text xs) s ok room h =
    let small : length (stored xs) ≤ 65535 = ground arith in
    ap (tagged text) (read_string-Holds (stored xs) s small (omega arith) h)
    ∙ ap (λ k. (some (text (stored xs)), advanced k s)) (omega arith)

take_all-Holds :
    (ps : List Property) (s : PropStream)
    → All IsProperty ps
    → s.at + length (encode_all ps) ≤ s.stop
    → Holds s.bytes s.at (encode_all ps)
    → take_all (kinds ps) s ≡ (some (kept_all ps), advanced (length (encode_all ps)) s)
take_all-Holds [] s ok room h = ap (λ k. (some [], record s { at = k })) (omega arith)
take_all-Holds (p ∷ ps) s ok room h =
    let (l, r) = Holds-append s.bytes s.at (encode p) (encode_all ps) h in
    let total = length-append (encode p) (encode_all ps) in
    rw (take-Holds p s ok.0 (omega (arith, total)) l) (
      rw (take_all-Holds ps (advanced (length (encode p)) s) ok.1 (omega (arith, total)) r)
        (ap (λ k. (some (kept p ∷ kept_all ps), record s { at = k })) (omega (arith, total))))

-- The properties that were written to a cleared stream are read back from its bytes, in order, by
-- a reader that knows their kinds, and nothing is left over: every number that fits its size comes
-- back as it was, and so does every string of at most 65535 bytes; a longer one comes back empty.
pub take_all-put_all :
    (ps : List Property) (w : PropWriteStream)
    → All IsProperty ps
    → let (bytes, count) = get_stream (put_all ps (clear w)) in
      let (read_back, rest) = take_all (kinds ps) (init bytes count) in
      (read_back ≡ some (kept_all ps)) × (size rest ≡ 0)
unfolding get_stream clear init size
take_all-put_all ps w ok =
    let wrote = put_all-appends ps [] in
    let reads =
      take_all-Holds ps
        (record { bytes = memory_of (encode_all ps); at = 0; stop = length (encode_all ps) }) ok
        (omega arith) (memory_of-Holds (encode_all ps)) in
    rw (wrote, reads) (refl, omega arith)
