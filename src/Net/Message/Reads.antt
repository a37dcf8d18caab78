-- ===== src/Net/Message/Reads.antt =====
-- What reads depend on, and what they report.
use otx.Prelude.{
  ℕ, ◌+◌, ◌≤◌, ◌<◌, ◌≡◌, refl, ap, subst, ◌∙◌, inl, inr, Bool, true, false, List, [], ◌∷◌, arith,
  ◌==◌, if◌then◌else◌, Bool-cases, load, load_all, load_ext, load_all_ext,
}
use otx.Net.Message.Codec.{read, read_all, Shape, byte, word, dword, qword, text, place}
use otx.Net.Message.Encoding.{u8, u16, u32, u64, str, pos}
use otx.Net.Message.{
  max_size, wrap16, can_read, overran, skipped, get_byte, get, get_chars, get_string, get_position,
  Message,
}

-- Two messages with the same cursor and the same bytes up to the end of the message, as far as
-- that lies in the buffer.
pub record Agrees (m n : Message) : Type 0 where
  pub same_length : m.length ≡ n.length
  pub same_position : m.position ≡ n.position
  pub same_overrun : m.overrun ≡ n.overrun
  pub same_bytes : (i : ℕ) → i < m.length + 8 → i < max_size → m.buffer i ≡ n.buffer i

-- Both readings give the same value, and messages that agree again.
abbrev pub Alike {ℓ} : {A : Type ℓ} → A × Message → A × Message → Type ℓ
Alike (a, m) (b, n) = (a ≡ b) × Agrees m n

can_read-Agrees : (k : ℕ) (m n : Message) → Agrees m n → can_read k m ≡ can_read k n
unfolding can_read
can_read-Agrees k m n a = cc (a.same_length, a.same_position)

-- A read under the test: equal values where the test passes, the same refusal where it fails.
guarded-Alike :
    {A : Type 0} (k : ℕ) (m n : Message) (v w d : A)
    → Agrees m n
    → (can_read k m ≡ true → v ≡ w)
    → Alike
        (if can_read k m then (v, skipped k m) else (d, overran m))
        (if can_read k n then (w, skipped k n) else (d, overran n))
guarded-Alike {A} k m n v w d a h = elim (Bool-cases (can_read k m)) [
  | inl e ↦
      let e' : can_read k n ≡ true = cc (can_read-Agrees k m n a) in
      rw (e, e')
        (
          h e,
          record {
            same_length = a.same_length;
            same_position = ap (λ p. wrap16 (p + k)) a.same_position;
            same_overrun = a.same_overrun;
            same_bytes = a.same_bytes;
          },
        )
  | inr e ↦
      let e' : can_read k n ≡ false = cc (can_read-Agrees k m n a) in
      rw (e, e')
        (
          refl,
          record {
            same_length = a.same_length;
            same_position = a.same_position;
            same_overrun = refl;
            same_bytes = a.same_bytes;
          },
        )
]

can_read_bounds :
    (k : ℕ) (m : Message)
    → can_read k m ≡ true
    → (m.position + k ≤ m.length + 8) × (m.position + k < max_size)
unfolding can_read
can_read_bounds k m h = ground arith

get-Alike : (k : ℕ) (m n : Message) → Agrees m n → Alike (get k m) (get k n)
unfolding get
get-Alike k m n a =
    guarded-Alike k m n (load k m.buffer m.position) (load k n.buffer n.position) 0 a λ e.
      let (upto, inside) = can_read_bounds k m e in
      load_ext k m.buffer n.buffer m.position
        (λ i lo hi. a.same_bytes i (omega arith) (omega arith))
      ∙ ap (load k n.buffer) a.same_position

get_chars-Alike : (k : ℕ) (m n : Message) → Agrees m n → Alike (get_chars (k, m)) (get_chars (k, n))
unfolding get_chars
get_chars-Alike k m n a =
    guarded-Alike k m n (load_all k m.buffer m.position) (load_all k n.buffer n.position) [] a λ e.
      let (upto, inside) = can_read_bounds k m e in
      load_all_ext k m.buffer n.buffer m.position
        (λ i lo hi. a.same_bytes i (omega arith) (omega arith))
      ∙ ap (load_all k n.buffer) a.same_position

get_byte-Alike : (m n : Message) → Agrees m n → Alike (get_byte m) (get_byte n)
unfolding get_byte
get_byte-Alike m n a = guarded-Alike 1 m n (m.buffer m.position) (n.buffer n.position) 0 a λ e.
    let (upto, inside) = can_read_bounds 1 m e in
    a.same_bytes m.position (omega arith) (omega arith) ∙ ap n.buffer a.same_position

get_position-Alike : (m n : Message) → Agrees m n → Alike (get_position m) (get_position n)
unfolding get_position
get_position-Alike m n a =
    let (ex, ax) = get-Alike 2 m n a in
    let (ey, ay) = get-Alike 2 (get 2 m).1 (get 2 n).1 ax in
    let (ez, az) = get_byte-Alike (get 2 (get 2 m).1).1 (get 2 (get 2 n).1).1 ay in
    (λ i. record { x = ex i; y = ey i; z = ez i }, az)

get_chars_of-Alike : (r s : ℕ × Message) → Alike r s → Alike (get_chars r) (get_chars s)
get_chars_of-Alike (k, m) (l, n) (e, a) =
    subst (λ j. Alike (get_chars (k, m)) (get_chars (j, n))) e (get_chars-Alike k m n a)

if-Alike :
    (b : Bool) (r s : ℕ × Message) (t u : ℕ × Message)
    → Alike r s
    → Alike t u
    → Alike (if b then r else t) (if b then s else u)
if-Alike true r s t u h k = h
if-Alike false r s t u h k = k

get_string-Alike : (k : ℕ) (m n : Message) → Agrees m n → Alike (get_string k m) (get_string k n)
unfolding get_string
get_string-Alike k m n a =
    get_chars_of-Alike (if k == 0 then get 2 m else (k, m)) (if k == 0 then get 2 n else (k, n))
      (if-Alike (k == 0) (get 2 m) (get 2 n) (k, m) (k, n) (get-Alike 2 m n a) (refl, a))

read-Alike : (s : Shape) (m n : Message) → Agrees m n → Alike (read s m) (read s n)
read-Alike byte m n a = let (e, b) = get_byte-Alike m n a in (ap u8 e, b)
read-Alike word m n a = let (e, b) = get-Alike 2 m n a in (ap u16 e, b)
read-Alike dword m n a = let (e, b) = get-Alike 4 m n a in (ap u32 e, b)
read-Alike qword m n a = let (e, b) = get-Alike 8 m n a in (ap u64 e, b)
read-Alike text m n a = let (e, b) = get_string-Alike 0 m n a in (ap str e, b)
read-Alike place m n a = let (e, b) = get_position-Alike m n a in (ap pos e, b)

-- Reading a sequence of fields gives the same values on two messages that agree in length, cursor,
-- overrun flag and the bytes that lie both before the end of the message and inside the buffer: a
-- read never looks beyond either, whatever lengths the message itself claims for its strings.
pub read_all-Alike :
    (ss : List Shape) (m n : Message) → Agrees m n → Alike (read_all ss m) (read_all ss n)
read_all-Alike [] m n a = (refl, a)
read_all-Alike (s ∷ ss) m n a =
    let (e, b) = read-Alike s m n a in
    let (es, bs) = read_all-Alike ss (read s m).1 (read s n).1 b in (λ i. e i ∷ es i, bs)
