-- ===== src/Net/Adler/Chunks.antt =====
-- The chunked loop computes Adler-32: no sum overflows within a chunk, and reducing once for each
-- chunk is reducing at the end.
use otx.Prelude.{
  ℕ, zero, suc, ◌+◌, ◌-◌, ◌*◌, ◌%◌, ◌^◌, ◌≤◌, ◌<◌, ◌≡◌, refl, sym, ap, ap₂, ◌∙◌, inl, inr, true,
  List, [], ◌∷◌, ◌++◌, arith, ltb, ltb→lt, lt→ltb, ltb-false, Bool-cases, length, All, Bytes,
  load_all, IsByte,
}
use otx.Net.Adler.{adler_mod, chunk, wrap32, sums, reduced, chunks, adler_checksum}

-- The two sums of Adler-32 over a list of bytes, unreduced and unbounded.
abbrev pub plain : List ℕ → ℕ × ℕ → ℕ × ℕ
plain [] s = s
plain (x ∷ xs) (a, b) = plain xs (a + x, b + (a + x))

-- Adler-32 by its definition.
abbrev pub adler32 : List ℕ → ℕ
adler32 xs = let (a, b) = plain xs (1, 0) in b % adler_mod * 2 ^ 16 + a % adler_mod

-- The largest sums that `n` bytes may lead to; the second is doubled.
plain_bounds :
    (xs : List ℕ) (a b : ℕ)
    → All IsByte xs
    → ((plain xs (a, b)).0 ≤ a + 255 * length xs)
      × (2 * (plain xs (a, b)).1
          ≤ 2 * b + 2 * (length xs * a) + 255 * (length xs * (length xs + 1)))
plain_bounds [] a b h = (omega arith, omega arith)
plain_bounds (x ∷ xs) a b h =
    let n = length xs in
    let (ha, hb) = plain_bounds xs (a + x) (b + (a + x)) h.1 in
    let small : x ≤ 255 = omega (arith, h.0) in
    let scaled : n * x ≤ n * 255 = grind arith in (omega arith, omega arith)

-- Within a chunk of at most 5552 bytes from reduced sums, nothing wraps.
sums-eq-plain :
    (n : ℕ) (bytes : Bytes) (p a b : ℕ)
    → ((i : ℕ) → IsByte (bytes i))
    → a + 255 * n < 2 ^ 32
    → 2 * b + 2 * (n * a) + 255 * (n * (n + 1)) < 2 ^ 33
    → sums n bytes p (a, b) ≡ plain (load_all n bytes p) (a, b)
unfolding sums load_all
sums-eq-plain zero bytes p a b h ha hb = refl
sums-eq-plain (suc n) bytes p a b h ha hb =
    let x = bytes p in
    let small : x ≤ 255 = omega (arith, h p) in
    let scaled : n * x ≤ n * 255 = grind arith in
    let ea : wrap32 (a + x) ≡ a + x = omega arith in
    let eb : wrap32 (b + (a + x)) ≡ b + (a + x) = omega arith in
    rw (ea, eb) (sums-eq-plain n bytes (p + 1) (a + x) (b + (a + x)) h (omega arith) (omega arith))

chunk_fits :
    (n : ℕ) (bytes : Bytes) (p a b : ℕ)
    → ((i : ℕ) → IsByte (bytes i))
    → n ≤ chunk
    → a < adler_mod
    → b < adler_mod
    → sums n bytes p (a, b) ≡ plain (load_all n bytes p) (a, b)
chunk_fits n bytes p a b h small ha hb =
    let squares : n * (n + 1) ≤ 5552 * 5553 = grind arith in
    let product : n * a ≤ 5552 * 65520 = grind arith in
    sums-eq-plain n bytes p a b h (omega arith) (omega arith)

-- Sums that start congruent end congruent.
plain-congr :
    (xs : List ℕ) (a b c d : ℕ)
    → a % adler_mod ≡ c % adler_mod
    → b % adler_mod ≡ d % adler_mod
    → reduced (plain xs (a, b)) ≡ reduced (plain xs (c, d))
plain-congr [] a b c d h k = ap₂ (λ x y. (x, y)) h k
plain-congr (x ∷ xs) a b c d h k =
    plain-congr xs (a + x) (b + (a + x)) (c + x) (d + (c + x)) (omega arith) (omega arith)

plain-reduced : (xs : List ℕ) (s : ℕ × ℕ) → reduced (plain xs (reduced s)) ≡ reduced (plain xs s)
plain-reduced xs (a, b) =
    plain-congr xs (a % adler_mod) (b % adler_mod) a b (omega arith) (omega arith)

plain-append : (xs ys : List ℕ) (s : ℕ × ℕ) → plain (xs ++ ys) s ≡ plain ys (plain xs s)
plain-append [] ys s = refl
plain-append (x ∷ xs) ys (a, b) = plain-append xs ys (a + x, b + (a + x))

load_all-add :
    (n m : ℕ) (bytes : Bytes) (p : ℕ)
    → load_all (n + m) bytes p ≡ load_all n bytes p ++ load_all m bytes (p + n)
unfolding load_all
load_all-add zero m bytes p = ap₂ (λ k q. load_all k bytes q) (omega arith) (omega arith)
load_all-add (suc n) m bytes p =
    let e : suc n + m ≡ suc (n + m) = omega arith in
    let q : p + 1 + n ≡ p + suc n = omega arith in rw (e, load_all-add n m bytes (p + 1), q) refl

reduced_self : (a b : ℕ) → a < adler_mod → b < adler_mod → (a, b) ≡ reduced (a, b)
reduced_self a b h k = ap₂ (λ x y. (x, y)) (omega arith) (omega arith)

chunks-zero : (fuel : ℕ) (bytes : Bytes) (p : ℕ) (s : ℕ × ℕ) → chunks fuel 0 bytes p s ≡ s
unfolding chunks
chunks-zero zero bytes p s = refl
chunks-zero (suc fuel) bytes p s = refl

-- What the loop is to compute, in one call with the fuel given.
abbrev Computes : ℕ → Type 0
Computes fuel =
    (len : ℕ) (bytes : Bytes) (p a b : ℕ)
    → ((i : ℕ) → IsByte (bytes i))
    → len ≤ fuel
    → a < adler_mod
    → b < adler_mod
    → chunks fuel len bytes p (a, b) ≡ reduced (plain (load_all len bytes p) (a, b))

-- A chunk and what the loop makes of the rest.
chunk-then :
    (fuel : ℕ)
    → Computes fuel
    → (tmp rest : ℕ) (bytes : Bytes) (p a b : ℕ) → ((i : ℕ) → IsByte (bytes i))
    → tmp ≤ chunk
    → rest ≤ fuel
    → a < adler_mod
    → b < adler_mod
    → chunks fuel rest bytes (p + tmp) (reduced (sums tmp bytes p (a, b)))
      ≡ reduced (plain (load_all (tmp + rest) bytes p) (a, b))
chunk-then fuel ih tmp rest bytes p a b h small enough ha hb =
    let s = plain (load_all tmp bytes p) (a, b) in
    ap (λ t. chunks fuel rest bytes (p + tmp) (reduced t))
      (chunk_fits tmp bytes p a b h small ha hb)
    ∙ ih rest bytes (p + tmp) (s.0 % adler_mod) (s.1 % adler_mod) h enough (omega arith)
        (omega arith)
    ∙ plain-reduced (load_all rest bytes (p + tmp)) s
    ∙ ap reduced (
        sym (
          ap (λ l. plain l (a, b)) (load_all-add tmp rest bytes p)
          ∙ plain-append (load_all tmp bytes p) (load_all rest bytes (p + tmp)) (a, b)))

chunks-eq-plain : (fuel : ℕ) → Computes fuel
unfolding chunks load_all
chunks-eq-plain fuel zero bytes p a b h enough ha hb =
    chunks-zero fuel bytes p (a, b) ∙ reduced_self a b ha hb
chunks-eq-plain zero (suc len) bytes p a b h enough ha hb = absurd (omega arith)
chunks-eq-plain (suc fuel) (suc len) bytes p a b h enough ha hb =
    elim (Bool-cases (ltb chunk (suc len))) [
      | inl e ↦
          let all : chunk + (suc len - chunk) ≡ suc len = omega (arith, ltb→lt chunk (suc len) e) in
          rw (e, more)
            (chunk-then fuel (chunks-eq-plain fuel) chunk (suc len - chunk) bytes p a b h
                (omega arith) (omega arith) ha hb
              ∙ ap (λ n. reduced (plain (load_all n bytes p) (a, b))) all)
      | inr e ↦
          let all : suc len + (suc len - suc len) ≡ suc len = omega arith in
          rw (e, more)
            (chunk-then fuel (chunks-eq-plain fuel) (suc len) (suc len - suc len) bytes p a b h
                (ltb-false chunk (suc len) e) (omega arith) ha hb
              ∙ ap (λ n. reduced (plain (load_all n bytes p) (a, b))) all)
    ]
  where
    more : ltb 0 (suc len) ≡ true
    more = lt→ltb 0 (suc len) (omega arith)

-- The checksum of any bytes of a message is their Adler-32 by its definition, with the sums over
-- the whole text unbounded and reduced at the end: the `uint32_t` sums never wrap, and the fuel
-- serves. Longer inputs get 0.
pub adler_checksum-eq-adler32 :
    (bytes : Bytes) (p len : ℕ)
    → ((i : ℕ) → IsByte (bytes i))
    → (len ≤ 24590 → adler_checksum bytes p len ≡ adler32 (load_all len bytes p))
      × (24590 < len → adler_checksum bytes p len ≡ 0)
unfolding adler_checksum
adler_checksum-eq-adler32 bytes p len h = (
  λ small.
      let e = chunks-eq-plain len len bytes p 1 0 h (omega arith) (omega arith) (omega arith) in
      ground (arith, ap (λ s. s.0) e, ap (λ s. s.1) e),
  λ big. ground arith,
)
