-- ===== src/Net/Xtea/Blocks.antt =====
-- The loop over the blocks of a buffer, and its inverse.
use otx.Prelude.{
  ℕ, zero, suc, ◌+◌, ◌*◌, ◌≤◌, ◌<◌, ◌≡◌, refl, ap, ap₂, ◌∙◌, ◌⊎◌, inl, inr, arith, ltb, ltb→lt,
  ltb-false, Bool-cases, Bytes, store, load, IsByte, store_outside, load_ext, load-store, load-lt,
  store-IsByte, store-load,
}
use otx.Net.Xtea.{
  Key, encrypt_words, decrypt_words, on_block, each_block, blocks, encrypt_bytes, decrypt_bytes,
}
use otx.Net.Xtea.Words.{AreWords, encrypt_words-AreWords, decrypt_words-encrypt_words}

-- The two memories have the same bytes in `[lo, hi)`.
abbrev Same : ℕ → ℕ → Bytes → Bytes → Type 0
Same lo hi b c = (i : ℕ) → lo ≤ i → i < hi → b i ≡ c i

abbrev AreBytes : Bytes → Type 0
AreBytes b = (i : ℕ) → IsByte (b i)

abbrev words : Bytes → ℕ → ℕ × ℕ
words b p = (load 4 b p, load 4 b (p + 4))

words-ext : (b c : Bytes) (p : ℕ) → Same p (p + 8) b c → words b p ≡ words c p
words-ext b c p h =
    ap₂ (λ x y. (x, y)) (load_ext 4 b c p (λ i lo hi. h i lo (omega arith)))
      (load_ext 4 b c (p + 4) (λ i lo hi. h i (omega arith) (omega arith)))

words-AreWords : (b : Bytes) (p : ℕ) → AreBytes b → AreWords (words b p)
words-AreWords b p h = (load-lt 4 b p h, load-lt 4 b (p + 4) h)

-- The store of two words, as `on_block` makes it.
abbrev put : ℕ × ℕ → Bytes → ℕ → Bytes
put (w0, w1) b p = store 4 (store 4 b p w0) (p + 4) w1

words-put : (w : ℕ × ℕ) (b : Bytes) (p : ℕ) → AreWords w → words (put w b p) p ≡ w
words-put (w0, w1) b p h = ap₂ (λ x y. (x, y)) low (load-store 4 (store 4 b p w0) (p + 4) w1 h.1)
  where
    low : load 4 (put (w0, w1) b p) p ≡ w0
    low =
        load_ext 4 (put (w0, w1) b p) (store 4 b p w0) p
          (λ i lo hi. store_outside 4 (store 4 b p w0) (p + 4) w1 i (inl hi))
        ∙ load-store 4 b p w0 h.0

put_outside : (w : ℕ × ℕ) (b : Bytes) (p i : ℕ) → (i < p) ⊎ (p + 8 ≤ i) → put w b p i ≡ b i
put_outside (w0, w1) b p i h =
    store_outside 4 (store 4 b p w0) (p + 4) w1 i (ground arith)
    ∙ store_outside 4 b p w0 i (ground arith)

-- Storing the words of a memory gives that memory's bytes.
put-words : (b c : Bytes) (p : ℕ) → AreBytes c → Same p (p + 8) (put (words c p) b p) c
put-words b c p h i lo hi = elim (Bool-cases (ltb i (p + 4))) [
  | inl low ↦
      store_outside 4 (store 4 b p (load 4 c p)) (p + 4) (load 4 c (p + 4)) i (inl (ltb→lt _ _ low))
      ∙ store-load 4 b c p i h lo (ltb→lt _ _ low)
  | inr high ↦
      store-load 4 (store 4 b p (load 4 c p)) c (p + 4) i h (ltb-false _ _ high) (omega arith)
]

put-AreBytes : (w : ℕ × ℕ) (b : Bytes) (p : ℕ) → AreBytes b → AreBytes (put w b p)
put-AreBytes (w0, w1) b p h = store-IsByte 4 (store 4 b p w0) (p + 4) w1 (store-IsByte 4 b p w0 h)

module _ (code : ℕ × ℕ → ℕ × ℕ) where
  on_block-put : (b : Bytes) (p : ℕ) → on_block code b p ≡ put (code (words b p)) b p
  unfolding on_block
  on_block-put b p = refl

  on_block_outside : (b : Bytes) (p i : ℕ) → (i < p) ⊎ (p + 8 ≤ i) → on_block code b p i ≡ b i
  unfolding on_block
  on_block_outside b p i h = put_outside (code (words b p)) b p i h

  on_block-AreBytes : (b : Bytes) (p : ℕ) → AreBytes b → AreBytes (on_block code b p)
  unfolding on_block
  on_block-AreBytes b p h = put-AreBytes (code (words b p)) b p h

  -- The bytes before the first block and behind the last one are kept.
  pub each_block_outside :
      (n : ℕ) (b : Bytes) (p i : ℕ) → (i < p) ⊎ (p + 8 * n ≤ i) → each_block code n b p i ≡ b i
  unfolding each_block
  each_block_outside zero b p i h = refl
  each_block_outside (suc n) b p i h =
      each_block_outside n (on_block code b p) (p + 8) i (ground arith)
      ∙ on_block_outside b p i (ground arith)

  each_block-AreBytes : (n : ℕ) (b : Bytes) (p : ℕ) → AreBytes b → AreBytes (each_block code n b p)
  unfolding each_block
  each_block-AreBytes zero b p h = h
  each_block-AreBytes (suc n) b p h =
      each_block-AreBytes n (on_block code b p) (p + 8) (on_block-AreBytes b p h)

-- Two codings of a block, the second of which undoes the first on words.
module _ (code undo : ℕ × ℕ → ℕ × ℕ) (fits : (w : ℕ × ℕ) → AreWords w → AreWords (code w))
    (undoes : (w : ℕ × ℕ) → AreWords w → undo (code w) ≡ w) where
  -- Undoing a block in a memory that has the coded block.
  undo-block :
      (b c : Bytes) (p : ℕ)
      → AreBytes b
      → Same p (p + 8) c (on_block code b p)
      → Same p (p + 8) (on_block undo c p) b
  unfolding on_block
  undo-block b c p h same i lo hi = ap (λ w. put w c p i) restored ∙ put-words c b p h i lo hi
    where
      restored : undo (words c p) ≡ words b p
      restored =
          ap undo (
            words-ext c (on_block code b p) p same
            ∙ words-put (code (words b p)) b p (fits (words b p) (words-AreWords b p h)))
          ∙ undoes (words b p) (words-AreWords b p h)

  -- Undoing gives back the blocks, in any memory that has the coded ones.
  undo-each :
      (n : ℕ) (b c : Bytes) (p : ℕ)
      → AreBytes b
      → Same p (p + 8 * n) c (each_block code n b p)
      → Same p (p + 8 * n) (each_block undo n c p) b
  unfolding each_block
  undo-each zero b c p h same i lo hi = absurd (omega arith)
  undo-each (suc n) b c p h same i lo hi = elim (Bool-cases (ltb i (p + 8))) [
    | inl low ↦
        each_block_outside undo n (on_block undo c p) (p + 8) i (inl (ltb→lt _ _ low))
        ∙ undo-block b c p h first i lo (ltb→lt _ _ low)
    | inr high ↦
        undo-each n (on_block code b p) (on_block undo c p) (p + 8) (on_block-AreBytes code b p h)
          rest i (ltb-false _ _ high) (omega arith)
        ∙ on_block_outside code b p i (inr (ltb-false _ _ high))
  ]
    where
      first : Same p (p + 8) c (on_block code b p)
      first j jlo jhi =
          same j jlo (omega arith)
          ∙ each_block_outside code n (on_block code b p) (p + 8) j (inl jhi)

      rest :
          Same
            (p + 8)
            (p + 8 + 8 * n)
            (on_block undo c p)
            (each_block code n (on_block code b p) (p + 8))
      rest j jlo jhi = on_block_outside undo c p j (inr jlo) ∙ same j (omega arith) (omega arith)

-- Decrypting a stretch of bytes in any memory that holds its encryption gives back the bytes,
-- whatever the key and the length; bytes outside the whole blocks that the length is rounded up
-- to are changed by neither.
pub decrypt_bytes-encrypt_bytes :
    (k : Key) (len : ℕ) (b c : Bytes) (p : ℕ)
    → ((i : ℕ) → IsByte (b i))
    → ((i : ℕ) → p ≤ i → i < p + 8 * blocks len → c i ≡ encrypt_bytes k len b p i)
    → ((i : ℕ) → p ≤ i → i < p + 8 * blocks len → decrypt_bytes k len c p i ≡ b i)
      × ((i : ℕ)
          → (i < p) ⊎ (p + 8 * blocks len ≤ i)
          → (decrypt_bytes k len c p i ≡ c i) × (encrypt_bytes k len b p i ≡ b i))
unfolding encrypt_bytes decrypt_bytes
decrypt_bytes-encrypt_bytes k len b c p h same = (
  undo-each (encrypt_words k) (decrypt_words k) (encrypt_words-AreWords k)
      (decrypt_words-encrypt_words k) (blocks len) b c p h same,
  λ i out. (
    each_block_outside (decrypt_words k) (blocks len) c p i out,
    each_block_outside (encrypt_words k) (blocks len) b p i out,
  ),
)
