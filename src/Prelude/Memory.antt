-- ===== src/Prelude/Memory.antt =====
-- Byte memory: a function from addresses, with the little-endian loads and stores that `memcpy`
-- performs between an integer variable and a buffer.
use Prim.Native.Nat.{ℕ, zero, suc, ◌+◌, ◌*◌, ◌/◌, ◌%◌, ◌^◌, ◌≤◌, ◌<◌}
use mathlib.Core.Path.{◌≡◌, refl}
use mathlib.Core.Logic.{◌⊎◌, inl}
use mathlib.Core.List.{List, [], ◌∷◌}
use native.Mathlib.Omega.{arith}
use native.Mathlib.Nat.{pow-suc}
use otx.Prelude.Tests.{◌==◌, if◌then◌else◌}
use otx.Prelude.Lists.{length}

abbrev pub Bytes : Type 0
Bytes = ℕ → ℕ

-- The store of one byte.
abbrev pub poke : Bytes → ℕ → ℕ → Bytes
poke b p v i = if i == p then v else b i

-- `memcpy(b + p, &v, n)` for an `n`-byte unsigned integer `v`.
unfoldable pub store : ℕ → Bytes → ℕ → ℕ → Bytes
store zero b p v = b
store (suc n) b p v = store n (poke b p (v % 256)) (p + 1) (v / 256)

-- `memcpy(&v, b + p, n)`.
unfoldable pub load : ℕ → Bytes → ℕ → ℕ
load zero b p = 0
load (suc n) b p = b p + 256 * load n b (p + 1)

-- `memcpy` from and to a string of bytes.
unfoldable pub store_all : List ℕ → Bytes → ℕ → Bytes
store_all [] b p = b
store_all (x ∷ xs) b p = store_all xs (poke b p x) (p + 1)

unfoldable pub load_all : ℕ → Bytes → ℕ → List ℕ
load_all zero b p = []
load_all (suc n) b p = b p ∷ load_all n b (p + 1)

-- `memset(b + p, v, n)`.
unfoldable pub fill : ℕ → Bytes → ℕ → ℕ → Bytes
fill zero b p v = b
fill (suc n) b p v = fill n (poke b p v) (p + 1) v

abbrev pub IsByte : ℕ → Type 0
IsByte x = x < 256

-- Addresses outside `[p, p + n)` keep their bytes.
pub store_outside : (n : ℕ) (b : Bytes) (p v i : ℕ) → (i < p) ⊎ (p + n ≤ i) → store n b p v i ≡ b i
unfolding store
store_outside zero b p v i h = refl
store_outside (suc n) b p v i h =
    ground (arith, store_outside n (poke b p (v % 256)) (p + 1) (v / 256) i)

pub store_all_outside :
    (xs : List ℕ) (b : Bytes) (p i : ℕ) → (i < p) ⊎ (p + length xs ≤ i) → store_all xs b p i ≡ b i
unfolding store_all
store_all_outside [] b p i h = refl
store_all_outside (x ∷ xs) b p i h = ground (arith, store_all_outside xs (poke b p x) (p + 1) i)

pub fill_outside : (n : ℕ) (b : Bytes) (p v i : ℕ) → (i < p) ⊎ (p + n ≤ i) → fill n b p v i ≡ b i
unfolding fill
fill_outside zero b p v i h = refl
fill_outside (suc n) b p v i h = ground (arith, fill_outside n (poke b p v) (p + 1) v i)

-- A load depends on the bytes that it covers.
pub load_ext :
    (n : ℕ) (b c : Bytes) (p : ℕ)
    → ((i : ℕ) → p ≤ i → i < p + n → b i ≡ c i)
    → load n b p ≡ load n c p
unfolding load
load_ext zero b c p h = refl
load_ext (suc n) b c p h = omega (
  arith,
  h p (omega arith) (omega arith),
  load_ext n b c (p + 1) (λ i lo hi. h i (omega arith) (omega arith)),
)

pub load_all_ext :
    (n : ℕ) (b c : Bytes) (p : ℕ)
    → ((i : ℕ) → p ≤ i → i < p + n → b i ≡ c i)
    → load_all n b p ≡ load_all n c p
unfolding load_all
load_all_ext zero b c p h = refl
load_all_ext (suc n) b c p h = cc (
  h p (omega arith) (omega arith),
  load_all_ext n b c (p + 1) (λ i lo hi. h i (omega arith) (omega arith)),
)

pub load-store : (n : ℕ) (b : Bytes) (p v : ℕ) → v < 256 ^ n → load n (store n b p v) p ≡ v
unfolding load store
load-store zero b p v h = omega arith
load-store (suc n) b p v h = omega (
  arith,
  store_outside n (poke b p (v % 256)) (p + 1) (v / 256) p (inl (omega arith)),
  poked,
  load-store n (poke b p (v % 256)) (p + 1) (v / 256) (omega (arith, pow-suc 256 n)),
)
  where
    poked : poke b p (v % 256) p ≡ v % 256
    poked = ground arith

pub load_all-store_all :
    (xs : List ℕ) (b : Bytes) (p : ℕ) → load_all (length xs) (store_all xs b p) p ≡ xs
unfolding load_all store_all
load_all-store_all [] b p = refl
load_all-store_all (x ∷ xs) b p = cc (
  store_all_outside xs (poke b p x) (p + 1) p (inl (omega arith)),
  poked,
  load_all-store_all xs (poke b p x) (p + 1),
)
  where
    poked : poke b p x p ≡ x
    poked = ground arith

pub load-lt : (n : ℕ) (b : Bytes) (p : ℕ) → ((i : ℕ) → IsByte (b i)) → load n b p < 256 ^ n
unfolding load
load-lt zero b p h = omega arith
load-lt (suc n) b p h = omega (arith, pow-suc 256 n, h p, load-lt n b (p + 1) h)

-- A store writes bytes.
pub store-IsByte :
    (n : ℕ) (b : Bytes) (p v : ℕ) → ((i : ℕ) → IsByte (b i)) → (i : ℕ) → IsByte (store n b p v i)
unfolding store
store-IsByte zero b p v h i = h i
store-IsByte (suc n) b p v h i =
    store-IsByte n (poke b p (v % 256)) (p + 1) (v / 256) (λ j. ground (arith, h j)) i

-- Storing back what a memory loads at the place gives the memory's bytes there.
pub store-load :
    (n : ℕ) (b c : Bytes) (p i : ℕ)
    → ((j : ℕ) → IsByte (c j))
    → p ≤ i
    → i < p + n
    → store n b p (load n c p) i ≡ c i
unfolding store load
store-load zero b c p i h lo hi = absurd (omega arith)
store-load (suc n) b c p i h lo hi = ground (
  arith,
  h p,
  store-load n (poke b p (c p)) c (p + 1) i h,
  store_outside n (poke b p (c p)) (p + 1) (load n c (p + 1)) i,
)
