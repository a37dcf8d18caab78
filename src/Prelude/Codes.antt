-- ===== src/Prelude/Codes.antt =====
-- Little-endian codes of numbers, and what a memory holds from an address on.
use Prim.Native.Nat.{ℕ, zero, suc, ◌+◌, ◌/◌, ◌%◌, ◌^◌, ◌<◌}
use mathlib.Core.Path.{◌≡◌, refl, ap, subst}
use mathlib.Core.List.{List, [], ◌∷◌, ◌++◌}
use native.Mathlib.Omega.{arith}
use native.Mathlib.Nat.{pow-suc}
use otx.Prelude.Lists.{length}
use otx.Prelude.Memory.{Bytes, poke, load, load_all, store_all, store_all_outside}

-- The bytes of an `n`-byte unsigned integer.
abbrev pub le_bytes : ℕ → ℕ → List ℕ
le_bytes zero v = []
le_bytes (suc n) v = v % 256 ∷ le_bytes n (v / 256)

pub length-le_bytes : (n v : ℕ) → length (le_bytes n v) ≡ n
length-le_bytes zero v = refl
length-le_bytes (suc n) v = ap suc (length-le_bytes n (v / 256))

-- The bytes of a memory from an address on.
abbrev pub Holds : Bytes → ℕ → List ℕ → Type 0
Holds b p [] = Unit {0}
Holds b p (x ∷ xs) = (b p ≡ x) × Holds b (p + 1) xs

pub Holds-append :
    (b : Bytes) (p : ℕ) (xs ys : List ℕ)
    → Holds b p (xs ++ ys)
    → Holds b p xs × Holds b (p + length xs) ys
Holds-append b p [] ys h = (tt, subst (λ q. Holds b q ys) (omega arith) h)
Holds-append b p (x ∷ xs) ys h =
    let (l, r) = Holds-append b (p + 1) xs ys h.1 in
    ((h.0, l), subst (λ q. Holds b q ys) (omega arith) r)

pub store_all-Holds : (xs : List ℕ) (b : Bytes) (p : ℕ) → Holds (store_all xs b p) p xs
unfolding store_all
store_all-Holds [] b p = tt
store_all-Holds (x ∷ xs) b p = (first, store_all-Holds xs (poke b p x) (p + 1))
  where
    first : store_all xs (poke b p x) (p + 1) p ≡ x
    first = ground (arith, store_all_outside xs (poke b p x) (p + 1) p)

pub load-Holds :
    (n v : ℕ) (b : Bytes) (p : ℕ) → v < 256 ^ n → Holds b p (le_bytes n v) → load n b p ≡ v
unfolding load
load-Holds zero v b p h k = omega arith
load-Holds (suc n) v b p h k =
    omega (
      arith,
      pow-suc 256 n,
      k.0,
      load-Holds n (v / 256) b (p + 1) (omega (arith, pow-suc 256 n)) k.1,
    )

pub load_all-Holds :
    (xs : List ℕ) (b : Bytes) (p : ℕ) → Holds b p xs → load_all (length xs) b p ≡ xs
unfolding load_all
load_all-Holds [] b p h = refl
load_all-Holds (x ∷ xs) b p h = cc (h.0, load_all-Holds xs b (p + 1) h.1)

-- The memory that has the bytes of a list from address 0 on, and zeros behind them.
abbrev pub memory_of : List ℕ → Bytes
memory_of [] i = 0
memory_of (x ∷ xs) zero = x
memory_of (x ∷ xs) (suc i) = memory_of xs i

Holds-shift : (b : Bytes) (p : ℕ) (xs : List ℕ) → Holds (λ i. b (suc i)) p xs → Holds b (suc p) xs
Holds-shift b p [] h = tt
Holds-shift b p (x ∷ xs) h =
    (h.0, subst (λ q. Holds b q xs) (omega arith) (Holds-shift b (p + 1) xs h.1))

pub memory_of-Holds : (xs : List ℕ) → Holds (memory_of xs) 0 xs
memory_of-Holds [] = tt
memory_of-Holds (x ∷ xs) = (
  refl,
  subst (λ q. Holds (memory_of (x ∷ xs)) q xs) (omega arith)
      (Holds-shift (memory_of (x ∷ xs)) 0 xs (memory_of-Holds xs)),
)
