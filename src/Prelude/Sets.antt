-- ===== src/Prelude/Sets.antt =====
-- Finite sets and vectors of numbers as lists: membership, first removal, distinctness.
use Prim.Native.Nat.{ℕ}
use mathlib.Core.Path.{◌≡◌, refl}
use mathlib.Core.Bool.{Bool, true, false, ◌||◌}
use mathlib.Core.List.{List, [], ◌∷◌, ◌++◌}
use native.Mathlib.Omega.{arith}
use otx.Prelude.Tests.{◌==◌, if◌then◌else◌}

-- `std::find(...) != end()`.
abbrev pub has : ℕ → List ℕ → Bool
has x [] = false
has x (y ∷ ys) = x == y || has x ys

-- `erase` of the first occurrence.
abbrev pub remove : ℕ → List ℕ → List ℕ
remove x [] = []
remove x (y ∷ ys) = if x == y then ys else y ∷ remove x ys

abbrev pub IsDistinct : List ℕ → Type 0
IsDistinct [] = Unit {0}
IsDistinct (x ∷ xs) = (has x xs ≡ false) × IsDistinct xs

pub has-append : (x : ℕ) (xs ys : List ℕ) → has x (xs ++ ys) ≡ (has x xs || has x ys)
has-append x [] ys = refl
has-append x (z ∷ xs) ys = ground (arith, has-append x xs ys)

pub has-remove_ne : (x y : ℕ) (xs : List ℕ) → (x == y) ≡ false → has x (remove y xs) ≡ has x xs
has-remove_ne x y [] h = refl
has-remove_ne x y (z ∷ xs) h = ground (arith, has-remove_ne x y xs)

pub has-remove_self : (x : ℕ) (xs : List ℕ) → IsDistinct xs → has x (remove x xs) ≡ false
has-remove_self x [] h = refl
has-remove_self x (z ∷ xs) h = ground (arith, has-remove_self x xs h.1)

-- What a removal leaves was there before.
pub has_of_has-remove : (x y : ℕ) (xs : List ℕ) → has x (remove y xs) ≡ true → has x xs ≡ true
has_of_has-remove x y [] h = h
has_of_has-remove x y (z ∷ xs) h = ground (arith, has_of_has-remove x y xs)

pub remove-IsDistinct : (x : ℕ) (xs : List ℕ) → IsDistinct xs → IsDistinct (remove x xs)
remove-IsDistinct x [] h = h
remove-IsDistinct x (z ∷ xs) h = ground (arith, remove-IsDistinct x xs h.1, has-remove_ne z x xs)

pub append-IsDistinct :
    (x : ℕ) (xs : List ℕ) → has x xs ≡ false → IsDistinct xs → IsDistinct (xs ++ x ∷ [])
append-IsDistinct x [] h d = (refl, tt)
append-IsDistinct x (z ∷ xs) h d =
    ground (arith, append-IsDistinct x xs, d, has-append z xs (x ∷ []))
