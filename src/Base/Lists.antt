-- ===== src/Base/Lists.antt =====
-- Lists measured by native numbers, sums, and predicates over lists.
use Prim.Native.Nat.{ℕ, suc, ◌+◌, ◌≤◌}
use mathlib.Core.Path.{◌≡◌, refl}
use mathlib.Core.Logic.{◌⊎◌, inl, inr}
use mathlib.Core.Bool.{Bool, true, false}
use mathlib.Core.Option.{Option, none, some}
use mathlib.Core.List.{List, [], ◌∷◌, ◌++◌}
use native.Mathlib.Omega.{arith}
use icn_v.Base.Num.{wrap64, if◌then◌else◌}

pub Bool-cases : (b : Bool) → (b ≡ true) ⊎ (b ≡ false)
Bool-cases true = inl refl
Bool-cases false = inr refl

pub Option-cases {ℓ} : {A : Type ℓ} (o : Option A) → (o ≡ none) ⊎ ((a : A) × (o ≡ some a))
Option-cases none = inl refl
Option-cases (some a) = inr (a, refl)

module _ {ℓ} {A : Type ℓ} where
  abbrev pub length : List A → ℕ
  length [] = 0
  length (x ∷ xs) = suc (length xs)

  pub length-append : (xs ys : List A) → length (xs ++ ys) ≡ length xs + length ys
  length-append [] ys = omega arith
  length-append (x ∷ xs) ys = omega (arith, length-append xs ys)

  -- `iter().filter(p)`
  abbrev pub filterb : (A → Bool) → List A → List A
  filterb p [] = []
  filterb p (x ∷ xs) = if p x then x ∷ filterb p xs else filterb p xs

  pub length-filterb-le : (p : A → Bool) (xs : List A) → length (filterb p xs) ≤ length xs
  length-filterb-le p [] = omega arith
  length-filterb-le p (x ∷ xs) = ground (arith, length-filterb-le p xs)

  abbrev pub All {κ} : (A → Type κ) → List A → Type κ
  All P [] = Unit
  All P (x ∷ xs) = P x × All P xs

  pub All-append {κ} : (P : A → Type κ) (xs ys : List A) → All P xs → All P ys → All P (xs ++ ys)
  All-append P [] ys h k = k
  All-append P (x ∷ xs) ys h k = (h.0, All-append P xs ys h.1 k)

  abbrev pub sum_by : (A → ℕ) → List A → ℕ
  sum_by f [] = 0
  sum_by f (x ∷ xs) = f x + sum_by f xs

  pub sum_by-append : (f : A → ℕ) (xs ys : List A) → sum_by f (xs ++ ys) ≡ sum_by f xs + sum_by f ys
  sum_by-append f [] ys = omega arith
  sum_by-append f (x ∷ xs) ys = omega (arith, sum_by-append f xs ys)

  -- `iter().map(f).sum::<u64>()` adds from the left, and wraps.
  abbrev sum64_from : (A → ℕ) → ℕ → List A → ℕ
  sum64_from f acc [] = acc
  sum64_from f acc (x ∷ xs) = sum64_from f (wrap64 (acc + f x)) xs

  abbrev pub sum64_by : (A → ℕ) → List A → ℕ
  sum64_by f xs = sum64_from f 0 xs

  sum64_from_lem :
      (f : A → ℕ) (acc : ℕ) (xs : List A)
      → wrap64 (sum64_from f acc xs) ≡ wrap64 (acc + sum_by f xs)
  sum64_from_lem f acc [] = omega arith
  sum64_from_lem f acc (x ∷ xs) = omega (arith, sum64_from_lem f (wrap64 (acc + f x)) xs)

  sum64_from-wrap :
      (f : A → ℕ) (acc : ℕ) (xs : List A)
      → wrap64 acc ≡ acc
      → wrap64 (sum64_from f acc xs) ≡ sum64_from f acc xs
  sum64_from-wrap f acc [] h = h
  sum64_from-wrap f acc (x ∷ xs) h = sum64_from-wrap f (wrap64 (acc + f x)) xs (omega arith)

  -- The wrapping sum is the sum, modulo the size of the type.
  pub sum64_by_lem : (f : A → ℕ) (xs : List A) → sum64_by f xs ≡ wrap64 (sum_by f xs)
  sum64_by_lem f xs = omega (arith, sum64_from_lem f 0 xs, sum64_from-wrap f 0 xs refl)
