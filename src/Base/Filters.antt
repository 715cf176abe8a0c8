-- ===== src/Base/Filters.antt =====
-- Filters of a list, and searches in it.
use mathlib.Core.Path.{◌≡◌, refl, ap, ◌∙◌}
use mathlib.Core.Bool.{Bool, true, false, not, ◌&&◌, ◌||◌}
use Prim.Native.Nat.{ℕ, zero, suc}
use mathlib.Core.List.{List, [], ◌∷◌, ◌++◌, map}
use native.Mathlib.Omega.{arith}
use icn_v.Base.Num.{if◌then◌else◌}
use mathlib.Core.Logic.{inl, inr}
use icn_v.Base.Lists.{filterb, All, Bool-cases}
use icn_v.Base.Equality.{PartialEq, ◌==◌, eqb_refl}

module _ {ℓ} {A : Type ℓ} where
  -- `iter().any(p)`
  abbrev pub anyb : (A → Bool) → List A → Bool
  anyb p [] = false
  anyb p (x ∷ xs) = if p x then true else anyb p xs

  pub anyb-append : (p : A → Bool) (xs ys : List A) → anyb p (xs ++ ys) ≡ (anyb p xs || anyb p ys)
  anyb-append p [] ys = refl
  anyb-append p (x ∷ xs) ys = ground (arith, anyb-append p xs ys)

  pub filterb-append :
      (p : A → Bool) (xs ys : List A) → filterb p (xs ++ ys) ≡ filterb p xs ++ filterb p ys
  filterb-append p [] ys = refl
  filterb-append p (x ∷ xs) ys = ground (arith, filterb-append p xs ys)

  pub filterb-cong :
      (p q : A → Bool) (xs : List A) → All (λ x. p x ≡ q x) xs → filterb p xs ≡ filterb q xs
  filterb-cong p q [] h = refl
  filterb-cong p q (x ∷ xs) h = ground (arith, filterb-cong p q xs h.1)

  pub filterb-ext :
      (p q : A → Bool) (xs : List A) → ((x : A) → p x ≡ q x) → filterb p xs ≡ filterb q xs
  filterb-ext p q [] h = refl
  filterb-ext p q (x ∷ xs) h = ground (arith, h x, filterb-ext p q xs h)

  pub filterb-filterb :
      (p q : A → Bool) (xs : List A) → filterb p (filterb q xs) ≡ filterb (λ x. q x && p x) xs
  filterb-filterb p q [] = refl
  filterb-filterb p q (x ∷ xs) = ground (arith, filterb-filterb p q xs)

  pub filterb-All {κ} :
      (P : A → Type κ) (p : A → Bool) (xs : List A) → All P xs → All P (filterb p xs)
  filterb-All P p [] h = tt
  filterb-All P p (x ∷ xs) h = ground (arith, filterb-All P p xs h.1)

  pub All-map {κ μ} :
      (P : A → Type κ) (Q : A → Type μ)
      → ((x : A) → P x → Q x)
      → (xs : List A) → All P xs
      → All Q xs
  All-map P Q f [] h = tt
  All-map P Q f (x ∷ xs) h = (f x h.0, All-map P Q f xs h.1)

module _ {ℓ} {A : Type ℓ} ⦃e : PartialEq A⦄ where
  -- `contains` of a vector or of a set
  unfoldable pub contains : A → List A → Bool
  contains a [] = false
  contains a (x ∷ xs) = if x == a then true else contains a xs

  pub not-contains :
      (a x : A) (xs : List A) → not (contains a (x ∷ xs)) ≡ (not (a == x) && not (contains a xs))
  unfolding contains
  not-contains a x xs = ground (arith, e.eqb_iff a x, e.eqb_iff x a)

  pub contains-filterb :
      (p : A → Bool) (a : A) (xs : List A) → contains a (filterb p xs) ≡ (contains a xs && p a)
  unfolding contains
  contains-filterb p a [] = refl
  contains-filterb p a (x ∷ xs) = ground (arith, e.eqb_iff x a, contains-filterb p a xs)

  pub contains-All : (xs : List A) → All (λ x. contains x xs ≡ true) xs
  unfolding contains
  contains-All [] = tt
  contains-All (x ∷ xs) = (
    ground (arith, eqb_refl x),
    All-map (λ y. contains y xs ≡ true) _ (λ y h. ground (arith, h)) xs (contains-All xs),
  )

  pub contains-anyb :
      (p : A → Bool) (a : A) (xs : List A) → contains a xs ≡ true → p a ≡ true → anyb p xs ≡ true
  unfolding contains
  contains-anyb p a [] h k = cc
  contains-anyb p a (x ∷ xs) h k = elim (Bool-cases (x == a)) [
    | inl same ↦ let q : p x ≡ true = ap p ((e.eqb_iff x a).0 same) ∙ k in ground (arith, q)
    | inr other ↦ ground (arith, other, h, contains-anyb p a xs (ground (arith, other, h)) k)
  ]

  pub contains-append_last : (a : A) (xs : List A) → contains a (xs ++ a ∷ []) ≡ true
  unfolding contains
  contains-append_last a [] = ground (arith, eqb_refl a)
  contains-append_last a (x ∷ xs) = ground (arith, contains-append_last a xs)

  -- What is left of a list without the elements that a test selects.
  pub filterb-without :
      (p : A → Bool) (xs : List A)
      → filterb (λ x. not (contains x (filterb p xs))) xs ≡ filterb (λ x. not (p x)) xs
  filterb-without p xs =
      filterb-cong (λ x. not (contains x (filterb p xs))) (λ x. not (p x)) xs
        (All-map (λ x. contains x xs ≡ true) _ (λ x h. ground (arith, h, contains-filterb p x xs))
          xs (contains-All xs))

-- `skip` and `take` of an iterator
module _ {ℓ} {A : Type ℓ} where
  abbrev pub skip : ℕ → List A → List A
  skip zero xs = xs
  skip (suc n) [] = []
  skip (suc n) (x ∷ xs) = skip n xs

  abbrev pub take : ℕ → List A → List A
  take zero xs = []
  take (suc n) [] = []
  take (suc n) (x ∷ xs) = x ∷ take n xs

  pub skip-All {κ} : (P : A → Type κ) (n : ℕ) (xs : List A) → All P xs → All P (skip n xs)
  skip-All P zero xs h = h
  skip-All P (suc n) [] h = tt
  skip-All P (suc n) (x ∷ xs) h = skip-All P n xs h.1

  pub take-All {κ} : (P : A → Type κ) (n : ℕ) (xs : List A) → All P xs → All P (take n xs)
  take-All P zero xs h = tt
  take-All P (suc n) [] h = tt
  take-All P (suc n) (x ∷ xs) h = (h.0, take-All P n xs h.1)

  pub All-filterb {κ} :
      (P : A → Type κ) (p : A → Bool) (xs : List A)
      → ((x : A) → p x ≡ true → P x)
      → All P (filterb p xs)
  All-filterb P p [] h = tt
  All-filterb P p (x ∷ xs) h = elim (Bool-cases (p x)) [
    | inl holds ↦ rw holds (h x holds, All-filterb P p xs h)
    | inr fails ↦ rw fails (All-filterb P p xs h)
  ]

  pub All-map_of {κ μ} :
      {B : Type μ} (P : B → Type κ) (f : A → B) (xs : List A)
      → All (λ x. P (f x)) xs
      → All P (map f xs)
  All-map_of P f [] h = tt
  All-map_of P f (x ∷ xs) h = (h.0, All-map_of P f xs h.1)
