-- ===== src/Base/Equality.antt =====
-- Decidable equality as an interface: what `#[derive(PartialEq, Eq, Hash)]` gives a Rust type.
use Prim.Native.Nat.{ℕ}
use Prim.Native.String.{String}
use mathlib.Core.Path.{◌≡◌, refl}
use mathlib.Core.Logic.{◌↔◌, ◌⊎◌, ◌≢◌, inl, inr}
use mathlib.Core.Bool.{Bool, true, false, ◌&&◌}
use mathlib.Core.Option.{Option, none, some}
use native.Mathlib.Omega.{arith}
use text.Mathlib.Text.{◌==◌ as str_beq}
use text.Mathlib.TextEquality.{eq_iff}
use icn_v.Base.Num.{nat_beq, nat_beq_iff}
use icn_v.Base.Lists.{Bool-cases}

-- The operator `==` of the trait: a test, and what it decides.
pub record PartialEq {ℓ} (K : Type ℓ) : Type ℓ where
  pub eqb : (x y : K) → Bool
  pub eqb_iff : (x y : K) → (eqb x y ≡ true) ↔ (x ≡ y)

instance abbrev pub string_eq : PartialEq String
string_eq = record { eqb = str_beq; eqb_iff = eq_iff }

instance abbrev pub nat_eq : PartialEq ℕ
nat_eq = record { eqb = nat_beq; eqb_iff = nat_beq_iff }

infix 50 ◌==◌
abbrev pub ◌==◌ {ℓ} : {K : Type ℓ} ⦃c : PartialEq K⦄ (x y : K) → Bool
◌==◌ ⦃c⦄ x y = c.eqb x y

module _ {ℓ} {A : Type ℓ} ⦃e : PartialEq A⦄ where
  abbrev pub option_beq : Option A → Option A → Bool
  option_beq none none = true
  option_beq none (some b) = false
  option_beq (some a) none = false
  option_beq (some a) (some b) = e.eqb a b

  pub option_beq_iff : (a b : Option A) → (option_beq a b ≡ true) ↔ (a ≡ b)
  option_beq_iff none none = ground arith
  option_beq_iff none (some b) = ground arith
  option_beq_iff (some a) none = ground arith
  option_beq_iff (some a) (some b) = ground (arith, e.eqb_iff a b)

instance abbrev pub option_eq {ℓ} : {A : Type ℓ} ⦃e : PartialEq A⦄ → PartialEq (Option A)
option_eq = record { eqb = option_beq; eqb_iff = option_beq_iff }

module _ {ℓ κ} {A : Type ℓ} {B : Type κ} ⦃e : PartialEq A⦄ ⦃f : PartialEq B⦄ where
  abbrev pub pair_beq : A × B → A × B → Bool
  pair_beq p q = e.eqb p.0 q.0 && f.eqb p.1 q.1

  pub pair_beq_iff : (p q : A × B) → (pair_beq p q ≡ true) ↔ (p ≡ q)
  pair_beq_iff p q = ground (arith, e.eqb_iff p.0 q.0, f.eqb_iff p.1 q.1)

instance abbrev pub pair_eq {ℓ κ} :
    {A : Type ℓ} {B : Type κ} ⦃e : PartialEq A⦄ ⦃f : PartialEq B⦄ → PartialEq (A × B)
pair_eq = record { eqb = pair_beq; eqb_iff = pair_beq_iff }

pub eqb_refl {ℓ} : {A : Type ℓ} ⦃e : PartialEq A⦄ (a : A) → e.eqb a a ≡ true
eqb_refl ⦃e⦄ a = (e.eqb_iff a a).1 refl

pub key_cases {ℓ} : {A : Type ℓ} ⦃e : PartialEq A⦄ (a b : A) → (a ≡ b) ⊎ (a ≢ b)
key_cases ⦃e⦄ a b = elim (Bool-cases (e.eqb a b)) [
  | inl same ↦ inl ((e.eqb_iff a b).0 same)
  | inr other ↦ inr (λ same. ground (arith, e.eqb_iff a b))
]
