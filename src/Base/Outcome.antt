-- ===== src/Base/Outcome.antt =====
-- `Result<T, E>` and the `?` operator as a bind.
use Prim.Native.String.{String, ◌++◌}
use mathlib.Core.Path.{◌≡◌, refl}
use mathlib.Core.Logic.{◌⊎◌, inl, inr}
use mathlib.Core.Option.{Option, none, some}
use native.Mathlib.Omega.{arith}

pub data Result {ℓ κ} (T : Type ℓ) (E : Type κ) : Type (ℓ ⊔ κ) where
  ok : T → Result T E
  err : E → Result T E

module _ {ℓ κ μ} {T : Type ℓ} {U : Type κ} {E : Type μ} where
  infixl 5 ◌>>=◌
  abbrev pub ◌>>=◌ : Result T E → (T → Result U E) → Result U E
  ◌>>=◌ (ok t) next = next t
  ◌>>=◌ (err e) next = err e

pub Result-cases {ℓ κ} :
    {T : Type ℓ} {E : Type κ} (r : Result T E) → ((t : T) × (r ≡ ok t)) ⊎ ((e : E) × (r ≡ err e))
Result-cases (ok t) = inl (t, refl)
Result-cases (err e) = inr (e, refl)

pub bind-ok {ℓ κ μ} :
    {T : Type ℓ} {U : Type κ} {E : Type μ} (r : Result T E) (next : T → Result U E) {u : U}
    → (r >>= next) ≡ ok u
    → (t : T) × (r ≡ ok t) × (next t ≡ ok u)
bind-ok (ok t) next h = (t, refl, h)
bind-ok (err e) next h = cc

-- `ok_or` and `map_err`
module _ {ℓ κ} {T : Type ℓ} {E : Type κ} where
  abbrev pub ok_or : E → Option T → Result T E
  ok_or e none = err e
  ok_or e (some t) = ok t

  pub ok_or-ok : (e : E) (o : Option T) {t : T} → ok_or e o ≡ ok t → o ≡ some t
  ok_or-ok e none h = cc
  ok_or-ok e (some t) h = ground arith

  abbrev pub map_err {μ} : {F : Type μ} → (E → F) → Result T E → Result T F
  map_err f (ok t) = ok t
  map_err f (err e) = err (f e)

  pub map_err-ok {μ} :
      {F : Type μ} (f : E → F) (r : Result T E) {t : T} → map_err f r ≡ ok t → r ≡ ok t
  map_err-ok f (ok t) h = ground arith
  map_err-ok f (err e) h = cc

  pub map_err-err {μ} :
      {F : Type μ} (f : E → F) (r : Result T E) {x : F} → map_err f r ≡ err x → (e : E) × (x ≡ f e)
  map_err-err f (ok t) h = cc
  map_err-err f (err e) h = (e, ground arith)

-- `format!("{p}{e}")`
abbrev pub prefixed : String → String → String
prefixed p e = p ++ e
