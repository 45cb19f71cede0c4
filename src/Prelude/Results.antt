-- ===== src/Prelude/Results.antt =====
-- Rust's `Result`, with the chain of the `?` operator.
use mathlib.Core.Bool.{Bool, true, false}
use mathlib.Core.Path.{◌≡◌, refl, sym, ap, subst}
use mathlib.Core.Logic.{◌⊎◌, inl, inr}
use calinix.Prelude.Tests.{if◌then◌else◌}

pub data Result {ℓ κ} (E : Type ℓ) (A : Type κ) : Type (ℓ ⊔ κ) where
  err : E → Result E A
  ok : A → Result E A

infixl 5 ◌>>=◌
abbrev pub ◌>>=◌ {ℓ κ μ} :
    {E : Type ℓ} {A : Type κ} {B : Type μ} → Result E A → (A → Result E B) → Result E B
err e >>= f = err e
ok a >>= f = f a

infixl 5 ◌>>◌
abbrev pub ◌>>◌ {ℓ κ μ} :
    {E : Type ℓ} {A : Type κ} {B : Type μ} → Result E A → Result E B → Result E B
err e >> next = err e
ok a >> next = next

-- `if refused { return Err(e) }`
abbrev pub reject {ℓ} : {E : Type ℓ} → Bool → E → Result E (Unit {0})
reject refused e = if refused then err e else ok tt

module _ {ℓ κ} {E : Type ℓ} {B : Type κ} where
  abbrev IsOk : Result E B → Type 0
  IsOk (err e) = ⊥
  IsOk (ok b) = Unit {0}

  -- A chain that succeeds has passed its first guard.
  pub reject-ok :
      (refused : Bool) (e : E) (next : Result E B) (b : B)
      → (reject refused e >> next) ≡ ok b
      → (refused ≡ false) × (next ≡ ok b)
  reject-ok true e next b h = elim (subst IsOk (sym h) tt) [ ]
  reject-ok false e next b h = (refl, h)

  pub err-ok {μ} : {e : E} {b : B} {C : Type μ} → err e ≡ ok b → C
  err-ok h = elim (subst IsOk (sym h) tt) [ ]

  value_or : B → Result E B → B
  value_or other (err e) = other
  value_or other (ok b) = b

  abbrev ok_of : B → Result E B
  ok_of b = ok b

  pub ok-injective : {a b : B} → ok_of a ≡ ok_of b → a ≡ b
  unfolding value_or
  ok-injective {a} h = ap (value_or a) h

  pub Result-cases : (r : Result E B) → ((e : E) × (r ≡ err e)) ⊎ ((b : B) × (r ≡ ok b))
  Result-cases (err e) = inl (e, refl)
  Result-cases (ok b) = inr (b, refl)

-- A chain that succeeds is a step that succeeds and the rest for its value.
pub bind-ok {ℓ κ μ} :
    {E : Type ℓ} {A : Type κ} {B : Type μ} (m : Result E A) (f : A → Result E B) (b : B)
    → (m >>= f) ≡ ok b
    → (a : A) × (m ≡ ok a) × (f a ≡ ok b)
bind-ok (err e) f b h = err-ok h
bind-ok (ok a) f b h = (a, refl, h)
