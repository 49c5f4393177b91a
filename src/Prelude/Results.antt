-- ===== src/Prelude/Results.antt =====
-- A value or a thrown error, and the sequencing of calls that may throw.
use mathlib.Core.Path.{◌≡◌, refl, subst, ap}
use mathlib.Core.Logic.{◌⊎◌, inl, inr}
use mathlib.Core.Bool.{Bool, true, false}
use mathlib.Core.Option.{Option, none, some}
use native.Mathlib.Omega.{arith}

pub data Result {ℓ κ} (E : Type ℓ) (A : Type κ) : Type (ℓ ⊔ κ) where
  ok : A → Result E A
  err : E → Result E A

infixl 5 ◌>>=◌ ◌>>◌
abbrev pub ◌>>=◌ {ℓ κ} : {E : Type ℓ} {A B : Type κ} → Result E A → (A → Result E B) → Result E B
ok a >>= f = f a
err e >>= f = err e

abbrev pub ◌>>◌ {ℓ κ} : {E : Type ℓ} {A B : Type κ} → Result E A → Result E B → Result E B
m >> k = m >>= λ _. k

-- `if (test) throw e`
abbrev pub throw_if {ℓ} : {E : Type ℓ} → Bool → E → Result E (Unit {0})
throw_if true e = err e
throw_if false e = ok tt

-- The value of an option, or `throw e` where there is none.
abbrev pub or_else {ℓ κ} : {E : Type ℓ} {A : Type κ} → E → Option A → Result E A
or_else e none = err e
or_else e (some a) = ok a

-- What a chain of calls that ended well says of its first call.
pub bind-ok {ℓ κ ν} :
    {E : Type ℓ} {A B : Type κ} {P : Type ν} (m : Result E A) {f : A → Result E B} {b : B}
    → (m >>= f) ≡ ok b
    → ((a : A) → m ≡ ok a → f a ≡ ok b → P)
    → P
bind-ok (ok a) p found = found a refl p
bind-ok (err e) p found = ground arith

pub throw_if-ok {ℓ} :
    {E : Type ℓ} (b : Bool) (e : E) (u : Unit {0}) → throw_if b e ≡ ok u → b ≡ false
throw_if-ok true e u p = ground arith
throw_if-ok false e u p = refl

pub ok-same {ℓ κ ν} :
    {E : Type ℓ} {A : Type κ} (P : A → Type ν) (a b : A)
    → P a
    → Path (Result E A) (ok a) (ok b)
    → P b
ok-same P a b p same = subst (λ r. elim r as (λ _. Type _) [ ok c ↦ P c | err e ↦ P b ]) same p

pub Result-cases {ℓ κ} :
    {E : Type ℓ} {A : Type κ} (m : Result E A) → ((a : A) × (m ≡ ok a)) ⊎ ((e : E) × (m ≡ err e))
Result-cases (ok a) = inl (a, refl)
Result-cases (err e) = inr (e, refl)

pub ok-injective {ℓ κ} :
    {E : Type ℓ} {A : Type κ} {a b : A} → Path (Result E A) (ok a) (ok b) → a ≡ b
ok-injective p = cc

pub or_else-ok {ℓ κ} :
    {E : Type ℓ} {A : Type κ} (e : E) (o : Option A) (a : A) → or_else e o ≡ ok a → o ≡ some a
or_else-ok e none a p = ground arith
or_else-ok e (some b) a p = ap some (ok-injective p)
