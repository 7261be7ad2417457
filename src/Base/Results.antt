-- ===== src/Base/Results.antt =====
-- Fallible code: a value, or the error `E` that ended it.
use mathlib.Core.Bool.{Bool, true, false}
use mathlib.Core.Path.{◌≡◌, refl}
use mathlib.Core.Option.{Option, none, some}

pub data Result {ℓ} (E : Type 0) (A : Type ℓ) : Type ℓ where
  ok : A → Result E A
  err : E → Result E A

infixl 5 ◌>>=◌ ◌>>◌
abbrev pub ◌>>=◌ {ℓ κ} :
    {E : Type 0} {A : Type ℓ} {B : Type κ} → Result E A → (A → Result E B) → Result E B
ok a >>= f = f a
err e >>= f = err e

abbrev pub ◌>>◌ {ℓ} : {E : Type 0} {B : Type ℓ} → Result E (Unit {0}) → Result E B → Result E B
ok _ >> k = k
err e >> k = err e

-- `if (!b) throw e;`
abbrev pub guard : {E : Type 0} → Bool → E → Result E (Unit {0})
guard true e = ok tt
guard false e = err e

abbrev pub or_throw {ℓ} : {E : Type 0} {A : Type ℓ} → Option A → E → Result E A
or_throw none e = err e
or_throw (some a) e = ok a

-- A chain that succeeds has a first step that succeeds, and a rest that does.
pub bind_ok {ℓ κ} :
    {E : Type 0} {A : Type ℓ} {B : Type κ} {final : B} (first : Result E A) (rest : A → Result E B)
    → first >>= rest ≡ ok final
    → (a : A) × (first ≡ ok a) × (rest a ≡ ok final)
bind_ok (err e) rest done = cc
bind_ok (ok a) rest done = (a, refl, done)

pub guard_ok {ℓ} :
    {E : Type 0} {B : Type ℓ} {final : B} (test : Bool) (e : E) (rest : Result E B)
    → (guard test e >> rest) ≡ ok final
    → (test ≡ true) × (rest ≡ ok final)
guard_ok true e rest done = (refl, done)
guard_ok false e rest done = cc

pub ok-injective {ℓ} :
    {E : Type 0} {A : Type ℓ} (a b : A) → ◌≡◌ {A = Result E A} (ok a) (ok b) → a ≡ b
ok-injective a b e = cc

-- The first part of a sequence that succeeds.
pub seq_ok {ℓ} :
    {E : Type 0} {B : Type ℓ} {final : B} (first : Result E (Unit {0})) (rest : Result E B)
    → (first >> rest) ≡ ok final
    → (first ≡ ok tt) × (rest ≡ ok final)
seq_ok (ok u) rest done = (refl, done)
seq_ok (err e) rest done = cc
