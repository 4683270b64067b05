-- ===== src/Base/Outcome.antt =====
-- What a C++ call gives: a value, an exception, or undefined behaviour. `Exec S E` is a call that
-- may change an object: what was written before an exception stays written.
use mathlib.Core.Path.{◌≡◌, refl}
use mathlib.Core.Bool.{Bool, true, false}
use gateway_poc.Base.Tests.{if◌then◌else◌}

pub data Outcome {ℓ} (E : Type 0) (A : Type ℓ) : Type ℓ where
  ok : A → Outcome E A
  throw : E → Outcome E A
  fault : Outcome E A

infixl 5 ◌>>=◌
abbrev pub ◌>>=◌ {ℓ κ} :
    {E : Type 0} {A : Type ℓ} {B : Type κ} → Outcome E A → (A → Outcome E B) → Outcome E B
ok a >>= f = f a
throw e >>= f = throw e
fault >>= f = fault

pub >>=-eq-ok {ℓ κ} :
    {E : Type 0} {A : Type ℓ} {B : Type κ} (call : Outcome E A) (rest : A → Outcome E B)
    {result : B}
    → ◌≡◌ {A = Outcome E B} (call >>= rest) (ok result)
    → (a : A) × (call ≡ ok a) × (rest a ≡ ok result)
>>=-eq-ok fault rest e = cc
>>=-eq-ok (throw x) rest e = cc
>>=-eq-ok (ok a) rest e = (a, refl, e)

pub >>=-ok {ℓ κ} :
    {E : Type 0} {A : Type ℓ} {B : Type κ} {m : Outcome E A} (f : A → Outcome E B) {a : A} {b : B}
    → m ≡ ok a
    → f a ≡ ok b
    → (m >>= f) ≡ ok b
>>=-ok f e h = rw e h

pub ok-injective {ℓ} :
    {E : Type 0} {A : Type ℓ} {a b : A} → ◌≡◌ {A = Outcome E A} (ok a) (ok b) → a ≡ b
ok-injective e = cc

-- `if (b) throw e;` before a result.
pub unless-ok {ℓ} :
    {E : Type 0} {A : Type ℓ} (b : Bool) (e : E) (m : Outcome E A) {a : A}
    → (if b then throw e else m) ≡ ok a
    → (b ≡ false) × (m ≡ ok a)
unless-ok true e m h = cc
unless-ok false e m h = (refl, h)
