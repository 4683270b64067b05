-- ===== src/Base/Exec.antt =====
-- Calls that may change an object of type `S` and may throw. What was written before an exception
-- stays written, so the object comes back beside the exception too.
use mathlib.Core.Path.{◌≡◌, refl, ap}
use gateway_poc.Base.Outcome.{Outcome, ok, throw, fault}

abbrev pub Exec {ℓ} : Type 0 → Type 0 → Type ℓ → Type ℓ
Exec S E A = S → Outcome E A × S

module _ {ℓ} {S E : Type 0} {A : Type ℓ} where
  abbrev pub pure : A → Exec S E A
  pure a s = (ok a, s)

  abbrev pub raise : E → Exec S E A
  raise e s = (throw e, s)

  abbrev pub lift : Outcome E A → Exec S E A
  lift r s = (r, s)

  abbrev pub gets : (S → A) → Exec S E A
  gets f s = (ok (f s), s)

  -- A call of a library that changes the object and does not throw.
  abbrev pub call : (S → A × S) → Exec S E A
  call f s = let (a, s') = f s in (ok a, s')

abbrev pub modify : {S E : Type 0} → (S → S) → Exec S E (Unit {0})
modify f s = (ok tt, f s)

module _ {ℓ κ} {S E : Type 0} {A : Type ℓ} {B : Type κ} where
  abbrev pub continue : Outcome E A → (A → Exec S E B) → Exec S E B
  continue (ok a) f s = f a s
  continue (throw e) f s = (throw e, s)
  continue fault f s = (fault, s)

  infixl 5 ◌>>=◌ ◌>>◌
  abbrev pub ◌>>=◌ : Exec S E A → (A → Exec S E B) → Exec S E B
  ◌>>=◌ m f s = let (r, s') = m s in continue r f s'

  abbrev pub ◌>>◌ : Exec S E A → Exec S E B → Exec S E B
  m >> n = m >>= λ _. n

-- A sequence that succeeds is two calls that succeed.
pub bind-ok {ℓ κ} :
    {S E : Type 0} {A : Type ℓ} {B : Type κ} (m : Exec S E A) (f : A → Exec S E B) (s : S) {b : B}
    → ((m >>= f) s).0 ≡ ok b
    → (a : A) × ((m s).0 ≡ ok a) × ((m >>= f) s ≡ f a (m s).1)
bind-ok {S} {E} {A} {B} m f s {b} h = go (m s).0 refl h
  where
    go :
        (r : Outcome E A)
        → (m s).0 ≡ r
        → (continue r f (m s).1).0 ≡ ok b
        → (a : A) × ((m s).0 ≡ ok a) × (continue (m s).0 f (m s).1 ≡ f a (m s).1)
    go (ok a) e h = (a, e, ap (λ (r : Outcome E A). continue r f (m s).1) e)
    go (throw x) e h = cc
    go fault e h = cc

-- A call that returns is followed by the rest.
pub after :
    {S E A B : Type 0} (m : Exec S E A) (f : A → Exec S E B) (s : S) {a : A} {t : S}
    → m s ≡ (ok a, t)
    → (m >>= f) s ≡ f a t
after m f s e = ap (λ (r : Outcome _ _ × _). continue r.0 f r.1) e
