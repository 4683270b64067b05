-- ===== src/Common/Tables.antt =====
-- Tables that a configuration file may leave out, as both `fillConfig` functions read them.
use gateway_poc.Base.{
  ◌≡◌, ◌≢◌, ◌↔◌, refl, sym, ◌⊎◌, inl, inr, Bool, true, false, Option, none, some, arith,
}
use gateway_poc.Base.Bytes.{Bytes}
use gateway_poc.Base.Outcome.{Outcome, ok, throw, ◌>>=◌, ok-injective}

module _ {A : Type 0} where
  -- `if (node) { config.field = parse(node); }` for a `std::optional` field.
  unfoldable pub if_present : Bool → Outcome Bytes A → Outcome Bytes (Option A)
  if_present true parsed = parsed >>= λ a. ok (some a)
  if_present false parsed = ok none

  -- The same for a field with an initialiser.
  unfoldable pub or_initial : Bool → A → Outcome Bytes A → Outcome Bytes A
  or_initial true initial parsed = parsed
  or_initial false initial parsed = ok initial

  -- `if (!node) { throw …; } config.field = parse(node);`
  unfoldable pub required : Bool → Bytes → Outcome Bytes A → Outcome Bytes A
  required true complaint parsed = parsed
  required false complaint parsed = throw complaint

  -- A value stands in the file if its table does.
  abbrev pub Present : Bool → Outcome Bytes A → Option A → Type 0
  Present present parsed none = present ≡ false
  Present present parsed (some a) = (present ≡ true) × (parsed ≡ ok a)

  pub if_present_iff :
      (present : Bool) (parsed : Outcome Bytes A) (o : Option A)
      → (if_present present parsed ≡ ok o) ↔ Present present parsed o
  unfolding if_present
  if_present_iff false parsed none = (λ e. refl, λ p. refl)
  if_present_iff false parsed (some a) = (λ e. ground arith, λ p. ground arith)
  if_present_iff true (ok b) none = (λ e. ground arith, λ p. ground arith)
  if_present_iff true (ok b) (some a) = (λ e. ground arith, λ p. ground arith)
  if_present_iff true (throw x) none = (λ e. ground arith, λ p. ground arith)
  if_present_iff true (throw x) (some a) = (λ e. ground arith, λ p. ground arith)
  if_present_iff true Outcome.fault none = (λ e. ground arith, λ p. ground arith)
  if_present_iff true Outcome.fault (some a) = (λ e. ground arith, λ p. ground arith)

  pub required_iff :
      (present : Bool) (complaint : Bytes) (parsed : Outcome Bytes A) (a : A)
      → (required present complaint parsed ≡ ok a) ↔ ((present ≡ true) × (parsed ≡ ok a))
  unfolding required
  required_iff true complaint parsed a = (λ e. (refl, e), λ p. p.1)
  required_iff false complaint parsed a = (λ e. cc, λ p. cc (p.0))

  abbrev pub Initial : Bool → A → Outcome Bytes A → A → Type 0
  Initial present initial parsed a =
      ((present ≡ false) × (a ≡ initial)) ⊎ ((present ≡ true) × (parsed ≡ ok a))

  pub or_initial_iff :
      (present : Bool) (initial : A) (parsed : Outcome Bytes A) (a : A)
      → (or_initial present initial parsed ≡ ok a) ↔ Initial present initial parsed a
  unfolding or_initial
  or_initial_iff true initial parsed a = (λ e. inr (refl, e), λ p. ground arith)
  or_initial_iff false initial parsed a = (λ e. inl (refl, sym (ok-injective e)), λ p. ground arith)

module _ {A B : Type 0} where
  -- `if (!config.postgres && !config.redis)`
  unfoldable pub no_storage : Option A → Option B → Bool
  no_storage none none = true
  no_storage none (some r) = false
  no_storage (some p) redis = false

  pub no_storage_iff :
      (p : Option A) (r : Option B) → (no_storage p r ≡ false) ↔ ((p ≢ none) ⊎ (r ≢ none))
  unfolding no_storage
  no_storage_iff none none = (λ e. cc, λ s. ground arith)
  no_storage_iff none (some r) = (λ e. inr (λ h. cc), λ s. refl)
  no_storage_iff (some p) redis = (λ e. inl (λ h. cc), λ s. refl)
