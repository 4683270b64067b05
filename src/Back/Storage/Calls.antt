-- ===== src/Back/Storage/Calls.antt =====
-- Calls on a storage, one after the other: what they keep, and how a deletion may end.
use mathlib.Core.List.{append_assoc, append-nil}
use gateway_poc.Base.{
  ◌≡◌, ◌≢◌, refl, sym, ap, ◌∙◌, ◌⊎◌, inl, inr, Bool, true, false, if◌then◌else◌, List, ◌++◌, [],
}
use gateway_poc.Base.Exec.{Exec, continue, ◌>>=◌}
use gateway_poc.Base.Outcome.{Outcome, ok, throw, fault}

module _ {S E A : Type 0} where
  abbrev pub Defined : Exec S E A → Type 0
  Defined m = (s : S) → (m s).0 ≢ fault

  -- A call leaves a state that is related to the one before, whatever comes of it.
  abbrev pub Keeps : (S → S → Type 0) → Exec S E A → Type 0
  Keeps R m = (s : S) → R s (m s).1

module _ {S E A : Type 0} (b : Bool) (m n : Exec S E A) where
  pub if-Defined : Defined m → Defined n → Defined (if b then m else n)
  if-Defined k l = elim b as (λ c. Defined (if c then m else n)) [ true ↦ k | false ↦ l ]

  pub if-Keeps : (R : S → S → Type 0) → Keeps R m → Keeps R n → Keeps R (if b then m else n)
  if-Keeps R k l = elim b as (λ c. Keeps R (if c then m else n)) [ true ↦ k | false ↦ l ]

module _ {S E A B : Type 0} (m : Exec S E A) (f : A → Exec S E B) where
  pub bind-Defined : Defined m → ((a : A) → Defined (f a)) → Defined (m >>= f)
  bind-Defined k l s = go (m s).0 (m s).1 (k s)
    where
      go : (r : Outcome E A) (t : S) → r ≢ fault → (continue r f t).0 ≢ fault
      go (ok a) t n = l a t
      go (throw e) t n = λ h. cc
      go fault t n = absurd (n refl)

  pub bind-Keeps :
      (R : S → S → Type 0)
      → ((s t u : S) → R s t → R t u → R s u)
      → Keeps R m
      → ((a : A) → Keeps R (f a))
      → Keeps R (m >>= f)
  bind-Keeps R transitive k l s = go (m s).0 (m s).1 (k s)
    where
      go : (r : Outcome E A) (t : S) → R s t → R s (continue r f t).1
      go (ok a) t g = transitive s t (f a t).1 g (l a t)
      go (throw e) t g = g
      go fault t g = g

-- The rows of a storage, to which others add behind those that are there.
module _ {S A : Type 0} (rows : S → List A) where
  abbrev pub Grows : S → S → Type 0
  Grows s t = (more : List A) × (rows t ≡ rows s ++ more)

  pub Grows-refl : (s : S) → Grows s s
  Grows-refl s = ([], sym (append-nil (rows s)))

  pub Grows-trans : (s t u : S) → Grows s t → Grows t u → Grows s u
  Grows-trans s t u (m, e) (n, f) =
      (m ++ n, f ∙ ap (λ (x : List A). x ++ n) e ∙ append_assoc (rows s) m n)

  -- What is first stays so.
  pub still_first :
      (first rest : List A) (s t : S)
      → rows s ≡ first ++ rest
      → (g : Grows s t) → rows t ≡ first ++ (rest ++ g.0)
  still_first first rest s t head (more, grown) =
      grown ∙ ap (λ (x : List A). x ++ more) head ∙ append_assoc first rest more

  -- How a deletion may end that began in `s`, where the rows behind those to delete are `rest`.
  pub record Marks {E : Type 0} (rest : List A) (s : S) (r : Outcome E (Unit {0})) (t : S)
      : Type 0 where
    pub done : r ≡ ok tt → (more : List A) × (rows t ≡ rest ++ more)
    pub ended : (more : List A) × ((rows t ≡ rest ++ more) ⊎ (rows t ≡ rows s ++ more))
    pub defined : r ≢ fault

module _ {S E A : Type 0} (rows : S → List A) (rest : List A) (s : S) where
  pub threw-Marks : (e : E) (t : S) → Grows rows s t → Marks rows rest s (throw e) t
  threw-Marks e t (more, grown) = record {
    done = λ h. cc;
    ended = (more, inr grown);
    defined = λ h. cc;
  }

  pub before-Marks :
      (t : S) (r : Outcome E (Unit {0})) (u : S) (g : Grows rows s t)
      → Marks rows (rest ++ g.0) t r u
      → Marks rows rest s r u
  before-Marks t r u (m, grown) k = record {
    done = λ e. let (more, left) = k.done e in (m ++ more, left ∙ append_assoc rest m more);
    ended =
        let (more, either) = k.ended in
        (
          m ++ more,
          elim either [
            | inl left ↦ inl (left ∙ append_assoc rest m more)
            | inr kept ↦
                inr (kept ∙ ap (λ (x : List A). x ++ more) grown ∙ append_assoc (rows s) m more)
          ],
        );
    defined = k.defined;
  }

  pub after-Marks :
      (t : S) (r : Outcome E (Unit {0})) (u : S)
      → Marks rows rest s r t
      → Grows rows t u
      → Marks rows rest s r u
  after-Marks t r u k (m, grown) = record {
    done = λ e.
        let (more, left) = k.done e in
        (more ++ m, grown ∙ ap (λ (x : List A). x ++ m) left ∙ append_assoc rest more m);
    ended =
        let (more, either) = k.ended in
        (
          more ++ m,
          elim either [
            | inl left ↦ inl (grown ∙ ap (λ (x : List A). x ++ m) left ∙ append_assoc rest more m)
            | inr kept ↦
                inr (grown ∙ ap (λ (x : List A). x ++ m) kept ∙ append_assoc (rows s) more m)
          ],
        );
    defined = k.defined;
  }

pub bind-Grows :
    {S E A B C : Type 0} (rows : S → List A) (m : Exec S E B) (f : B → Exec S E C)
    → Keeps (Grows rows) m
    → ((b : B) → Keeps (Grows rows) (f b))
    → Keeps (Grows rows) (m >>= f)
bind-Grows rows m f = bind-Keeps m f (Grows rows) (Grows-trans rows)

-- A call before a deletion that keeps the rows, whatever comes of it.
pub bind-Marks :
    {S E A B : Type 0} (rows : S → List A) (m : Exec S E B) (f : B → Exec S E (Unit {0}))
    (rest : List A) (s : S)
    → Keeps (Grows rows) m
    → Defined m
    → ((b : B) (t : S) (g : Grows rows s t) → Marks rows (rest ++ g.0) t (f b t).0 (f b t).1)
    → Marks rows rest s ((m >>= f) s).0 ((m >>= f) s).1
bind-Marks {S} {E} {A} {B} rows m f rest s k d l = go (m s).0 (m s).1 (k s) (d s)
  where
    go :
        (r : Outcome E B) (t : S)
        → Grows rows s t
        → r ≢ fault
        → Marks rows rest s (continue r f t).0 (continue r f t).1
    go (ok b) t g n = before-Marks rows rest s t (f b t).0 (f b t).1 g (l b t g)
    go (throw e) t g n = threw-Marks rows rest s e t g
    go fault t g n = absurd (n refl)
