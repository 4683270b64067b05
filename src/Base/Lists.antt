-- ===== src/Base/Lists.antt =====
-- Lists measured by native numbers, under the library's names, and predicates on their elements.
use Prim.Native.Nat.{ℕ, zero, suc, ◌+◌}
use mathlib.Core.Path.{◌≡◌, refl, sym}
use mathlib.Core.Logic.{◌⊎◌, inl, inr}
use mathlib.Core.List.{List, [], ◌∷◌, ◌++◌}
use native.Mathlib.Omega.{arith}

module _ {ℓ} {A : Type ℓ} where
  abbrev pub length : List A → ℕ
  length [] = 0
  length (x ∷ xs) = suc (length xs)

  abbrev pub take : ℕ → List A → List A
  take zero xs = []
  take (suc n) [] = []
  take (suc n) (x ∷ xs) = x ∷ take n xs

  abbrev pub drop : ℕ → List A → List A
  drop zero xs = xs
  drop (suc n) [] = []
  drop (suc n) (x ∷ xs) = drop n xs

  abbrev pub replicate : ℕ → A → List A
  replicate zero a = []
  replicate (suc n) a = a ∷ replicate n a

  abbrev pub concat : List (List A) → List A
  concat [] = []
  concat (xs ∷ xss) = xs ++ concat xss

  pub length-append : (xs ys : List A) → length (xs ++ ys) ≡ length xs + length ys
  length-append [] ys = omega arith
  length-append (x ∷ xs) ys = omega (arith, length-append xs ys)

  pub no_left : (xs ys : List A) → xs ++ ys ≡ [] → xs ≡ []
  no_left [] ys e = refl
  no_left (x ∷ xs) ys e = cc

module _ {ℓ κ} {A : Type ℓ} (P : A → Type κ) where
  abbrev pub All : List A → Type κ
  All [] = Unit
  All (x ∷ xs) = P x × All xs

  pub All-append : (xs ys : List A) → All xs → All ys → All (xs ++ ys)
  All-append [] ys hx hy = hy
  All-append (x ∷ xs) ys hx hy = (hx.0, All-append xs ys hx.1 hy)

-- Two ways to cut a list.
pub cut-cases :
    {A : Type 0} (xs ys us bs : List A)
    → xs ++ ys ≡ us ++ bs
    → ((mid : List A) × (xs ≡ us ++ mid) × (bs ≡ mid ++ ys))
      ⊎ ((mid : List A) × (us ≡ xs ++ mid) × (ys ≡ mid ++ bs))
cut-cases xs ys [] bs e = inl (xs, refl, sym e)
cut-cases [] ys (a ∷ us) bs e = inr (a ∷ us, refl, e)
cut-cases (x ∷ xs) ys (a ∷ us) bs e =
    let head : x ≡ a = ground arith in
    elim (cut-cases xs ys us bs (ground arith)) [
      | inl (mid, left, right) ↦ inl (mid, rw (head, left) refl, right)
      | inr (mid, left, right) ↦ inr (mid, rw (head, left) refl, right)
    ]
