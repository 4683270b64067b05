-- ===== src/Tests/Deletion.antt =====
-- The ids in the statement that deletes messages, as a database reads them.
use mathlib.Core.List.{append_assoc}
use gateway_poc.Base.{
  ℕ, zero, suc, ◌^◌, ◌≤◌, ◌<◌, ◌≡◌, refl, ap, ◌∙◌, List, [], ◌∷◌, ◌++◌, ◌==◌, length, drop, All,
  arith, if◌then◌else◌,
}
use gateway_poc.Base.Bytes.{Bytes}
use gateway_poc.Base.Decimal.{to_string, read_digits, read-to_string}
use gateway_poc.Back.Message.{Message}
use gateway_poc.Back.Consumer.Chunks.{ids}
use gateway_poc.Back.PostgresProducer.Query.{listing}

abbrev pub Fits : Message → Type 0
Fits m = m.id < 2 ^ 64

pub Fits-left : (ms rest : List Message) → All Fits (ms ++ rest) → All Fits ms
Fits-left [] rest f = tt
Fits-left (m ∷ ms) rest f = (f.0, Fits-left ms rest f.1)

-- What follows a number: more numbers behind a comma, and else nothing.
abbrev pub after_number : Bytes → List ℕ → List ℕ
after_number [] others = []
after_number (c ∷ s) others = if c == b',' then others else []

-- Numbers that commas separate, as many as the fuel at most.
unfoldable pub read_ids : ℕ → Bytes → List ℕ
read_ids zero s = []
read_ids (suc fuel) s =
    let (id, rest) = read_digits 0 s in id ∷ after_number rest (read_ids fuel (drop 1 rest))

pub read_ids-listing :
    (fuel : ℕ) (m : Message) (ms : List Message)
    → length (m ∷ ms) ≤ fuel
    → All Fits (m ∷ ms)
    → read_ids fuel (listing (ids (m ∷ ms)) ++ (b')' ∷ [])) ≡ ids (m ∷ ms)
unfolding read_ids listing
read_ids-listing zero m ms h f = absurd (omega arith)
read_ids-listing (suc fuel) m [] h f =
    ap (λ (r : ℕ × Bytes). r.0 ∷ after_number r.1 (read_ids fuel (drop 1 r.1)))
      (read-to_string m.id (b')' ∷ []) f.0 refl)
read_ids-listing (suc fuel) m (k ∷ ms) h f =
    let rest = listing (ids (k ∷ ms)) ++ (b')' ∷ []) in
    ap (λ (r : ℕ × Bytes). r.0 ∷ after_number r.1 (read_ids fuel (drop 1 r.1)))
      (ap (read_digits 0)
          (append_assoc (to_string m.id) (b',' ∷ listing (ids (k ∷ ms))) (b')' ∷ []))
        ∙ read-to_string m.id (b',' ∷ rest) f.0 refl)
    ∙ ap (◌∷◌ m.id) (read_ids-listing fuel k ms (omega arith) f.1)
