-- ===== src/Front/JsonChecker/Fields.antt =====
-- Which documents the checker accepts, and which field it complains of.
use native.Mathlib.Decide.{ℕ_discrete}
use gateway_poc.Base.{
  ℕ, zero, suc, ◌+◌, ◌≤◌, ◌<◌, ◌≡◌, ◌↔◌, refl, ◌∙◌, inl, inr, Bool, true, false, Option, none, some,
  ◌++◌, arith, subst, Bool-cases, Option-cases, if◌then◌else◌,
}
use gateway_poc.Base.Bytes.{Bytes, codes}
use gateway_poc.Base.Decimal.{to_string}
use gateway_poc.Front.Handler.{CheckResult}
use gateway_poc.Front.JsonChecker.{
  Nlohmann, field_error, check_fields, check_found, check_integer_field, is_double,
  check_double_field, check_string_field, first_error, or_passed, check_parsed, check, or_else,
}

or_else-none : {A : Type 0} (a b : Option A) → (or_else a b ≡ none) ↔ ((a ≡ none) × (b ≡ none))
or_else-none none b = (λ e. (refl, e), λ h. h.1)
or_else-none (some a) b = (λ e. cc, λ h. cc (h.0))

-- The first of a range, or the others.
at_range :
    (P : ℕ → Type 0) (i rounds : ℕ)
    → P i
    → ((k : ℕ) → i + 1 ≤ k → k < i + 1 + rounds → P k)
    → (k : ℕ) → i ≤ k
    → k < i + suc rounds
    → P k
at_range P i rounds here rest k l h = elim (ℕ_discrete i k) [
  | yes e ↦ subst P e here
  | no ne ↦ rest k (ground arith) (omega arith)
]

-- The loop finds no error exactly when no field of its range has one.
check_fields-none :
    (f : Bytes → Option CheckResult) (stem : Bytes) (i rounds : ℕ)
    → (check_fields f stem i rounds ≡ none)
      ↔ ((k : ℕ) → i ≤ k → k < i + rounds → f (stem ++ to_string k) ≡ none)
unfolding check_fields
check_fields-none f stem i zero = (λ e k l h. absurd (omega arith), λ all. refl)
check_fields-none f stem i (suc rounds) =
    let both = or_else-none (f (stem ++ to_string i)) (check_fields f stem (i + 1) rounds) in
    let ih = check_fields-none f stem (i + 1) rounds in
    (
      λ e.
          at_range (λ (k : ℕ). f (stem ++ to_string k) ≡ none) i rounds (both.0 e).0
            (ih.0 (both.0 e).1),
      λ all.
          both.1
            (all i (omega arith) (omega arith), ih.1 (λ k l h. all k (omega arith) (omega arith))),
    )

-- An error of the loop is that of the first field with one.
check_fields-some :
    (f : Bytes → Option CheckResult) (stem : Bytes) (i rounds : ℕ) (r : CheckResult)
    → check_fields f stem i rounds ≡ some r
    → (k : ℕ) × (i ≤ k)
      × (k < i + rounds)
      × (f (stem ++ to_string k) ≡ some r)
      × ((j : ℕ) → i ≤ j → j < k → f (stem ++ to_string j) ≡ none)
unfolding check_fields
check_fields-some f stem i zero r e = cc
check_fields-some f stem i (suc rounds) r e = elim (Option-cases (f (stem ++ to_string i))) [
  | inr (a, hit) ↦
      (i, omega arith, omega arith, hit ∙ rw (hit, or_else) at e, λ j l h. absurd (omega arith))
  | inl miss ↦
      let (k, l, h, found, before) =
        check_fields-some f stem (i + 1) rounds r (rw (miss, or_else) at e) in
      (
        k,
        omega arith,
        omega arith,
        found,
        λ j from below. elim (ℕ_discrete i j) [
          | yes same ↦ subst (λ (n : ℕ). f (stem ++ to_string n) ≡ none) same miss
          | no later ↦ before j (ground arith) below
        ],
      )
]

module _ (lib : Nlohmann) where
  open lib use {Json, parse, find, is_number_integer, is_string}

  -- The document has the field, of the type.
  abbrev pub HasField : (Json → Bool) → Json → Bytes → Type 0
  HasField has_type json field = (it : Json) × (find json field ≡ some it) × (has_type it ≡ true)

  check_found-none :
      (has_type : Json → Bool) (complaint field : Bytes) (o : Option Json)
      → (check_found lib has_type complaint field o ≡ none)
        ↔ ((it : Json) × (o ≡ some it) × (has_type it ≡ true))
  unfolding check_found
  check_found-none has_type complaint field none = (λ e. cc, λ h. cc (h.1))
  check_found-none has_type complaint field (some it) = elim (Bool-cases (has_type it)) [
    | inl has ↦ (λ e. (it, refl, has), λ h. rw has)
    | inr lacks ↦ (λ e. cc (rw (lacks, if◌then◌else◌) at e), λ h. ground arith)
  ]

  check_found-refuses :
      (has_type : Json → Bool) (complaint field : Bytes) (o : Option Json) (r : CheckResult)
      → check_found lib has_type complaint field o ≡ some r
      → r.ok ≡ false
  unfolding check_found field_error
  check_found-refuses has_type complaint field none r e = ground arith
  check_found-refuses has_type complaint field (some it) r e = ground arith

  -- All fields of a stem have the type.
  abbrev pub HasFields : (Json → Bool) → Json → Bytes → ℕ → Type 0
  HasFields has_type json stem n = (k : ℕ) → k < n → HasField has_type json (stem ++ to_string k)

  loop-none :
      (has_type : Json → Bool) (complaint : Bytes) (json : Json) (stem : Bytes) (n : ℕ)
      → (check_fields (λ field. check_found lib has_type complaint field (find json field)) stem 0 n
          ≡ none)
        ↔ HasFields has_type json stem n
  loop-none has_type complaint json stem n =
      let f = λ (field : Bytes). check_found lib has_type complaint field (find json field) in
      let loop = check_fields-none f stem 0 n in
      (
        λ e k h.
            (check_found-none has_type complaint _ _).0 (loop.0 e k (omega arith) (omega arith)),
        λ all. loop.1 (λ k l h. (check_found-none has_type complaint _ _).1 (all k (omega arith))),
      )

  loop-refuses :
      (has_type : Json → Bool) (complaint : Bytes) (json : Json) (stem : Bytes) (n : ℕ)
      (r : CheckResult)
      → check_fields (λ field. check_found lib has_type complaint field (find json field)) stem 0 n
        ≡ some r
      → r.ok ≡ false
  loop-refuses has_type complaint json stem n r e =
      let f = λ (field : Bytes). check_found lib has_type complaint field (find json field) in
      let (k, l, h, found, before) = check_fields-some f stem 0 n r e in
      check_found-refuses has_type complaint _ _ r found

  -- The fields of an instrument: six integers, six doubles, and 32 strings.
  pub record IsInstrument (json : Json) : Type 0 where
    pub ints : HasFields is_number_integer json (codes "int") 6
    pub doubles : HasFields (is_double lib) json (codes "double") 6
    pub strs : HasFields is_string json (codes "str") 32

  or_else-refuses :
      (a b : Option CheckResult)
      → ((r : CheckResult) → a ≡ some r → r.ok ≡ false)
      → ((r : CheckResult) → b ≡ some r → r.ok ≡ false)
      → (r : CheckResult) → or_else a b ≡ some r
      → r.ok ≡ false
  or_else-refuses none b ha hb r e = hb r e
  or_else-refuses (some a) b ha hb r e = ha r e

  first_error-none : (json : Json) → (first_error lib json ≡ none) ↔ IsInstrument json
  unfolding check_integer_field check_double_field check_string_field
  first_error-none json =
      let ints = loop-none is_number_integer (codes "is not an integer") json (codes "int") 6 in
      let doubles = loop-none (is_double lib) (codes "is not a double") json (codes "double") 6 in
      let strs = loop-none is_string (codes "is not a string") json (codes "str") 32 in
      (
        λ e.
            let first = (or_else-none _ _).0 e in
            let second = (or_else-none _ _).0 first.1 in
            record { ints = ints.0 first.0; doubles = doubles.0 second.0; strs = strs.0 second.1 },
        λ v.
            (or_else-none _ _).1
              (ints.1 v.ints, (or_else-none _ _).1 (doubles.1 v.doubles, strs.1 v.strs)),
      )

  first_error-refuses :
      (json : Json) (r : CheckResult) → first_error lib json ≡ some r → r.ok ≡ false
  unfolding check_integer_field check_double_field check_string_field
  first_error-refuses json =
      or_else-refuses _ _ (loop-refuses is_number_integer _ json (codes "int") 6) (
        or_else-refuses _ _ (loop-refuses (is_double lib) _ json (codes "double") 6)
          (loop-refuses is_string _ json (codes "str") 32))

  or_passed_iff :
      (o : Option CheckResult)
      → ((r : CheckResult) → o ≡ some r → r.ok ≡ false)
      → ((or_passed lib o).ok ≡ true) ↔ (o ≡ none)
  unfolding or_passed
  or_passed_iff none refuses = (λ e. refl, λ e. refl)
  or_passed_iff (some r) refuses = (λ e. cc (refuses r refl), λ e. cc)

  check_parsed_iff :
      (o : Option Json)
      → ((check_parsed lib o).ok ≡ true) ↔ ((json : Json) × (o ≡ some json) × IsInstrument json)
  unfolding check_parsed
  check_parsed_iff none = (λ e. cc, λ h. cc (h.1))
  check_parsed_iff (some json) =
      let passed = or_passed_iff (first_error lib json) (first_error-refuses json) in
      (
        λ e. (json, refl, (first_error-none json).0 (passed.0 e)),
        λ h.
            let same : h.0 ≡ json = cc (h.1) in
            passed.1 ((first_error-none json).1 (subst IsInstrument same h.2)),
      )

  -- The checker passes exactly the texts that parse to a document with all the fields of an
  -- instrument, each of its type.
  pub check_iff :
      (bytes : Bytes)
      → ((check lib bytes).ok ≡ true)
        ↔ ((json : Json) × (parse bytes ≡ some json) × IsInstrument json)
  unfolding check
  check_iff bytes = check_parsed_iff (parse bytes)
