-- ===== src/Front/FlatbuffersChecker/Blocks.antt =====
-- Which buffers the checker accepts.
use gateway_poc.Base.{
  ℕ, ◌≡◌, ◌↔◌, refl, true, false, Option, none, some, List, [], ◌∷◌, All, arith, Bool-cases, inl,
  inr, if◌then◌else◌,
}
use gateway_poc.Base.Bytes.{Bytes}
use gateway_poc.Front.FlatbuffersChecker.{
  str0, str1, str2, str3, str4, str5, str6, str7, str8, str9, str10, str11, str12, str13, str14,
  str15, str16, str17, str18, str19, str20, str21, str22, str23, str24, str25, str26, str27, str28,
  str29, str30, str31, Generated, StringField, blocks, is_missing, check_blocks, check,
}

module _ (lib : Generated) where
  open lib use {Instrument, verify_instrument_buffer, get_instrument, string_field}

  -- The string is there and is not empty.
  abbrev pub HasText : Instrument → StringField → Type 0
  HasText instrument field = (c : ℕ) × (s : Bytes) × (string_field instrument field ≡ some (c ∷ s))

  is_missing_iff :
      (o : Option Bytes) → (is_missing o ≡ false) ↔ ((c : ℕ) × (s : Bytes) × (o ≡ some (c ∷ s)))
  is_missing_iff none = (λ e. cc, λ h. cc (h.2))
  is_missing_iff (some []) = (λ e. cc, λ h. ground arith)
  is_missing_iff (some (c ∷ s)) = (λ e. (c, s, refl), λ h. refl)

  abbrev AllText : Instrument → List (StringField × Bytes) → Type 0
  AllText instrument = All (λ b. HasText instrument b.0)

  check_blocks_iff :
      (instrument : Instrument) (bs : List (StringField × Bytes))
      → ((check_blocks lib instrument bs).ok ≡ true) ↔ AllText instrument bs
  unfolding check_blocks
  check_blocks_iff instrument [] = (λ e. tt, λ h. refl)
  check_blocks_iff instrument ((field, name) ∷ bs) =
      let text = is_missing_iff (string_field instrument field) in
      let rest = check_blocks_iff instrument bs in
      elim (Bool-cases (is_missing (string_field instrument field))) [
        | inl missing ↦ (λ e. cc (rw (missing, if◌then◌else◌) at e), λ h. cc (missing, text.1 h.0))
        | inr there ↦ (
          λ e. (text.0 there, rest.0 (rw (there, if◌then◌else◌) at e)),
          λ h. rw there (rest.1 h.1),
        )
      ]

  every :
      (instrument : Instrument)
      → AllText instrument blocks
      → (field : StringField) → HasText instrument field
  every instrument h str0 = h.0
  every instrument h str1 = h.1.0
  every instrument h str2 = h.1.1.0
  every instrument h str3 = h.1.1.1.0
  every instrument h str4 = h.1.1.1.1.0
  every instrument h str5 = h.1.1.1.1.1.0
  every instrument h str6 = h.1.1.1.1.1.1.0
  every instrument h str7 = h.1.1.1.1.1.1.1.0
  every instrument h str8 = h.1.1.1.1.1.1.1.1.0
  every instrument h str9 = h.1.1.1.1.1.1.1.1.1.0
  every instrument h str10 = h.1.1.1.1.1.1.1.1.1.1.0
  every instrument h str11 = h.1.1.1.1.1.1.1.1.1.1.1.0
  every instrument h str12 = h.1.1.1.1.1.1.1.1.1.1.1.1.0
  every instrument h str13 = h.1.1.1.1.1.1.1.1.1.1.1.1.1.0
  every instrument h str14 = h.1.1.1.1.1.1.1.1.1.1.1.1.1.1.0
  every instrument h str15 = h.1.1.1.1.1.1.1.1.1.1.1.1.1.1.1.0
  every instrument h str16 = h.1.1.1.1.1.1.1.1.1.1.1.1.1.1.1.1.0
  every instrument h str17 = h.1.1.1.1.1.1.1.1.1.1.1.1.1.1.1.1.1.0
  every instrument h str18 = h.1.1.1.1.1.1.1.1.1.1.1.1.1.1.1.1.1.1.0
  every instrument h str19 = h.1.1.1.1.1.1.1.1.1.1.1.1.1.1.1.1.1.1.1.0
  every instrument h str20 = h.1.1.1.1.1.1.1.1.1.1.1.1.1.1.1.1.1.1.1.1.0
  every instrument h str21 = h.1.1.1.1.1.1.1.1.1.1.1.1.1.1.1.1.1.1.1.1.1.0
  every instrument h str22 = h.1.1.1.1.1.1.1.1.1.1.1.1.1.1.1.1.1.1.1.1.1.1.0
  every instrument h str23 = h.1.1.1.1.1.1.1.1.1.1.1.1.1.1.1.1.1.1.1.1.1.1.1.0
  every instrument h str24 = h.1.1.1.1.1.1.1.1.1.1.1.1.1.1.1.1.1.1.1.1.1.1.1.1.0
  every instrument h str25 = h.1.1.1.1.1.1.1.1.1.1.1.1.1.1.1.1.1.1.1.1.1.1.1.1.1.0
  every instrument h str26 = h.1.1.1.1.1.1.1.1.1.1.1.1.1.1.1.1.1.1.1.1.1.1.1.1.1.1.0
  every instrument h str27 = h.1.1.1.1.1.1.1.1.1.1.1.1.1.1.1.1.1.1.1.1.1.1.1.1.1.1.1.0
  every instrument h str28 = h.1.1.1.1.1.1.1.1.1.1.1.1.1.1.1.1.1.1.1.1.1.1.1.1.1.1.1.1.0
  every instrument h str29 = h.1.1.1.1.1.1.1.1.1.1.1.1.1.1.1.1.1.1.1.1.1.1.1.1.1.1.1.1.1.0
  every instrument h str30 = h.1.1.1.1.1.1.1.1.1.1.1.1.1.1.1.1.1.1.1.1.1.1.1.1.1.1.1.1.1.1.0
  every instrument h str31 = h.1.1.1.1.1.1.1.1.1.1.1.1.1.1.1.1.1.1.1.1.1.1.1.1.1.1.1.1.1.1.1.0

  everywhere :
      (instrument : Instrument)
      → ((field : StringField) → HasText instrument field)
      → (bs : List (StringField × Bytes)) → AllText instrument bs
  everywhere instrument h [] = tt
  everywhere instrument h ((field, name) ∷ bs) = (h field, everywhere instrument h bs)

  -- The checker passes exactly the verified buffers in which all 32 strings are there and not
  -- empty.
  pub flatbuffers_check_iff :
      (bytes : Bytes)
      → ((check lib bytes).ok ≡ true) ↔ (
          (verify_instrument_buffer bytes ≡ true)
          × ((field : StringField) → HasText (get_instrument bytes) field))
  unfolding check
  flatbuffers_check_iff bytes =
      let passed = check_blocks_iff (get_instrument bytes) blocks in
      elim (Bool-cases (verify_instrument_buffer bytes)) [
        | inl verified ↦ (
          λ e. (
            verified,
            every (get_instrument bytes) (passed.0 (rw (verified, if◌then◌else◌) at e)),
          ),
          λ h. rw verified (passed.1 (everywhere (get_instrument bytes) h.1 blocks)),
        )
        | inr refused ↦ (λ e. cc (rw (refused, if◌then◌else◌) at e), λ h. cc (refused, h.0))
      ]
