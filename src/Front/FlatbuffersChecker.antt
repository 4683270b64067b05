-- ===== src/Front/FlatbuffersChecker.antt =====
-- gwfront/src/handler/flatbuffers_checker.cpp. The code generated from instrument.fbs is a record
-- of operations. The source writes one block for each of the 32 strings; `blocks` lists them in its
-- order, each with the accessor that it calls and the name in its text.
pub mod Blocks
use gateway_poc.Base.{Bool, true, false, Option, none, some, List, [], ◌∷◌, ◌++◌, if◌then◌else◌}
use gateway_poc.Base.Bytes.{Bytes, codes}
use gateway_poc.Front.Handler.{CheckResult}

-- The accessors of the strings.
pub data StringField : Type 0 where
  str0 str1 str2 str3 str4 str5 str6 str7 : StringField
  str8 str9 str10 str11 str12 str13 str14 str15 : StringField
  str16 str17 str18 str19 str20 str21 str22 str23 : StringField
  str24 str25 str26 str27 str28 str29 str30 str31 : StringField

pub record Generated : Type 1 where
  pub Instrument : Type 0
  pub verify_instrument_buffer : Bytes → Bool
  pub get_instrument : Bytes → Instrument
  pub string_field : Instrument → StringField → Option Bytes  -- none is a null pointer

abbrev pub blocks : List (StringField × Bytes)
blocks =
    (str0, codes "str0")
    ∷ (str1, codes "str1")
    ∷ (str2, codes "str2")
    ∷ (str3, codes "str3")
    ∷ (str4, codes "str4")
    ∷ (str5, codes "str5")
    ∷ (str6, codes "str6")
    ∷ (str7, codes "str7")
    ∷ (str8, codes "str8")
    ∷ (str9, codes "str9")
    ∷ (str10, codes "str10")
    ∷ (str11, codes "str11")
    ∷ (str12, codes "str12")
    ∷ (str13, codes "str13")
    ∷ (str14, codes "str14")
    ∷ (str15, codes "str15")
    ∷ (str16, codes "str16")
    ∷ (str17, codes "str17")
    ∷ (str18, codes "str18")
    ∷ (str19, codes "str19")
    ∷ (str20, codes "str20")
    ∷ (str21, codes "str21")
    ∷ (str22, codes "str22")
    ∷ (str23, codes "str23")
    ∷ (str24, codes "str24")
    ∷ (str25, codes "str25")
    ∷ (str26, codes "str26")
    ∷ (str27, codes "str27")
    ∷ (str28, codes "str28")
    ∷ (str29, codes "str29")
    ∷ (str30, codes "str30")
    ∷ (str31, codes "str31")
    ∷ []

-- `!str || str->size() == 0`
abbrev pub is_missing : Option Bytes → Bool
is_missing none = true
is_missing (some []) = true
is_missing (some (c ∷ s)) = false

module _ (lib : Generated) where
  open lib use {Instrument, verify_instrument_buffer, get_instrument, string_field}

  -- The blocks in turn, up to the first string that is missing.
  check_blocks : Instrument → List (StringField × Bytes) → CheckResult
  check_blocks instrument [] = record { ok = true; message = [] }
  check_blocks instrument ((field, name) ∷ rest) =
      if is_missing (string_field instrument field)
      then record { ok = false; message = (codes "field '" ++ name) ++ codes "' is missing" }
      else check_blocks instrument rest

  -- `FlatbuffersChecker::check`
  pub check : Bytes → CheckResult
  check bytes =
      if verify_instrument_buffer bytes
      then check_blocks (get_instrument bytes) blocks
      else record { ok = false; message = codes "data is not a valid flatbuffer instrument" }
