-- ===== src/Front/JsonChecker.antt =====
-- gwfront/src/handler/json_checker.cpp. The nlohmann::json library is a record of operations.
pub mod Fields
use gateway_poc.Base.{
  ℕ, zero, suc, ◌+◌, Bool, true, false, ◌||◌, Option, none, some, [], ◌∷◌, ◌++◌, if◌then◌else◌,
}
use gateway_poc.Base.Bytes.{Bytes, codes}
use gateway_poc.Base.Decimal.{to_string}
use gateway_poc.Front.Handler.{CheckResult}

pub record Nlohmann : Type 1 where
  pub Json : Type 0
  pub parse : Bytes → Option Json  -- none is a discarded value
  pub find : Json → Bytes → Option Json  -- none is `end()`
  pub is_number_integer : Json → Bool
  pub is_number_float : Json → Bool
  pub is_string : Json → Bool

unfoldable pub field_error : Bytes → Bytes → CheckResult
field_error field complaint = record {
  ok = false;
  message = (codes "field '" ++ field) ++ (codes "' " ++ complaint);
}

-- `std::optional<Result>`: the first error of two checks, the second made only after the first.
abbrev pub or_else : {A : Type 0} → Option A → Option A → Option A
or_else (some r) next = some r
or_else none next = next

-- `for (int i = from; …; ++i)` over `rounds` fields, up to the first error.
unfoldable pub check_fields : (Bytes → Option CheckResult) → Bytes → ℕ → ℕ → Option CheckResult
check_fields check stem i zero = none
check_fields check stem i (suc rounds) =
    or_else (check (stem ++ to_string i)) (check_fields check stem (i + 1) rounds)

module _ (lib : Nlohmann) where
  open lib use {Json, parse, find, is_number_integer, is_number_float, is_string}

  -- What the three functions have in common: the field is there, and has the type.
  check_found : (Json → Bool) → Bytes → Bytes → Option Json → Option CheckResult
  check_found has_type complaint field none = some (field_error field (codes "is missing"))
  check_found has_type complaint field (some it) =
      if has_type it then none else some (field_error field complaint)

  pub check_integer_field : Json → Bytes → Option CheckResult
  check_integer_field json field =
      check_found is_number_integer (codes "is not an integer") field (find json field)

  abbrev pub is_double : Json → Bool
  is_double it = is_number_float it || is_number_integer it

  pub check_double_field : Json → Bytes → Option CheckResult
  check_double_field json field =
      check_found is_double (codes "is not a double") field (find json field)

  pub check_string_field : Json → Bytes → Option CheckResult
  check_string_field json field =
      check_found is_string (codes "is not a string") field (find json field)

  abbrev pub first_error : Json → Option CheckResult
  first_error json = or_else (check_fields (check_integer_field json) (codes "int") 0 6) (
      or_else (check_fields (check_double_field json) (codes "double") 0 6)
        (check_fields (check_string_field json) (codes "str") 0 32))

  or_passed : Option CheckResult → CheckResult
  or_passed (some r) = r
  or_passed none = record { ok = true; message = [] }

  check_parsed : Option Json → CheckResult
  unfolding or_passed
  check_parsed none = record { ok = false; message = codes "data is not a valid json" }
  check_parsed (some json) = or_passed (first_error json)

  -- `JsonChecker::check`
  pub check : Bytes → CheckResult
  check bytes = check_parsed (parse bytes)
