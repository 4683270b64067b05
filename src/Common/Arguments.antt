-- ===== src/Common/Arguments.antt =====
-- `parseArguments` of gwfront/src/main.cpp and of gwback/src/main.cpp, which is the same in both.
-- Boost.Program_options is a parameter.
use gateway_poc.Base.{ℕ, zero, suc, ◌≡◌, refl, ◌⊎◌, ◌↔◌, inl, inr, List, arith}
use gateway_poc.Base.Bytes.{Bytes, codes}

-- The calls, with the options that the programs describe. An exception is its text.
pub record ProgramOptions : Type 1 where
  pub Variables : Type 0
  pub store : List Bytes → Bytes ⊎ Variables
  pub count : Variables → Bytes → ℕ
  pub notify : Variables → Bytes ⊎ Bytes  -- what it stores in `configPath`

-- What is printed, with the described options behind it.
pub data Shown : Type 0 where
  usage : Shown
  complaint : Bytes → Shown

-- The result, with `configPath` where it is true.
pub data Parsed : Type 0 where
  stops : Shown → Parsed
  goes_on : Bytes → Parsed

pub data Exit : Type 0 where
  success failure : Exit

module _ (lib : ProgramOptions) where
  open lib use {Variables, store, count, notify}

  notified : Bytes ⊎ Bytes → Parsed
  notified (inl what) = stops (complaint what)
  notified (inr path) = goes_on path

  unless_help : ℕ → Variables → Parsed
  unfolding notified
  unless_help zero vm = notified (notify vm)
  unless_help (suc n) vm = stops usage

  stored : Bytes ⊎ Variables → Parsed
  unfolding unless_help
  stored (inl what) = stops (complaint what)
  stored (inr vm) = unless_help (count vm (codes "help")) vm

  pub parse_arguments : List Bytes → Parsed
  unfolding stored
  parse_arguments args = stored (store args)

  abbrev GoesOn : Bytes ⊎ Variables → Bytes → Type 0
  GoesOn o path =
      (vm : Variables) × (o ≡ inr vm) × (count vm (codes "help") ≡ 0) × (notify vm ≡ inr path)

  notified-goes_on : (o : Bytes ⊎ Bytes) (path : Bytes) → notified o ≡ goes_on path → o ≡ inr path
  unfolding notified
  notified-goes_on (inl what) path e = cc
  notified-goes_on (inr given) path e = ground arith

  unless_help-goes_on :
      (n : ℕ) (vm : Variables) (path : Bytes)
      → unless_help n vm ≡ goes_on path
      → (n ≡ 0) × (notify vm ≡ inr path)
  unfolding unless_help
  unless_help-goes_on zero vm path e = (refl, notified-goes_on (notify vm) path e)
  unless_help-goes_on (suc n) vm path e = cc

  stored-goes_on : (o : Bytes ⊎ Variables) (path : Bytes) → stored o ≡ goes_on path → GoesOn o path
  unfolding stored
  stored-goes_on (inl what) path e = cc
  stored-goes_on (inr vm) path e =
      let (no_help, given) = unless_help-goes_on _ vm path e in (vm, refl, no_help, given)

  -- The program goes on exactly with the path of the option `config`, where the arguments can be
  -- read, help is not among them, and no required option is missing.
  pub parse_arguments-goes_on_iff :
      (args : List Bytes) (path : Bytes)
      → (parse_arguments args ≡ goes_on path) ↔ GoesOn (store args) path
  unfolding parse_arguments stored unless_help notified
  parse_arguments-goes_on_iff args path = (
    stored-goes_on (store args) path,
    λ (vm, read, no_help, given). rw (read, no_help, given) refl,
  )
