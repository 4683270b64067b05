-- ===== src/Common/Log.antt =====
-- common/utils/log.cpp: the severity that `initLog` filters by, and its calls of Boost.Log, which
-- are parameters. The format of the sink is their business.
use gateway_poc.Base.{
  ◌≡◌, ◌≢◌, refl, ap, subst, true, Option, none, some, List, [], ◌∷◌, ◌++◌, if◌then◌else◌,
  Bool-cases, inl, inr,
}
use gateway_poc.Base.Bytes.{Bytes, codes, str_eq}
use gateway_poc.Base.Outcome.{ok, ok-injective}
use gateway_poc.Common.Config.{
  Toml, LogConfig, default_log, severities, has_text, checked_severity, parse_log_config,
}

-- `boost::log::trivial::severity_level`
pub data Severity : Type 0 where
  trace debug info warning error fatal : Severity

abbrev pub severity_map : List (Bytes × Severity)
severity_map =
    (codes "trace", trace)
    ∷ (codes "debug", debug)
    ∷ (codes "info", info)
    ∷ (codes "warning", warning)
    ∷ (codes "error", error)
    ∷ (codes "fatal", fatal)
    ∷ []

-- `std::map::find`
find_severity : List (Bytes × Severity) → Bytes → Option Severity
find_severity [] key = none
find_severity ((name, level) ∷ entries) key =
    if str_eq name key then some level else find_severity entries key

pub string_to_boost_severity : Bytes → Option Severity
string_to_boost_severity severity = find_severity severity_map severity

-- The level that `initLog` filters by, if it knows the severity.
pub level_of : LogConfig → Option Severity
level_of config = string_to_boost_severity config.severity

-- The calls of Boost.Log, on the world that holds its core.
pub record BoostLog : Type 1 where
  pub World : Type 0
  pub set_filter : Severity → World → World  -- records of at least this severity
  pub warn : Bytes → World → World
  pub add_console_log : World → World
  pub add_common_attributes : World → World

module _ (lib : BoostLog) where
  open lib use {World, set_filter, warn, add_console_log, add_common_attributes}

  unfoldable pub filtered : Bytes → Option Severity → World → World
  filtered severity (some level) w = set_filter level w
  filtered severity none w = warn ((codes "initLog: unknown severity '" ++ severity) ++ codes "'") w

  pub init_log : LogConfig → World → World
  unfolding filtered
  init_log config w =
      add_common_attributes (add_console_log (filtered config.severity (level_of config) w))

abbrev keys : List (Bytes × Severity) → List Bytes
keys [] = []
keys ((name, level) ∷ entries) = name ∷ keys entries

find_severity-has_text :
    (entries : List (Bytes × Severity)) (key : Bytes)
    → has_text (keys entries) key ≡ true
    → find_severity entries key ≢ none
unfolding find_severity has_text
find_severity-has_text [] key h = cc
find_severity-has_text ((name, level) ∷ entries) key h = elim (Bool-cases (str_eq name key)) [
  | inl hit ↦ rw hit (λ e. cc)
  | inr miss ↦ rw miss (find_severity-has_text entries key (rw miss at h))
]

default_log-known : level_of default_log ≡ some error
unfolding level_of string_to_boost_severity find_severity str_eq
default_log-known = refl

checked_severity-known :
    (o : Option Bytes) (c : LogConfig) → checked_severity o ≡ ok c → level_of c ≢ none
unfolding checked_severity level_of string_to_boost_severity
checked_severity-known none c e =
    subst (λ (d : LogConfig). level_of d ≢ none) (ok-injective e) (λ h. cc (default_log-known, h))
checked_severity-known (some value) c e = elim (Bool-cases (has_text severities value)) [
  | inl known ↦
      subst (λ (d : LogConfig). level_of d ≢ none) (ok-injective (rw known at e))
        (find_severity-has_text severity_map value known)
  | inr unknown ↦ cc (rw unknown at e)
]

level_of-accepted :
    (toml : Toml) (node : toml.Node) (c : LogConfig)
    → parse_log_config toml node ≡ ok c
    → level_of c ≢ none
unfolding parse_log_config
level_of-accepted toml node c e =
    checked_severity-known (toml.as_string (toml.at node (codes "severity"))) c e

some_of : {A : Type 0} (o : Option A) → o ≢ none → (a : A) × (o ≡ some a)
some_of none h = absurd (h refl)
some_of (some a) h = (a, refl)

-- The two lists of severities agree: whatever the configuration accepts, `initLog` finds its level
-- and never warns, but sets the filter, adds the console and then the attributes.
pub init_log-parse_log_config :
    (lib : BoostLog) (toml : Toml) (node : toml.Node) (c : LogConfig) (w : lib.World)
    → parse_log_config toml node ≡ ok c
    → (level : Severity) × (level_of c ≡ some level)
      × (init_log lib c w
          ≡ lib.add_common_attributes (lib.add_console_log (lib.set_filter level w)))
unfolding init_log filtered
init_log-parse_log_config lib toml node c w e =
    let (level, known) = some_of (level_of c) (level_of-accepted toml node c e) in
    (
      level,
      known,
      ap
          (λ (o : Option Severity).
            lib.add_common_attributes (lib.add_console_log (filtered lib c.severity o w)))
          known,
    )
