-- ===== src/Common/Config.antt =====
-- common/utils/config.cpp and config.hpp. The toml++ library is a record of operations on its
-- nodes; an exception is its text.
pub mod Valid
pub mod ConnectionString
use gateway_poc.Base.{
  ℕ, suc, ◌^◌, Bool, true, false, ◌||◌, Option, none, some, List, [], ◌∷◌, ◌++◌, if◌then◌else◌,
}
use gateway_poc.Base.Bytes.{Bytes, codes, str_eq}
use gateway_poc.Base.Decimal.{to_string}
use gateway_poc.Base.Int.{ℤ, pos, negsuc, ltb_ℤ, cast_unsigned}
use gateway_poc.Base.Outcome.{Outcome, ok, throw, ◌>>=◌}

pub record Toml : Type 1 where
  pub Node : Type 0
  pub present : Node → Bool  -- `explicit operator bool`
  pub at : Node → Bytes → Node  -- `operator[]`
  pub as_integer : Node → Option ℤ  -- none is a null pointer
  pub as_string : Node → Option Bytes
  pub parse_file : Bytes → Outcome Bytes Node

pub record LogConfig : Type 0 where
  pub severity : Bytes

-- The initialiser of the field.
abbrev pub default_log : LogConfig
default_log = record { severity = codes "error" }

pub data MessageType : Type 0 where
  json flatbuffers : MessageType

pub record MessagesConfig : Type 0 where
  pub type : MessageType

pub record PostgresConfig : Type 0 where
  pub host : Bytes
  pub port : ℕ  -- uint16_t
  pub database : Bytes
  pub user : Bytes
  pub password : Bytes

pub record RedisConfig : Type 0 where
  pub host : Bytes
  pub port : ℕ  -- uint16_t
  pub user : Bytes
  pub password : Bytes

abbrev database_parameter : Bytes
database_parameter = codes "database"

abbrev host_parameter : Bytes
host_parameter = codes "host"

abbrev password_parameter : Bytes
password_parameter = codes "password"

abbrev port_parameter : Bytes
port_parameter = codes "port"

abbrev severity_parameter : Bytes
severity_parameter = codes "severity"

abbrev type_parameter : Bytes
type_parameter = codes "type"

abbrev user_parameter : Bytes
user_parameter = codes "user"

abbrev json_message_type : Bytes
json_message_type = codes "json"

abbrev flatbuffers_message_type : Bytes
flatbuffers_message_type = codes "flatbuffers"

abbrev pub severities : List Bytes
severities =
    codes "trace"
    ∷ codes "debug"
    ∷ codes "info"
    ∷ codes "warning"
    ∷ codes "error"
    ∷ codes "fatal"
    ∷ []

abbrev pub min_port : ℤ
min_port = pos 1

abbrev pub max_port : ℤ
max_port = pos 65535

-- `std::set::count(key) != 0`
unfoldable pub has_text : List Bytes → Bytes → Bool
has_text [] key = false
has_text (s ∷ set) key = str_eq s key || has_text set key

-- `std::to_string(int64_t)`
unfoldable pub int_to_string : ℤ → Bytes
int_to_string (pos n) = to_string n
int_to_string (negsuc n) = b'-' ∷ to_string (suc n)

-- `if (!s || s->get().empty()) throw …`
unfoldable pub non_empty : Bytes → Option Bytes → Outcome Bytes Bytes
non_empty complaint none = throw complaint
non_empty complaint (some []) = throw complaint
non_empty complaint (some (c ∷ s)) = ok (c ∷ s)

-- `if (!s) throw …`
unfoldable pub given : Bytes → Option Bytes → Outcome Bytes Bytes
given complaint none = throw complaint
given complaint (some s) = ok s

-- The check of a value against its limits, and its cast to a word of `w` bits.
unfoldable pub limited : ℕ → ℤ → ℤ → Bytes → ℤ → Outcome Bytes ℕ
limited w low high complaint v =
    if ltb_ℤ v low || ltb_ℤ high v
    then throw (complaint ++ int_to_string v)
    else ok (cast_unsigned w v)

-- `if (v) { … }`: a parameter that is missing, or is no integer, leaves the field as it was.
unfoldable pub optional : ℕ → ℤ → ℤ → Bytes → ℕ → Option ℤ → Outcome Bytes ℕ
optional w low high complaint initial none = ok initial
optional w low high complaint initial (some v) = limited w low high complaint v

-- The default port stands in `PostgresConfig` and `RedisConfig`.
unfoldable pub optional_port : Bytes → ℕ → Option ℤ → Outcome Bytes ℕ
optional_port complaint initial v = optional 16 min_port max_port complaint initial v

unfoldable pub checked_severity : Option Bytes → Outcome Bytes LogConfig
checked_severity none = ok default_log
checked_severity (some value) =
    if has_text severities value
    then ok (record { severity = value })
    else throw (codes "Log config has no proper severity parameter")

unfoldable pub message_type : Bytes → Outcome Bytes MessageType
message_type value =
    if str_eq value json_message_type
    then ok json
    else if str_eq value flatbuffers_message_type
    then ok flatbuffers
    else throw (codes "Messages config has wrong type value: " ++ value)

unfoldable pub connection_string : PostgresConfig → Bytes
connection_string c =
    codes "host="
    ++ c.host
    ++ codes " "
    ++ codes "port="
    ++ to_string c.port
    ++ codes " "
    ++ codes "dbname="
    ++ c.database
    ++ codes " "
    ++ codes "user="
    ++ c.user
    ++ codes " "
    ++ codes "password="
    ++ c.password

module _ (toml : Toml) where
  open toml use {Node, at, as_integer, as_string}

  unfoldable pub parse_log_config : Node → Outcome Bytes LogConfig
  parse_log_config node = checked_severity (as_string (at node severity_parameter))

  unfoldable pub parse_messages_config : Node → Outcome Bytes MessagesConfig
  parse_messages_config node = do
    value ←
        non_empty (codes "Messages config has no proper type parameter")
          (as_string (at node type_parameter))
    t ← message_type value
    ok (record { type = t })

  unfoldable pub parse_postgres_config : Node → Outcome Bytes PostgresConfig
  parse_postgres_config node = do
    host ←
        non_empty (codes "Postgres config has no proper host parameter")
          (as_string (at node host_parameter))
    port ←
        optional_port (codes "Postgres config has wrong port value: ") 5432
          (as_integer (at node port_parameter))
    database ←
        non_empty (codes "Postgres config has no proper database parameter")
          (as_string (at node database_parameter))
    user ←
        non_empty (codes "Postgres config has no proper user parameter")
          (as_string (at node user_parameter))
    password ←
        given (codes "Postgres config has no proper password parameter")
          (as_string (at node password_parameter))
    ok (record { host = host; port = port; database = database; user = user; password = password })

  unfoldable pub parse_redis_config : Node → Outcome Bytes RedisConfig
  parse_redis_config node = do
    host ←
        non_empty (codes "Redis config has no proper host parameter")
          (as_string (at node host_parameter))
    port ←
        optional_port (codes "Redis config has wrong port value: ") 6379
          (as_integer (at node port_parameter))
    user ←
        non_empty (codes "Redis config has no proper user parameter")
          (as_string (at node user_parameter))
    password ←
        given (codes "Redis config has no proper password parameter")
          (as_string (at node password_parameter))
    ok (record { host = host; port = port; user = user; password = password })
