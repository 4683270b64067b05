-- ===== src/Tests/Common.antt =====
-- Configuration files.
use gateway_poc.Base.{◌≡◌, ◌↔◌, refl, Bool, true, false, Option, none, some, [], if◌then◌else◌}
use gateway_poc.Base.Bytes.{Bytes, codes, str_eq}
use gateway_poc.Base.Decimal.{to_string}
use gateway_poc.Base.Int.{ℤ, pos}
use gateway_poc.Base.Outcome.{ok, throw}
use gateway_poc.Common.Config.{
  Toml, json, PostgresConfig, RedisConfig, has_text, int_to_string, non_empty, given, limited,
  optional, optional_port, checked_severity, message_type, connection_string, parse_log_config,
  parse_messages_config, parse_postgres_config, parse_redis_config,
}
use gateway_poc.Common.Tables.{if_present, or_initial, required, no_storage}
use gateway_poc.Front.Config as FrontConfig
use gateway_poc.Front.Config.Accepted as FrontAccepted
use gateway_poc.Back.Config as BackConfig
use gateway_poc.Back.Config.Accepted as BackAccepted

mutual
  pub data Node : Type 0 where
    absent : Node
    integer : ℤ → Node
    string : Bytes → Node
    table : Nodes → Node

  pub data Nodes : Type 0 where
    no_more : Nodes
    entry : Bytes → Node → Nodes → Nodes

abbrev is_there : Node → Bool
is_there absent = false
is_there node = true

pub find_node : Nodes → Bytes → Node
find_node no_more key = absent
find_node (entry k node nodes) key = if str_eq k key then node else find_node nodes key

abbrev at : Node → Bytes → Node
at (table nodes) key = find_node nodes key
at node key = absent

abbrev integer_of : Node → Option ℤ
integer_of (integer n) = some n
integer_of node = none

abbrev string_of : Node → Option Bytes
string_of (string s) = some s
string_of node = none

abbrev pub postgres_node : Node
postgres_node = table (
    entry (codes "host") (string (codes "db")) (
      entry (codes "port") (integer (pos 5433)) (
        entry (codes "database") (string (codes "gateway")) (
          entry (codes "user") (string (codes "u"))
            (entry (codes "password") (string []) no_more)))))

abbrev pub redis_node : Node
redis_node = table (
    entry (codes "host") (string (codes "cache")) (
      entry (codes "user") (string (codes "u"))
        (entry (codes "password") (string (codes "p")) no_more)))

abbrev http_node : Node
http_node =
    table (
      entry (codes "port") (integer (pos 8080))
        (entry (codes "threads") (integer (pos 16)) no_more))

abbrev log_node : Node
log_node = table (entry (codes "severity") (string (codes "debug")) no_more)

abbrev pub consumer_node : Node
consumer_node = table (entry (codes "output_folder") (string (codes "out")) no_more)

abbrev front_node : Node
front_node = table (
    entry (codes "log") log_node (
      entry (codes "messages") (table (entry (codes "type") (string (codes "json")) no_more)) (
        entry (codes "http") http_node
          (entry (codes "postgres") postgres_node (entry (codes "redis") redis_node no_more)))))

abbrev pub back_over : Bytes → Node → Node
back_over storage node = table (
    entry (codes "consumer") consumer_node (
      entry (codes "producer") (table (entry (codes "chunk_size") (integer (pos 10)) no_more))
        (entry storage node no_more)))

abbrev pub back_node : Node
back_node = back_over (codes "redis") redis_node

abbrev pub toml : Toml
toml = record {
  Node = Node;
  present = is_there;
  at = at;
  as_integer = integer_of;
  as_string = string_of;
  parse_file = λ path. ok front_node;
}

abbrev pub postgres : PostgresConfig
postgres = record {
  host = codes "db";
  port = 5433;
  database = codes "gateway";
  user = codes "u";
  password = [];
}

abbrev pub redis : RedisConfig
redis = record { host = codes "cache"; port = 6379; user = codes "u"; password = codes "p" }

connection_string-postgres :
    connection_string postgres ≡ codes "host=db port=5433 dbname=gateway user=u password="
unfolding connection_string to_string
connection_string-postgres = refl

parse_log_config-node : parse_log_config toml log_node ≡ ok (record { severity = codes "debug" })
unfolding parse_log_config checked_severity has_text str_eq find_node
parse_log_config-node = refl

abbrev http : FrontConfig.HttpServerConfig
http = record { port = 8080; threads = 16; request_timeout = 10 }

parse_http_server_config_iff_example :
    (FrontConfig.parse_http_server_config toml http_node ≡ ok http)
    ↔ FrontAccepted.IsHttp toml http_node http
parse_http_server_config_iff_example =
    FrontAccepted.parse_http_server_config_iff toml http_node http

abbrev pub front : FrontConfig.Config
front = record {
  log = record { severity = codes "debug" };
  messages = record { type = json };
  http = http;
  postgres = some postgres;
  redis = some redis;
}

fill_config_iff_example :
    (FrontConfig.fill_config toml front_node ≡ ok front)
    ↔ FrontAccepted.IsConfig toml front_node front
fill_config_iff_example = FrontAccepted.fill_config_iff toml front_node front

fill_config-front : FrontConfig.fill_config toml front_node ≡ ok front
unfolding FrontConfig.fill_config FrontConfig.parse_http_server_config FrontConfig.required_int
    parse_messages_config parse_postgres_config parse_redis_config parse_log_config checked_severity
    has_text message_type non_empty given limited optional optional_port if_present or_initial
    required no_storage str_eq find_node
fill_config-front = refl

parse_config-front : FrontConfig.parse_config toml (codes "front.toml") ≡ ok front
unfolding FrontConfig.parse_config
parse_config-front = fill_config-front

parse_consumer_config_iff_example :
    (BackConfig.parse_consumer_config toml consumer_node
      ≡ ok (record { chunk_size = 1000; output_folder = codes "out" }))
    ↔ BackAccepted.IsConsumer toml consumer_node
        (record { chunk_size = 1000; output_folder = codes "out" })
parse_consumer_config_iff_example =
    BackAccepted.parse_consumer_config_iff toml consumer_node
      (record { chunk_size = 1000; output_folder = codes "out" })

abbrev pub back : BackConfig.Config
back = record {
  log = record { severity = codes "error" };
  postgres = none;
  redis = some redis;
  consumer = record { chunk_size = 1000; output_folder = codes "out" };
  producer = record { chunk_size = 10 };
}

back_fill_config_iff_example :
    (BackConfig.fill_config toml back_node ≡ ok back) ↔ BackAccepted.IsConfig toml back_node back
back_fill_config_iff_example = BackAccepted.back_fill_config_iff toml back_node back

fill_config-back : BackConfig.fill_config toml back_node ≡ ok back
unfolding BackConfig.fill_config BackConfig.parse_consumer_config BackConfig.parse_producer_config
    BackConfig.chunk_size_of parse_redis_config parse_log_config non_empty given limited optional
    optional_port if_present or_initial required no_storage str_eq find_node
fill_config-back = refl

-- A number outside its limits is refused, and shown.
port-refused :
    optional_port (codes "wrong port: ") 6379 (some (pos 65536)) ≡ throw (codes "wrong port: 65536")
unfolding optional_port optional limited int_to_string to_string
port-refused = refl

abbrev pub back_toml : Toml
back_toml = record toml { parse_file = λ path. ok back_node }

pub parse_config-back : BackConfig.parse_config back_toml (codes "gateway.toml") ≡ ok back
unfolding BackConfig.parse_config BackConfig.fill_config BackConfig.parse_consumer_config
    BackConfig.parse_producer_config BackConfig.chunk_size_of parse_redis_config parse_log_config
    non_empty given limited optional optional_port if_present or_initial required no_storage str_eq
    find_node
parse_config-back = refl

-- A file that names a Postgres in place of the Redis.
abbrev pub rows_toml : Toml
rows_toml = record toml { parse_file = λ path. ok (back_over (codes "postgres") postgres_node) }

abbrev pub rows_back : BackConfig.Config
rows_back = record back { postgres = some postgres; redis = none }

pub parse_config-rows_back : BackConfig.parse_config rows_toml (codes "gateway.toml") ≡ ok rows_back
unfolding BackConfig.parse_config BackConfig.fill_config BackConfig.parse_consumer_config
    BackConfig.parse_producer_config BackConfig.chunk_size_of parse_postgres_config parse_log_config
    non_empty given limited optional optional_port if_present or_initial required no_storage str_eq
    find_node
parse_config-rows_back = refl
