-- ===== src/Front/Config.antt =====
-- gwfront/src/utils/config.cpp and config.hpp.
pub mod Accepted
use gateway_poc.Base.{
  ℕ, Bool, true, false, ◌||◌, not, Option, none, some, List, [], ◌∷◌, ◌++◌, if◌then◌else◌,
}
use gateway_poc.Base.Bytes.{Bytes, codes}
use gateway_poc.Base.Int.{ℤ, pos}
use gateway_poc.Base.Outcome.{Outcome, ok, throw, fault, ◌>>=◌}
use gateway_poc.Common.Config.{
  Toml, LogConfig, default_log, MessagesConfig, PostgresConfig, RedisConfig, limited, optional,
  parse_log_config, parse_messages_config, parse_postgres_config, parse_redis_config,
}
use gateway_poc.Common.Tables.{if_present, or_initial, required, no_storage}

pub record HttpServerConfig : Type 0 where
  pub port : ℕ  -- uint16_t
  pub threads : ℕ  -- uint16_t
  pub request_timeout : ℕ  -- uint16_t, seconds

pub record Config : Type 0 where
  pub log : LogConfig
  pub messages : MessagesConfig
  pub http : HttpServerConfig
  pub postgres : Option PostgresConfig
  pub redis : Option RedisConfig

abbrev http_config_table : Bytes
http_config_table = codes "http"

abbrev log_config_table : Bytes
log_config_table = codes "log"

abbrev messages_config_table : Bytes
messages_config_table = codes "messages"

abbrev postgres_config_table : Bytes
postgres_config_table = codes "postgres"

abbrev redis_config_table : Bytes
redis_config_table = codes "redis"

abbrev port_parameter : Bytes
port_parameter = codes "port"

abbrev request_timeout_parameter : Bytes
request_timeout_parameter = codes "request_timeout"

abbrev threads_parameter : Bytes
threads_parameter = codes "threads"

abbrev min_port : ℤ
min_port = pos 1

abbrev max_port : ℤ
max_port = pos 65535

abbrev min_threads : ℤ
min_threads = pos 1

abbrev max_threads : ℤ
max_threads = pos 16384

abbrev min_timeout : ℤ
min_timeout = pos 1

abbrev max_timeout : ℤ
max_timeout = pos 600

-- A parameter that has to be there and to be an integer.
unfoldable pub required_int : ℤ → ℤ → Bytes → Bytes → Option ℤ → Outcome Bytes ℕ
required_int low high missing wrong none = throw missing
required_int low high missing wrong (some v) = limited 16 low high wrong v

module _ (toml : Toml) where
  open toml use {Node, present, at, as_integer, parse_file}

  unfoldable pub parse_http_server_config : Node → Outcome Bytes HttpServerConfig
  parse_http_server_config node = do
    port ←
        required_int min_port max_port (codes "Http server config has no proper port parameter")
          (codes "Http server config has wrong port value: ") (as_integer (at node port_parameter))
    threads ←
        required_int min_threads max_threads
          (codes "Http server config has no proper threads parameter")
          (codes "Http server config has wrong threads value: ")
          (as_integer (at node threads_parameter))
    timeout ←
        optional 16 min_timeout max_timeout
          (codes "Http server config has wrong request timeout value: ") 10
          (as_integer (at node request_timeout_parameter))
    ok (record { port = port; threads = threads; request_timeout = timeout })

  unfoldable pub fill_config : Node → Outcome Bytes Config
  fill_config table = do
    let log_node = at table log_config_table
    log ← or_initial (present log_node) default_log (parse_log_config toml log_node)
    let messages_node = at table messages_config_table
    messages ←
        required (present messages_node) (codes "Config file has no messages config table")
          (parse_messages_config toml messages_node)
    let http_node = at table http_config_table
    http ←
        required (present http_node) (codes "Config file has no http server config table")
          (parse_http_server_config http_node)
    let postgres_node = at table postgres_config_table
    postgres ← if_present (present postgres_node) (parse_postgres_config toml postgres_node)
    let redis_node = at table redis_config_table
    redis ← if_present (present redis_node) (parse_redis_config toml redis_node)
    if no_storage postgres redis
        then throw (codes "Config file has no storage config table")
        else ok (record {
          log = log;
          messages = messages;
          http = http;
          postgres = postgres;
          redis = redis;
        })

  -- False, with the text of the exception on `std::cerr`, is an error here.
  unfoldable pub parse_config : Bytes → Outcome Bytes Config
  parse_config file_path = do table ← parse_file file_path; fill_config table
