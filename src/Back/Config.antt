-- ===== src/Back/Config.antt =====
-- gwback/src/utils/config.cpp and config.hpp.
pub mod Accepted
use gateway_poc.Base.{ℕ, Option, ◌++◌, if◌then◌else◌}
use gateway_poc.Base.Bytes.{Bytes, codes}
use gateway_poc.Base.Int.{ℤ, pos}
use gateway_poc.Base.Outcome.{Outcome, ok, throw, ◌>>=◌}
use gateway_poc.Common.Config.{
  Toml, LogConfig, default_log, PostgresConfig, RedisConfig, non_empty, optional, parse_log_config,
  parse_postgres_config, parse_redis_config,
}
use gateway_poc.Common.Tables.{if_present, or_initial, required, no_storage}

pub record ConsumerConfig : Type 0 where
  pub chunk_size : ℕ  -- uint32_t
  pub output_folder : Bytes

pub record ProducerConfig : Type 0 where
  pub chunk_size : ℕ  -- uint32_t

pub record Config : Type 0 where
  pub log : LogConfig
  pub postgres : Option PostgresConfig
  pub redis : Option RedisConfig
  pub consumer : ConsumerConfig
  pub producer : ProducerConfig

abbrev consumer_config_table : Bytes
consumer_config_table = codes "consumer"

abbrev log_config_table : Bytes
log_config_table = codes "log"

abbrev postgres_config_table : Bytes
postgres_config_table = codes "postgres"

abbrev producer_config_table : Bytes
producer_config_table = codes "producer"

abbrev redis_config_table : Bytes
redis_config_table = codes "redis"

abbrev chunk_size_parameter : Bytes
chunk_size_parameter = codes "chunk_size"

abbrev output_folder_parameter : Bytes
output_folder_parameter = codes "output_folder"

abbrev min_chunk : ℤ
min_chunk = pos 1

abbrev max_chunk : ℤ
max_chunk = pos 1000000

-- The check is written twice in the source, with this text both times.
unfoldable pub chunk_size_of : Option ℤ → Outcome Bytes ℕ
chunk_size_of v =
    optional 32 min_chunk max_chunk (codes "Consumer config has wrong chunk size value: ") 1000 v

module _ (toml : Toml) where
  open toml use {Node, present, at, as_integer, as_string, parse_file}

  unfoldable pub parse_consumer_config : Node → Outcome Bytes ConsumerConfig
  parse_consumer_config node = do
    chunk_size ← chunk_size_of (as_integer (at node chunk_size_parameter))
    folder ←
        non_empty (codes "Consumer config has no proper output folder parameter")
          (as_string (at node output_folder_parameter))
    ok (record { chunk_size = chunk_size; output_folder = folder })

  unfoldable pub parse_producer_config : Node → Outcome Bytes ProducerConfig
  parse_producer_config node = do
    chunk_size ← chunk_size_of (as_integer (at node chunk_size_parameter))
    ok (record { chunk_size = chunk_size })

  unfoldable pub fill_config : Node → Outcome Bytes Config
  fill_config table = do
    let log_node = at table log_config_table
    log ← or_initial (present log_node) default_log (parse_log_config toml log_node)
    let postgres_node = at table postgres_config_table
    postgres ← if_present (present postgres_node) (parse_postgres_config toml postgres_node)
    let redis_node = at table redis_config_table
    redis ← if_present (present redis_node) (parse_redis_config toml redis_node)
    if no_storage postgres redis
        then throw (codes "Config file has no storage config table")
        else do
          let consumer_node = at table consumer_config_table
          consumer ←
              required (present consumer_node) (codes "Config file has no consumer config table")
                (parse_consumer_config consumer_node)
          let producer_node = at table producer_config_table
          producer ←
              required (present producer_node) (codes "Config file has no producer config table")
                (parse_producer_config producer_node)
          ok (record {
            log = log;
            postgres = postgres;
            redis = redis;
            consumer = consumer;
            producer = producer;
          })

  -- False, with the text of the exception on `std::cerr`, is an error here.
  unfoldable pub parse_config : Bytes → Outcome Bytes Config
  parse_config file_path = do table ← parse_file file_path; fill_config table
