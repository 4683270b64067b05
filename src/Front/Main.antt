-- ===== src/Front/Main.antt =====
-- gwfront/src/main.cpp: which handler a configuration asks for, and what the program returns.
use gateway_poc.Base.{◌≡◌, ◌≢◌, refl, ◌⊎◌, inl, inr, Option, none, some, arith}
use gateway_poc.Base.Bytes.{Bytes}
use gateway_poc.Base.Outcome.{Outcome, ok, fault}
use gateway_poc.Common.Config.{Toml, MessageType, json, flatbuffers, PostgresConfig, RedisConfig}
use gateway_poc.Front.Config.{Config, fill_config}
use gateway_poc.Front.Config.Accepted.{fill_config_iff}

-- `UniversalHandler<Checker, Writer>` with the configuration of its writer.
pub data Checker : Type 0 where
  json_checker flatbuffers_checker : Checker

pub data Handler : Type 0 where
  postgres_handler : Checker → PostgresConfig → Handler
  redis_handler : Checker → RedisConfig → Handler

-- `*config.redis` of an empty optional is undefined.
with_storage : Checker → Option PostgresConfig → Option RedisConfig → Outcome Bytes Handler
with_storage checker (some postgres) redis = ok (postgres_handler checker postgres)
with_storage checker none (some redis) = ok (redis_handler checker redis)
with_storage checker none none = fault

make_typed : MessageType → Option PostgresConfig → Option RedisConfig → Outcome Bytes Handler
make_typed json postgres redis = with_storage json_checker postgres redis
make_typed flatbuffers postgres redis = with_storage flatbuffers_checker postgres redis

pub make_handler : Config → Outcome Bytes Handler
make_handler config = make_typed config.messages.type config.postgres config.redis

abbrev pub checker_of : MessageType → Checker
checker_of json = json_checker
checker_of flatbuffers = flatbuffers_checker

make_typed-defined :
    (t : MessageType) (p : Option PostgresConfig) (r : Option RedisConfig)
    → (p ≢ none) ⊎ (r ≢ none)
    → ((c : PostgresConfig) × (p ≡ some c)
        × (make_typed t p r ≡ ok (postgres_handler (checker_of t) c)))
      ⊎ ((c : RedisConfig) × (p ≡ none)
          × (r ≡ some c)
          × (make_typed t p r ≡ ok (redis_handler (checker_of t) c)))
unfolding make_typed with_storage
make_typed-defined json (some c) r h = inl (c, refl, refl)
make_typed-defined flatbuffers (some c) r h = inl (c, refl, refl)
make_typed-defined json none (some c) h = inr (c, refl, refl, refl)
make_typed-defined flatbuffers none (some c) h = inr (c, refl, refl, refl)
make_typed-defined t none none h = ground arith

-- A configuration that was accepted always has its handler: with the checker of its messages, and
-- with Postgres where both storages are configured.
pub make_handler-defined :
    (toml : Toml) (node : toml.Node) (c : Config)
    → fill_config toml node ≡ ok c
    → ((p : PostgresConfig) × (c.postgres ≡ some p)
        × (make_handler c ≡ ok (postgres_handler (checker_of c.messages.type) p)))
      ⊎ ((r : RedisConfig) × (c.postgres ≡ none)
          × (c.redis ≡ some r)
          × (make_handler c ≡ ok (redis_handler (checker_of c.messages.type) r)))
unfolding make_handler
make_handler-defined toml node c e =
    make_typed-defined c.messages.type c.postgres c.redis
      ((fill_config_iff toml node c).0 e).storage
