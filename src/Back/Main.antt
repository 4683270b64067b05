-- ===== src/Back/Main.antt =====
-- gwback/src/main.cpp: which producer a configuration asks for.
use gateway_poc.Base.{◌≡◌, ◌≢◌, refl, ◌⊎◌, inl, inr, Option, none, some, arith}
use gateway_poc.Base.Bytes.{Bytes}
use gateway_poc.Base.Outcome.{Outcome, ok, fault}
use gateway_poc.Common.Config.{Toml, PostgresConfig, RedisConfig}
use gateway_poc.Back.Config.{ProducerConfig, Config, fill_config}
use gateway_poc.Back.Config.Accepted.{back_fill_config_iff}

pub data ChosenProducer : Type 0 where
  postgres_producer : PostgresConfig → ProducerConfig → ChosenProducer
  redis_producer : RedisConfig → ProducerConfig → ChosenProducer

-- `*config.redis` of an empty optional is undefined.
producer_of :
    Option PostgresConfig → Option RedisConfig → ProducerConfig → Outcome Bytes ChosenProducer
producer_of (some postgres) redis producer = ok (postgres_producer postgres producer)
producer_of none (some redis) producer = ok (redis_producer redis producer)
producer_of none none producer = fault

pub make_producer : Config → Outcome Bytes ChosenProducer
make_producer config = producer_of config.postgres config.redis config.producer

producer_of-defined :
    (p : Option PostgresConfig) (r : Option RedisConfig) (k : ProducerConfig)
    → (p ≢ none) ⊎ (r ≢ none)
    → ((c : PostgresConfig) × (p ≡ some c) × (producer_of p r k ≡ ok (postgres_producer c k)))
      ⊎ ((c : RedisConfig) × (p ≡ none)
          × (r ≡ some c)
          × (producer_of p r k ≡ ok (redis_producer c k)))
unfolding producer_of
producer_of-defined (some c) r k h = inl (c, refl, refl)
producer_of-defined none (some c) k h = inr (c, refl, refl, refl)
producer_of-defined none none k h = ground arith

-- A configuration that the back accepts always has its producer, that of Postgres where both
-- storages are configured, with the settings of the producer's table.
pub make_producer-defined :
    (toml : Toml) (node : toml.Node) (c : Config)
    → fill_config toml node ≡ ok c
    → ((p : PostgresConfig) × (c.postgres ≡ some p)
        × (make_producer c ≡ ok (postgres_producer p c.producer)))
      ⊎ ((r : RedisConfig) × (c.postgres ≡ none)
          × (c.redis ≡ some r)
          × (make_producer c ≡ ok (redis_producer r c.producer)))
unfolding make_producer
make_producer-defined toml node c e =
    producer_of-defined c.postgres c.redis c.producer
      ((back_fill_config_iff toml node c).0 e).storage
