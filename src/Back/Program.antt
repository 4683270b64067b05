-- ===== src/Back/Program.antt =====
-- `main` of gwback/src/main.cpp. The thread of the loop reads `run` as true as often as `rounds`
-- says, and is joined once the signal has come.
pub mod Drained
pub mod Ends
pub mod Kept
pub mod PostgresDrained
pub mod Saved
use gateway_poc.Base.{ℕ, ◌≡◌, Option, none, some, List, [], ◌∷◌, ◌++◌}
use gateway_poc.Base.Bytes.{Bytes}
use gateway_poc.Base.Outcome.{Outcome, ok, throw, fault}
use gateway_poc.Common.Arguments.{
  ProgramOptions, Parsed, stops, goes_on, Exit, success, failure, parse_arguments,
}
use gateway_poc.Common.Config.{Toml, PostgresConfig, RedisConfig, connection_string}
use gateway_poc.Common.ResolveHost.{Resolver}
use gateway_poc.Hiredis.{Hiredis}
use gateway_poc.Pqxx.{Pqxx}
use gateway_poc.Back.Config.{ConsumerConfig, ProducerConfig, Config, parse_config}
use gateway_poc.Back.Message.{Message}
use gateway_poc.Back.Consumer.{MessageConsumer, make_consumer}
use gateway_poc.Back.Main.{ChosenProducer, make_producer}
use gateway_poc.Back.Main as Main
use gateway_poc.Back.RunLoop.{Producer, LoopState, run_loop}
use gateway_poc.Back.RedisProducer.{RedisError, make_config, redis_producer}
use gateway_poc.Back.RedisProducer as RedisProducer
use gateway_poc.Back.PostgresProducer.{postgres_producer}
use gateway_poc.Back.PostgresProducer as PostgresProducer

-- A producer and a consumer that were just made.
abbrev pub fresh : {S : Type 0} → S → ConsumerConfig → LoopState S
fresh storage config = record {
  storage = storage;
  consumer = make_consumer config;
  jobs = [];
  pauses = 0;
}

-- The chunks that are saved: by the threads, and at the end by the consumer's destructor.
abbrev pub last_chunk : List Message → List (List Message)
last_chunk [] = []
last_chunk (m ∷ buffer) = (m ∷ buffer) ∷ []

abbrev pub chunks : {S : Type 0} → LoopState S → List (List Message)
chunks s = s.jobs ++ last_chunk s.consumer.buffer

module _ (options : ProgramOptions) (toml : Toml) (resolver : Resolver) (redis : Hiredis)
    (postgres : Pqxx) where
  -- How the program ends: before its loop, or with the state that the loop leaves.
  pub data Ending : Type 0 where
    not_started : Exit → Ending
    served_postgres : LoopState (PostgresProducer.State postgres) → Ending
    served_redis : LoopState (RedisProducer.State redis) → Ending
    undefined : Ending

  abbrev pub exit_of : Ending → Option Exit
  exit_of (not_started e) = some e
  exit_of (served_postgres s) = some success
  exit_of (served_redis s) = some success
  exit_of undefined = none

  abbrev pub from_postgres : Option (LoopState (PostgresProducer.State postgres)) → Ending
  from_postgres none = undefined
  from_postgres (some s) = served_postgres s

  abbrev pub from_redis : Option (LoopState (RedisProducer.State redis)) → Ending
  from_redis none = undefined
  from_redis (some s) = served_redis s

  module _ (rounds : ℕ) (database : postgres.World) (server : redis.World) where
    unfoldable pub serve_postgres : ConsumerConfig → PostgresConfig → ProducerConfig → Ending
    serve_postgres consumer config producer = from_postgres (
        run_loop rounds (postgres_producer postgres (connection_string config) producer.chunk_size)
          (fresh (record { connection = none; world = database }) consumer))

    -- The host was resolved when the producer was made.
    unfoldable pub serve_redis :
        ConsumerConfig → ProducerConfig → Outcome RedisError RedisConfig → Ending
    serve_redis consumer producer (ok config) = from_redis (
        run_loop rounds (redis_producer redis config producer.chunk_size)
          (fresh (record { connection = none; world = server }) consumer))
    serve_redis consumer producer (throw e) = not_started failure
    serve_redis consumer producer fault = undefined

    unfoldable pub serve : ConsumerConfig → Outcome Bytes ChosenProducer → Ending
    unfolding serve_postgres serve_redis
    serve consumer (ok (Main.postgres_producer config producer)) =
        serve_postgres consumer config producer
    serve consumer (ok (Main.redis_producer config producer)) =
        serve_redis consumer producer (make_config resolver config)
    serve consumer (throw e) = not_started failure
    serve consumer fault = undefined

    unfoldable pub configured : Outcome Bytes Config → Ending
    unfolding serve
    configured (ok config) = serve config.consumer (make_producer config)
    configured (throw e) = not_started failure
    configured fault = undefined

    unfoldable pub parsed : Parsed → Ending
    unfolding configured
    parsed (stops shown) = not_started failure
    parsed (goes_on path) = configured (parse_config toml path)

    unfoldable pub main : List Bytes → Ending
    unfolding parsed
    main args = parsed (parse_arguments options args)
