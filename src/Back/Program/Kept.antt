-- ===== src/Back/Program/Kept.antt =====
-- What the back holds when it ends, whatever its storage refused meanwhile.
use mathlib.Core.List.{Mem}
use gateway_poc.Base.{ℕ, ◌<◌, ◌≡◌, refl, ◌⊎◌, inl, inr, none, List, ◌++◌, concat, map, All}
use gateway_poc.Base.Bytes.{Bytes}
use gateway_poc.Base.Outcome.{ok}
use gateway_poc.Common.Arguments.{ProgramOptions, goes_on, parse_arguments}
use gateway_poc.Common.Config.{Toml, PostgresConfig, RedisConfig, connection_string}
use gateway_poc.Common.ResolveHost.{Resolver}
use gateway_poc.Hiredis.{Hiredis}
use gateway_poc.Pqxx.{Pqxx}
use gateway_poc.Back.Config.{ConsumerConfig, ProducerConfig, Config, parse_config}
use gateway_poc.Back.Message.{Message}
use gateway_poc.Back.Consumer.Disk.{Filled}
use gateway_poc.Back.Redis.Stream.{StreamEntry, to_message}
use gateway_poc.Back.RedisProducer.{redis_producer}
use gateway_poc.Back.RedisProducer as RedisProducer
use gateway_poc.Back.RedisProducer.Server.{IsStream}
use gateway_poc.Back.RedisProducer.Storage.{streamed, redis_producer-IsStorage}
use gateway_poc.Back.PostgresProducer.{postgres_producer}
use gateway_poc.Back.PostgresProducer as PostgresProducer
use gateway_poc.Back.PostgresProducer.Database.{IsDatabase, stored}
use gateway_poc.Back.PostgresProducer.Storage.{postgres_producer-IsStorage}
use gateway_poc.Back.RunLoop.{LoopState}
use gateway_poc.Back.Program.{
  chunks, Ending, served_postgres, served_redis, serve_postgres, serve_redis, serve, configured,
  parsed, main,
}
use gateway_poc.Back.Program.Drained.{chosen-redis}
use gateway_poc.Back.Program.Ends.{accepted-positive, make_config-cases, Ready}
use gateway_poc.Back.Program.PostgresDrained.{chosen-postgres}
use gateway_poc.Back.Program.Saved.{chunks-Kept}

module _ (options : ProgramOptions) (toml : Toml) (resolver : Resolver) (redis : Hiredis)
    (postgres : Pqxx) (stream : redis.World → List StreamEntry)
    (Gone : List StreamEntry → redis.World → Type 0) (stream_law : IsStream redis stream Gone)
    (table : postgres.World → List Message) (table_law : IsDatabase postgres table) (rounds : ℕ)
    (database : postgres.World) (server : redis.World) where
  -- The program ends with a loop over Redis, and each message of the stream at its start is in a
  -- chunk that is given to be saved or still in the stream.
  abbrev pub KeepsStream : Ending options toml resolver redis postgres → Type 0
  KeepsStream e =
      (s : LoopState (RedisProducer.State redis)) × (e ≡ served_redis s)
      × All Filled (chunks s)
      × ((a : Message)
          → Mem a (map to_message (stream server))
          → Mem a (concat (chunks s) ++ streamed redis stream s.storage))

  -- The same for a loop over Postgres and its table.
  abbrev pub KeepsTable : Ending options toml resolver redis postgres → Type 0
  KeepsTable e =
      (s : LoopState (PostgresProducer.State postgres)) × (e ≡ served_postgres s)
      × All Filled (chunks s)
      × ((a : Message)
          → Mem a (table database)
          → Mem a (concat (chunks s) ++ stored postgres table s.storage))

  serve_redis-Keeps :
      (consumer : ConsumerConfig) (c : RedisConfig) (k : ProducerConfig)
      → 0 < consumer.chunk_size
      → KeepsStream (
          serve_redis options toml resolver redis postgres rounds database server consumer k (ok c))
  unfolding serve_redis
  serve_redis-Keeps consumer c k chunk =
      let (s, ran, filled, keeps) =
        chunks-Kept (redis_producer redis c k.chunk_size) consumer chunk (streamed redis stream)
          (redis_producer-IsStorage redis stream Gone stream_law c k.chunk_size) rounds
          (record { connection = none; world = server }) in
      (s, rw ran refl, filled, keeps)

  serve_postgres-Keeps :
      (consumer : ConsumerConfig) (c : PostgresConfig) (k : ProducerConfig)
      → 0 < consumer.chunk_size
      → KeepsTable
          (serve_postgres options toml resolver redis postgres rounds database server consumer c k)
  unfolding serve_postgres
  serve_postgres-Keeps consumer c k chunk =
      let (s, ran, filled, keeps) =
        chunks-Kept (postgres_producer postgres (connection_string c) k.chunk_size) consumer chunk
          (stored postgres table)
          (postgres_producer-IsStorage postgres table table_law (connection_string c) k.chunk_size)
          rounds (record { connection = none; world = database }) in
      (s, rw ran refl, filled, keeps)

  -- At least once, from the command line to the chunks: a back whose command line names an accepted
  -- file with a Postgres, or with a Redis alone at a host with an address, ends over a lawful
  -- storage however often its loop runs and whatever calls of the storage fail; where every thread
  -- that is to save a chunk is started, the chunks given to be saved are not empty, and each
  -- message that was stored at the start is in one of them or still stored.
  pub main-Keeps :
      (args : List Bytes) (path : Bytes) (c : Config)
      → parse_arguments options args ≡ goes_on path
      → parse_config toml path ≡ ok c
      → Ready options toml resolver redis postgres stream Gone stream_law table table_law rounds
          database server c
      → KeepsTable (main options toml resolver redis postgres rounds database server args)
        ⊎ KeepsStream (main options toml resolver redis postgres rounds database server args)
  unfolding main parsed configured serve
  main-Keeps args path c given accepted (inl (k, set)) =
      let chosen = chosen-postgres toml path c k accepted set in
      rw (given, accepted, chosen)
        (inl
          (serve_postgres-Keeps c.consumer k c.producer (accepted-positive toml path c accepted)))
  main-Keeps args path c given accepted (inr (r, unset, set, far)) =
      let chosen = chosen-redis toml path c r accepted unset set in
      elim (make_config-cases resolver r) [
        | inl (nowhere, threw) ↦ absurd (far nowhere)
        | inr (somewhere, (made, went)) ↦
            rw (given, accepted, chosen, went)
              (inr (
                serve_redis-Keeps c.consumer made c.producer
                  (accepted-positive toml path c accepted)))
      ]
