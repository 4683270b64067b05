-- ===== src/Back/Program/Drained.antt =====
-- The back from its command line to the files, over a server of Redis that answers.
use gateway_poc.Base.{
  ℕ, ◌<◌, ◌≤◌, ◌≡◌, ◌≢◌, refl, ap, ◌∙◌, inl, inr, none, some, List, [], ◌++◌, concat, length, map,
  All, arith,
}
use gateway_poc.Base.Bytes.{Bytes}
use gateway_poc.Base.Outcome.{ok, >>=-eq-ok, ok-injective}
use gateway_poc.Common.Arguments.{ProgramOptions, goes_on, parse_arguments}
use gateway_poc.Common.Config.{Toml, RedisConfig}
use gateway_poc.Common.ResolveHost.{Resolver, resolve_host}
use gateway_poc.Hiredis.{Hiredis}
use gateway_poc.Pqxx.{Pqxx}
use gateway_poc.Back.Config.{
  ConsumerConfig, ProducerConfig, Config, chunk_size_of, fill_config, parse_producer_config,
  parse_config,
}
use gateway_poc.Back.Config.Accepted.{chunk_size_of_iff, back_fill_config_iff}
use gateway_poc.Back.Message.{Message}
use gateway_poc.Back.Consumer.Disk.{Filled}
use gateway_poc.Back.Main.{make_producer, make_producer-defined}
use gateway_poc.Back.Main as Main
use gateway_poc.Back.Redis.Stream.{StreamEntry, to_message}
use gateway_poc.Back.RedisProducer.{State, redis_producer}
use gateway_poc.Back.RedisProducer.Server.{IsStream, IsHealthy}
use gateway_poc.Back.RedisProducer.Storage.{streamed, redis_producer-IsStorage}
use gateway_poc.Back.RedisProducer.Storage.Healthy.{redis_producer-Answers}
use gateway_poc.Back.RunLoop.{LoopState}
use gateway_poc.Back.Program.{
  chunks, Ending, served_redis, serve_redis, serve, configured, parsed, main,
}
use gateway_poc.Back.Program.Ends.{accepted-positive, make_config-cases}
use gateway_poc.Back.Program.Saved.{chunks-Delivered}

-- A configuration that is accepted has a producer that asks for at least one message.
pub producer-positive :
    (toml : Toml) (path : Bytes) (c : Config)
    → parse_config toml path ≡ ok c
    → 0 < c.producer.chunk_size
unfolding parse_config parse_producer_config
producer-positive toml path c e =
    let (node, read, filled) = >>=-eq-ok (toml.parse_file path) (fill_config toml) e in
    let table = ((back_fill_config_iff toml node c).0 filled).producer in
    let (n, size, made) = >>=-eq-ok (chunk_size_of _) _ table in
    let same = ap (λ (p : ProducerConfig). p.chunk_size) (ok-injective made) in
    elim ((chunk_size_of_iff _ n).0 size) [
      | inl unset ↦ omega (arith, unset.1, same)
      | inr given ↦ omega (arith, given.1, same)
    ]

pub chosen-redis :
    (toml : Toml) (path : Bytes) (c : Config) (r : RedisConfig)
    → parse_config toml path ≡ ok c
    → c.postgres ≡ none
    → c.redis ≡ some r
    → make_producer c ≡ ok (Main.redis_producer r c.producer)
unfolding parse_config
chosen-redis toml path c r e unset set =
    let (node, read, filled) = >>=-eq-ok (toml.parse_file path) (fill_config toml) e in
    elim (make_producer-defined toml node c filled) [
      | inl (p, set', made) ↦ cc
      | inr (r', unset', set', made) ↦
          let same : r' ≡ r = ground arith in
          made ∙ ap (λ (x : RedisConfig). ok (Main.redis_producer x c.producer)) same
    ]

module _ (options : ProgramOptions) (toml : Toml) (resolver : Resolver) (redis : Hiredis)
    (postgres : Pqxx) (stream : redis.World → List StreamEntry)
    (Gone : List StreamEntry → redis.World → Type 0) (law : IsStream redis stream Gone)
    (healthy : IsHealthy redis stream) (rounds : ℕ) (database : postgres.World)
    (server : redis.World) where
  -- The program ends with the state of its loop, and the chunks given to be saved begin with all
  -- that the stream held, in order.
  abbrev pub Delivers : Ending options toml resolver redis postgres → Type 0
  Delivers e =
      (s : LoopState (State redis)) × (later : List Message) × (e ≡ served_redis s)
      × All Filled (chunks s)
      × (concat (chunks s) ≡ map to_message (stream server) ++ later)

  serve_redis-Delivers :
      (consumer : ConsumerConfig) (c : RedisConfig) (k : ProducerConfig)
      → 0 < consumer.chunk_size
      → 0 < k.chunk_size
      → length (map to_message (stream server)) ≤ rounds
      → Delivers (
          serve_redis options toml resolver redis postgres rounds database server consumer k (ok c))
  unfolding serve_redis
  serve_redis-Delivers consumer c k chunk asks enough =
      let (s, later, ran, filled, all) =
        chunks-Delivered (redis_producer redis c k.chunk_size) consumer chunk
          (streamed redis stream) (redis_producer-IsStorage redis stream Gone law c k.chunk_size)
          (redis_producer-Answers redis stream Gone law healthy c k.chunk_size asks) rounds
          (record { connection = none; world = server }) enough in
      (s, later, rw ran refl, filled, all)

  -- A back whose command line names an accepted file with a Redis alone, at a host with an address:
  -- if its server is lawful and answers every command, and the loop runs at least as often as there
  -- are entries, the program ends, and the chunks that its threads and its consumer's destructor
  -- are given to save are not empty and hold all that the stream held at its start, in order, with
  -- what came later behind.
  pub main-Delivered :
      (args : List Bytes) (path : Bytes) (c : Config) (r : RedisConfig)
      → parse_arguments options args ≡ goes_on path
      → parse_config toml path ≡ ok c
      → c.postgres ≡ none
      → c.redis ≡ some r
      → resolve_host resolver r.host ≢ []
      → length (map to_message (stream server)) ≤ rounds
      → Delivers (main options toml resolver redis postgres rounds database server args)
  unfolding main parsed configured serve
  main-Delivered args path c r given accepted unset set far enough =
      let chosen : make_producer c ≡ ok (Main.redis_producer r c.producer) =
        chosen-redis toml path c r accepted unset set in
      let chunk = accepted-positive toml path c accepted in
      let asks = producer-positive toml path c accepted in
      elim (make_config-cases resolver r) [
        | inl (nowhere, threw) ↦ absurd (far nowhere)
        | inr (somewhere, (made, went)) ↦
            rw (given, accepted, chosen, went)
              (serve_redis-Delivers c.consumer made c.producer chunk asks enough)
      ]
