-- ===== src/Back/Program/Ends.antt =====
-- When the back ends with success.
use gateway_poc.Base.{
  ℕ, ◌<◌, ◌≡◌, ◌≢◌, refl, subst, ◌⊎◌, ◌↔◌, inl, inr, Option, none, some, List, [], ◌∷◌, arith,
}
use gateway_poc.Base.Bytes.{Bytes}
use gateway_poc.Base.Outcome.{Outcome, ok, throw, fault, >>=-eq-ok}
use gateway_poc.Common.Arguments.{
  ProgramOptions, Parsed, stops, goes_on, Exit, success, parse_arguments,
}
use gateway_poc.Common.Config.{Toml, PostgresConfig, RedisConfig, connection_string}
use gateway_poc.Common.ResolveHost.{Resolver, resolve_host}
use gateway_poc.Hiredis.{Hiredis}
use gateway_poc.Pqxx.{Pqxx}
use gateway_poc.Back.Config.{ConsumerConfig, ProducerConfig, Config, fill_config, parse_config}
use gateway_poc.Back.Config.Accepted.{back_fill_config_iff, parse_consumer_config_iff}
use gateway_poc.Back.Message.{Message}
use gateway_poc.Back.Consumer.{make_consumer}
use gateway_poc.Back.Consumer.Chunks.{IsOpen}
use gateway_poc.Back.Main.{make_producer, make_producer-defined}
use gateway_poc.Back.RunLoop.Delivery.{run_loop-Mem}
use gateway_poc.Back.Redis.Stream.{StreamEntry}
use gateway_poc.Back.RedisProducer.{RedisError, unresolved_host, make_config, redis_producer}
use gateway_poc.Back.RedisProducer.Server.{IsStream}
use gateway_poc.Back.RedisProducer.Storage.{streamed, redis_producer-IsStorage}
use gateway_poc.Back.PostgresProducer.{postgres_producer}
use gateway_poc.Back.PostgresProducer.Database.{IsDatabase, stored}
use gateway_poc.Back.PostgresProducer.Storage.{postgres_producer-IsStorage}
use gateway_poc.Back.Program.{
  fresh, Ending, exit_of, serve_postgres, serve_redis, serve, configured, parsed, main,
}

make_consumer-IsOpen : (c : ConsumerConfig) → 0 < c.chunk_size → IsOpen (make_consumer c)
unfolding make_consumer
make_consumer-IsOpen c h = record { positive = h; room = h }

-- A configuration that is accepted has a chunk of at least one message.
pub accepted-positive :
    (toml : Toml) (path : Bytes) (c : Config)
    → parse_config toml path ≡ ok c
    → 0 < c.consumer.chunk_size
unfolding parse_config
accepted-positive toml path c e =
    let (node, read, filled) = >>=-eq-ok (toml.parse_file path) (fill_config toml) e in
    let table = ((back_fill_config_iff toml node c).0 filled).consumer in
    let chosen = ((parse_consumer_config_iff toml _ c.consumer).0 table).chunk_size in
    elim chosen [ inl unset ↦ omega (arith, unset.1) | inr given ↦ omega (arith, given.1) ]

-- The constructor throws exactly for a host without an address.
pub make_config-cases :
    (r : Resolver) (c : RedisConfig)
    → ((resolve_host r c.host ≡ []) × ((e : RedisError) × (make_config r c ≡ throw e)))
      ⊎ ((resolve_host r c.host ≢ []) × ((made : RedisConfig) × (make_config r c ≡ ok made)))
unfolding make_config
make_config-cases r c = go (resolve_host r c.host) refl
  where
    go :
        (host : Bytes)
        → resolve_host r c.host ≡ host
        → ((resolve_host r c.host ≡ []) × ((e : RedisError) × (make_config r c ≡ throw e)))
          ⊎ ((resolve_host r c.host ≢ []) × ((made : RedisConfig) × (make_config r c ≡ ok made)))
    go [] e = inl (e, (unresolved_host c.host, rw e refl))
    go (b ∷ host) e = inr (λ h. cc, (record c { host = resolve_host r c.host }, rw e refl))

module _ (options : ProgramOptions) (toml : Toml) (resolver : Resolver) (redis : Hiredis)
    (postgres : Pqxx) (stream : redis.World → List StreamEntry)
    (Gone : List StreamEntry → redis.World → Type 0) (stream_law : IsStream redis stream Gone)
    (table : postgres.World → List Message) (table_law : IsDatabase postgres table) (rounds : ℕ)
    (database : postgres.World) (server : redis.World) where
  -- A storage is configured, and where it is Redis its host has an address.
  abbrev pub Ready : Config → Type 0
  Ready c =
      ((p : PostgresConfig) × (c.postgres ≡ some p))
      ⊎ ((r : RedisConfig) × (c.postgres ≡ none)
          × (c.redis ≡ some r)
          × (resolve_host resolver r.host ≢ []))

  serve_postgres-success :
      (consumer : ConsumerConfig) (c : PostgresConfig) (k : ProducerConfig)
      → 0 < consumer.chunk_size
      → exit_of options toml resolver redis postgres
          (serve_postgres options toml resolver redis postgres rounds database server consumer c k)
        ≡ some success
  unfolding serve_postgres
  serve_postgres-success consumer c k h =
      let producer = postgres_producer postgres (connection_string c) k.chunk_size in
      let (s, ran, kept) =
        run_loop-Mem producer (stored postgres table)
          (postgres_producer-IsStorage postgres table table_law (connection_string c) k.chunk_size)
          rounds (fresh (record { connection = none; world = database }) consumer)
          (make_consumer-IsOpen consumer h) in
      rw ran refl

  serve_redis-success :
      (consumer : ConsumerConfig) (c : RedisConfig) (k : ProducerConfig)
      → 0 < consumer.chunk_size
      → exit_of options toml resolver redis postgres (
          serve_redis options toml resolver redis postgres rounds database server consumer k (ok c))
        ≡ some success
  unfolding serve_redis
  serve_redis-success consumer c k h =
      let producer = redis_producer redis c k.chunk_size in
      let (s, ran, kept) =
        run_loop-Mem producer (streamed redis stream)
          (redis_producer-IsStorage redis stream Gone stream_law c k.chunk_size) rounds
          (fresh (record { connection = none; world = server }) consumer)
          (make_consumer-IsOpen consumer h) in
      rw ran refl

  abbrev ends : Ending options toml resolver redis postgres → Option Exit
  ends = exit_of options toml resolver redis postgres

  made-success_iff :
      (consumer : ConsumerConfig) (c : RedisConfig) (k : ProducerConfig)
      → 0 < consumer.chunk_size
      → (ends (
            serve_redis options toml resolver redis postgres rounds database server consumer k
              (make_config resolver c))
          ≡ some success)
        ↔ (resolve_host resolver c.host ≢ [])
  unfolding serve_redis
  made-success_iff consumer c k h = elim (make_config-cases resolver c) [
    | inl (nowhere, (e, threw)) ↦ rw threw (λ g. cc, λ far. absurd (far nowhere))
    | inr (somewhere, (made, went)) ↦
        rw went (λ g. somewhere, λ far. serve_redis-success consumer made k h)
  ]

  -- The configuration of Redis that a configuration without Postgres has.
  resolves :
      (c : Config) (r : RedisConfig)
      → c.postgres ≡ none
      → c.redis ≡ some r
      → Ready c
      → resolve_host resolver r.host ≢ []
  resolves c r unset set (inl (p, given)) = cc
  resolves c r unset set (inr (r', unset', set', far)) =
      let same : r' ≡ r = ground arith in
      subst (λ (x : RedisConfig). resolve_host resolver x.host ≢ []) same far

  served-success_iff :
      (path : Bytes) (c : Config)
      → parse_config toml path ≡ ok c
      → (ends (
            serve options toml resolver redis postgres rounds database server c.consumer
              (make_producer c))
          ≡ some success)
        ↔ Ready c
  unfolding serve parse_config
  served-success_iff path c e =
      let chunk = accepted-positive toml path c e in
      let (node, read, filled) = >>=-eq-ok (toml.parse_file path) (fill_config toml) e in
      elim (make_producer-defined toml node c filled) [
        | inl (p, set, made) ↦
            rw made (λ h. inl (p, set), λ h. serve_postgres-success c.consumer p c.producer chunk)
        | inr (r, unset, set, made) ↦ rw made (
          λ h. inr (r, unset, set, (made-success_iff c.consumer r c.producer chunk).0 h),
          λ h. (made-success_iff c.consumer r c.producer chunk).1 (resolves c r unset set h),
        )
      ]

  abbrev pub Accepts : Parsed → Type 0
  Accepts p =
      (path : Bytes) × (c : Config) × (p ≡ goes_on path) × (parse_config toml path ≡ ok c) × Ready c

  configured-success :
      (path : Bytes) (o : Outcome Bytes Config)
      → parse_config toml path ≡ o
      → ends (configured options toml resolver redis postgres rounds database server o)
        ≡ some success
      → (c : Config) × (parse_config toml path ≡ ok c) × Ready c
  unfolding configured
  configured-success path (ok c) e h = (c, e, (served-success_iff path c e).0 h)
  configured-success path (throw x) e h = cc
  configured-success path fault e h = cc

  parsed-success :
      (p : Parsed)
      → ends (parsed options toml resolver redis postgres rounds database server p) ≡ some success
      → Accepts p
  unfolding parsed
  parsed-success (stops shown) h = cc
  parsed-success (goes_on path) h =
      let (c, e, ready) = configured-success path (parse_config toml path) refl h in
      (path, c, refl, e, ready)

  -- Over a server of Redis with a lawful stream and a lawful database of Postgres, whichever of
  -- them the file names, and however often the loop runs, the back returns success exactly where
  -- the command line gives it a path, the file there is accepted, and its storage is Postgres or a
  -- Redis whose host has an address.
  pub main-success_iff :
      (args : List Bytes)
      → (ends (main options toml resolver redis postgres rounds database server args)
          ≡ some success)
        ↔ Accepts (parse_arguments options args)
  unfolding main parsed configured
  main-success_iff args = (
    parsed-success (parse_arguments options args),
    λ (path, c, went_on, e, ready). rw (went_on, e) ((served-success_iff path c e).1 ready),
  )
