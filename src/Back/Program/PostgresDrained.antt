-- ===== src/Back/Program/PostgresDrained.antt =====
-- The back from its command line to the files, over a database of Postgres that answers.
use gateway_poc.Base.{
  ℕ, ◌<◌, ◌≤◌, ◌≡◌, refl, ap, ◌∙◌, inl, inr, none, some, List, ◌++◌, concat, length, All, arith,
}
use gateway_poc.Base.Bytes.{Bytes}
use gateway_poc.Base.Outcome.{ok, >>=-eq-ok}
use gateway_poc.Common.Arguments.{ProgramOptions, goes_on, parse_arguments}
use gateway_poc.Common.Config.{Toml, PostgresConfig, connection_string}
use gateway_poc.Common.ResolveHost.{Resolver}
use gateway_poc.Hiredis.{Hiredis}
use gateway_poc.Pqxx.{Pqxx}
use gateway_poc.Back.Config.{ConsumerConfig, ProducerConfig, Config, fill_config, parse_config}
use gateway_poc.Back.Message.{Message}
use gateway_poc.Back.Consumer.Disk.{Filled}
use gateway_poc.Back.Main.{make_producer, make_producer-defined}
use gateway_poc.Back.Main as Main
use gateway_poc.Back.PostgresProducer.{State, postgres_producer}
use gateway_poc.Back.PostgresProducer.Database.{IsDatabase, IsAlive, stored}
use gateway_poc.Back.PostgresProducer.Storage.{postgres_producer-IsStorage}
use gateway_poc.Back.PostgresProducer.Storage.Healthy.{postgres_producer-Answers}
use gateway_poc.Back.RunLoop.{LoopState}
use gateway_poc.Back.Program.{
  chunks, Ending, served_postgres, serve_postgres, serve, configured, parsed, main,
}
use gateway_poc.Back.Program.Drained.{producer-positive}
use gateway_poc.Back.Program.Ends.{accepted-positive}
use gateway_poc.Back.Program.Saved.{chunks-Delivered}

pub chosen-postgres :
    (toml : Toml) (path : Bytes) (c : Config) (k : PostgresConfig)
    → parse_config toml path ≡ ok c
    → c.postgres ≡ some k
    → make_producer c ≡ ok (Main.postgres_producer k c.producer)
unfolding parse_config
chosen-postgres toml path c k e set =
    let (node, read, filled) = >>=-eq-ok (toml.parse_file path) (fill_config toml) e in
    elim (make_producer-defined toml node c filled) [
      | inl (k', set', made) ↦
          let same : k' ≡ k = ground arith in
          made ∙ ap (λ (x : PostgresConfig). ok (Main.postgres_producer x c.producer)) same
      | inr (r, unset, set', made) ↦ cc
    ]

module _ (options : ProgramOptions) (toml : Toml) (resolver : Resolver) (redis : Hiredis)
    (postgres : Pqxx) (table : postgres.World → List Message) (law : IsDatabase postgres table)
    (alive : IsAlive postgres table) (rounds : ℕ) (database : postgres.World)
    (server : redis.World) where
  -- The program ends with the state of its loop, and the chunks given to be saved begin with all
  -- the rows of the table, in order.
  abbrev pub DeliversRows : Ending options toml resolver redis postgres → Type 0
  DeliversRows e =
      (s : LoopState (State postgres)) × (later : List Message) × (e ≡ served_postgres s)
      × All Filled (chunks s)
      × (concat (chunks s) ≡ table database ++ later)

  serve_postgres-Delivers :
      (consumer : ConsumerConfig) (c : PostgresConfig) (k : ProducerConfig)
      → 0 < consumer.chunk_size
      → 0 < k.chunk_size
      → length (table database) ≤ rounds
      → DeliversRows
          (serve_postgres options toml resolver redis postgres rounds database server consumer c k)
  unfolding serve_postgres
  serve_postgres-Delivers consumer c k chunk asks enough =
      let text = connection_string c in
      let (s, later, ran, filled, all) =
        chunks-Delivered (postgres_producer postgres text k.chunk_size) consumer chunk
          (stored postgres table) (postgres_producer-IsStorage postgres table law text k.chunk_size)
          (postgres_producer-Answers postgres table law alive text k.chunk_size asks) rounds
          (record { connection = none; world = database }) enough in
      (s, later, rw ran refl, filled, all)

  -- A back whose command line names an accepted file with a Postgres: if its database is lawful and
  -- answers every call, and the loop runs at least as often as there are rows, the program ends,
  -- and the chunks that its threads and its consumer's destructor are given to save are not empty
  -- and hold all rows that the table had at its start, in order, with what came later behind.
  pub main_postgres-Delivered :
      (args : List Bytes) (path : Bytes) (c : Config) (k : PostgresConfig)
      → parse_arguments options args ≡ goes_on path
      → parse_config toml path ≡ ok c
      → c.postgres ≡ some k
      → length (table database) ≤ rounds
      → DeliversRows (main options toml resolver redis postgres rounds database server args)
  unfolding main parsed configured serve
  main_postgres-Delivered args path c k given accepted set enough =
      let chosen = chosen-postgres toml path c k accepted set in
      rw (given, accepted, chosen)
        (serve_postgres-Delivers c.consumer k c.producer (accepted-positive toml path c accepted)
          (producer-positive toml path c accepted) enough)
