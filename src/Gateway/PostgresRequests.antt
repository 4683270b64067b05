-- ===== src/Gateway/PostgresRequests.antt =====
-- Any number of requests from their clients to the chunks of the back, by way of Postgres.
use mathlib.Core.List.{Sublist}
use gateway_poc.Base.{
  ℕ, ◌≤◌, ◌≡◌, sym, ap, subst, ◌∙◌, Bool, true, some, List, ◌++◌, concat, length, All,
}
use mathlib.Core.List.{append_assoc}
use mathlib.Core.List.{Mem, Perm}
use gateway_poc.Base.Bytes.{Bytes}
use gateway_poc.Base.Outcome.{ok}
use gateway_poc.Common.Arguments.{ProgramOptions, goes_on, parse_arguments}
use gateway_poc.Common.Config.{Toml, PostgresConfig}
use gateway_poc.Common.ResolveHost.{Resolver}
use gateway_poc.Hiredis.{Hiredis}
use gateway_poc.Pqxx.{Pqxx}
use gateway_poc.Front.Handler.{CheckResult}
use gateway_poc.Front.PostgresWriter.{State, write}
use gateway_poc.Front.Requests.{accepted_bodies}
use gateway_poc.Front.Sessions.{Serving, Reach, opening}
use gateway_poc.Back.Config.{Config, parse_config}
use gateway_poc.Back.Message.{Message}
use gateway_poc.Back.Consumer.{Files, run_jobs}
use gateway_poc.Back.Consumer.Disk.{Filled, Increasing}
use gateway_poc.Back.Consumer.FileNames.{Fits}
use gateway_poc.Back.Consumer.Saves.{path_of}
use gateway_poc.Gateway.Chunks.{OnDisk, bodies-OnDisk}
use gateway_poc.Back.PostgresProducer as Producer
use gateway_poc.Back.PostgresProducer.Database.{IsDatabase, IsAlive}
use gateway_poc.Back.RunLoop.{LoopState}
use gateway_poc.Back.Storage.Calls.{Grows}
use gateway_poc.Back.Program.{Ending, chunks, served_postgres, main}
use gateway_poc.Back.Program.PostgresDrained.{main_postgres-Delivered}
use gateway_poc.Gateway.Requests.{payloads, Reach-Sublist, Sublist-left}
use gateway_poc.Gateway.Tables.{AddsRows, rows_in, postgres-Writes}

served_postgres-injective :
    (options : ProgramOptions) (toml : Toml) (resolver : Resolver) (redis : Hiredis)
    (postgres : Pqxx) (s s' : LoopState (Producer.State postgres))
    → ◌≡◌ {A = Ending options toml resolver redis postgres} (served_postgres s) (served_postgres s')
    → s ≡ s'
served_postgres-injective options toml resolver redis postgres s s' e = cc

module _ (check : Bytes → CheckResult) (postgres : Pqxx) (table : postgres.World → List Message)
    (law : IsDatabase postgres table) (adds : AddsRows postgres table)
    (alive : IsAlive postgres table) (connection_string : Bytes) (s : State postgres)
    (t : Serving check (λ thread. write postgres connection_string thread))
    (reached : Reach check
      (λ thread. write postgres connection_string thread)
      (opening check (λ thread. write postgres connection_string thread) s)
      t)
    (database : postgres.World) (between : Grows table t.world.world database)
    (options : ProgramOptions) (toml : Toml) (resolver : Resolver) (redis : Hiredis) (rounds : ℕ)
    (server : redis.World) (args : List Bytes) (path : Bytes) (c : Config) (k : PostgresConfig)
    (named : parse_arguments options args ≡ goes_on path) (read : parse_config toml path ≡ ok c)
    (set : c.postgres ≡ some k) (enough : length (table database) ≤ rounds) where
  -- A front with any checker and Postgres has any number of sessions, whose handlers run one at a
  -- time, in any order and in any threads. A back is started over the database as the front left
  -- it, or with rows that others have added behind, by a command line that names an accepted file
  -- with a Postgres. On a database that is lawful and answers every call, and may refuse rows, the
  -- back ends once it has looped as often as there are rows, and the bodies of all requests that
  -- were answered with accepted stand in the chunks given to be saved, which are not empty, in the
  -- order in which they were handled and each at least as often as it was accepted.
  pub postgres_requests-Delivered :
      (s' : LoopState (Producer.State postgres)) × (main options toml resolver redis postgres rounds
          database server args
        ≡ served_postgres s')
      × All Filled (chunks s')
      × Sublist
          (accepted_bodies check (λ thread. write postgres connection_string thread) t.served s)
          (payloads (concat (chunks s')))
  postgres_requests-Delivered =
      let writer = postgres-Writes postgres table law adds connection_string in
      let (news, grown, inside) =
        Reach-Sublist check (λ thread. write postgres connection_string thread)
          (rows_in postgres table) writer s reached in
      let (more, later) = between in
      let (s', others, ends, filled, all) =
        main_postgres-Delivered options toml resolver redis postgres table law alive rounds database
          server args path c k named read set enough in
      (
        s',
        ends,
        filled,
        Sublist-left _ (concat (chunks s')) (table s.world) news (more ++ others)
            (all
              ∙ ap (λ (x : List Message). x ++ others) later
              ∙ append_assoc _ more others
              ∙ ap (λ (x : List Message). x ++ (more ++ others)) grown)
            inside,
      )

  module _ (s' : LoopState (Producer.State postgres))
      (ends : main options toml resolver redis postgres rounds database server args
        ≡ served_postgres s')
      (rising : Increasing (concat (chunks s'))) (fit : All (λ chunk. All Fits chunk) (chunks s'))
      (opens : Bytes → Bool) (files : Files) (order : List (List Message))
      (shuffled : Perm (chunks s') order)
      (writable : (chunk : List Message)
        → Mem chunk (chunks s')
        → opens (path_of c.consumer.output_folder chunk) ≡ true)
      (body : Bytes)
      (was_accepted : Mem body (
        accepted_bodies check (λ thread. write postgres connection_string thread) t.served s)) where
    -- From the clients to the disk: over a lawful database of Postgres that answers every call, and
    -- may refuse rows, a front with any checker has had any number of sessions, whose handlers ran
    -- one at a time, in any order and in any threads. A back was started over the database as the
    -- front left it, or with rows that others have added behind, by a command line that names an
    -- accepted file with a Postgres, and has looped as often as there are rows. Where the ids of
    -- all that it has taken rise and fit in 64 bits and the file of each chunk can be opened, then
    -- in whatever order the chunks are saved, the body of every request that was answered with
    -- accepted stands in a file of the output folder, with a line feed behind it.
    pub postgres_requests-saved :
        ∥ OnDisk body c.consumer.output_folder
          (run_jobs opens c.consumer.output_folder order files) ∥₁
    postgres_requests-saved =
        let (u, ends', filled, inside) = postgres_requests-Delivered in
        let same =
          served_postgres-injective options toml resolver redis postgres u s' (sym ends' ∙ ends) in
        bodies-OnDisk
          (accepted_bodies check (λ thread. write postgres connection_string thread) t.served s)
          body c.consumer.output_folder opens (chunks s') order files
          (subst
            (λ (x : LoopState (Producer.State postgres)).
              Sublist
                (accepted_bodies check (λ thread. write postgres connection_string thread) t.served
                  s)
                (payloads (concat (chunks x))))
            same inside)
          was_accepted rising
          (subst (λ (x : LoopState (Producer.State postgres)). All Filled (chunks x)) same filled)
          fit shuffled writable
