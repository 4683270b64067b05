-- ===== src/Gateway/RedisRequests.antt =====
-- Any number of requests from their clients to the chunks of the back, by way of Redis.
use mathlib.Core.List.{append_assoc, map-append, Sublist}
use gateway_poc.Base.{
  ℕ, ◌≤◌, ◌≡◌, ◌≢◌, sym, ap, subst, ◌∙◌, Bool, true, none, some, List, [], ◌∷◌, ◌++◌, concat,
  length, map, All,
}
use mathlib.Core.List.{Mem, Perm}
use gateway_poc.Base.Bytes.{Bytes}
use gateway_poc.Base.Outcome.{ok}
use gateway_poc.Common.Arguments.{ProgramOptions, goes_on, parse_arguments}
use gateway_poc.Common.Config.{Toml, RedisConfig}
use gateway_poc.Common.ResolveHost.{Resolver, resolve_host}
use gateway_poc.Hiredis.{Hiredis, xadd}
use gateway_poc.Pqxx.{Pqxx}
use gateway_poc.Front.Handler.{CheckResult}
use gateway_poc.Front.RedisWriter.{State, write}
use gateway_poc.Back.Redis.{messages_stream, data_field}
use gateway_poc.Front.RedisWriter.Steps.{IsKept, TookAfter, write-Wrote}
use gateway_poc.Front.Requests.{accepted_bodies}
use gateway_poc.Front.Sessions.{Serving, Reach, opening}
use gateway_poc.Back.Config.{Config, parse_config}
use gateway_poc.Back.Message.{Message}
use gateway_poc.Back.Consumer.{Files, run_jobs}
use gateway_poc.Back.Consumer.Disk.{Filled, Increasing}
use gateway_poc.Back.Consumer.FileNames.{Fits}
use gateway_poc.Back.Consumer.Saves.{path_of}
use gateway_poc.Gateway.Chunks.{OnDisk, bodies-OnDisk}
use gateway_poc.Back.Redis.Stream.{StreamEntry, to_message}
use gateway_poc.Back.RedisProducer as Producer
use gateway_poc.Back.RedisProducer.Server.{IsStream, IsHealthy}
use gateway_poc.Back.RunLoop.{LoopState}
use gateway_poc.Back.Storage.Calls.{Grows, Grows-refl, Grows-trans}
use gateway_poc.Back.Program.{Ending, chunks, served_redis, main}
use gateway_poc.Back.Program.Drained.{main-Delivered}
use gateway_poc.Gateway.Streams.{NewEntry, AddsEntries, later-NewEntry, same_error, carried}
use gateway_poc.Gateway.Requests.{payloads, Appended, Writes, Reach-Sublist, Sublist-left}

-- The messages that the back reads in the stream.
abbrev pub read_in : (lib : Hiredis) → (lib.World → List StreamEntry) → State lib → List Message
read_in lib stream s = map to_message (stream s.world)

module _ (lib : Hiredis) (stream : lib.World → List StreamEntry)
    (Gone : List StreamEntry → lib.World → Type 0) (law : IsStream lib stream Gone)
    (adds : AddsEntries lib stream) (config : RedisConfig) where
  stream-IsKept : IsKept lib (Grows stream)
  stream-IsKept = record {
    at_once = Grows-refl stream;
    through = Grows-trans stream;
    connects = λ host port w. (law.connect_safe host port w).0;
    reconnects = λ c w. (law.reconnect_safe c w).0;
    frees = λ c w. (law.free_safe c w).0;
    signs_in = λ c user password w. (law.auth_safe c user password w).0;
    adds = adds.grows;
  }

  took-NewEntry :
      (thread : ℕ) (body : Bytes) (w w' : lib.World)
      → TookAfter lib (Grows stream) stream-IsKept config thread body w w'
      → NewEntry lib stream body w w'
  took-NewEntry thread body w w' t =
      let asked = lib.command t.connection (xadd messages_stream data_field body) t.before in
      later-NewEntry lib stream body w t.before w' t.reached (
        subst (NewEntry lib stream body t.before) t.after (
          adds.added t.connection body t.before
            (ap (λ (u : lib.World). lib.err u t.connection) t.after ∙ t.healthy)
            (sym (same_error lib config thread body asked.0) ∙ t.no_error)))

  mapped : (s s' : State lib) → Grows stream s.world s'.world → Grows (read_in lib stream) s s'
  mapped s s' (more, grown) = (
    map to_message more,
    ap (λ (es : List StreamEntry). map to_message es) grown
        ∙ map-append to_message (stream s.world) more,
  )

  new-Appended :
      (body : Bytes) (s s' : State lib)
      → NewEntry lib stream body s.world s'.world
      → Appended (read_in lib stream) body s s'
  new-Appended body s s' n = record {
    message = to_message n.entry;
    before = map to_message n.before;
    after = map to_message n.after;
    carries = carried n.entry body n.one_field;
    split =
        ap (λ (es : List StreamEntry). map to_message es) n.split
        ∙ map-append to_message (stream s.world) (n.before ++ (n.entry ∷ n.after))
        ∙ ap (◌++◌ (map to_message (stream s.world)))
            (map-append to_message n.before (n.entry ∷ n.after));
  }

  -- The writer of Redis removes nothing, and stores what it reports as written.
  pub redis-Writes : Writes (read_in lib stream) (λ thread. write lib config thread)
  redis-Writes = record {
    keeps = λ thread body s.
        mapped s (write lib config thread body s).1
          (write-Wrote lib (Grows stream) stream-IsKept config thread body s).kept;
    adds = λ thread body s e. new-Appended body s (write lib config thread body s).1 (
        took-NewEntry thread body s.world _
          ((write-Wrote lib (Grows stream) stream-IsKept config thread body s).took e));
  }

served_redis-injective :
    (options : ProgramOptions) (toml : Toml) (resolver : Resolver) (redis : Hiredis)
    (postgres : Pqxx) (s s' : LoopState (Producer.State redis))
    → ◌≡◌ {A = Ending options toml resolver redis postgres} (served_redis s) (served_redis s')
    → s ≡ s'
served_redis-injective options toml resolver redis postgres s s' e = cc

module _ (check : Bytes → CheckResult) (redis : Hiredis) (stream : redis.World → List StreamEntry)
    (Gone : List StreamEntry → redis.World → Type 0) (law : IsStream redis stream Gone)
    (adds : AddsEntries redis stream) (healthy : IsHealthy redis stream) (front : RedisConfig)
    (s : State redis) (t : Serving check (λ thread. write redis front thread))
    (reached : Reach check
      (λ thread. write redis front thread)
      (opening check (λ thread. write redis front thread) s)
      t)
    (server : redis.World) (between : Grows stream t.world.world server) (options : ProgramOptions)
    (toml : Toml) (resolver : Resolver) (postgres : Pqxx) (rounds : ℕ) (database : postgres.World)
    (args : List Bytes) (path : Bytes) (c : Config) (r : RedisConfig)
    (named : parse_arguments options args ≡ goes_on path) (read : parse_config toml path ≡ ok c)
    (unset : c.postgres ≡ none) (set : c.redis ≡ some r) (far : resolve_host resolver r.host ≢ [])
    (enough : length (map to_message (stream server)) ≤ rounds) where
  -- A front with any checker and Redis has any number of sessions, whose handlers run one at a
  -- time, in any order and in any threads. A back is started over the server as the front left it,
  -- or with entries that others have added behind, by a command line that names an accepted file
  -- with a Redis alone at a host with an address. On a server that is lawful and answers every
  -- command, and may refuse entries, the back ends once it has looped as often as there are
  -- entries, and the bodies of all requests that were answered with accepted stand in the chunks
  -- given to be saved, which are not empty, in the order in which they were handled and each at
  -- least as often as it was accepted.
  pub redis_requests-Delivered :
      (s' : LoopState (Producer.State redis)) × (main options toml resolver redis postgres rounds
          database server args
        ≡ served_redis s')
      × All Filled (chunks s')
      × Sublist
          (accepted_bodies check (λ thread. write redis front thread) t.served s)
          (payloads (concat (chunks s')))
  redis_requests-Delivered =
      let writer = redis-Writes redis stream Gone law adds front in
      let (news, grown, inside) =
        Reach-Sublist check (λ thread. write redis front thread) (read_in redis stream) writer s
          reached in
      let (more, later) = between in
      let (s', others, ends, filled, all) =
        main-Delivered options toml resolver redis postgres stream Gone law healthy rounds database
          server args path c r named read unset set far enough in
      (
        s',
        ends,
        filled,
        Sublist-left _ (concat (chunks s')) (map to_message (stream s.world)) news
            (map to_message more ++ others)
            (all
              ∙ ap (λ (es : List StreamEntry). map to_message es ++ others) later
              ∙ ap (λ (x : List Message). x ++ others) (map-append to_message _ more)
              ∙ append_assoc _ (map to_message more) others
              ∙ ap (λ (x : List Message). x ++ (map to_message more ++ others)) grown)
            inside,
      )

  module _ (s' : LoopState (Producer.State redis))
      (ends : main options toml resolver redis postgres rounds database server args
        ≡ served_redis s')
      (rising : Increasing (concat (chunks s'))) (fit : All (λ chunk. All Fits chunk) (chunks s'))
      (opens : Bytes → Bool) (files : Files) (order : List (List Message))
      (shuffled : Perm (chunks s') order)
      (writable : (chunk : List Message)
        → Mem chunk (chunks s')
        → opens (path_of c.consumer.output_folder chunk) ≡ true)
      (body : Bytes)
      (was_accepted : Mem body
        (accepted_bodies check (λ thread. write redis front thread) t.served s)) where
    -- From the clients to the disk: over a lawful server of Redis that answers every command, and
    -- may refuse entries, a front with any checker has had any number of sessions, whose handlers
    -- ran one at a time, in any order and in any threads. A back was started over the server as the
    -- front left it, or with entries that others have added behind, by a command line that names an
    -- accepted file with a Redis alone at a host with an address, and has looped as often as there
    -- are entries. Where the ids of all that it has taken rise and fit in 64 bits and the file of
    -- each chunk can be opened, then in whatever order the chunks are saved, the body of every
    -- request that was answered with accepted stands in a file of the output folder, with a line
    -- feed behind it.
    pub redis_requests-saved :
        ∥ OnDisk body c.consumer.output_folder
          (run_jobs opens c.consumer.output_folder order files) ∥₁
    redis_requests-saved =
        let (u, ends', filled, inside) = redis_requests-Delivered in
        let same =
          served_redis-injective options toml resolver redis postgres u s' (sym ends' ∙ ends) in
        bodies-OnDisk (accepted_bodies check (λ thread. write redis front thread) t.served s) body
          c.consumer.output_folder opens (chunks s') order files
          (subst
            (λ (x : LoopState (Producer.State redis)).
              Sublist (accepted_bodies check (λ thread. write redis front thread) t.served s)
                (payloads (concat (chunks x))))
            same inside)
          was_accepted rising
          (subst (λ (x : LoopState (Producer.State redis)). All Filled (chunks x)) same filled) fit
          shuffled writable
