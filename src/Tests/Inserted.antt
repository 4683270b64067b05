-- ===== src/Tests/Inserted.antt =====
-- Requests to a front with flatbuffers and Postgres, and the back on the database that the front
-- leaves.
use mathlib.Core.List.Perm
use mathlib.Core.List.{append-nil, Sublist, Mem, mem-cons_self}
use gateway_poc.Base.{
  ℕ, ◌+◌, ◌%◌, ◌^◌, length, ◌≡◌, refl, sym, ap, ◌∙◌, Bool, true, none, some, [], ◌∷◌, concat, All,
  arith,
}
use gateway_poc.Base.Bytes.{Bytes, codes, str_eq}
use gateway_poc.Base.Decimal.{read_digits, to_string}
use gateway_poc.Common.Config.{connection_string}
use gateway_poc.Front.Connections.{find_own}
use gateway_poc.Front.FlatbuffersChecker as FlatbuffersChecker
use gateway_poc.Front.FlatbuffersChecker.Blocks.{flatbuffers_check_iff}
use gateway_poc.Front.Handler.{CheckResult, WriterError, WriteResult, handle, handle-ok_iff}
use gateway_poc.Front.PostgresWriter as Writer
use gateway_poc.Front.Session.{accepted}
use gateway_poc.Front.Session.Answers.{handle_request-accepted_iff}
use gateway_poc.Front.Stored.{through_postgres, accepted-IsStored}
use gateway_poc.Back.Consumer.{make_consumer, consume, run_jobs}
use gateway_poc.Back.Consumer.Disk.{Filled}
use gateway_poc.Back.Message.{Message}
use gateway_poc.Back.PostgresProducer as Producer
use gateway_poc.Back.PostgresProducer.Query.{listing}
use gateway_poc.Tests.Deletion.{read_ids}
use gateway_poc.Back.RunLoop.{LoopState, round, run_loop}
use gateway_poc.Back.Program.{
  served_postgres, chunks, fresh, main, parsed, configured, serve, serve_postgres,
}
use gateway_poc.Back.Program.PostgresDrained.{chosen-postgres}
use gateway_poc.Gateway.Chunks.{OnDisk}
use gateway_poc.Back.Storage.Calls.{Grows-refl}
use gateway_poc.Gateway.PostgresRequests.{postgres_requests-Delivered, postgres_requests-saved}
use gateway_poc.Gateway.Requests.{payloads}
use gateway_poc.Front.Requests.{serve_all, accepted_bodies}
use gateway_poc.Front.Sessions.{Serving, Reach, here, opening, Reach-Serialized}
use gateway_poc.Tests.Sessions.{visit, visit-Reach}
use gateway_poc.Gateway.Tables.{AddsRows}
use gateway_poc.Tests.Common.{postgres, rows_toml, rows_back, parse_config-rows_back}
use gateway_poc.Tests.Database.{
  Rows, database, rows_in, run_insert, keep, database-IsDatabase, database-IsAlive,
}
use gateway_poc.Tests.Front.{buffers, a_request, a_deletion}
use gateway_poc.Tests.Programs.{line, given, parsed_given, names, no_rows}
use gateway_poc.Tests.Steady.{steady}

abbrev pub text : Bytes
text = connection_string postgres

abbrev pub connected : Writer.State database
connected = record { connections = record { thread_id = 1; connection = 3 } ∷ []; world = no_rows }

abbrev one_row : Rows
one_row = keep (run_insert (codes "x") no_rows)

write-connected :
    Writer.write database text 1 (codes "x") connected
    ≡ (record { error = WriterError.ok; message = [] }, record connected { world = one_row })
unfolding Writer.write Writer.write_loop Writer.outcome Writer.attempt Writer.find_connection
    Writer.found Writer.transaction find_own
write-connected = refl

taken : (through_postgres buffers database text 1 a_request connected).0.status ≡ accepted
taken =
    let write = Writer.write database text 1 in
    (handle_request-accepted_iff (handle (FlatbuffersChecker.check buffers) write) a_request
        connected).1
      (
        refl,
        refl,
        (handle-ok_iff (FlatbuffersChecker.check buffers) write (codes "x") connected).1 (
          (flatbuffers_check_iff buffers (codes "x")).1 (refl, λ field. (b'x', [], refl)),
          ap (λ (r : _ × Writer.State database). r.0.error) write-connected,
        ),
      )

left_behind : (through_postgres buffers database text 1 a_request connected).1.world ≡ one_row
left_behind =
    ap (λ (s : Writer.State database). s.world)
      ((accepted-IsStored (FlatbuffersChecker.check buffers) (Writer.write database text 1)
          a_request connected taken).state
        ∙ ap (λ (r : _ × Writer.State database). r.1) write-connected)

pub database-AddsRows : AddsRows database rows_in
database-AddsRows = record {
  insert_grows = λ c body w. ([], sym (append-nil w.rows));
  commit_grows =
      λ c body w. (record { id = (length w.rows + 1) % 2 ^ 64; payload = body } ∷ [], refl);
  added = λ c body w run kept. record {
    message = record { id = (length w.rows + 1) % 2 ^ 64; payload = body };
    before = [];
    after = [];
    carries = refl;
    split = refl;
  };
}

abbrev the_message : Message
the_message = record { id = 1; payload = codes "x" }

abbrev ended : LoopState (Producer.State database)
ended = record {
  storage = record { connection = some 3; world = no_rows };
  consumer = record { chunk_size = 1000; output_folder = codes "out"; buffer = the_message ∷ [] };
  jobs = [];
  pauses = 0;
}

one_round :
    run_loop 1
      (Producer.postgres_producer database text 10)
      (fresh (record { connection = none; world = one_row }) rows_back.consumer)
    ≡ some ended
unfolding run_loop round make_consumer consume Producer.get_next Producer.mark_consumed
    Producer.get_connection Producer.existing Producer.select Producer.messages_from_rows
    Producer.delete Producer.delete_query Producer.id_list listing str_eq read_ids read_digits
    to_string
one_round = refl

main-ended : main line rows_toml names steady database 1 one_row none given ≡ served_postgres ended
unfolding main parsed configured serve serve_postgres
main-ended =
    let chosen =
      chosen-postgres rows_toml (codes "gateway.toml") rows_back postgres parse_config-rows_back
        refl in
    rw (parsed_given, parse_config-rows_back, chosen, one_round) refl

abbrev anywhere : Bytes → Bool
anywhere path = true

abbrev writes : ℕ → Bytes → Writer.State database → WriteResult × Writer.State database
writes thread = Writer.write database text thread

abbrev check : Bytes → CheckResult
check = FlatbuffersChecker.check buffers

-- The same request in two sessions, and one that is no POST.
abbrev three_visits : Serving check writes
three_visits = visit check writes 1 a_deletion (
    visit check writes 2 a_request
      (visit check writes 1 a_request (opening check writes connected)))

reached : Reach check writes (opening check writes connected) three_visits
reached =
    visit-Reach check writes _ 1 a_deletion
      (visit-Reach check writes _ 2 a_request (visit-Reach check writes _ 1 a_request here))

abbrev left_over : Rows
left_over = three_visits.world.world

postgres_requests-Delivered_example :
    (s' : LoopState (Producer.State database)) × (main line rows_toml names steady database
        (length left_over.rows)
        left_over
        none
        given
      ≡ served_postgres s')
    × All Filled (chunks s')
    × Sublist
        (accepted_bodies check writes three_visits.served connected)
        (payloads (concat (chunks s')))
postgres_requests-Delivered_example =
    postgres_requests-Delivered check database rows_in database-IsDatabase database-AddsRows
      database-IsAlive text connected three_visits reached left_over (Grows-refl rows_in left_over)
      line rows_toml names steady (length left_over.rows) none given (codes "gateway.toml")
      rows_back postgres parsed_given parse_config-rows_back refl (omega arith)

-- The first of these alone.
abbrev one_visit : Serving check writes
one_visit = visit check writes 1 a_request (opening check writes connected)

one_visit-Reach : Reach check writes (opening check writes connected) one_visit
one_visit-Reach = visit-Reach check writes _ 1 a_request here

one_visit-world : one_visit.world.world ≡ one_row
unfolding serve_all
one_visit-world =
    ap (λ (s : Writer.State database). s.world)
      (Reach-Serialized check writes connected one_visit-Reach).handled
    ∙ left_behind

in_accepted : Mem a_request.body (accepted_bodies check writes one_visit.served connected)
unfolding accepted_bodies
in_accepted = rw taken mem-cons_self

postgres_requests-saved_example :
    ∥ OnDisk a_request.body (codes "out") (run_jobs anywhere (codes "out") (chunks ended) []) ∥₁
postgres_requests-saved_example =
    postgres_requests-saved check database rows_in database-IsDatabase database-AddsRows
      database-IsAlive text connected one_visit one_visit-Reach one_row
      ([], ap rows_in (sym one_visit-world) ∙ sym (append-nil _)) line rows_toml names steady 1 none
      given (codes "gateway.toml") rows_back postgres parsed_given parse_config-rows_back refl
      (omega arith) ended main-ended tt ((omega arith, tt), tt) anywhere [] (chunks ended)
      (Perm.refl (chunks ended)) (λ c m. refl) a_request.body in_accepted
