-- ===== src/Tests/Through.antt =====
-- A request to a front with JSON and Redis, and a back on the server that it leaves.
use gateway_poc.Base.{◌*◌, ◌^◌, false, ◌≡◌, refl, ap, ◌∙◌, Bool, true, Option, none, some, [], ◌∷◌}
use gateway_poc.Base.Bytes.{Bytes, codes, str_eq}
use gateway_poc.Base.Decimal.{to_string}
use gateway_poc.Common.ResolveHost.{resolve_host}
use gateway_poc.Front.Connections.{find_own}
use gateway_poc.Front.Handler.{WriterError, handle, handle-ok_iff}
use gateway_poc.Front.JsonChecker as JsonChecker
use gateway_poc.Front.JsonChecker.Fields.{check_iff}
use gateway_poc.Front.RedisWriter as Writer
use gateway_poc.Front.Session.{accepted}
use gateway_poc.Front.Session.Answers.{handle_request-accepted_iff}
use gateway_poc.Front.Stored.{through_redis, accepted-IsStored}
use gateway_poc.Back.Consumer.{make_consumer, consume}
use gateway_poc.Back.Message.{Message}
use gateway_poc.Back.Redis.{messages_from_reply, make_xdel_command}
use gateway_poc.Back.RedisProducer as Producer
use gateway_poc.Back.RedisProducer.{make_config}
use gateway_poc.Back.Program.Drained.{chosen-redis}
use gateway_poc.Back.RedisProducer.Marking.{is_error}
use gateway_poc.Hiredis.{xadd}
use gateway_poc.Back.RunLoop.{LoopState, round, run_loop}
use gateway_poc.Back.Program.{served_redis, fresh, main, parsed, configured, serve, serve_redis}
use gateway_poc.Gateway.Streams.{AddsEntries, NewEntry}
use gateway_poc.Back.Storage.Calls.{Grows, Grows-refl}
use gateway_poc.Tests.Common.{redis, back, back_toml, parse_config-back}
use gateway_poc.Tests.Database.{database}
use gateway_poc.Tests.Front.{documents, a_request}
use gateway_poc.Tests.Programs.{line, given, parsed_given, names, no_rows}
use gateway_poc.Tests.Steady.{steady, reply_to, held, entry_with}
use gateway_poc.Tests.Stored.{a_document}

abbrev pub connected : Writer.State steady
connected = record { connections = record { thread_id = 1; connection = 7 } ∷ []; world = none }

write-connected : Writer.write steady redis 1 (codes "x") connected ≡ (
  record { error = WriterError.ok; message = [] },
  record connected { world = some (codes "x") },
)
unfolding Writer.write Writer.write_to Writer.find_connection Writer.sent Writer.send Writer.finish
    Writer.by_err Writer.by_reply find_own
write-connected = refl

pub taken : (through_redis documents steady redis 1 a_request connected).0.status ≡ accepted
taken =
    let write = Writer.write steady redis 1 in
    (handle_request-accepted_iff (handle (JsonChecker.check documents) write) a_request connected).1
      (
        refl,
        refl,
        (handle-ok_iff (JsonChecker.check documents) write (codes "x") connected).1 (
          (check_iff documents (codes "x")).1 (codes "x", refl, a_document),
          ap (λ (r : _ × Writer.State steady). r.0.error) write-connected,
        ),
      )

pub left_behind :
    (through_redis documents steady redis 1 a_request connected).1.world ≡ some (codes "x")
left_behind =
    ap (λ (s : Writer.State steady). s.world)
      ((accepted-IsStored (JsonChecker.check documents) (Writer.write steady redis 1) a_request
          connected taken).state
        ∙ ap (λ (r : _ × Writer.State steady). r.1) write-connected)

added-NewEntry :
    (body : Bytes) (w : Option Bytes)
    → is_error (reply_to (xadd Writer.messages_stream Writer.data_field body) w).0 ≡ false
    → NewEntry steady held body w
        (reply_to (xadd Writer.messages_stream Writer.data_field body) w).1
added-NewEntry body none fine = record {
  entry = entry_with body;
  before = [];
  after = [];
  one_field = refl;
  split = refl;
}
added-NewEntry body (some old) fine = cc

added-Grows :
    (body : Bytes) (w : Option Bytes)
    → Grows held w (reply_to (xadd Writer.messages_stream Writer.data_field body) w).1
added-Grows body none = (entry_with body ∷ [], refl)
added-Grows body (some old) = Grows-refl held (some old)

pub steady-AddsEntries : AddsEntries steady held
steady-AddsEntries = record {
  grows = λ c body w. added-Grows body w;
  added = λ c body w healthy fine. added-NewEntry body w fine;
}

-- The message that the back makes of the request, and what its one round leaves.
abbrev the_message : Message
the_message = record { id = 17 * 2 ^ 22; payload = codes "x" }

abbrev pub ended : LoopState (Producer.State steady)
ended = record {
  storage = record { connection = some 7; world = none };
  consumer = record { chunk_size = 1000; output_folder = codes "out"; buffer = the_message ∷ [] };
  jobs = [];
  pauses = 0;
}

one_round :
    run_loop 1
      (Producer.redis_producer steady (record redis { host = codes "cache" }) 10)
      (fresh (record { connection = none; world = some (codes "x") }) back.consumer)
    ≡ some ended
unfolding run_loop round make_consumer consume Producer.get_next Producer.mark_consumed
    Producer.get_connection Producer.existing Producer.connected Producer.authenticate
    Producer.check_err Producer.check_reply Producer.fetch Producer.read_reply Producer.delete
    messages_from_reply make_xdel_command str_eq to_string
one_round = refl

pub main-ended :
    main line back_toml names steady database 1 no_rows (some (codes "x")) given
    ≡ served_redis ended
unfolding main parsed configured serve serve_redis make_config resolve_host
main-ended =
    let chosen =
      chosen-redis back_toml (codes "gateway.toml") back redis parse_config-back refl refl in
    rw (parsed_given, parse_config-back, chosen, one_round) refl

abbrev pub anywhere : Bytes → Bool
anywhere path = true
