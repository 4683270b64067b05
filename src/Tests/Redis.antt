-- ===== src/Tests/Redis.antt =====
-- The producer of Redis, over a server whose stream has two entries.
use gateway_poc.Base.{
  ℕ, ◌+◌, ◌*◌, ◌^◌, ◌≡◌, refl, true, none, some, List, [], ◌∷◌, ◌++◌, map, All, ap, arith,
}
use gateway_poc.Base.Bytes.{codes}
use gateway_poc.Base.Outcome.{Outcome, ok, throw}
use gateway_poc.Common.Config.{RedisConfig}
use gateway_poc.Hiredis.{
  Hiredis, Reply, str, array, error, other, Command, auth, xadd, xrange, text, redis_ok,
}
use gateway_poc.Back.Message.{Message}
use gateway_poc.Back.Redis.{
  ReplyError, message_id, entry_of_id, messages_from_reply, make_xdel_command,
}
use gateway_poc.Back.Redis.Names.{entry_name, entry_of_id-message_id, message_id_alias}
use gateway_poc.Back.Redis.Stream.{
  StreamEntry, InRange, entries_reply, names, to_message, messages_from_reply-stream,
  make_xdel_command-stream,
}
use gateway_poc.Back.RedisProducer.{
  from_reply, authentication_failed, State, authenticate, connected, existing, get_connection,
  fetch, get_next, delete, mark_consumed, check_err, check_reply, read_reply,
}
use gateway_poc.Back.RedisProducer.Connection.{get_connection_unauthenticated}

abbrev first_entry : StreamEntry
first_entry = record {
  time = 1700000000000;
  sequence = 0;
  fields = (codes "data", codes "{}") ∷ [];
}

abbrev second_entry : StreamEntry
second_entry = record {
  time = 1700000000000;
  sequence = 1;
  fields = (codes "note", codes "n") ∷ (codes "data", codes "[]") ∷ [];
}

abbrev entries : List StreamEntry
entries = first_entry ∷ second_entry ∷ []

entries-InRange : All InRange entries
entries-InRange = ((omega arith, omega arith), ((omega arith, omega arith), tt))

messages_from_reply-stream_example :
    messages_from_reply (array (entries_reply entries)) ≡ ok (map to_message entries)
messages_from_reply-stream_example = messages_from_reply-stream entries entries-InRange

make_xdel_command-stream_example :
    make_xdel_command (map to_message entries) ≡ codes "XDEL messages" ++ names entries
make_xdel_command-stream_example = make_xdel_command-stream entries entries-InRange

entry_of_id-message_id_example :
    entry_of_id (message_id (entry_name 1700000000000 5)) ≡ entry_name 1700000000000 5
entry_of_id-message_id_example = entry_of_id-message_id 1700000000000 5 (omega arith) (omega arith)

message_id_alias_example :
    (message_id (entry_name (2 * 850000000000) (2 ^ 22 + 7))
      ≡ message_id (entry_name (2 * 850000000000 + 1) 7))
    × (entry_of_id (message_id (entry_name (2 * 850000000000) (2 ^ 22 + 7)))
        ≡ entry_name (2 * 850000000000 + 1) 7)
message_id_alias_example = message_id_alias 850000000000 7 (omega arith) (omega arith)

-- A server by what it answers.
abbrev pub server : (Command → Reply) → Hiredis
server answer = record {
  World = ℕ;
  connect = λ host port w. (some 7, w + 1);
  reconnect = λ c w. (true, w + 1);
  command = λ c cmd w. (some (answer cmd), w + 1);
  free = λ c w. w;
  err = λ w c. redis_ok;
  errstr = λ w c. [];
}

abbrev pub willing : Command → Reply
willing (auth user password) = other 5
willing (xadd stream field bytes) = str (codes "1-0")
willing (xrange stream count) = array (entries_reply entries)
willing (text command) = other 3

abbrev pub refusing : Command → Reply
refusing (auth user password) = error (codes "WRONGPASS")
refusing (xadd stream field bytes) = error (codes "NOAUTH")
refusing (xrange stream count) = error (codes "NOAUTH")
refusing (text command) = error (codes "NOAUTH")

abbrev pub redis : RedisConfig
redis = record { host = codes "127.0.0.1"; port = 6379; user = codes "u"; password = codes "p" }

abbrev unused : (lib : Hiredis) → lib.World → State lib
unused lib w = record { connection = none; world = w }

get_connection_unauthenticated_example :
    let t : State (server refusing) = record { connection = some 7; world = 2 } in
    (get_connection (server refusing) redis 10 (unused (server refusing) 0)
      ≡ (throw (authentication_failed (codes "WRONGPASS")), t))
    × (get_connection (server refusing) redis 10 t ≡ (ok 7, t))
get_connection_unauthenticated_example =
    get_connection_unauthenticated (server refusing) redis 10 (unused (server refusing) 0) 7
      (codes "WRONGPASS") 1 2 refl refl refl refl refl

-- The connection is there from the second call on.
abbrev used : (lib : Hiredis) → lib.World → State lib
used lib w = record { connection = some 7; world = w }

get_next-entries :
    (get_next (server willing) redis 10 (unused (server willing) 0)).0 ≡ ok (map to_message entries)
unfolding get_next get_connection existing connected authenticate fetch check_err check_reply
    read_reply
get_next-entries =
    ap (λ (r : Outcome ReplyError (List Message)). from_reply r)
      (messages_from_reply-stream entries entries-InRange)

mark_consumed-entries :
    (mark_consumed (server willing) redis 10 (map to_message entries) (used (server willing) 3)).0
    ≡ ok tt
unfolding mark_consumed get_connection existing delete check_err check_reply
mark_consumed-entries = refl
