-- ===== src/Tests/Front.antt =====
-- The server, its sessions, the checkers and the shared connections.
use gateway_poc.Base.{
  ℕ, ◌+◌, ◌≡◌, ◌↔◌, refl, inr, Bool, true, false, none, some, List, [], ◌∷◌, ◌==◌,
}
use gateway_poc.Base.Bytes.{Bytes, codes}
use gateway_poc.Front.Handler.{
  HandlerError, HandlerResult, CheckResult, WriterError, WriteResult, handle,
}
use gateway_poc.Front.JsonChecker as JsonChecker
use gateway_poc.Front.JsonChecker.{Nlohmann}
use gateway_poc.Front.JsonChecker.Fields.{IsInstrument, check_iff}
use gateway_poc.Front.FlatbuffersChecker as FlatbuffersChecker
use gateway_poc.Front.FlatbuffersChecker.{Generated, StringField, str0}
use gateway_poc.Front.FlatbuffersChecker.Blocks.{HasText, flatbuffers_check_iff}
use gateway_poc.Front.Connections.{find_own, add_own}
use gateway_poc.Front.Connections.Interleaving.{
  Shared, set_waiting, missed, added, Reach, here, step, Inv, connections_of, Reach-connections_of,
}
use gateway_poc.Front.Server.{Server, Arrival, failed, connected, on_accept}
use gateway_poc.Front.Server.Accepting.{
  arrivals, until_failure, sessions_of, added_to, sessions-arrivals,
}
use gateway_poc.Front.Session.{
  post, other_verb, accepted, Request, instrument_path, reading, Session, handle_request, on_read,
}
use gateway_poc.Front.Session.Answers.{handle_request-accepted_iff}
use gateway_poc.Front.Session.Lifetime as Lifetime
use gateway_poc.Front.Session.Lifetime.{Run, received, Run-Inv}

-- A checker that refuses an empty text, and a writer that counts.
abbrev pub check_any : Bytes → CheckResult
check_any [] = record { ok = false; message = codes "empty" }
check_any (c ∷ s) = record { ok = true; message = [] }

abbrev pub count : Bytes → ℕ → WriteResult × ℕ
count bytes n = (record { error = WriterError.ok; message = [] }, n + 1)

-- Documents that have every field, an integer where its name begins with an `i`.
abbrev begins : ℕ → Bytes → Bool
begins c [] = false
begins c (d ∷ s) = c == d

abbrev pub documents : Nlohmann
documents = record {
  Json = Bytes;
  parse = λ bytes. some bytes;
  find = λ json field. some field;
  is_number_integer = λ field. begins b'i' field;
  is_number_float = λ field. begins b'd' field;
  is_string = λ field. begins b's' field;
}

check_iff_example :
    ((JsonChecker.check documents (codes "{}")).ok ≡ true)
    ↔ ((json : Bytes) × (documents.parse (codes "{}") ≡ some json) × IsInstrument documents json)
check_iff_example = check_iff documents (codes "{}")

-- Buffers whose strings are all the buffer.
abbrev pub buffers : Generated
buffers = record {
  Instrument = Bytes;
  verify_instrument_buffer = λ bytes. true;
  get_instrument = λ bytes. bytes;
  string_field = λ instrument field. some instrument;
}

flatbuffers_check_iff_example : ((FlatbuffersChecker.check buffers (codes "x")).ok ≡ true) ↔ (
    (buffers.verify_instrument_buffer (codes "x") ≡ true)
    × ((field : StringField) → HasText buffers (buffers.get_instrument (codes "x")) field))
flatbuffers_check_iff_example = flatbuffers_check_iff buffers (codes "x")

-- Thread 1 has a connection, and thread 2 is given one.
abbrev before : Shared
before = record {
  connections = record { thread_id = 1; connection = 10 } ∷ [];
  waiting = λ thread. false;
}

abbrev between : Shared
between = record {
  connections = record { thread_id = 1; connection = 10 } ∷ [];
  waiting = set_waiting 2 true before.waiting;
}

abbrev after : Shared
after = record {
  connections = add_own 2 20 between.connections;
  waiting = set_waiting 2 false between.waiting;
}

before-Inv : Inv before
unfolding find_own
before-Inv = record { distinct = (refl, tt); absent = λ thread e. cc }

before-after : Reach before after
unfolding find_own
before-after = step (step here (missed 2 refl refl refl)) (added 2 20 refl refl)

owned : find_own 1 before.connections ≡ some 10
unfolding find_own
owned = refl

Reach-connections_of_example :
    (find_own 1 after.connections ≡ some 10) × (connections_of 1 after.connections ≡ 10 ∷ [])
Reach-connections_of_example = Reach-connections_of 1 10 before-Inv before-after owned

abbrev pub a_server : Server
a_server = record {
  config = record { port = 8080; threads = 4; request_timeout = 10 };
  stopping = false;
  acceptor_open = true;
  accepting = true;
  sessions = 0;
  workers = 4;
}

abbrev a_peer : Arrival
a_peer = connected (some (codes "10.0.0.7:4711"))

-- Two connections and a failure, behind which a peer that is gone does no harm any more.
abbrev met : List Arrival
met = a_peer ∷ a_peer ∷ failed ∷ connected none ∷ []

sessions-arrivals_example : sessions_of (arrivals a_server met) ≡ added_to 0 (until_failure met)
sessions-arrivals_example = sessions-arrivals a_server met refl refl

sessions-met : added_to 0 (until_failure met) ≡ some 2
sessions-met = refl

-- Before the failure it ends the process.
terminated_early : arrivals a_server (a_peer ∷ connected none ∷ []) ≡ none
unfolding arrivals on_accept
terminated_early = refl

abbrev pub a_request : Request
a_request = record {
  method = post;
  target = instrument_path;
  version = 11;
  keep_alive = true;
  body = codes "x";
}

abbrev pub a_deletion : Request
a_deletion = record a_request { method = other_verb (codes "DELETE") }

abbrev counter : Bytes → ℕ → HandlerResult × ℕ
counter = handle check_any count

handle_request-accepted_iff_example : ((handle_request counter a_request 4).0.status ≡ accepted) ↔ (
    (a_request.method ≡ post)
    × (a_request.target ≡ instrument_path)
    × ((counter a_request.body 4).0.error ≡ HandlerError.ok))
handle_request-accepted_iff_example = handle_request-accepted_iff counter a_request 4

abbrev a_session : Session counter
a_session = record { pending = reading; response = none; world = 4 }

Run-Inv_example :
    Lifetime.Inv counter 4 (a_request ∷ []) (on_read counter a_session (inr a_request))
Run-Inv_example = Run-Inv counter a_session refl (received a_request Run.here refl refl refl)
