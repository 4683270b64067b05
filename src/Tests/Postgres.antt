-- ===== src/Tests/Postgres.antt =====
-- The producer of Postgres, over a database of two rows.
use gateway_poc.Base.{ℕ, ◌+◌, ◌≡◌, ◌≢◌, refl, none, some, [], ◌∷◌}
use gateway_poc.Base.Bytes.{codes}
use gateway_poc.Base.Decimal.{to_string}
use gateway_poc.Base.Outcome.{ok}
use gateway_poc.Pqxx.{Pqxx, returned}
use gateway_poc.Back.Message.{Message}
use gateway_poc.Back.PostgresProducer.Marking.{Deleted, mark_consumed-Deleted}
use gateway_poc.Back.PostgresProducer.{
  State, messages_from_rows, id_list, delete_query, existing, get_connection, select, get_next,
  delete, mark_consumed,
}

-- The world counts the calls.
abbrev database : Pqxx
database = record {
  World = ℕ;
  connect = λ text w. (returned 3, w + 1);
  begin = λ c w. (returned tt, w + 1);
  exec_binary = λ c query bytes w. (returned tt, w + 1);
  exec_number = λ c query n w. (returned ((5, codes "a") ∷ (6, codes "b") ∷ []), w + 1);
  exec = λ c query w. (returned tt, w + 1);
  commit = λ c w. (returned tt, w + 1);
  finish = λ c w. w + 1;
}

abbrev first : Message
first = record { id = 5; payload = codes "a" }

abbrev second : Message
second = record { id = 6; payload = codes "b" }

abbrev start : State database
start = record { connection = none; world = 0 }

get_next-start :
    get_next database (codes "host=db") 10 start
    ≡ (ok (first ∷ second ∷ []), record { connection = some 3; world = 4 })
unfolding get_next get_connection existing select messages_from_rows
get_next-start = refl

delete_query-two :
    delete_query (first ∷ second ∷ []) ≡ ok (codes "DELETE FROM messages WHERE id IN (5,6)")
unfolding delete_query id_list to_string
delete_query-two = refl

mark_consumed-start :
    (mark_consumed database (codes "host=db") 10 (first ∷ second ∷ []) start).0 ≡ ok tt
unfolding mark_consumed get_connection existing delete delete_query
mark_consumed-start = refl

mark_consumed-Deleted_example :
    (first ∷ second ∷ [] ≢ [])
    × Deleted database
        (5 ∷ 6 ∷ [])
        (mark_consumed database (codes "host=db") 10 (first ∷ second ∷ []) start).1.world
mark_consumed-Deleted_example =
    mark_consumed-Deleted database (codes "host=db") 10 (first ∷ second ∷ []) start
      mark_consumed-start
