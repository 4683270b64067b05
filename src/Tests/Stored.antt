-- ===== src/Tests/Stored.antt =====
-- Requests that are accepted, from the session down to the storage.
use gateway_poc.Base.{◌≡◌, refl, ap, true, some, [], ◌++◌}
use gateway_poc.Base.Bytes.{Bytes, codes}
use gateway_poc.Base.Decimal.{to_string}
use gateway_poc.Front.Handler.{WriteResult, handle, handle-ok_iff}
use gateway_poc.Front.JsonChecker as JsonChecker
use gateway_poc.Front.JsonChecker.Fields.{IsInstrument, check_iff}
use gateway_poc.Front.FlatbuffersChecker as FlatbuffersChecker
use gateway_poc.Front.FlatbuffersChecker.{StringField}
use gateway_poc.Front.FlatbuffersChecker.Blocks.{HasText, flatbuffers_check_iff}
use gateway_poc.Front.PostgresWriter as PostgresWriter
use gateway_poc.Front.PostgresWriter.Steps.{Inserted}
use gateway_poc.Front.RedisWriter as RedisWriter
use gateway_poc.Front.RedisWriter.Accepted.{Took}
use gateway_poc.Front.Session.{accepted}
use gateway_poc.Front.Session.Answers.{handle_request-accepted_iff}
use gateway_poc.Front.Stored.{
  through_redis, json_redis-stored, through_postgres, flatbuffers_postgres-stored,
}
use gateway_poc.Tests.Front.{documents, buffers, a_request}
use gateway_poc.Tests.Redis.{redis}
use gateway_poc.Tests.Writers.{cache, idle, write-idle, database, unused, write-unused}

pub a_document : IsInstrument documents (codes "x")
a_document = record {
  ints = λ k h. (codes "int" ++ to_string k, refl, refl);
  doubles = λ k h. (codes "double" ++ to_string k, refl, refl);
  strs = λ k h. (codes "str" ++ to_string k, refl, refl);
}

json-accepted : (through_redis documents cache redis 1 a_request idle).0.status ≡ accepted
json-accepted =
    let write = RedisWriter.write cache redis 1 in
    (handle_request-accepted_iff (handle (JsonChecker.check documents) write) a_request idle).1 (
      refl,
      refl,
      (handle-ok_iff (JsonChecker.check documents) write (codes "x") idle).1
          ((check_iff documents (codes "x")).1 (codes "x", refl, a_document), write-idle),
    )

json_redis-stored_example :
    ((document : Bytes) × (documents.parse a_request.body ≡ some document)
      × IsInstrument documents document)
    × Took cache redis 1 a_request.body (through_redis documents cache redis 1 a_request idle).1
json_redis-stored_example = json_redis-stored documents cache redis 1 a_request idle json-accepted

postgres-accepted :
    (through_postgres buffers database (codes "host=db") 1 a_request unused).0.status ≡ accepted
postgres-accepted =
    let write = PostgresWriter.write database (codes "host=db") 1 in
    (handle_request-accepted_iff (handle (FlatbuffersChecker.check buffers) write) a_request
        unused).1
      (
        refl,
        refl,
        (handle-ok_iff (FlatbuffersChecker.check buffers) write (codes "x") unused).1 (
          (flatbuffers_check_iff buffers (codes "x")).1 (refl, λ field. (b'x', [], refl)),
          ap (λ (r : WriteResult × PostgresWriter.State database). r.0.error) write-unused,
        ),
      )

flatbuffers_postgres-stored_example :
    let r = through_postgres buffers database (codes "host=db") 1 a_request unused in
    (buffers.verify_instrument_buffer a_request.body ≡ true)
    × ((field : StringField) → HasText buffers (buffers.get_instrument a_request.body) field)
    × Inserted database a_request.body r.1.world
flatbuffers_postgres-stored_example =
    flatbuffers_postgres-stored buffers database (codes "host=db") 1 a_request unused
      postgres-accepted
