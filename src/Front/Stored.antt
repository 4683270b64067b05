-- ===== src/Front/Stored.antt =====
-- What an accepted request means for the storage: the session, the handler, the checker and the
-- writer together.
use gateway_poc.Base.{ℕ, ◌≡◌, refl, sym, subst, ◌∙◌, true, some}
use gateway_poc.Base.Bytes.{Bytes, str_eq_iff}
use gateway_poc.Common.Config.{RedisConfig}
use gateway_poc.Hiredis.{Hiredis}
use gateway_poc.Pqxx.{Pqxx}
use gateway_poc.Front.Handler.{CheckResult, WriterError, Writer, handle, handle-ok_iff}
use gateway_poc.Front.JsonChecker.{Nlohmann}
use gateway_poc.Front.JsonChecker as JsonChecker
use gateway_poc.Front.JsonChecker.Fields.{IsInstrument, check_iff}
use gateway_poc.Front.FlatbuffersChecker.{StringField, Generated}
use gateway_poc.Front.FlatbuffersChecker as FlatbuffersChecker
use gateway_poc.Front.FlatbuffersChecker.Blocks.{HasText, flatbuffers_check_iff}
use gateway_poc.Front.RedisWriter as RedisWriter
use gateway_poc.Front.RedisWriter.Accepted.{Took, write-Took}
use gateway_poc.Front.PostgresWriter as PostgresWriter
use gateway_poc.Front.PostgresWriter.Steps.{Inserted, write-Inserted}
use gateway_poc.Front.Session.{post, accepted, Request, Response, instrument_path, handle_request}
use gateway_poc.Front.Session.Answers.{handle_request-accepted_iff}

module _ {W : Type 0} (check : Bytes → CheckResult) (write : Writer W) (q : Request) (w : W) where
  -- A handler that accepts leaves the state that its writer leaves.
  pub handled-state :
      (check q.body).ok ≡ true → (handle check write q.body w).1 ≡ (write q.body w).1
  unfolding handle
  handled-state e = rw e refl

  pub requested-state :
      q.method ≡ post
      → q.target ≡ instrument_path
      → (handle_request (handle check write) q w).1 ≡ (handle check write q.body w).1
  unfolding handle_request
  requested-state m t = rw (m, (str_eq_iff q.target instrument_path).1 t) refl

  -- A request that is answered with accepted: a POST to the path of instruments, whose body the
  -- checker let through and the writer wrote, and the state afterwards is the writer's.
  pub record IsStored : Type 0 where
    pub method : q.method ≡ post
    pub target : q.target ≡ instrument_path
    pub checked : (check q.body).ok ≡ true
    pub written : (write q.body w).0.error ≡ WriterError.ok
    pub state : (handle_request (handle check write) q w).1 ≡ (write q.body w).1

  pub accepted-IsStored : (handle_request (handle check write) q w).0.status ≡ accepted → IsStored
  accepted-IsStored e =
      let (method, target, fine) = (handle_request-accepted_iff (handle check write) q w).0 e in
      let (checked, written) = (handle-ok_iff check write q.body w).0 fine in
      record {
        method = method;
        target = target;
        checked = checked;
        written = written;
        state = requested-state method target ∙ handled-state checked;
      }

module _ (json : Nlohmann) (lib : Hiredis) (config : RedisConfig) (thread : ℕ) (q : Request)
    (s : RedisWriter.State lib) where
  abbrev pub through_redis : Response × RedisWriter.State lib
  through_redis =
      handle_request (handle (JsonChecker.check json) (RedisWriter.write lib config thread)) q s

  -- With JSON and Redis, a client that is told its message is accepted has sent a document with all
  -- the fields of an instrument, and the `XADD` of exactly that body was the last command on a
  -- connection in order, with a reply that is no error.
  pub json_redis-stored :
      through_redis.0.status ≡ accepted
      → ((document : json.Json) × (json.parse q.body ≡ some document) × IsInstrument json document)
        × Took lib config thread q.body through_redis.1
  json_redis-stored e =
      let stored =
        accepted-IsStored (JsonChecker.check json) (RedisWriter.write lib config thread) q s e in
      (
        (check_iff json q.body).0 stored.checked,
        subst (Took lib config thread q.body) (sym stored.state)
            (write-Took lib config thread q.body s stored.written),
      )

module _ (generated : Generated) (lib : Pqxx) (connection_string : Bytes) (thread : ℕ) (q : Request)
    (s : PostgresWriter.State lib) where
  abbrev pub through_postgres : Response × PostgresWriter.State lib
  through_postgres =
      handle_request
        (handle (FlatbuffersChecker.check generated)
          (PostgresWriter.write lib connection_string thread))
        q s

  -- With flatbuffers and Postgres, a client that is told its message is accepted has sent a
  -- verified buffer whose 32 strings are all there and not empty; and in the last calls of the
  -- library, which left the world as it is, the `INSERT` of exactly that body returned, its commit
  -- returned, and the transaction was ended.
  pub flatbuffers_postgres-stored :
      through_postgres.0.status ≡ accepted
      → (generated.verify_instrument_buffer q.body ≡ true)
        × ((field : StringField) → HasText generated (generated.get_instrument q.body) field)
        × Inserted lib q.body through_postgres.1.world
  flatbuffers_postgres-stored e =
      let stored =
        accepted-IsStored (FlatbuffersChecker.check generated)
          (PostgresWriter.write lib connection_string thread) q s e in
      let (verified, strings) = (flatbuffers_check_iff generated q.body).0 stored.checked in
      (
        verified,
        strings,
        subst (λ (t : PostgresWriter.State lib). Inserted lib q.body t.world) (sym stored.state)
            (write-Inserted lib connection_string thread q.body s stored.written),
      )
