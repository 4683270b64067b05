-- ===== src/Back/RedisProducer.antt =====
-- The class RedisProducer of gwback/src/producer/redis_producer.cpp.
pub mod Connection
pub mod Fetching
pub mod Marking
pub mod Server
pub mod Storage
use gateway_poc.Base.{ℕ, Bool, true, false, Option, none, some, List, [], ◌++◌, if◌then◌else◌}
use gateway_poc.Base.Bytes.{Bytes, codes, is_empty}
use gateway_poc.Base.Exec.{Exec, pure, raise, lift, gets, call, modify, ◌>>=◌, ◌>>◌}
use gateway_poc.Base.Outcome.{Outcome, ok, throw, fault}
use gateway_poc.Common.Config.{RedisConfig}
use gateway_poc.Common.ResolveHost.{Resolver, resolve_host}
use gateway_poc.Hiredis.{
  Hiredis, Reply, error, Err, redis_ok, err_io, err_eof, is_ok, auth, xrange, text,
}
use gateway_poc.Back.Message.{Message}
use gateway_poc.Back.Redis.{ReplyError, messages_stream, messages_from_reply, make_xdel_command}
use gateway_poc.Back.RunLoop.{Producer}

-- The exceptions, with what the text of each shows.
pub data RedisError : Type 0 where
  unresolved_host : Bytes → RedisError
  not_connected : RedisError
  connect_failed : Bytes → RedisError
  reconnect_failed : RedisError
  authentication_failed : Bytes → RedisError
  read_failed : Bytes → RedisError
  no_details : RedisError
  bad_reply : ReplyError → RedisError

-- The constructor: the host by its address, or an exception.
unfoldable pub make_config : Resolver → RedisConfig → Outcome RedisError RedisConfig
make_config r config =
    let host = resolve_host r config.host in
    if is_empty host
    then throw (unresolved_host config.host)
    else ok (record config { host = host })

-- `err == REDIS_ERR_EOF || err == REDIS_ERR_IO`
abbrev pub is_lost : Err → Bool
is_lost err_eof = true
is_lost err_io = true
is_lost e = false

-- `err == REDIS_ERR_EOF`
abbrev pub is_eof : Err → Bool
is_eof err_eof = true
is_eof e = false

-- An exception of the functions that read replies.
abbrev pub from_reply : {A : Type 0} → Outcome ReplyError A → Outcome RedisError A
from_reply (ok a) = ok a
from_reply (throw e) = throw (bad_reply e)
from_reply fault = fault

module _ (lib : Hiredis) where
  open lib use {World, connect, reconnect, command, free, err, errstr}

  pub record State : Type 0 where
    pub connection : Option ℕ
    pub world : World

  abbrev pub Action : Type 0 → Type 0
  Action = Exec State RedisError

  -- A call of the library, on the world of the state.
  abbrev pub lifted : {A : Type 0} → (World → A × World) → Action A
  lifted f = call λ s. let (a, w) = f s.world in (a, record s { world = w })

  module _ (config : RedisConfig) (chunk_size : ℕ) where
    -- `if (connection->err != REDIS_OK) throw …;`
    unfoldable pub check_err : (Bytes → RedisError) → ℕ → Action (Unit {0})
    check_err complaint c = do
      e ← gets (λ s. err s.world c)
      shown ← gets (λ s. errstr s.world c)
      if is_ok e then pure tt else raise (complaint shown)

    -- `if (reply && reply->type == REDIS_REPLY_ERROR) throw …;`
    unfoldable pub check_reply : (Bytes → RedisError) → Option Reply → Action (Unit {0})
    check_reply complaint (some (error shown)) = raise (complaint shown)
    check_reply complaint reply = pure tt

    -- Its callers have set the connection, so that its own `getConnection` returns `c`.
    unfoldable pub authenticate : ℕ → Action (Unit {0})
    unfolding check_err check_reply
    authenticate c = do
      reply ← lifted (command c (auth config.user config.password))
      check_err authentication_failed c
      check_reply authentication_failed reply

    unfoldable pub connected : Option ℕ → Action ℕ
    connected none = raise not_connected
    connected (some c) = do
      e ← gets (λ s. err s.world c)
      shown ← gets (λ s. errstr s.world c)
      if is_ok e
          then (do modify (λ s. record s { connection = some c }); authenticate c; pure c)
          else (do modify (λ s. record s { world = free c s.world }); raise (connect_failed shown))

    unfoldable pub existing : Option ℕ → Action ℕ
    existing (some c) = pure c
    existing none = do got ← lifted (connect config.host config.port); connected got

    unfoldable pub get_connection : Action ℕ
    get_connection s = existing s.connection s

    -- `RedisProducer::reconnect`
    pub reconnect_again : Action (Unit {0})
    reconnect_again = do
      c ← get_connection
      done ← lifted (reconnect c)
      if done then authenticate c else raise reconnect_failed

    -- The messages of a reply that is there and is no error.
    unfoldable pub read_reply : Option Reply → Action (List Message)
    read_reply none = raise no_details
    read_reply (some (error shown)) = raise (read_failed shown)
    read_reply (some reply) = lift (from_reply (messages_from_reply reply))

    unfoldable pub fetch : ℕ → Action (Option Reply)
    fetch c = lifted (command c (xrange messages_stream chunk_size))

    pub fetch_again : ℕ → Action (Option Reply)
    fetch_again c = do reconnect_again; fetch c

    unfoldable pub get_next : Action (List Message)
    get_next = do
      c ← get_connection
      reply ← fetch c
      e ← gets (λ s. err s.world c)
      reply' ← (if is_lost e then fetch_again c else pure reply)
      check_err read_failed c
      read_reply reply'

    unfoldable pub delete : ℕ → List Message → Action (Option Reply)
    delete c messages = lifted (command c (text (make_xdel_command messages)))

    pub delete_again : ℕ → List Message → Action (Option Reply)
    delete_again c messages = do reconnect_again; delete c messages

    unfoldable pub mark_consumed : List Message → Action (Unit {0})
    mark_consumed messages = do
      c ← get_connection
      reply ← delete c messages
      e ← gets (λ s. err s.world c)
      reply' ← (if is_eof e then delete_again c messages else pure reply)
      check_err read_failed c
      check_reply read_failed reply'

    abbrev pub redis_producer : Producer State RedisError
    redis_producer = record { get_next = get_next; mark_consumed = mark_consumed }
