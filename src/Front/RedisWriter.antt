-- ===== src/Front/RedisWriter.antt =====
-- gwfront/src/handler/redis_writer.cpp, for the thread that calls it. Replies are freed when they
-- have been read, which nothing here shows; `redisFree` of a connection is shown.
pub mod Accepted
pub mod Steps
use gateway_poc.Base.{ℕ, Bool, true, false, ◌||◌, Option, none, some, List, [], ◌++◌, if◌then◌else◌}
use gateway_poc.Base.Bytes.{Bytes, codes, is_empty}
use gateway_poc.Base.Outcome.{Outcome, ok, throw}
use gateway_poc.Common.Config.{RedisConfig}
use gateway_poc.Common.ResolveHost.{Resolver, resolve_host}
use gateway_poc.Hiredis.{
  Hiredis, Reply, str, array, error, other, Err, redis_ok, err_io, err_eof, err_other, is_ok, auth,
  xadd,
}
use gateway_poc.Front.Connections.{ExclusiveConnection, find_own, add_own}
use gateway_poc.Front.Handler.{WriteResult, WriterError, generic, storage_unavailable}

abbrev pub messages_stream : Bytes
messages_stream = codes "messages"

abbrev pub data_field : Bytes
data_field = codes "data"

-- The constructor: the host by its address, or an exception.
unfoldable pub make_config : Resolver → RedisConfig → Outcome Bytes RedisConfig
make_config r config =
    let host = resolve_host r config.host in
    if is_empty host
    then throw ((codes "Failed to resolve '" ++ config.host) ++ codes "'")
    else ok (record config { host = host })

pub record CheckedConnection : Type 0 where
  pub connection : Option ℕ
  pub error : Bytes

abbrev pub checked : ℕ → CheckedConnection
checked c = record { connection = some c; error = [] }

abbrev pub unchecked : Bytes → CheckedConnection
unchecked text = record { connection = none; error = text }

-- `err == REDIS_ERR_EOF || err == REDIS_ERR_IO`
abbrev pub is_lost : Err → Bool
is_lost err_eof = true
is_lost err_io = true
is_lost e = false

module _ (lib : Hiredis) where
  open lib use {World, connect, reconnect, command, free, err, errstr}

  pub record State : Type 0 where
    pub connections : List ExclusiveConnection
    pub world : World

  module _ (config : RedisConfig) where
    auth_reply : ℕ → Option Reply → CheckedConnection
    auth_reply c (some (error text)) = unchecked text
    auth_reply c reply = checked c

    pub authenticate : ℕ → World → CheckedConnection × World
    authenticate c w =
        let (reply, w') = command c (auth config.user config.password) w in
        (if is_ok (err w' c) then auth_reply c reply else unchecked (errstr w' c), w')

    -- A connection that is not authenticated is freed.
    kept_or_freed : ℕ → CheckedConnection × World → CheckedConnection × World
    kept_or_freed c (r, w) = elim r.connection [ none ↦ (r, free c w) | some same ↦ (r, w) ]

    connected : Option ℕ × World → CheckedConnection × World
    connected (none, w) = (unchecked (codes "Failed to connect to Redis"), w)
    connected (some c, w) =
        if is_ok (err w c)
        then kept_or_freed c (authenticate c w)
        else (unchecked (errstr w c), free c w)

    pub create_connection : World → CheckedConnection × World
    create_connection w = connected (connect config.host config.port w)

    -- `RedisWriter::reconnect`
    pub reconnect_and_authenticate : ℕ → World → CheckedConnection × World
    reconnect_and_authenticate c w =
        let (done, w') = reconnect c w in
        if done then authenticate c w' else (unchecked (codes "Failed to reconnect to Redis"), w')

    module _ (thread : ℕ) where
      unfoldable pub created : State → CheckedConnection × World → CheckedConnection × State
      created s (r, w) = elim r.connection [
        | none ↦ (unchecked r.error, record s { world = w })
        | some c ↦ (checked c, record { connections = add_own thread c s.connections; world = w })
      ]

      unfoldable pub find_connection : State → CheckedConnection × State
      find_connection s = elim (find_own thread s.connections) [
        | none ↦ created s (create_connection s.world)
        | some c ↦ (checked c, s)
      ]

      -- The state of the connection after the last command.
      unfoldable pub by_err : Err → Bytes → WriteResult
      by_err redis_ok text = record { error = WriterError.ok; message = [] }
      by_err err_eof text = record { error = storage_unavailable; message = text }
      by_err err_io text = record { error = storage_unavailable; message = text }
      by_err err_other text = record { error = generic; message = text }

      -- An error in the reply takes precedence.
      unfoldable pub by_reply : Option Reply → WriteResult → WriteResult
      by_reply (some (error text)) r = record { error = generic; message = text }
      by_reply reply r = r

      unfoldable pub finish : ℕ → State → Option Reply × World → WriteResult × State
      unfolding by_err by_reply
      finish c s (reply, w) =
          (by_reply reply (by_err (err w c) (errstr w c)), record s { world = w })

      unfoldable pub send : Bytes → ℕ → World → Option Reply × World
      send bytes c w = command c (xadd messages_stream data_field bytes) w

      unfoldable pub retried : Bytes → State → CheckedConnection × World → WriteResult × State
      retried bytes s (r, w) = elim r.connection [
        | none ↦ (record { error = storage_unavailable; message = r.error }, record s { world = w })
        | some c ↦ finish c s (send bytes c w)
      ]

      unfoldable pub sent : Bytes → ℕ → State → Option Reply × World → WriteResult × State
      sent bytes c s (reply, w) =
          if is_lost (err w c)
          then retried bytes s (reconnect_and_authenticate c w)
          else finish c s (reply, w)

      unfoldable pub write_to : Bytes → CheckedConnection × State → WriteResult × State
      write_to bytes (r, s) = elim r.connection [
        | none ↦ (record { error = storage_unavailable; message = r.error }, s)
        | some c ↦ sent bytes c s (send bytes c s.world)
      ]

      unfoldable pub write : Bytes → State → WriteResult × State
      write bytes s = write_to bytes (find_connection s)
