-- ===== src/Back/RedisProducer/Server.antt =====
-- What the producer of Redis relies on of hiredis and of the server.
use gateway_poc.Base.{ℕ, ◌<◌, ◌≡◌, ◌⊎◌, true, false, Option, none, some, List, [], ◌++◌, All}
use gateway_poc.Base.Bytes.{Bytes, codes}
use gateway_poc.Hiredis.{Hiredis, Reply, array, error, Err, redis_ok, auth, xrange, text}
use gateway_poc.Back.Storage.Calls.{Grows}
use gateway_poc.Back.Redis.{messages_stream}
use gateway_poc.Back.Redis.Stream.{StreamEntry, InRange, entries_reply, names}
use gateway_poc.Back.RedisProducer.Marking.{is_error}

abbrev pub xdel_text : List StreamEntry → Bytes
xdel_text es = codes "XDEL messages" ++ names es

-- The server has refused a command, or the connection failed with it.
abbrev pub Refused : Option Reply → Err → Type 0
Refused o e = (e ≡ redis_ok) → is_error o ≡ true

-- `stream` are the entries of the stream in their order, and `Gone es w` says that entries with the
-- names of `es` are not in it and will not be: the server gives no name twice.
module _ (lib : Hiredis) (stream : lib.World → List StreamEntry)
    (Gone : List StreamEntry → lib.World → Type 0) where
  open lib use {World, connect, reconnect, command, free, err}

  -- Others only add entries, behind those that are there.
  abbrev pub Safe : World → World → Type 0
  Safe w w' = Grows stream w w' × ((es : List StreamEntry) → Gone es w → Gone es w')

  pub record IsStream : Type 0 where
    -- 42 bits of time and 22 bits of sequence.
    pub in_range : (w : World) → All InRange (stream w)
    pub connect_safe : (host : Bytes) (port : ℕ) (w : World) → Safe w (connect host port w).1
    pub reconnect_safe : (c : ℕ) (w : World) → Safe w (reconnect c w).1
    pub free_safe : (c : ℕ) (w : World) → Safe w (free c w)
    pub auth_safe :
        (c : ℕ) (user password : Bytes) (w : World) → Safe w (command c (auth user password) w).1
    pub xrange_safe : (c n : ℕ) (w : World) → Safe w (command c (xrange messages_stream n) w).1
    -- `XRANGE - +` describes the first entries, if it has a reply and no error.
    pub xrange_reply :
        (c n : ℕ) (w : World)
        → let r = command c (xrange messages_stream n) w in
          (r.0 ≡ none)
          ⊎ ((shown : Bytes) × (r.0 ≡ some (error shown)))
          ⊎ ((es : List StreamEntry) × (rest : List StreamEntry) × (r.0
                ≡ some (array (entries_reply es)))
              × (stream r.1 ≡ es ++ rest))
    -- `XDEL` of the first entries has removed them, or it was refused.
    pub xdel_present :
        (c : ℕ) (es rest : List StreamEntry) (w : World)
        → stream w ≡ es ++ rest
        → let r = command c (text (xdel_text es)) w in
          (Gone es r.1 × ((more : List StreamEntry) × (stream r.1 ≡ rest ++ more)))
          ⊎ (Refused r.0 (err r.1 c) × Grows stream w r.1)
    -- `XDEL` of entries that are gone removes nothing.
    pub xdel_gone :
        (c : ℕ) (es : List StreamEntry) (w : World)
        → Gone es w
        → Safe w (command c (text (xdel_text es)) w).1

module _ (lib : Hiredis) (stream : lib.World → List StreamEntry) where
  open lib use {World, connect, command, err}

  -- A server that is there: it takes every connection and every command, and describes its stream
  -- in parts that are empty only where the stream is.
  pub record IsHealthy : Type 0 where
    pub connects :
        (host : Bytes) (port : ℕ) (w : World) → (c : ℕ) × ((connect host port w).0 ≡ some c)
    pub in_order : (w : World) (c : ℕ) → err w c ≡ redis_ok
    pub welcomes :
        (c : ℕ) (user password : Bytes) (w : World)
        → is_error (command c (auth user password) w).0 ≡ false
    pub describes :
        (c n : ℕ) (w : World)
        → 0 < n
        → let r = command c (xrange messages_stream n) w in
          (es : List StreamEntry) × (rest : List StreamEntry) × (r.0
            ≡ some (array (entries_reply es)))
          × (stream r.1 ≡ es ++ rest)
          × (es ≡ [] → stream r.1 ≡ [])
    pub removes :
        (c : ℕ) (query : Bytes) (w : World) → is_error (command c (text query) w).0 ≡ false
