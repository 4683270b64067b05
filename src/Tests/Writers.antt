-- ===== src/Tests/Writers.antt =====
-- The two writers, over a database whose first transactions break and over a server that takes
-- every command.
use gateway_poc.Base.{ℕ, ◌+◌, ◌≡◌, refl, some, [], ◌∷◌, ltb, if◌then◌else◌}
use gateway_poc.Base.Bytes.{codes}
use gateway_poc.Hiredis.{Hiredis}
use gateway_poc.Pqxx.{Pqxx, returned, broken}
use gateway_poc.Front.Connections.{find_own, add_own}
use gateway_poc.Front.Handler.{WriterError}
use gateway_poc.Front.PostgresWriter as PostgresWriter
use gateway_poc.Front.PostgresWriter.Attempts.{Ends, write-Ends, write-keeps}
use gateway_poc.Front.RedisWriter as RedisWriter
use gateway_poc.Front.RedisWriter.Accepted.{Took, write-Took, redis_write-keeps}
use gateway_poc.Tests.Redis.{server, willing, redis}

-- The world counts the transactions that were begun; the first two of them break.
abbrev pub database : Pqxx
database = record {
  World = ℕ;
  connect = λ text w. (returned 3, w);
  begin = λ c w. if ltb w 2 then (broken (codes "gone"), w + 1) else (returned tt, w + 1);
  exec_binary = λ c query bytes w. (returned tt, w);
  exec_number = λ c query n w. (returned [], w);
  exec = λ c query w. (returned tt, w);
  commit = λ c w. (returned tt, w);
  finish = λ c w. w;
}

abbrev pub unused : PostgresWriter.State database
unused = record { connections = []; world = 0 }

abbrev used : PostgresWriter.State database
used = record { connections = record { thread_id = 1; connection = 3 } ∷ []; world = 0 }

write-Ends_example :
    Ends database
      (codes "host=db")
      1
      (codes "x")
      PostgresWriter.reconnect_retries
      unused
      (PostgresWriter.write database (codes "host=db") 1 (codes "x") unused)
write-Ends_example = write-Ends database (codes "host=db") 1 (codes "x") unused

-- The third attempt succeeds.
pub write-unused :
    PostgresWriter.write database (codes "host=db") 1 (codes "x") unused
    ≡ (record { error = WriterError.ok; message = [] }, record used { world = 3 })
unfolding PostgresWriter.write PostgresWriter.write_loop PostgresWriter.outcome
    PostgresWriter.attempt PostgresWriter.find_connection PostgresWriter.found
    PostgresWriter.transaction find_own add_own
write-unused = refl

owned : find_own 1 used.connections ≡ some 3
unfolding find_own
owned = refl

write-keeps_example :
    let t = (PostgresWriter.write database (codes "host=db") 1 (codes "x") used).1 in
    (t.connections ≡ used.connections)
    × (PostgresWriter.find_connection database (codes "host=db") 1 t ≡ (returned 3, t))
write-keeps_example = write-keeps database (codes "host=db") 1 (codes "x") used 3 owned

abbrev pub cache : Hiredis
cache = server willing

abbrev pub idle : RedisWriter.State cache
idle = record { connections = record { thread_id = 1; connection = 7 } ∷ []; world = 0 }

idle-owned : find_own 1 idle.connections ≡ some 7
unfolding find_own
idle-owned = refl

pub write-idle : (RedisWriter.write cache redis 1 (codes "x") idle).0.error ≡ WriterError.ok
unfolding RedisWriter.write RedisWriter.write_to RedisWriter.find_connection RedisWriter.sent
    RedisWriter.send RedisWriter.finish RedisWriter.by_err RedisWriter.by_reply find_own
write-idle = refl

write-Took_example :
    Took cache redis 1 (codes "x") (RedisWriter.write cache redis 1 (codes "x") idle).1
write-Took_example = write-Took cache redis 1 (codes "x") idle write-idle

redis_write-keeps_example :
    let t = (RedisWriter.write cache redis 1 (codes "x") idle).1 in
    (t.connections ≡ idle.connections)
    × (RedisWriter.write cache redis 1 (codes "y") t
        ≡ RedisWriter.sent cache redis 1
            (codes "y")
            7
            t
            (RedisWriter.send cache redis 1 (codes "y") 7 t.world))
redis_write-keeps_example =
    redis_write-keeps cache redis 1 (codes "x") (codes "y") idle 7 idle-owned
