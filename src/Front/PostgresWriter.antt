-- ===== src/Front/PostgresWriter.antt =====
-- gwfront/src/handler/postgres_writer.cpp, for the thread that calls it.
pub mod Attempts
pub mod Steps
use gateway_poc.Base.{ℕ, zero, suc, Option, none, some, List, [], ◌∷◌, ◌++◌}
use gateway_poc.Base.Bytes.{Bytes, codes}
use gateway_poc.Pqxx.{Pqxx, Tried, returned, broken, failed, ◌>>=◌, ◌>>◌, pure}
use gateway_poc.Front.Connections.{ExclusiveConnection, find_own, add_own}
use gateway_poc.Front.Handler.{WriteResult, WriterError, generic, storage_unavailable}

abbrev pub reconnect_retries : ℕ
reconnect_retries = 2

abbrev pub messages_table : Bytes
messages_table = codes "messages"

abbrev pub insert_query : Bytes
insert_query = (codes "INSERT INTO " ++ messages_table) ++ codes " (data) VALUES ($1)"

module _ (lib : Pqxx) where
  open lib use {World, connect, begin, exec_binary, commit, finish}

  pub record State : Type 0 where
    pub connections : List ExclusiveConnection
    pub world : World

  -- A call of the library, on the world of the state.
  abbrev pub lifted : {A : Type 0} → (World → Tried A × World) → State → Tried A × State
  lifted f s = let (r, w) = f s.world in (r, record s { world = w })

  module _ (connection_string : Bytes) (thread : ℕ) where
    -- `push_back` comes after the new connection is made.
    unfoldable pub remember : ℕ → State → Tried ℕ × State
    remember c s = (returned c, record s { connections = add_own thread c s.connections })

    unfoldable pub found : Option ℕ → State → Tried ℕ × State
    unfolding remember
    found (some c) = pure c
    found none = do c ← lifted (connect connection_string); remember c

    unfoldable pub find_connection : State → Tried ℕ × State
    find_connection s = found (find_own thread s.connections) s

    -- The transaction, which ends with its block, also by an exception.
    unfoldable pub transaction : Bytes → ℕ → State → Tried (Unit {0}) × State
    transaction bytes c s =
        let (r, s') = (do lifted (exec_binary c insert_query bytes); lifted (commit c)) s in
        (r, record s' { world = finish c s'.world })

    -- The body of the `try`.
    unfoldable pub attempt : Bytes → State → Tried (Unit {0}) × State
    unfolding transaction
    attempt bytes = do c ← find_connection; lifted (begin c); transaction bytes c

    -- The `return` and the two `catch`; `again` is what a broken connection leads to.
    unfoldable pub outcome :
        Tried (Unit {0}) × State → (Bytes → State → WriteResult × State) → WriteResult × State
    outcome (returned done, s) again = (record { error = WriterError.ok; message = [] }, s)
    outcome (broken what, s) again = again what s
    outcome (failed what, s) again = (record { error = generic; message = what }, s)

    unfoldable pub unavailable : Bytes → State → WriteResult × State
    unavailable what s = (record { error = storage_unavailable; message = what }, s)

    -- `while (true)`, by the retries left.
    unfoldable pub write_loop : ℕ → Bytes → State → WriteResult × State
    write_loop zero bytes s = outcome (attempt bytes s) unavailable
    write_loop (suc left) bytes s = outcome (attempt bytes s) (λ what. write_loop left bytes)

    unfoldable pub write : Bytes → State → WriteResult × State
    write bytes s = write_loop reconnect_retries bytes s
