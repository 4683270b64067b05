-- ===== src/Back/PostgresProducer/Database.antt =====
-- What the producer of Postgres relies on of its database.
use gateway_poc.Base.{ℕ, ◌<◌, ◌≡◌, ◌≢◌, ◌⊎◌, List, [], ◌∷◌, ◌++◌}
use gateway_poc.Base.Bytes.{Bytes, codes}
use gateway_poc.Base.Outcome.{fault}
use gateway_poc.Pqxx.{Pqxx, Tried, returned, broken, failed}
use gateway_poc.Back.Message.{Message}
use gateway_poc.Back.Consumer.Chunks.{ids}
use gateway_poc.Back.Storage.Calls.{Grows}
use gateway_poc.Back.PostgresProducer.{messages_from_rows, thrown, State}
use gateway_poc.Back.PostgresProducer.Query.{deletion}

-- The text of the query for the first rows, whose number is its parameter.
abbrev pub selection : Bytes
selection = codes "SELECT id, data FROM messages ORDER BY id ASC LIMIT ($1)"

module _ (lib : Pqxx) (table : lib.World → List Message) where
  open lib use {World, connect, begin, exec_number, exec, commit, finish}

  -- What the producer relies on of the library and the database: `table` are the committed rows in
  -- the order of their ids.
  pub record IsDatabase : Type 0 where
    pub connect_grows : (text : Bytes) (w : World) → Grows table w (connect text w).1
    pub begin_grows : (c : ℕ) (w : World) → Grows table w (begin c w).1
    pub finish_grows : (c : ℕ) (w : World) → Grows table w (finish c w)
    pub select_grows : (c n : ℕ) (w : World) → Grows table w (exec_number c selection n w).1
    -- What is not committed shows in no row.
    pub exec_grows : (c : ℕ) (is : List ℕ) (w : World) → Grows table w (exec c (deletion is) w).1
    -- `ORDER BY id ASC LIMIT` gives the first rows.
    pub selected :
        (c n : ℕ) (w : World) (rows : List (ℕ × Bytes))
        → (exec_number c selection n w).0 ≡ returned rows
        → (rest : List Message) × (table w ≡ messages_from_rows rows ++ rest)
    -- The statement that lists the ids of the first rows, one at least, has removed these rows once
    -- it is committed; a commit that fails has removed them or not.
    pub deleted :
        (c : ℕ) (m : Message) (ms rest : List Message) (w : World)
        → table w ≡ (m ∷ ms) ++ rest
        → let r = exec c (deletion (ids (m ∷ ms))) w in
          r.0 ≡ returned tt
          → (more : List Message) × ((table (commit c r.1).1 ≡ rest ++ more)
              ⊎ (((commit c r.1).0 ≢ returned tt) × (table (commit c r.1).1 ≡ table w ++ more)))

  -- A database that is there: it takes every connection, transaction, query of the producer and
  -- commit, and gives no rows only where its table has none.
  pub record IsAlive : Type 0 where
    pub connects : (text : Bytes) (w : World) → (c : ℕ) × ((connect text w).0 ≡ returned c)
    pub begins : (c : ℕ) (w : World) → (begin c w).0 ≡ returned tt
    pub selects :
        (c n : ℕ) (w : World)
        → 0 < n
        → (rows : List (ℕ × Bytes)) × ((exec_number c selection n w).0 ≡ returned rows)
          × (rows ≡ [] → table w ≡ [])
    pub deletes :
        (c : ℕ) (m : Message) (ms rest : List Message) (w : World)
        → table w ≡ (m ∷ ms) ++ rest
        → (exec c (deletion (ids (m ∷ ms))) w).0 ≡ returned tt
    pub commits : (c : ℕ) (w : World) → (commit c w).0 ≡ returned tt

  abbrev pub stored : State lib → List Message
  stored s = table s.world

pub thrown-Defined : {A : Type 0} (r : Tried A) → thrown r ≢ fault
thrown-Defined (returned a) h = cc
thrown-Defined (broken what) h = cc
thrown-Defined (failed what) h = cc
