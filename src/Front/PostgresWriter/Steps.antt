-- ===== src/Front/PostgresWriter/Steps.antt =====
-- The calls of a write to Postgres, one after the other.
use gateway_poc.Base.{ℕ, zero, suc, ◌≡◌, refl, Option, none, some}
use gateway_poc.Base.Bytes.{Bytes, codes}
use gateway_poc.Pqxx.{Pqxx, Tried, returned, broken, failed, next, ◌>>◌}
use gateway_poc.Front.Connections.{find_own}
use gateway_poc.Front.Handler.{WriteResult, WriterError}
use gateway_poc.Front.PostgresWriter.{
  insert_query, State, lifted, remember, found, find_connection, transaction, attempt, outcome,
  unavailable, write_loop, write, reconnect_retries,
}

-- The text of the query for a row.
abbrev pub insertion : Bytes
insertion = codes "INSERT INTO messages (data) VALUES ($1)"

-- What every call of a writer does to the world.
pub record IsKept (lib : Pqxx) (R : lib.World → lib.World → Type 0) : Type 0 where
  pub at_once : (w : lib.World) → R w w
  pub through : (w w' w'' : lib.World) → R w w' → R w' w'' → R w w''
  pub connects : (text : Bytes) (w : lib.World) → R w (lib.connect text w).1
  pub begins : (c : ℕ) (w : lib.World) → R w (lib.begin c w).1
  pub inserts :
      (c : ℕ) (body : Bytes) (w : lib.World) → R w (lib.exec_binary c insert_query body w).1
  pub commits :
      (c : ℕ) (body : Bytes) (w : lib.World)
      → R w (lib.commit c (lib.exec_binary c insert_query body w).1).1
  pub finishes : (c : ℕ) (w : lib.World) → R w (lib.finish c w)

module _ (lib : Pqxx) (R : lib.World → lib.World → Type 0) (law : IsKept lib R)
    (connection_string : Bytes) (thread : ℕ) (body : Bytes) (w₀ : lib.World) where
  open lib use {World, connect, begin, exec_binary, commit, finish}

  -- The transaction that stored the bytes, and that no other follows: they were inserted, and the
  -- insertion was committed and ended.
  pub record TookAfter (w' : World) : Type 0 where
    pub connection : ℕ
    pub before : World
    pub reached : R w₀ before
    pub run : (exec_binary connection insert_query body before).0 ≡ returned tt
    pub kept :
        (commit connection (exec_binary connection insert_query body before).1).0 ≡ returned tt
    pub last :
        finish connection (commit connection (exec_binary connection insert_query body before).1).1
        ≡ w'

  -- How an attempt ends.
  record Tries (r : Tried (Unit {0}) × State lib) : Type 0 where
    kept : R w₀ r.1.world
    took : r.0 ≡ returned tt → TookAfter r.1.world

  -- How a write ends that began in `w₀`.
  pub record Wrote (r : WriteResult × State lib) : Type 0 where
    pub kept : R w₀ r.1.world
    pub took : r.0.error ≡ WriterError.ok → TookAfter r.1.world

  committed-Tries :
      (c : ℕ) (s : State lib) (w : World) (o : Tried (Unit {0}))
      → R w₀ w
      → (exec_binary c insert_query body w).0 ≡ o
      → let r =
          next o
            (λ _. lifted lib (commit c))
            (record s { world = (exec_binary c insert_query body w).1 }) in
        Tries (r.0, record r.1 { world = finish c r.1.world })
  committed-Tries c s w (returned tt) k e = record {
    kept = law.through w₀ _ _ (law.through w₀ _ _ k (law.commits c body w)) (law.finishes c _);
    took = λ h. record { connection = c; before = w; reached = k; run = e; kept = h; last = refl };
  }
  committed-Tries c s w (broken what) k e = record {
    kept = law.through w₀ _ _ (law.through w₀ _ _ k (law.inserts c body w)) (law.finishes c _);
    took = λ h. cc;
  }
  committed-Tries c s w (failed what) k e = record {
    kept = law.through w₀ _ _ (law.through w₀ _ _ k (law.inserts c body w)) (law.finishes c _);
    took = λ h. cc;
  }

  transaction-Tries :
      (c : ℕ) (s : State lib)
      → R w₀ s.world
      → Tries (transaction lib connection_string thread body c s)
  unfolding transaction
  transaction-Tries c s k = committed-Tries c s s.world _ k refl

  begun-Tries :
      (c : ℕ) (o : Tried (Unit {0})) (s : State lib)
      → R w₀ s.world
      → Tries (next o (λ _. transaction lib connection_string thread body c) s)
  begun-Tries c (returned done) s k = transaction-Tries c s k
  begun-Tries c (broken what) s k = record { kept = k; took = λ h. cc }
  begun-Tries c (failed what) s k = record { kept = k; took = λ h. cc }

  found-Tries :
      (o : Tried ℕ) (s : State lib)
      → R w₀ s.world
      → Tries
          (next o (λ c. lifted lib (begin c) >> transaction lib connection_string thread body c) s)
  found-Tries (returned c) s k =
      begun-Tries c (begin c s.world).0 (record s { world = (begin c s.world).1 })
        (law.through w₀ _ _ k (law.begins c s.world))
  found-Tries (broken what) s k = record { kept = k; took = λ h. cc }
  found-Tries (failed what) s k = record { kept = k; took = λ h. cc }

  made-kept :
      (o : Tried ℕ) (s : State lib)
      → R w₀ s.world
      → R w₀ (next o (remember lib connection_string thread) s).1.world
  unfolding remember
  made-kept (returned c) s k = k
  made-kept (broken what) s k = k
  made-kept (failed what) s k = k

  connection-kept :
      (s : State lib) (o : Option ℕ)
      → R w₀ s.world
      → R w₀ (found lib connection_string thread o s).1.world
  unfolding found
  connection-kept s (some c) k = k
  connection-kept s none k =
      made-kept (connect connection_string s.world).0
        (record s { world = (connect connection_string s.world).1 })
        (law.through w₀ _ _ k (law.connects connection_string s.world))

  attempt-Tries :
      (s : State lib) → R w₀ s.world → Tries (attempt lib connection_string thread body s)
  unfolding attempt find_connection
  attempt-Tries s k =
      let r = found lib connection_string thread (find_own thread s.connections) s in
      found-Tries r.0 r.1 (connection-kept s (find_own thread s.connections) k)

  outcome-Wrote :
      (o : Tried (Unit {0})) (s : State lib) (again : Bytes → State lib → WriteResult × State lib)
      → Tries (o, s)
      → ((what : Bytes) → Wrote (again what s))
      → Wrote (outcome lib connection_string thread (o, s) again)
  unfolding outcome
  outcome-Wrote (returned tt) s again t others = record { kept = t.kept; took = λ h. t.took refl }
  outcome-Wrote (broken what) s again t others = others what
  outcome-Wrote (failed what) s again t others = record { kept = t.kept; took = λ h. cc }

  write_loop-Wrote :
      (left : ℕ) (s : State lib)
      → R w₀ s.world
      → Wrote (write_loop lib connection_string thread left body s)
  unfolding write_loop unavailable
  write_loop-Wrote zero s k =
      let t = attempt-Tries s k in
      outcome-Wrote _ _ _ t (λ what. record { kept = t.kept; took = λ h. cc })
  write_loop-Wrote (suc left) s k =
      let t = attempt-Tries s k in outcome-Wrote _ _ _ t (λ what. write_loop-Wrote left _ t.kept)

-- A write only makes calls that are kept, whatever it meets; and if it reports success its last
-- transaction has inserted these bytes and was committed.
pub write-Wrote :
    (lib : Pqxx) (R : lib.World → lib.World → Type 0) (law : IsKept lib R)
    (connection_string : Bytes) (thread : ℕ) (body : Bytes) (s : State lib)
    → Wrote lib R law connection_string thread body s.world
        (write lib connection_string thread body s)
unfolding write
write-Wrote lib R law connection_string thread body s =
    write_loop-Wrote lib R law connection_string thread body s.world reconnect_retries s
      (law.at_once s.world)

-- Whatever the calls do to the world.
abbrev unrelated : (lib : Pqxx) → IsKept lib (λ w w'. Unit {0})
unrelated lib = record {
  at_once = λ w. tt;
  through = λ w w' w'' k k'. tt;
  connects = λ text w. tt;
  begins = λ c w. tt;
  inserts = λ c body w. tt;
  commits = λ c body w. tt;
  finishes = λ c w. tt;
}

-- The transaction that stored the bytes in calls of the library, the last that left `w'`: the
-- insertion of exactly these bytes returned, its commit returned, and then it was ended.
pub record Inserted (lib : Pqxx) (body : Bytes) (w' : lib.World) : Type 0 where
  pub connection : ℕ
  pub before : lib.World
  pub run : (lib.exec_binary connection insertion body before).0 ≡ returned tt
  pub kept :
      (lib.commit connection (lib.exec_binary connection insertion body before).1).0 ≡ returned tt
  pub last :
      lib.finish connection
        (lib.commit connection (lib.exec_binary connection insertion body before).1).1
      ≡ w'

-- A write that reports success has inserted the bytes and committed them.
pub write-Inserted :
    (lib : Pqxx) (connection_string : Bytes) (thread : ℕ) (body : Bytes) (s : State lib)
    → (write lib connection_string thread body s).0.error ≡ WriterError.ok
    → Inserted lib body (write lib connection_string thread body s).1.world
write-Inserted lib connection_string thread body s e =
    let t =
      (write-Wrote lib (λ w w'. Unit {0}) (unrelated lib) connection_string thread body s).took e in
    record {
      connection = t.connection;
      before = t.before;
      run = t.run;
      kept = t.kept;
      last = t.last;
    }
