-- ===== src/Gateway/Tables.antt =====
-- What a front relies on of the table of a database of Postgres, and what its writer leaves there.
use mathlib.Core.List.{append_assoc}
use gateway_poc.Base.{ℕ, ◌≡◌, sym, ap, subst, ◌∙◌, List, ◌∷◌, ◌++◌}
use gateway_poc.Base.Bytes.{Bytes}
use gateway_poc.Pqxx.{Pqxx, returned}
use gateway_poc.Front.PostgresWriter.{State, write}
use gateway_poc.Front.PostgresWriter.Steps.{insertion, IsKept, TookAfter, write-Wrote}
use gateway_poc.Back.Message.{Message}
use gateway_poc.Back.PostgresProducer.Database.{IsDatabase}
use gateway_poc.Back.Storage.Calls.{Grows, Grows-refl, Grows-trans}
use gateway_poc.Gateway.Requests.{Appended, Writes}

module _ (lib : Pqxx) (table : lib.World → List Message) where
  open lib use {World, exec_binary, commit, finish}

  -- What the front relies on: neither the query nor the commit of an insertion removes a row, and
  -- when both have returned a row with the body stands behind those that were there.
  pub record AddsRows : Type 0 where
    pub insert_grows :
        (c : ℕ) (body : Bytes) (w : World) → Grows table w (exec_binary c insertion body w).1
    pub commit_grows :
        (c : ℕ) (body : Bytes) (w : World)
        → Grows table w (commit c (exec_binary c insertion body w).1).1
    pub added :
        (c : ℕ) (body : Bytes) (w : World)
        → (exec_binary c insertion body w).0 ≡ returned tt
        → (commit c (exec_binary c insertion body w).1).0 ≡ returned tt
        → Appended table body w (commit c (exec_binary c insertion body w).1).1

  -- What others add before and behind leaves a row where it is.
  between-Appended :
      (body : Bytes) (w₀ w w' w'' : World)
      → Grows table w₀ w
      → Appended table body w w'
      → Grows table w' w''
      → Appended table body w₀ w''
  between-Appended body w₀ w w' w'' (more, first) a (others, last) = record {
    message = a.message;
    before = more ++ a.before;
    after = a.after ++ others;
    carries = a.carries;
    split =
        last
        ∙ ap (λ (x : List Message). x ++ others) a.split
        ∙ append_assoc (table w) (a.before ++ (a.message ∷ a.after)) others
        ∙ ap (◌++◌ (table w)) (append_assoc a.before (a.message ∷ a.after) others)
        ∙ ap (λ (x : List Message). x ++ (a.before ++ (a.message ∷ (a.after ++ others)))) first
        ∙ append_assoc (table w₀) more (a.before ++ (a.message ∷ (a.after ++ others)))
        ∙ ap (◌++◌ (table w₀)) (sym (append_assoc more a.before (a.message ∷ (a.after ++ others))));
  }

-- The messages that the back reads in the table.
abbrev pub rows_in : (lib : Pqxx) → (lib.World → List Message) → State lib → List Message
rows_in lib table s = table s.world

module _ (lib : Pqxx) (table : lib.World → List Message) (law : IsDatabase lib table)
    (adds : AddsRows lib table) (connection_string : Bytes) where
  table-IsKept : IsKept lib (Grows table)
  table-IsKept = record {
    at_once = Grows-refl table;
    through = Grows-trans table;
    connects = law.connect_grows;
    begins = law.begin_grows;
    inserts = adds.insert_grows;
    commits = adds.commit_grows;
    finishes = law.finish_grows;
  }

  took-Appended :
      (thread : ℕ) (body : Bytes) (w w' : lib.World)
      → TookAfter lib (Grows table) table-IsKept connection_string thread body w w'
      → Appended table body w w'
  took-Appended thread body w w' t =
      let committed =
        (lib.commit t.connection (lib.exec_binary t.connection insertion body t.before).1).1 in
      between-Appended lib table body w t.before committed w' t.reached
        (adds.added t.connection body t.before t.run t.kept)
        (subst (λ (u : lib.World). Grows table committed u) t.last
          (law.finish_grows t.connection committed))

  -- The writer of Postgres removes nothing, and stores what it reports as written.
  pub postgres-Writes : Writes (rows_in lib table) (λ thread. write lib connection_string thread)
  postgres-Writes = record {
    keeps = λ thread body s.
        (write-Wrote lib (Grows table) table-IsKept connection_string thread body s).kept;
    adds = λ thread body s e.
        let a =
          took-Appended thread body s.world _
            ((write-Wrote lib (Grows table) table-IsKept connection_string thread body s).took e) in
        record {
          message = a.message;
          before = a.before;
          after = a.after;
          carries = a.carries;
          split = a.split;
        };
  }
