-- ===== src/Tests/Database.antt =====
-- A database that keeps its rows in a list, with the deletions that are not committed beside them.
use mathlib.Core.List.{append-nil}
use gateway_poc.Base.{
  ℕ, zero, suc, ◌≤◌, ◌<◌, ◌≡◌, refl, sym, ap, subst, Bool, true, Bool-cases, ◌∙◌, inl, inr, List,
  [], ◌∷◌, ◌++◌, ◌==◌, length, length-append, drop, All, All-append, ◌+◌, ◌%◌, ◌^◌, arith,
  if◌then◌else◌,
}
use gateway_poc.Base.Bytes.{Bytes, codes, str_eq, str_eq_iff}
use gateway_poc.Pqxx.{Pqxx, Tried, returned, failed}
use gateway_poc.Back.Message.{Message}
use gateway_poc.Back.Consumer.Chunks.{ids}
use gateway_poc.Back.Storage.{IsStorage}
use gateway_poc.Back.PostgresProducer.{messages_from_rows, postgres_producer}
use gateway_poc.Back.PostgresProducer.Query.{deletion}
use gateway_poc.Tests.Deletion.{Fits, Fits-left, read_ids, read_ids-listing}
use gateway_poc.Back.PostgresProducer.Database.{IsDatabase, IsAlive, stored}
use gateway_poc.Back.PostgresProducer.Storage.{postgres_producer-IsStorage}

pub record Rows : Type 0 where
  pub rows : List Message
  pub pending : List Message
  pub rows_fit : All Fits rows
  pub pending_fit : All Fits pending

-- The rows behind those whose ids begin the list.
abbrev strip : List ℕ → List Message → List Message
strip [] ms = ms
strip (i ∷ is) [] = []
strip (i ∷ is) (m ∷ ms) = if m.id == i then strip is ms else m ∷ ms

pub strip-Fits : (is : List ℕ) (ms : List Message) → All Fits ms → All Fits (strip is ms)
strip-Fits [] ms f = f
strip-Fits (i ∷ is) [] f = tt
strip-Fits (i ∷ is) (m ∷ ms) f = ground (arith, strip-Fits is ms f.1)

strip-ids : (first rest : List Message) → strip (ids first) (first ++ rest) ≡ rest
strip-ids [] rest = refl
strip-ids (m ∷ first) rest = ground (arith, strip-ids first rest)

abbrev rows_of : ℕ → List Message → List (ℕ × Bytes)
rows_of zero ms = []
rows_of (suc n) [] = []
rows_of (suc n) (m ∷ ms) = (m.id, m.payload) ∷ rows_of n ms

rows_of-first : (n : ℕ) (ms : List Message) → ms ≡ messages_from_rows (rows_of n ms) ++ drop n ms
unfolding messages_from_rows
rows_of-first zero ms = refl
rows_of-first (suc n) [] = refl
rows_of-first (suc n) (m ∷ ms) = ap (◌∷◌ m) (rows_of-first n ms)

abbrev pub listed_ids : Bytes → List Message → List ℕ
listed_ids query ms =
    read_ids (length ms) (drop (length (codes "DELETE FROM messages WHERE id IN (")) query)

-- A text is a statement only if it is the whole of one.
abbrev pub is_deletion : Bytes → List Message → Bool
is_deletion query ms = str_eq query (deletion (listed_ids query ms))

abbrev run_delete : Bytes → Rows → Rows
run_delete query w = record w {
  pending = strip (listed_ids query w.rows) w.rows;
  pending_fit = strip-Fits (listed_ids query w.rows) w.rows w.rows_fit;
}

abbrev exec_delete : Bytes → Rows → Tried (Unit {0}) × Rows
exec_delete query w =
    if is_deletion query w.rows
    then (returned tt, run_delete query w)
    else (failed (codes "syntax error"), w)

-- The insertion of a row behind the others.
abbrev pub run_insert : Bytes → Rows → Rows
run_insert bytes w =
    let id = (length w.rows + 1) % 2 ^ 64 in
    record w {
      pending = w.rows ++ (record { id = id; payload = bytes } ∷ []);
      pending_fit =
          All-append Fits w.rows (record { id = id; payload = bytes } ∷ []) w.rows_fit
            (omega arith, tt);
    }

abbrev pub keep : Rows → Rows
keep w = record w { rows = w.pending; rows_fit = w.pending_fit }

abbrev pub database : Pqxx
database = record {
  World = Rows;
  connect = λ text w. (returned 3, w);
  begin = λ c w. (returned tt, w);
  exec_binary = λ c query bytes w. (returned tt, run_insert bytes w);
  exec_number = λ c query n w. (returned (rows_of n w.rows), w);
  exec = λ c query w. exec_delete query w;
  commit = λ c w. (returned tt, keep w);
  finish = λ c w. w;
}

abbrev pub rows_in : Rows → List Message
rows_in w = w.rows

unchanged : (w : Rows) → (more : List Message) × (w.rows ≡ w.rows ++ more)
unchanged w = ([], sym (append-nil w.rows))

returned-injective : {A : Type 0} {a b : A} → ◌≡◌ {A = Tried A} (returned a) (returned b) → a ≡ b
returned-injective e = cc

read-deletion :
    (m : Message) (ms rest : List Message) (w : Rows)
    → w.rows ≡ (m ∷ ms) ++ rest
    → listed_ids (deletion (ids (m ∷ ms))) w.rows ≡ ids (m ∷ ms)
read-deletion m ms rest w head =
    let fuel : length (m ∷ ms) ≤ length w.rows =
      omega (arith, length-append (m ∷ ms) rest, ap (λ (x : List Message). length x) head) in
    let fit = Fits-left (m ∷ ms) rest (subst (λ (x : List Message). All Fits x) head w.rows_fit) in
    read_ids-listing (length w.rows) m ms fuel fit

-- The statement for the first rows is run as such.
run-deletion :
    (m : Message) (ms rest : List Message) (w : Rows)
    → w.rows ≡ (m ∷ ms) ++ rest
    → exec_delete (deletion (ids (m ∷ ms))) w
      ≡ (returned tt, run_delete (deletion (ids (m ∷ ms))) w)
run-deletion m ms rest w head =
    let whole : is_deletion (deletion (ids (m ∷ ms))) w.rows ≡ true =
      (str_eq_iff (deletion (ids (m ∷ ms))) _).1
        (sym (ap deletion (read-deletion m ms rest w head))) in
    rw whole refl

stripped :
    (m : Message) (ms rest : List Message) (w : Rows)
    → w.rows ≡ (m ∷ ms) ++ rest
    → strip (listed_ids (deletion (ids (m ∷ ms))) w.rows) w.rows ≡ rest
stripped m ms rest w head =
    ap (λ (is : List ℕ). strip is w.rows) (read-deletion m ms rest w head)
    ∙ ap (strip (ids (m ∷ ms))) head
    ∙ strip-ids (m ∷ ms) rest

left_after :
    (m : Message) (ms rest : List Message) (w : Rows)
    → w.rows ≡ (m ∷ ms) ++ rest
    → (exec_delete (deletion (ids (m ∷ ms))) w).1.pending ≡ rest ++ []
left_after m ms rest w head =
    ap (λ (r : Tried (Unit {0}) × Rows). r.1.pending) (run-deletion m ms rest w head)
    ∙ stripped m ms rest w head
    ∙ sym (append-nil rest)

exec-unchanged : (query : Bytes) (w : Rows) → (exec_delete query w).1.rows ≡ w.rows
exec-unchanged query w = elim (Bool-cases (is_deletion query w.rows)) [
  | inl whole ↦ rw whole refl
  | inr part ↦ rw part refl
]

pub database-IsDatabase : IsDatabase database rows_in
database-IsDatabase = record {
  connect_grows = λ text w. unchanged w;
  begin_grows = λ c w. unchanged w;
  finish_grows = λ c w. unchanged w;
  select_grows = λ c n w. unchanged w;
  exec_grows = λ c is w. ([], exec-unchanged (deletion is) w ∙ sym (append-nil w.rows));
  selected = λ c n w rows e. (
    drop n w.rows,
    rows_of-first n w.rows
        ∙ ap (λ (x : List (ℕ × Bytes)). messages_from_rows x ++ drop n w.rows)
            (returned-injective e),
  );
  deleted = λ c m ms rest w head e. ([], inl (left_after m ms rest w head));
}

rows_of-none : (n : ℕ) (ms : List Message) → 0 < n → rows_of n ms ≡ [] → ms ≡ []
rows_of-none zero ms h e = absurd (omega arith)
rows_of-none (suc n) [] h e = refl
rows_of-none (suc n) (m ∷ ms) h e = cc

pub database-IsAlive : IsAlive database rows_in
database-IsAlive = record {
  connects = λ text w. (3, refl);
  begins = λ c w. refl;
  selects = λ c n w positive. (rows_of n w.rows, refl, rows_of-none n w.rows positive);
  deletes = λ c m ms rest w head.
      ap (λ (r : Tried (Unit {0}) × Rows). r.0) (run-deletion m ms rest w head);
  commits = λ c w. refl;
}

postgres_producer-IsStorage_example :
    IsStorage (postgres_producer database (codes "host=db") 10) (stored database rows_in)
postgres_producer-IsStorage_example =
    postgres_producer-IsStorage database rows_in database-IsDatabase (codes "host=db") 10
