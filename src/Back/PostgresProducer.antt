-- ===== src/Back/PostgresProducer.antt =====
-- gwback/src/producer/postgres_producer.cpp. The loop catches every exception alike, so a broken
-- connection and another failure of libpqxx are both an exception with its text.
pub mod Query
pub mod Database
pub mod Marking
pub mod Storage
use gateway_poc.Base.{ℕ, Option, none, some, List, [], ◌∷◌, ◌++◌}
use gateway_poc.Base.Bytes.{Bytes, codes}
use gateway_poc.Base.Decimal.{to_string}
use gateway_poc.Base.Exec.{Exec, pure, lift, modify, ◌>>=◌, ◌>>◌}
use gateway_poc.Base.Outcome.{Outcome, ok, throw, fault}
use gateway_poc.Pqxx.{Pqxx, Tried, returned, broken, failed}
use gateway_poc.Back.Message.{Message}
use gateway_poc.Back.RunLoop.{Producer}

abbrev pub messages_table : Bytes
messages_table = codes "messages"

abbrev pub select_query : Bytes
select_query =
    (codes "SELECT id, data FROM " ++ messages_table) ++ codes " ORDER BY id ASC LIMIT ($1)"

-- The loop over the rows of a result.
unfoldable pub messages_from_rows : List (ℕ × Bytes) → List Message
messages_from_rows [] = []
messages_from_rows ((id, bytes) ∷ rows) =
    record { id = id; payload = bytes } ∷ messages_from_rows rows

-- The ids with a comma between each two.
unfoldable pub id_list : Message → List Message → Bytes
id_list m [] = to_string m.id
id_list m (k ∷ messages) = to_string m.id ++ (b',' ∷ id_list k messages)

-- Without messages `messages.size() - 1` wraps around, and the loop reads past the end.
unfoldable pub delete_query : List Message → Outcome Bytes Bytes
delete_query [] = fault
delete_query (m ∷ messages) = ok (
    ((codes "DELETE FROM " ++ messages_table) ++ codes " WHERE id IN (")
    ++ (id_list m messages ++ (b')' ∷ [])))

abbrev pub thrown : {A : Type 0} → Tried A → Outcome Bytes A
thrown (returned a) = ok a
thrown (broken what) = throw what
thrown (failed what) = throw what

module _ (lib : Pqxx) where
  open lib use {World, connect, begin, exec_number, exec, commit, finish}

  pub record State : Type 0 where
    pub connection : Option ℕ
    pub world : World

  abbrev pub Action : Type 0 → Type 0
  Action = Exec State Bytes

  -- A call of the library, on the world of the state.
  abbrev pub lifted : {A : Type 0} → (World → Tried A × World) → Action A
  lifted f s = let (r, w) = f s.world in (thrown r, record s { world = w })

  -- The rest of a block that has made a transaction, which its end destroys.
  abbrev pub closed : {A : Type 0} → ℕ → Action A → Action A
  closed c body s = let (r, s') = body s in (r, record s' { world = finish c s'.world })

  module _ (connection_string : Bytes) (chunk_size : ℕ) where
    unfoldable pub existing : Option ℕ → Action ℕ
    existing (some c) = pure c
    existing none = do
      c ← lifted (connect connection_string)
      modify (λ s. record s { connection = some c })
      pure c

    unfoldable pub get_connection : Action ℕ
    get_connection s = existing s.connection s

    unfoldable pub select : ℕ → Action (List Message)
    select c = do
      rows ← lifted (exec_number c select_query chunk_size)
      pure (messages_from_rows rows)

    unfoldable pub get_next : Action (List Message)
    get_next = do c ← get_connection; lifted (begin c); closed c (select c)

    unfoldable pub delete : ℕ → List Message → Action (Unit {0})
    delete c messages = do
      query ← lift (delete_query messages)
      lifted (exec c query)
      lifted (commit c)

    unfoldable pub mark_consumed : List Message → Action (Unit {0})
    mark_consumed messages = do c ← get_connection; lifted (begin c); closed c (delete c messages)

    abbrev pub postgres_producer : Producer State Bytes
    postgres_producer = record { get_next = get_next; mark_consumed = mark_consumed }
