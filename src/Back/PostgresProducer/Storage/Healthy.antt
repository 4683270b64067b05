-- ===== src/Back/PostgresProducer/Storage/Healthy.antt =====
-- The producer of Postgres over a database that answers every call.
use gateway_poc.Base.{
  ℕ, ◌<◌, ◌≡◌, refl, sym, ap, subst, ◌∙◌, no_left, Option, none, some, List, [], ◌∷◌, ◌++◌,
}
use gateway_poc.Base.Bytes.{Bytes}
use gateway_poc.Base.Exec.{lift, after, ◌>>◌, ◌>>=◌}
use gateway_poc.Base.Outcome.{Outcome, ok, ok-injective}
use gateway_poc.Pqxx.{Pqxx, Tried, returned}
use gateway_poc.Back.Message.{Message}
use gateway_poc.Back.Consumer.Chunks.{ids}
use gateway_poc.Back.Storage.Calls.{Grows, Grows-trans, still_first}
use gateway_poc.Back.RunLoop.Progress.{Answers}
use gateway_poc.Back.PostgresProducer.{
  select_query, messages_from_rows, delete_query, thrown, State, Action, lifted, closed, existing,
  get_connection, select, get_next, delete, mark_consumed, postgres_producer,
}
use gateway_poc.Back.PostgresProducer.Query.{deletion, given-deletion}
use gateway_poc.Back.PostgresProducer.Database.{IsDatabase, IsAlive, stored}
use gateway_poc.Back.PostgresProducer.Storage.Fetch.{get_connection-Keeps}

module _ (lib : Pqxx) (table : lib.World → List Message) (law : IsDatabase lib table)
    (alive : IsAlive lib table) (connection_string : Bytes) (chunk_size : ℕ) where
  open lib use {World, connect, begin, exec_number, exec, commit, finish}

  abbrev rows : State lib → List Message
  rows = stored lib table

  -- A call that returns, from a state to a later one.
  lifted-returned :
      {A : Type 0} (f : World → Tried A × World) (s : State lib) (a : A)
      → (f s.world).0 ≡ returned a
      → lifted lib f s ≡ (ok a, record s { world = (f s.world).1 })
  lifted-returned f s a e = ap (λ (r : Tried _). (thrown r, record s { world = (f s.world).1 })) e

  existing-fine :
      (o : Option ℕ) (s : State lib)
      → (c : ℕ) × (t : State lib) × (existing lib connection_string chunk_size o s ≡ (ok c, t))
  unfolding existing
  existing-fine (some c) s = (c, s, refl)
  existing-fine none s =
      let (c, made) = alive.connects connection_string s.world in
      let w = (connect connection_string s.world).1 in
      (
        c,
        record { connection = some c; world = w },
        after (lifted lib (connect connection_string)) _ s
            (lifted-returned (connect connection_string) s c made),
      )

  -- A connection in a transaction, and the rows as before with what others have added.
  record Begun (s : State lib) : Type 0 where
    connection : ℕ
    found : State lib
    begun : State lib
    got : get_connection lib connection_string chunk_size s ≡ (ok connection, found)
    began : lifted lib (begin connection) found ≡ (ok tt, begun)
    grown : Grows rows s begun

  get_connection-Begun : (s : State lib) → Begun s
  unfolding get_connection
  get_connection-Begun s =
      let (c, t, got) = existing-fine s.connection s in
      let found =
        subst (λ (r : Outcome Bytes ℕ × State lib). Grows rows s r.1) got
          (get_connection-Keeps lib table law connection_string chunk_size s) in
      let u : State lib = record t { world = (begin c t.world).1 } in
      record {
        connection = c;
        found = t;
        begun = u;
        got = got;
        began = lifted-returned (begin c) t tt (alive.begins c t.world);
        grown = Grows-trans rows s t u found (law.begin_grows c t.world);
      }

  -- What runs in the transaction decides the call.
  in_transaction :
      {A : Type 0} (body : ℕ → Action lib A) (s : State lib) (b : Begun s)
      → ((get_connection lib connection_string chunk_size >>= λ c.
            lifted lib (begin c) >> closed lib c (body c))
          s).0
        ≡ (body b.connection b.begun).0
  in_transaction body s b =
      ap (λ (r : Outcome Bytes _ × State lib). r.0)
        (after (get_connection lib connection_string chunk_size) _ s b.got
          ∙ after (lifted lib (begin b.connection)) _ b.found b.began)

  -- A fetch gives rows of the table, and none only where there was none.
  get_next-fine :
      (s : State lib)
      → 0 < chunk_size
      → (found : List (ℕ × Bytes)) × ((get_next lib connection_string chunk_size s).0
          ≡ ok (messages_from_rows found))
        × (found ≡ [] → table s.world ≡ [])
  unfolding get_next select
  get_next-fine s positive =
      let b = get_connection-Begun s in
      let (found, read, empty) = alive.selects b.connection chunk_size b.begun.world positive in
      let (more, grown) = b.grown in
      (
        found,
        in_transaction (select lib connection_string chunk_size) s b
            ∙ ap (λ (r : Outcome Bytes (List Message) × State lib). r.0)
                (after (lifted lib (exec_number b.connection select_query chunk_size)) _ b.begun (
                  lifted-returned (exec_number b.connection select_query chunk_size) b.begun found
                    read)),
        λ none. no_left (table s.world) more (sym grown ∙ empty none),
      )

  no_rows : (found : List (ℕ × Bytes)) → messages_from_rows found ≡ [] → found ≡ []
  unfolding messages_from_rows
  no_rows [] e = refl
  no_rows (x ∷ found) e = cc

  -- The first rows are deleted and the deletion committed.
  delete-fine :
      (c : ℕ) (s : State lib) (m : Message) (ms given rest : List Message)
      → ids given ≡ ids (m ∷ ms)
      → table s.world ≡ (m ∷ ms) ++ rest
      → (delete lib connection_string chunk_size c given s).0 ≡ ok tt
  unfolding delete
  delete-fine c s m ms given rest same head =
      let query = deletion (ids (m ∷ ms)) in
      let text = given-deletion given m ms same in
      let deleted = alive.deletes c m ms rest s.world head in
      let w = (exec c query s.world).1 in
      ap (λ (r : Outcome Bytes (Unit {0}) × State lib). r.0)
        (after (lift (delete_query given))
            (λ query. lifted lib (exec c query) >> lifted lib (commit c)) s
            (ap (λ (q : Outcome Bytes Bytes). (q, s)) text)
          ∙ after (lifted lib (exec c query)) (λ _. lifted lib (commit c)) s
              (lifted-returned (exec c query) s tt deleted)
          ∙ lifted-returned (commit c) (record s { world = w }) tt (alive.commits c w))

  mark_consumed-fine :
      (s : State lib) (m : Message) (ms given rest : List Message)
      → ids given ≡ ids (m ∷ ms)
      → stored lib table s ≡ (m ∷ ms) ++ rest
      → (mark_consumed lib connection_string chunk_size given s).0 ≡ ok tt
  unfolding mark_consumed
  mark_consumed-fine s m ms given rest same head =
      let b = get_connection-Begun s in
      in_transaction (λ c. delete lib connection_string chunk_size c given) s b
      ∙ delete-fine b.connection b.begun m ms given _ same
          (still_first rows (m ∷ ms) rest s b.begun head b.grown)

  -- Over a lawful database that answers every call, and with a positive chunk, the producer answers
  -- as the loop needs it to get through its table.
  pub postgres_producer-Answers :
      0 < chunk_size
      → Answers (postgres_producer lib connection_string chunk_size) (stored lib table)
  postgres_producer-Answers positive = record {
    gives = λ s.
        let (found, fetched, empty) = get_next-fine s positive in
        (messages_from_rows found, fetched);
    gives_some = λ s none.
        let (found, fetched, empty) = get_next-fine s positive in
        empty (no_rows found (ok-injective (sym fetched ∙ none)));
    marks = mark_consumed-fine;
  }
