-- ===== src/Back/PostgresProducer/Marking.antt =====
-- What a mark that returns has done.
use gateway_poc.Base.{ℕ, ◌≡◌, ◌≢◌, sym, ap, subst, ◌∙◌, List, [], ◌∷◌}
use gateway_poc.Base.Bytes.{Bytes}
use gateway_poc.Base.Exec.{lift, ◌>>◌, bind-ok}
use gateway_poc.Base.Outcome.{Outcome, ok, ok-injective}
use gateway_poc.Pqxx.{Pqxx, Tried, returned, broken, failed}
use gateway_poc.Back.Message.{Message}
use gateway_poc.Back.Consumer.Chunks.{ids}
use gateway_poc.Back.PostgresProducer.Query.{deletion, delete_query-deletion}
use gateway_poc.Back.PostgresProducer.{
  delete_query, thrown, State, lifted, closed, get_connection, delete, mark_consumed,
}

pub thrown-ok : {A : Type 0} (r : Tried A) (a : A) → thrown r ≡ ok a → r ≡ returned a
thrown-ok (returned b) a e = ap returned (ok-injective e)
thrown-ok (broken what) a e = cc
thrown-ok (failed what) a e = cc

module _ (lib : Pqxx) (connection_string : Bytes) (chunk_size : ℕ) (messages : List Message) where
  open lib use {World, begin, exec, commit, finish}

  -- The transaction of a mark: the text that deletes the messages was run, then it was committed
  -- and ended, and nothing came after.
  pub record Committed (t : State lib) : Type 0 where
    pub connection : ℕ
    pub query : Bytes
    pub before : World
    pub written : delete_query messages ≡ ok query
    pub run : (exec connection query before).0 ≡ returned tt
    pub kept : (commit connection (exec connection query before).1).0 ≡ returned tt
    pub last : finish connection (commit connection (exec connection query before).1).1 ≡ t.world

  delete-Committed :
      (c : ℕ) (s : State lib)
      → (delete lib connection_string chunk_size c messages s).0 ≡ ok tt
      → Committed (closed lib c (delete lib connection_string chunk_size c messages) s).1
  unfolding delete
  delete-Committed c s h =
      let (q, written, step₁) =
        bind-ok (lift (delete_query messages))
          (λ query. lifted lib (exec c query) >> lifted lib (commit c)) s h in
      let h₁ = sym (ap (λ (r : Outcome Bytes (Unit {0}) × State lib). r.0) step₁) ∙ h in
      let (u, run, step₂) = bind-ok (lifted lib (exec c q)) (λ _. lifted lib (commit c)) s h₁ in
      let h₂ = sym (ap (λ (r : Outcome Bytes (Unit {0}) × State lib). r.0) step₂) ∙ h₁ in
      (record {
        connection = c;
        query = q;
        before = s.world;
        written = written;
        run = thrown-ok _ tt run;
        kept = thrown-ok _ tt h₂;
        last =
            sym (
              ap (λ (r : Outcome Bytes (Unit {0}) × State lib). finish c r.1.world)
                (step₁ ∙ step₂));
      })

  begun-Committed :
      (c : ℕ) (s : State lib)
      → ((lifted lib (begin c) >> closed lib c (delete lib connection_string chunk_size c messages))
          s).0
        ≡ ok tt
      → Committed
          ((lifted lib (begin c)
              >> closed lib c (delete lib connection_string chunk_size c messages))
            s).1
  begun-Committed c s h =
      let (u, begun, step) =
        bind-ok (lifted lib (begin c))
          (λ _. closed lib c (delete lib connection_string chunk_size c messages)) s h in
      subst (λ (r : Outcome Bytes (Unit {0}) × State lib). r.0 ≡ ok tt → Committed r.1) (sym step)
        (delete-Committed c _) h

  mark_consumed-Committed :
      (s : State lib)
      → (mark_consumed lib connection_string chunk_size messages s).0 ≡ ok tt
      → Committed (mark_consumed lib connection_string chunk_size messages s).1
  unfolding mark_consumed
  mark_consumed-Committed s h =
      let (c, found, step) = bind-ok (get_connection lib connection_string chunk_size) _ s h in
      subst (λ (r : Outcome Bytes (Unit {0}) × State lib). r.0 ≡ ok tt → Committed r.1) (sym step)
        (begun-Committed c _) h

-- The last transaction of the library's calls: the statement that deletes the rows with these ids
-- was run, its commit returned, it was ended, and nothing came after.
pub record Deleted (lib : Pqxx) (is : List ℕ) (w : lib.World) : Type 0 where
  pub connection : ℕ
  pub before : lib.World
  pub run : (lib.exec connection (deletion is) before).0 ≡ returned tt
  pub kept : (lib.commit connection (lib.exec connection (deletion is) before).1).0 ≡ returned tt
  pub last :
      lib.finish connection (lib.commit connection (lib.exec connection (deletion is) before).1).1
      ≡ w

-- The text that was run is the whole statement for the messages.
Committed-Deleted :
    (lib : Pqxx) (connection_string : Bytes) (chunk_size : ℕ) (messages : List Message)
    (t : State lib)
    → Committed lib connection_string chunk_size messages t
    → (messages ≢ []) × Deleted lib (ids messages) t.world
unfolding delete_query
Committed-Deleted lib connection_string chunk_size [] t c = cc (c.written)
Committed-Deleted lib connection_string chunk_size (m ∷ messages) t c =
    let same : deletion (ids (m ∷ messages)) ≡ c.query =
      ok-injective (sym (delete_query-deletion m messages) ∙ c.written) in
    (
      λ h. cc,
      record {
        connection = c.connection;
        before = c.before;
        run = ap (λ (q : Bytes). (lib.exec c.connection q c.before).0) same ∙ c.run;
        kept =
            ap (λ (q : Bytes). (lib.commit c.connection (lib.exec c.connection q c.before).1).0)
              same
            ∙ c.kept;
        last =
            ap
              (λ (q : Bytes).
                lib.finish c.connection
                  (lib.commit c.connection (lib.exec c.connection q c.before).1).1)
              same
            ∙ c.last;
      },
    )

-- A mark of the producer returns only for messages, one at least, for which its last transaction
-- has run the statement that deletes the rows with exactly their ids, and was committed and ended.
pub mark_consumed-Deleted :
    (lib : Pqxx) (connection_string : Bytes) (chunk_size : ℕ) (messages : List Message)
    (s : State lib)
    → (mark_consumed lib connection_string chunk_size messages s).0 ≡ ok tt
    → (messages ≢ [])
      × Deleted lib
          (ids messages)
          (mark_consumed lib connection_string chunk_size messages s).1.world
mark_consumed-Deleted lib connection_string chunk_size messages s h =
    Committed-Deleted lib connection_string chunk_size messages _
      (mark_consumed-Committed lib connection_string chunk_size messages s h)
