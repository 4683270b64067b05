-- ===== src/Back/PostgresProducer/Storage/Mark.antt =====
-- A mark of the producer of Postgres over a database.
use gateway_poc.Base.{ℕ, ◌≡◌, refl, sym, subst, inl, inr, List, [], ◌∷◌, ◌++◌}
use gateway_poc.Base.Bytes.{Bytes}
use gateway_poc.Base.Exec.{lift, continue, ◌>>=◌, ◌>>◌}
use gateway_poc.Base.Outcome.{Outcome}
use gateway_poc.Pqxx.{Pqxx, Tried, returned, broken, failed}
use gateway_poc.Back.Message.{Message}
use gateway_poc.Back.Consumer.Chunks.{ids}
use gateway_poc.Back.Storage.Calls.{
  Defined, bind-Defined, Grows, still_first, Marks, threw-Marks, after-Marks, bind-Marks,
}
use gateway_poc.Back.PostgresProducer.{
  delete_query, thrown, State, Action, lifted, closed, get_connection, delete, mark_consumed,
}
use gateway_poc.Back.PostgresProducer.Marking.{thrown-ok}
use gateway_poc.Back.PostgresProducer.Query.{deletion, given-deletion}
use gateway_poc.Back.PostgresProducer.Database.{IsDatabase, stored, thrown-Defined}
use gateway_poc.Back.PostgresProducer.Storage.Fetch.{get_connection-Keeps, get_connection-Defined}

module _ (lib : Pqxx) (table : lib.World → List Message) (law : IsDatabase lib table)
    (connection_string : Bytes) (chunk_size : ℕ) where
  open lib use {World, connect, begin, exec_number, exec, commit, finish}

  abbrev rows : State lib → List Message
  rows = stored lib table

  abbrev pub MarksBy : List Message → Action lib (Unit {0}) → State lib → Type 0
  MarksBy rest m s = Marks rows rest s (m s).0 (m s).1

  -- The deletion and the commit, behind the text.
  delete-Marks :
      (c : ℕ) (m : Message) (ms rest : List Message) (s : State lib)
      → table s.world ≡ (m ∷ ms) ++ rest
      → MarksBy rest (lifted lib (exec c (deletion (ids (m ∷ ms)))) >> lifted lib (commit c)) s
  delete-Marks c m ms rest s head = go (exec c (deletion (ids (m ∷ ms))) s.world).0 refl
    where
      after : World
      after = (exec c (deletion (ids (m ∷ ms))) s.world).1

      kept : Grows table s.world after
      kept = law.exec_grows c (ids (m ∷ ms)) s.world

      go :
          (r : Tried (Unit {0}))
          → (exec c (deletion (ids (m ∷ ms))) s.world).0 ≡ r
          → Marks rows rest s
              (continue (thrown r) (λ _. lifted lib (commit c)) (record s { world = after })).0
              (continue (thrown r) (λ _. lifted lib (commit c)) (record s { world = after })).1
      go (returned u) e =
          let (more, either) = law.deleted c m ms rest s.world head e in
          record {
            done = λ d. elim either [
              | inl left ↦ (more, left)
              | inr kept ↦ absurd (kept.0 (thrown-ok _ tt d))
            ];
            ended = elim either [ inl left ↦ (more, inl left) | inr kept ↦ (more, inr kept.1) ];
            defined = thrown-Defined _;
          }
      go (broken what) e = threw-Marks rows rest s what (record s { world = after }) kept
      go (failed what) e = threw-Marks rows rest s what (record s { world = after }) kept

  delete_given-Marks :
      (c : ℕ) (m : Message) (ms given rest : List Message) (s : State lib)
      → ids given ≡ ids (m ∷ ms)
      → table s.world ≡ (m ∷ ms) ++ rest
      → MarksBy rest (delete lib connection_string chunk_size c given) s
  unfolding delete
  delete_given-Marks c m ms given rest s same head =
      subst
        (λ (q : Outcome Bytes Bytes).
          MarksBy rest (lift q >>= λ query. lifted lib (exec c query) >> lifted lib (commit c)) s)
        (sym (given-deletion given m ms same)) (delete-Marks c m ms rest s head)

  closed-Marks :
      (c : ℕ) (m : Message) (ms given rest : List Message) (s : State lib)
      → ids given ≡ ids (m ∷ ms)
      → table s.world ≡ (m ∷ ms) ++ rest
      → MarksBy rest (closed lib c (delete lib connection_string chunk_size c given)) s
  closed-Marks c m ms given rest s same head =
      let t = (delete lib connection_string chunk_size c given s).1 in
      after-Marks rows rest s t _ _ (delete_given-Marks c m ms given rest s same head)
        (law.finish_grows c t.world)

  pub mark_consumed-Marks :
      (m : Message) (ms given rest : List Message) (s : State lib)
      → ids given ≡ ids (m ∷ ms)
      → table s.world ≡ (m ∷ ms) ++ rest
      → MarksBy rest (mark_consumed lib connection_string chunk_size given) s
  unfolding mark_consumed
  mark_consumed-Marks m ms given rest s same head =
      bind-Marks rows (get_connection lib connection_string chunk_size) _ rest s
        (get_connection-Keeps lib table law connection_string chunk_size)
        (get_connection-Defined lib table law connection_string chunk_size)
        (λ c t g.
          bind-Marks rows (lifted lib (begin c)) _ (rest ++ g.0) t (λ u. law.begin_grows c u.world)
            (λ u. thrown-Defined (begin c u.world).0)
            (λ _ u k. closed-Marks c m ms given ((rest ++ g.0) ++ k.0) u same (
              still_first rows (m ∷ ms) (rest ++ g.0) t u
                (still_first rows (m ∷ ms) rest s t head g) k)))

  -- Only an empty list is undefined.
  delete-Defined :
      (c : ℕ) (g : Message) (given : List Message)
      → Defined (delete lib connection_string chunk_size c (g ∷ given))
  unfolding delete delete_query
  delete-Defined c g given =
      bind-Defined (lifted lib (exec c _)) (λ _. lifted lib (commit c))
        (λ s. thrown-Defined (exec c _ s.world).0) (λ _ s. thrown-Defined (commit c s.world).0)

  mark_consumed-Defined :
      (g : Message) (given : List Message)
      → Defined (mark_consumed lib connection_string chunk_size (g ∷ given))
  unfolding mark_consumed
  mark_consumed-Defined g given =
      bind-Defined (get_connection lib connection_string chunk_size) _
        (get_connection-Defined lib table law connection_string chunk_size)
        (λ c.
          bind-Defined (lifted lib (begin c)) _ (λ s. thrown-Defined (begin c s.world).0)
            (λ _. delete-Defined c g given))

  pub marked-Defined :
      (given : List Message) (m : Message) (ms : List Message)
      → ids given ≡ ids (m ∷ ms)
      → Defined (mark_consumed lib connection_string chunk_size given)
  marked-Defined [] m ms same = cc
  marked-Defined (g ∷ given) m ms same = mark_consumed-Defined g given
