-- ===== src/Back/PostgresProducer/Storage/Fetch.antt =====
-- A fetch of the producer of Postgres over a database.
use mathlib.Core.List.{append_assoc}
use gateway_poc.Base.{ℕ, ◌≡◌, sym, ap, subst, ◌∙◌, Option, none, some, List, ◌++◌}
use gateway_poc.Base.Bytes.{Bytes}
use gateway_poc.Base.Exec.{pure, ◌>>◌, bind-ok}
use gateway_poc.Base.Outcome.{Outcome, ok, ok-injective}
use gateway_poc.Pqxx.{Pqxx}
use gateway_poc.Back.Message.{Message}
use gateway_poc.Back.Storage.Calls.{
  Defined, Keeps, bind-Defined, Grows, Grows-refl, Grows-trans, bind-Grows,
}
use gateway_poc.Back.PostgresProducer.{
  select_query, messages_from_rows, State, Action, lifted, closed, existing, get_connection, select,
  get_next,
}
use gateway_poc.Back.PostgresProducer.Marking.{thrown-ok}
use gateway_poc.Back.PostgresProducer.Database.{IsDatabase, stored, thrown-Defined}

module _ (lib : Pqxx) (table : lib.World → List Message) (law : IsDatabase lib table)
    (connection_string : Bytes) (chunk_size : ℕ) where
  open lib use {World, connect, begin, exec_number, exec, commit, finish}

  abbrev rows : State lib → List Message
  rows = stored lib table

  pub get_connection-Keeps : Keeps (Grows rows) (get_connection lib connection_string chunk_size)
  unfolding get_connection existing
  get_connection-Keeps s = go s.connection s
    where
      go : (o : Option ℕ) → Keeps (Grows rows) (existing lib connection_string chunk_size o)
      go (some c) s = Grows-refl rows s
      go none s =
          bind-Grows rows (lifted lib (connect connection_string)) _
            (λ t. law.connect_grows connection_string t.world) (λ c t. Grows-refl rows t) s

  pub get_connection-Defined : Defined (get_connection lib connection_string chunk_size)
  unfolding get_connection existing
  get_connection-Defined s = go s.connection s
    where
      go : (o : Option ℕ) → Defined (existing lib connection_string chunk_size o)
      go (some c) = λ t h. cc
      go none =
          bind-Defined (lifted lib (connect connection_string)) _
            (λ t. thrown-Defined (connect connection_string t.world).0) (λ c t h. cc)

  select-Keeps : (c : ℕ) → Keeps (Grows rows) (select lib connection_string chunk_size c)
  unfolding select
  select-Keeps c =
      bind-Grows rows (lifted lib (exec_number c select_query chunk_size)) _
        (λ s. law.select_grows c chunk_size s.world) (λ read s. Grows-refl rows s)

  select-Defined : (c : ℕ) → Defined (select lib connection_string chunk_size c)
  unfolding select
  select-Defined c =
      bind-Defined (lifted lib (exec_number c select_query chunk_size)) _
        (λ s. thrown-Defined (exec_number c select_query chunk_size s.world).0) (λ rows s h. cc)

  closed-Keeps :
      {A : Type 0} (c : ℕ) (m : Action lib A)
      → Keeps (Grows rows) m
      → Keeps (Grows rows) (closed lib c m)
  closed-Keeps c m k s =
      Grows-trans rows s (m s).1 (closed lib c m s).1 (k s) (law.finish_grows c (m s).1.world)

  begun-Keeps :
      {A : Type 0} (c : ℕ) (m : Action lib A)
      → Keeps (Grows rows) m
      → Keeps (Grows rows) (lifted lib (begin c) >> m)
  begun-Keeps c m k =
      bind-Grows rows (lifted lib (begin c)) (λ _. m) (λ s. law.begin_grows c s.world) (λ _. k)

  pub get_next-Keeps : Keeps (Grows rows) (get_next lib connection_string chunk_size)
  unfolding get_next
  get_next-Keeps =
      bind-Grows rows (get_connection lib connection_string chunk_size) _ get_connection-Keeps (λ c.
        let select_all : Action lib (List Message) = select lib connection_string chunk_size c in
        begun-Keeps c (closed lib c select_all) (closed-Keeps c select_all (select-Keeps c)))

  pub get_next-Defined : Defined (get_next lib connection_string chunk_size)
  unfolding get_next
  get_next-Defined =
      bind-Defined (get_connection lib connection_string chunk_size) _ get_connection-Defined (λ c.
        bind-Defined (lifted lib (begin c)) _ (λ s. thrown-Defined (begin c s.world).0)
          (λ _. select-Defined c))

  -- The messages are the first rows in the state that the call leaves.
  abbrev pub First : List Message → State lib → Type 0
  First ms t = (rest : List Message) × (table t.world ≡ ms ++ rest)

  select-First :
      (c : ℕ) (s : State lib) (ms : List Message)
      → (closed lib c (select lib connection_string chunk_size c) s).0 ≡ ok ms
      → First ms (closed lib c (select lib connection_string chunk_size c) s).1
  unfolding select
  select-First c s ms h =
      let (found, read, step) =
        bind-ok (lifted lib (exec_number c select_query chunk_size))
          (λ found. pure (messages_from_rows found)) s h in
      let same : messages_from_rows found ≡ ms =
        ok-injective (sym (ap (λ (r : Outcome Bytes (List Message) × State lib). r.0) step) ∙ h) in
      let (rest, first) = law.selected c chunk_size s.world found (thrown-ok _ found read) in
      let select_all : Action lib (List Message) = select lib connection_string chunk_size c in
      let (more, grown) = closed-Keeps c select_all (select-Keeps c) s in
      (
        rest ++ more,
        grown
            ∙ ap (λ (x : List Message). x ++ more) first
            ∙ append_assoc (messages_from_rows found) rest more
            ∙ ap (λ (x : List Message). x ++ (rest ++ more)) same,
      )

  begun-First :
      (c : ℕ) (s : State lib) (ms : List Message)
      → ((lifted lib (begin c) >> closed lib c (select lib connection_string chunk_size c)) s).0
        ≡ ok ms
      → First ms
          ((lifted lib (begin c) >> closed lib c (select lib connection_string chunk_size c)) s).1
  begun-First c s ms h =
      let (u, begun, step) =
        bind-ok (lifted lib (begin c))
          (λ _. closed lib c (select lib connection_string chunk_size c)) s h in
      subst (λ (r : Outcome Bytes (List Message) × State lib). r.0 ≡ ok ms → First ms r.1)
        (sym step) (select-First c _ ms) h

  pub get_next-First :
      (s : State lib) (ms : List Message)
      → (get_next lib connection_string chunk_size s).0 ≡ ok ms
      → First ms (get_next lib connection_string chunk_size s).1
  unfolding get_next
  get_next-First s ms h =
      let (c, found, step) = bind-ok (get_connection lib connection_string chunk_size) _ s h in
      subst (λ (r : Outcome Bytes (List Message) × State lib). r.0 ≡ ok ms → First ms r.1)
        (sym step) (begun-First c _ ms) h
