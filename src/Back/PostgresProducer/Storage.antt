-- ===== src/Back/PostgresProducer/Storage.antt =====
-- The producer of Postgres as a storage of the loop.
mod Fetch
pub mod Healthy
mod Mark
use mathlib.Core.List.{append_assoc, append-nil}
use gateway_poc.Base.{
  ℕ, suc, ◌≤◌, ◌≡◌, ◌≢◌, refl, sym, ap, subst, ◌∙◌, ◌⊎◌, inl, inr, Option, none, some, List, [],
  ◌∷◌, ◌++◌, length, All, arith,
}
use gateway_poc.Base.Bytes.{Bytes, codes}
use gateway_poc.Base.Exec.{pure, lift, continue, ◌>>=◌, ◌>>◌, bind-ok}
use gateway_poc.Base.Outcome.{Outcome, ok, throw, fault, ok-injective}
use gateway_poc.Pqxx.{Pqxx, Tried, returned, broken, failed}
use gateway_poc.Back.Message.{Message}
use gateway_poc.Back.Consumer.Chunks.{ids}
use gateway_poc.Back.Storage.{IsStorage}
use gateway_poc.Back.Storage.Calls.{
  Defined, Keeps, bind-Defined, Grows, Grows-refl, Grows-trans, still_first, bind-Grows, Marks,
  threw-Marks, after-Marks, bind-Marks,
}
use gateway_poc.Back.PostgresProducer.{
  select_query, messages_from_rows, delete_query, thrown, State, Action, lifted, closed, existing,
  get_connection, select, get_next, delete, mark_consumed, postgres_producer,
}
use gateway_poc.Back.PostgresProducer.Marking.{thrown-ok}
use gateway_poc.Back.PostgresProducer.Database.{IsDatabase, stored, thrown-Defined}
use gateway_poc.Back.PostgresProducer.Storage.Fetch.{
  get_next-First, get_next-Keeps, get_next-Defined,
}
use gateway_poc.Back.PostgresProducer.Storage.Mark.{mark_consumed-Marks, marked-Defined}

module _ (lib : Pqxx) (table : lib.World → List Message) (law : IsDatabase lib table)
    (connection_string : Bytes) (chunk_size : ℕ) where
  -- Over a database that orders rows by their ids, deletes the first rows for the statement that
  -- lists their ids, and shows only what is committed, while others add rows at the end, the
  -- producer is a storage as the loop relies on it.
  pub postgres_producer-IsStorage :
      IsStorage (postgres_producer lib connection_string chunk_size) (stored lib table)
  postgres_producer-IsStorage = record {
    fetched = λ s ms h.
        let (rest, first) = get_next-First lib table law connection_string chunk_size s ms h in
        let (more, grown) = get_next-Keeps lib table law connection_string chunk_size s in
        (rest, more, first, grown);
    fetch_failed = λ s e h. get_next-Keeps lib table law connection_string chunk_size s;
    fetch_defined = get_next-Defined lib table law connection_string chunk_size;
    deleted = λ s m ms given rest same head h.
        (mark_consumed-Marks lib table law connection_string chunk_size m ms given rest s same
            head).done
          h;
    delete_failed = λ s e m ms given rest same head h.
        (mark_consumed-Marks lib table law connection_string chunk_size m ms given rest s same
          head).ended;
    delete_defined = λ s m ms given same.
        marked-Defined lib table law connection_string chunk_size given m ms same s;
  }
