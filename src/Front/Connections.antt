-- ===== src/Front/Connections.antt =====
-- The vector of connections of a writer, one for each thread that has written:
-- `ExclusiveConnection` of redis_writer.hpp and postgres_writer.hpp.
pub mod Interleaving
use gateway_poc.Base.{
  ℕ, ◌≡◌, ◌≢◌, refl, ap, Bool, Option, none, some, List, [], ◌∷◌, ◌++◌, ◌==◌, if◌then◌else◌, All,
  arith,
}

pub record ExclusiveConnection : Type 0 where
  pub thread_id : ℕ
  pub connection : ℕ

-- `std::find_if` by the thread's id.
unfoldable pub find_own : ℕ → List ExclusiveConnection → Option ℕ
find_own thread [] = none
find_own thread (e ∷ es) = if e.thread_id == thread then some e.connection else find_own thread es

-- `push_back`
unfoldable pub add_own : ℕ → ℕ → List ExclusiveConnection → List ExclusiveConnection
add_own thread connection es = es ++ (record { thread_id = thread; connection = connection } ∷ [])

-- A thread without a connection finds the one that it has added; the others find what they had.
pub find_own-add_own :
    (thread other connection : ℕ) (es : List ExclusiveConnection)
    → find_own thread es ≡ none
    → find_own other (add_own thread connection es)
      ≡ (if other == thread then some connection else find_own other es)
unfolding find_own add_own
find_own-add_own thread other connection [] e = ground arith
find_own-add_own thread other connection (x ∷ es) e =
    ground (arith, find_own-add_own thread other connection es)
