-- ===== src/Pqxx.antt =====
-- The libpqxx library, as the two programs call it: a record of operations on a world that holds
-- the connections and the database. A connection is the object that the constructor made, and a
-- transaction belongs to its connection.
use gateway_poc.Base.{ℕ, List}
use gateway_poc.Base.Bytes.{Bytes}

-- A call returns, or throws `pqxx::broken_connection` or another exception, with its `what()`.
pub data Tried (A : Type 0) : Type 0 where
  returned : A → Tried A
  broken : Bytes → Tried A
  failed : Bytes → Tried A

pub record Pqxx : Type 1 where
  pub World : Type 0
  -- `pqxx::connection{connectionString}`
  pub connect : Bytes → World → Tried ℕ × World
  -- `pqxx::work{connection}`
  pub begin : ℕ → World → Tried (Unit {0}) × World
  -- `exec_params` of a query with one binary parameter
  pub exec_binary : ℕ → Bytes → Bytes → World → Tried (Unit {0}) × World
  -- `exec_params` of a query with one number, and the rows of its result: an id and its data
  pub exec_number : ℕ → Bytes → ℕ → World → Tried (List (ℕ × Bytes)) × World
  -- `exec` of a text
  pub exec : ℕ → Bytes → World → Tried (Unit {0}) × World
  pub commit : ℕ → World → Tried (Unit {0}) × World
  -- the destructor of a transaction
  pub finish : ℕ → World → World

-- Calls on a state that may throw.
module _ {S A B : Type 0} where
  abbrev pub next : Tried A → (A → S → Tried B × S) → S → Tried B × S
  next (returned a) f s = f a s
  next (broken m) f s = (broken m, s)
  next (failed m) f s = (failed m, s)

  infixl 5 ◌>>=◌ ◌>>◌
  abbrev pub ◌>>=◌ : (S → Tried A × S) → (A → S → Tried B × S) → S → Tried B × S
  ◌>>=◌ m f s = let (r, s') = m s in next r f s'

  abbrev pub ◌>>◌ : (S → Tried A × S) → (S → Tried B × S) → S → Tried B × S
  m >> k = m >>= λ _. k

abbrev pub pure : {S A : Type 0} → A → S → Tried A × S
pure a s = (returned a, s)
