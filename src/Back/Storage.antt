-- ===== src/Back/Storage.antt =====
-- What a storage of messages promises to the loop of gwback/src/main.cpp, by way of its producer.
pub mod Calls
use gateway_poc.Base.{◌≡◌, ◌≢◌, ◌⊎◌, List, ◌∷◌, ◌++◌}
use gateway_poc.Base.Outcome.{ok, throw, fault}
use gateway_poc.Back.Message.{Message}
use gateway_poc.Back.Consumer.Chunks.{ids}
use gateway_poc.Back.RunLoop.{Producer}

-- What the loop relies on of a storage, whose messages stand in the order in which they are
-- fetched. `more` are the messages that others have added meanwhile, behind the others.
pub record IsStorage {S E : Type 0} (p : Producer S E) (stored : S → List Message) : Type 0 where
  -- A fetch removes nothing, and what it gives are the oldest messages that are there after it.
  pub fetched :
      (s : S) (ms : List Message)
      → (p.get_next s).0 ≡ ok ms
      → (rest : List Message) × (more : List Message) × (stored (p.get_next s).1 ≡ ms ++ rest)
        × (stored (p.get_next s).1 ≡ stored s ++ more)
  pub fetch_failed :
      (s : S) (e : E)
      → (p.get_next s).0 ≡ throw e
      → (more : List Message) × (stored (p.get_next s).1 ≡ stored s ++ more)
  pub fetch_defined : (s : S) → (p.get_next s).0 ≢ fault
  -- Marking the oldest messages, known by their ids, removes them.
  pub deleted :
      (s : S) (m : Message) (ms given rest : List Message)
      → ids given ≡ ids (m ∷ ms)
      → stored s ≡ (m ∷ ms) ++ rest
      → (p.mark_consumed given s).0 ≡ ok tt
      → (more : List Message) × (stored (p.mark_consumed given s).1 ≡ rest ++ more)
  -- A failed call may have removed them or not.
  pub delete_failed :
      (s : S) (e : E) (m : Message) (ms given rest : List Message)
      → ids given ≡ ids (m ∷ ms)
      → stored s ≡ (m ∷ ms) ++ rest
      → (p.mark_consumed given s).0 ≡ throw e
      → (more : List Message) × ((stored (p.mark_consumed given s).1 ≡ rest ++ more)
          ⊎ (stored (p.mark_consumed given s).1 ≡ stored s ++ more))
  pub delete_defined :
      (s : S) (m : Message) (ms given : List Message)
      → ids given ≡ ids (m ∷ ms)
      → (p.mark_consumed given s).0 ≢ fault
