-- ===== src/Back/RunLoop.antt =====
-- gwback/src/producer/interface.hpp, and `runLoop` of gwback/src/main.cpp. A producer is its two
-- calls on its own state, the storage included.
pub mod Chunked
pub mod Delivery
pub mod Progress
pub mod Taken
use gateway_poc.Base.{
  ℕ, zero, suc, ◌+◌, Bool, true, false, Option, none, some, List, [], ◌∷◌, ◌++◌, if◌then◌else◌,
}
use gateway_poc.Base.Outcome.{Outcome, ok, throw, fault}
use gateway_poc.Back.Message.{Message}
use gateway_poc.Back.Consumer.{MessageConsumer, Consumed, consume}

-- `IProducer`: an exception leaves a state too.
pub record Producer (S E : Type 0) : Type 0 where
  pub get_next : S → Outcome E (List Message) × S
  pub mark_consumed : List Message → S → Outcome E (Unit {0}) × S

-- The storage, the consumer, the chunks that it started threads for, and the pauses of a second.
pub record LoopState (S : Type 0) : Type 0 where
  pub storage : S
  pub consumer : MessageConsumer
  pub jobs : List (List Message)
  pub pauses : ℕ

-- `std::this_thread::sleep_for(PAUSE)`
pause : {S : Type 0} → LoopState S → LoopState S
pause s = record s { pauses = s.pauses + 1 }

module _ {S E : Type 0} where
  -- An exception is logged and followed by a pause; undefined behaviour is no state.
  marked : LoopState S → Outcome E (Unit {0}) × S → Option (LoopState S)
  unfolding pause
  marked s (ok done, storage) = some (record s { storage = storage })
  marked s (throw e, storage) = some (pause (record s { storage = storage }))
  marked s (fault, storage) = none

  after_consume : Producer S E → LoopState S → Consumed → Option (LoopState S)
  unfolding marked
  after_consume p s r =
      let s' : LoopState S = record s { consumer = r.consumer; jobs = s.jobs ++ r.jobs } in
      if r.result then marked s' (p.mark_consumed r.messages s'.storage) else some s'

  received : Producer S E → LoopState S → Outcome E (List Message) × S → Option (LoopState S)
  unfolding after_consume pause
  received p s (ok [], storage) = some (pause (record s { storage = storage }))
  received p s (ok (m ∷ messages), storage) =
      after_consume p (record s { storage = storage }) (consume s.consumer (m ∷ messages))
  received p s (throw e, storage) = some (pause (record s { storage = storage }))
  received p s (fault, storage) = none

  -- The body of the loop.
  unfoldable pub round : Producer S E → LoopState S → Option (LoopState S)
  unfolding received
  round p s = received p s (p.get_next s.storage)

  -- `run` is read as true this often.
  unfoldable pub run_loop : ℕ → Producer S E → LoopState S → Option (LoopState S)
  run_loop zero p s = some s
  run_loop (suc rounds) p s = elim (round p s) [ none ↦ none | some s' ↦ run_loop rounds p s' ]
