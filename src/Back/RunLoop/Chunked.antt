-- ===== src/Back/RunLoop/Chunked.antt =====
-- The chunks that the loop starts are never empty.
use gateway_poc.Base.{
  ℕ, zero, suc, ◌<◌, ◌≡◌, refl, subst, Option, none, some, List, [], ◌∷◌, ◌++◌, All, All-append,
  arith,
}
use gateway_poc.Base.Outcome.{Outcome, ok, throw, fault}
use gateway_poc.Back.Message.{Message}
use gateway_poc.Back.Consumer.{consume}
use gateway_poc.Back.Consumer.Chunks.{IsOpen, IsChunk, consume-Taken}
use gateway_poc.Back.Consumer.Disk.{Filled}
use gateway_poc.Back.RunLoop.{
  Producer, LoopState, pause, marked, after_consume, received, round, run_loop,
}

some-injective : {A : Type 0} {a b : A} → ◌≡◌ {A = Option A} (some a) (some b) → a ≡ b
some-injective e = cc

-- The consumer is ready for more, and no chunk that it started is empty.
pub record Sound {S : Type 0} (s : LoopState S) : Type 0 where
  pub is_open : IsOpen s.consumer
  pub filled : All Filled s.jobs

chunks-Filled :
    (n : ℕ) (jobs : List (List Message)) → 0 < n → All (IsChunk n) jobs → All Filled jobs
chunks-Filled n [] h full = tt
chunks-Filled n ([] ∷ jobs) h full = absurd (omega (arith, full.0))
chunks-Filled n ((m ∷ ms) ∷ jobs) h full = (λ e. cc, chunks-Filled n jobs h full.1)

module _ {S E : Type 0} (p : Producer S E) where
  marked-Sound :
      (t : LoopState S) (r : Outcome E (Unit {0}) × S) (s' : LoopState S)
      → Sound t
      → marked t r ≡ some s'
      → Sound s'
  unfolding marked pause
  marked-Sound t (ok done, storage) s' v e =
      subst Sound (some-injective e) (record { is_open = v.is_open; filled = v.filled })
  marked-Sound t (throw x, storage) s' v e =
      subst Sound (some-injective e) (record { is_open = v.is_open; filled = v.filled })
  marked-Sound t (fault, storage) s' v e = cc

  received-Sound :
      (s : LoopState S) (r : Outcome E (List Message) × S) (s' : LoopState S)
      → Sound s
      → received p s r ≡ some s'
      → Sound s'
  unfolding received pause after_consume
  received-Sound s (ok [], storage) s' v e =
      subst Sound (some-injective e) (record { is_open = v.is_open; filled = v.filled })
  received-Sound s (ok (m ∷ ms), storage) s' v e =
      let r = consume s.consumer (m ∷ ms) in
      let (accepted, same, t) = consume-Taken s.consumer (m ∷ ms) v.is_open in
      marked-Sound (record s { storage = storage; consumer = r.consumer; jobs = s.jobs ++ r.jobs })
        _ s'
        (record {
          is_open = t.is_open;
          filled =
              All-append Filled s.jobs r.jobs v.filled
                (chunks-Filled s.consumer.chunk_size r.jobs v.is_open.positive t.full);
        })
        (rw accepted at e)
  received-Sound s (throw x, storage) s' v e =
      subst Sound (some-injective e) (record { is_open = v.is_open; filled = v.filled })
  received-Sound s (fault, storage) s' v e = cc

  round-Sound : (s s' : LoopState S) → Sound s → round p s ≡ some s' → Sound s'
  unfolding round
  round-Sound s s' v e = received-Sound s (p.get_next s.storage) s' v e

  -- However often the loop runs.
  pub run_loop-Sound :
      (rounds : ℕ) (s s' : LoopState S) → Sound s → run_loop rounds p s ≡ some s' → Sound s'
  unfolding run_loop
  run_loop-Sound zero s s' v e = subst Sound (some-injective e) v
  run_loop-Sound (suc rounds) s s' v e = go (round p s) refl (λ t. run_loop-Sound rounds t s') e
    where
      go :
          (o : Option (LoopState S))
          → round p s ≡ o
          → ((t : LoopState S) → Sound t → run_loop rounds p t ≡ some s' → Sound s')
          → (elim o [ none ↦ none | some t ↦ run_loop rounds p t ]) ≡ some s'
          → Sound s'
      go none f later h = cc
      go (some t) f later h = later t (round-Sound s t v f) h
