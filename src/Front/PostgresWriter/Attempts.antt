-- ===== src/Front/PostgresWriter/Attempts.antt =====
-- The retries of a write, and the connection that they use.
use gateway_poc.Base.{ℕ, zero, suc, ◌≤◌, ◌≡◌, refl, ap, ◌∙◌, some, List, [], arith}
use gateway_poc.Base.Bytes.{Bytes}
use gateway_poc.Pqxx.{Pqxx, Tried, returned, broken, failed, next}
use gateway_poc.Front.Connections.{ExclusiveConnection, find_own}
use gateway_poc.Front.Handler.{WriteResult, WriterError, generic, storage_unavailable}
use gateway_poc.Front.PostgresWriter.{
  State, lifted, found, find_connection, transaction, attempt, outcome, unavailable, write_loop,
  write, reconnect_retries,
}

module _ (lib : Pqxx) (connection_string : Bytes) (thread : ℕ) (bytes : Bytes) where
  abbrev try : State lib → Tried (Unit {0}) × State lib
  try = attempt lib connection_string thread bytes

  -- `n` attempts one after the other, each ended by a broken connection.
  abbrev pub Broke : ℕ → State lib → State lib → Type 0
  Broke zero s u = s ≡ u
  Broke (suc n) s u = (what : Bytes) × (t : State lib) × (try s ≡ (broken what, t)) × Broke n t u

  -- How a write with `left` retries ends: at the first attempt that is not broken, or at the last.
  pub data Ends (left : ℕ) (s : State lib) (r : WriteResult × State lib) : Type 0 where
    wrote :
        (n : ℕ) (t : State lib)
        → n ≤ left
        → Broke n s t
        → try t ≡ (returned tt, r.1)
        → r.0 ≡ record { error = WriterError.ok; message = [] }
        → Ends left s r
    refused :
        (n : ℕ) (t : State lib) (what : Bytes)
        → n ≤ left
        → Broke n s t
        → try t ≡ (failed what, r.1)
        → r.0 ≡ record { error = generic; message = what }
        → Ends left s r
    gave_up :
        (t : State lib) (what : Bytes)
        → Broke left s t
        → try t ≡ (broken what, r.1)
        → r.0 ≡ record { error = storage_unavailable; message = what }
        → Ends left s r

  later :
      (left : ℕ) (s t : State lib) (what : Bytes) (r : WriteResult × State lib)
      → try s ≡ (broken what, t)
      → Ends left t r
      → Ends (suc left) s r
  later left s t what r e (wrote n u l b a m) = wrote (suc n) u (omega arith) (what, t, e, b) a m
  later left s t what r e (refused n u w l b a m) =
      refused (suc n) u w (omega arith) (what, t, e, b) a m
  later left s t what r e (gave_up u w b a m) = gave_up u w (what, t, e, b) a m

  outcome-Ends :
      (left : ℕ) (s t : State lib) (o : Tried (Unit {0}))
      (again : Bytes → State lib → WriteResult × State lib)
      → try s ≡ (o, t)
      → ((what : Bytes) → try s ≡ (broken what, t) → Ends left s (again what t))
      → Ends left s (outcome lib connection_string thread (o, t) again)
  unfolding outcome
  outcome-Ends left s t (returned tt) again e broke = wrote 0 s (omega arith) refl e refl
  outcome-Ends left s t (broken what) again e broke = broke what e
  outcome-Ends left s t (failed what) again e broke = refused 0 s what (omega arith) refl e refl

  write_loop-Ends :
      (left : ℕ) (s : State lib)
      → Ends left s (write_loop lib connection_string thread left bytes s)
  unfolding write_loop unavailable
  write_loop-Ends zero s =
      outcome-Ends zero s (try s).1 (try s).0 _ refl (λ what e. gave_up s what refl e refl)
  write_loop-Ends (suc left) s =
      outcome-Ends (suc left) s (try s).1 (try s).0 _ refl
        (λ what e. later left s (try s).1 what _ e (write_loop-Ends left (try s).1))

  -- A write always ends. It makes at most three attempts, and goes on only after a broken
  -- connection: it reports success exactly for an attempt that returned, an unavailable storage
  -- after three broken ones, and else the error of the attempt that failed.
  pub write-Ends : (s : State lib) → Ends 2 s (write lib connection_string thread bytes s)
  unfolding write
  write-Ends s = write_loop-Ends reconnect_retries s

module _ (lib : Pqxx) (connection_string : Bytes) (thread : ℕ) where
  find_connection-own :
      (s : State lib) (c : ℕ)
      → find_own thread s.connections ≡ some c
      → find_connection lib connection_string thread s ≡ (returned c, s)
  unfolding find_connection found
  find_connection-own s c own = rw own

  executed-keeps :
      (c : ℕ) (r : Tried (Unit {0})) (s : State lib)
      → (next r (λ _. lifted lib (lib.commit c)) s).1.connections ≡ s.connections
  executed-keeps c (returned done) s = refl
  executed-keeps c (broken what) s = refl
  executed-keeps c (failed what) s = refl

  begun-keeps :
      (bytes : Bytes) (c : ℕ) (r : Tried (Unit {0})) (s : State lib)
      → (next r (λ _. transaction lib connection_string thread bytes c) s).1.connections
        ≡ s.connections
  unfolding transaction
  begun-keeps bytes c (returned done) s = executed-keeps c _ _
  begun-keeps bytes c (broken what) s = refl
  begun-keeps bytes c (failed what) s = refl

  attempt-keeps :
      (bytes : Bytes) (s : State lib) (c : ℕ)
      → find_own thread s.connections ≡ some c
      → (attempt lib connection_string thread bytes s).1.connections ≡ s.connections
  unfolding attempt
  attempt-keeps bytes s c own = rw (find_connection-own s c own) (begun-keeps bytes c _ _)

  outcome-keeps :
      (es : List ExclusiveConnection) (o : Tried (Unit {0})) (s : State lib)
      (again : Bytes → State lib → WriteResult × State lib)
      → s.connections ≡ es
      → ((what : Bytes) → (again what s).1.connections ≡ es)
      → (outcome lib connection_string thread (o, s) again).1.connections ≡ es
  unfolding outcome
  outcome-keeps es (returned done) s again e broke = e
  outcome-keeps es (broken what) s again e broke = broke what
  outcome-keeps es (failed what) s again e broke = e

  write_loop-keeps :
      (left : ℕ) (bytes : Bytes) (s : State lib) (c : ℕ)
      → find_own thread s.connections ≡ some c
      → (write_loop lib connection_string thread left bytes s).1.connections ≡ s.connections
  unfolding write_loop unavailable
  write_loop-keeps zero bytes s c own =
      let kept = attempt-keeps bytes s c own in
      outcome-keeps s.connections _ (attempt lib connection_string thread bytes s).1 _ kept
        (λ what. kept)
  write_loop-keeps (suc left) bytes s c own =
      let t = (attempt lib connection_string thread bytes s).1 in
      let kept = attempt-keeps bytes s c own in
      outcome-keeps s.connections _ t _ kept
        (λ what. write_loop-keeps left bytes t c (ap (find_own thread) kept ∙ own) ∙ kept)

  -- Once a thread has a connection its writes leave the connections as they are, whatever happens:
  -- a retry after a broken connection runs on that same connection.
  pub write-keeps :
      (bytes : Bytes) (s : State lib) (c : ℕ)
      → find_own thread s.connections ≡ some c
      → ((write lib connection_string thread bytes s).1.connections ≡ s.connections)
        × (find_connection lib connection_string thread
              (write lib connection_string thread bytes s).1
            ≡ (returned c, (write lib connection_string thread bytes s).1))
  unfolding write
  write-keeps bytes s c own =
      let kept = write_loop-keeps reconnect_retries bytes s c own in
      (kept, find_connection-own _ c (ap (find_own thread) kept ∙ own))
