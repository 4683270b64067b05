-- ===== src/Front/RedisWriter/Accepted.antt =====
-- When a write to Redis succeeds, and what a thread's connection is afterwards.
use gateway_poc.Base.{
  ℕ, ◌≡◌, refl, ap, ◌∙◌, Bool, true, false, Option, none, some, if◌then◌else◌, Bool-cases, inl, inr,
  arith,
}
use gateway_poc.Base.Bytes.{Bytes}
use gateway_poc.Common.Config.{RedisConfig}
use gateway_poc.Hiredis.{Hiredis, Reply, error, Err, redis_ok, xadd}
use gateway_poc.Front.Connections.{find_own}
use gateway_poc.Front.Handler.{WriteResult, WriterError}
use gateway_poc.Front.RedisWriter.{
  State, CheckedConnection, checked, is_lost, messages_stream, data_field, find_connection, by_err,
  by_reply, finish, send, retried, sent, write_to, write,
}

module _ (lib : Hiredis) (config : RedisConfig) (thread : ℕ) (bytes : Bytes) where
  open lib use {World, command, err}

  abbrev pub is_error : Option Reply → Bool
  is_error (some (error text)) = true
  is_error reply = false

  -- The server took the message: the command that carries it was the last one on a connection that
  -- is in order, and its reply is no error.
  pub record Took (s : State lib) : Type 0 where
    pub connection : ℕ
    pub before : World
    pub after : (command connection (xadd messages_stream data_field bytes) before).1 ≡ s.world
    pub healthy : err s.world connection ≡ redis_ok
    pub no_error :
        is_error (command connection (xadd messages_stream data_field bytes) before).0 ≡ false

  pub by-ok :
      (reply : Option Reply) (e : Err) (text : Bytes)
      → (by_reply lib config thread reply (by_err lib config thread e text)).error ≡ WriterError.ok
      → (e ≡ redis_ok) × (is_error reply ≡ false)
  unfolding by_reply by_err
  by-ok reply e text h = ground arith

  finish-Took :
      (c : ℕ) (s : State lib) (w : World)
      → (finish lib config thread c s (send lib config thread bytes c w)).0.error ≡ WriterError.ok
      → Took (finish lib config thread c s (send lib config thread bytes c w)).1
  unfolding finish send
  finish-Took c s w h =
      let (healthy, fine) = by-ok _ _ _ h in
      record { connection = c; before = w; after = refl; healthy = healthy; no_error = fine }

  retried-Took :
      (s : State lib) (r : CheckedConnection) (w : World) (o : Option ℕ)
      → r.connection ≡ o
      → (retried lib config thread bytes s (r, w)).0.error ≡ WriterError.ok
      → Took (retried lib config thread bytes s (r, w)).1
  unfolding retried
  retried-Took s r w none e h = cc (rw (e, retried) at h)
  retried-Took s r w (some c) e h = rw (e, retried) (finish-Took c s w (rw (e, retried) at h))

  sent-Took :
      (c : ℕ) (s : State lib) (w : World)
      → (sent lib config thread bytes c s (send lib config thread bytes c w)).0.error
        ≡ WriterError.ok
      → Took (sent lib config thread bytes c s (send lib config thread bytes c w)).1
  unfolding sent finish
  sent-Took c s w h =
      let (reply, w') = send lib config thread bytes c w in
      elim (Bool-cases (is_lost (err w' c))) [
        | inl lost ↦ rw lost (retried-Took s _ _ _ refl (rw (lost, if◌then◌else◌) at h))
        | inr held ↦ rw held (finish-Took c s w (rw (held, if◌then◌else◌) at h))
      ]

  write_to-Took :
      (r : CheckedConnection) (s : State lib) (o : Option ℕ)
      → r.connection ≡ o
      → (write_to lib config thread bytes (r, s)).0.error ≡ WriterError.ok
      → Took (write_to lib config thread bytes (r, s)).1
  unfolding write_to
  write_to-Took r s none e h = cc (rw (e, write_to) at h)
  write_to-Took r s (some c) e h = rw (e, write_to) (sent-Took c s s.world (rw (e, write_to) at h))

  -- A write reports success only if the server took the message: the `XADD` of exactly these bytes
  -- was the last command, the connection is in order after it, and the reply is no error.
  pub write-Took :
      (s : State lib)
      → (write lib config thread bytes s).0.error ≡ WriterError.ok
      → Took (write lib config thread bytes s).1
  unfolding write
  write-Took s h = write_to-Took (find_connection lib config thread s).0 _ _ refl h

  find_connection-own :
      (s : State lib) (c : ℕ)
      → find_own thread s.connections ≡ some c
      → find_connection lib config thread s ≡ (checked c, s)
  unfolding find_connection
  find_connection-own s c own = rw (own, find_connection)

  retried-keeps :
      (s : State lib) (r : CheckedConnection) (w : World) (o : Option ℕ)
      → r.connection ≡ o
      → (retried lib config thread bytes s (r, w)).1.connections ≡ s.connections
  unfolding retried finish
  retried-keeps s r w none e = rw (e, retried)
  retried-keeps s r w (some c) e = rw (e, retried)

  sent-keeps :
      (s : State lib) (c : ℕ) (r : Option Reply × World)
      → (sent lib config thread bytes c s r).1.connections ≡ s.connections
  unfolding sent finish
  sent-keeps s c (reply, w) = elim (Bool-cases (is_lost (err w c))) [
    | inl lost ↦ rw lost (retried-keeps s _ _ _ refl)
    | inr held ↦ rw held refl
  ]

  write-sent :
      (s : State lib) (c : ℕ)
      → find_own thread s.connections ≡ some c
      → write lib config thread bytes s
        ≡ sent lib config thread bytes c s (send lib config thread bytes c s.world)
  unfolding write write_to
  write-sent s c own = ap (write_to lib config thread bytes) (find_connection-own s c own)

module _ (lib : Hiredis) (config : RedisConfig) (thread : ℕ) where
  -- A thread that has a connection keeps it, whatever the write met: also when connecting again or
  -- authenticating again has failed, the next write sends its message on it at once, with no `AUTH`
  -- before it.
  pub redis_write-keeps :
      (bytes next : Bytes) (s : State lib) (c : ℕ)
      → find_own thread s.connections ≡ some c
      → ((write lib config thread bytes s).1.connections ≡ s.connections)
        × (write lib config thread next (write lib config thread bytes s).1
            ≡ sent lib config thread next c
                (write lib config thread bytes s).1
                (send lib config thread next c (write lib config thread bytes s).1.world))
  redis_write-keeps bytes next s c own =
      let kept =
        ap (λ (r : WriteResult × State lib). r.1.connections)
          (write-sent lib config thread bytes s c own)
        ∙ sent-keeps lib config thread bytes s c (send lib config thread bytes c s.world) in
      (kept, write-sent lib config thread next _ c (ap (find_own thread) kept ∙ own))
