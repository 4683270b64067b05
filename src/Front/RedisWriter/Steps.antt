-- ===== src/Front/RedisWriter/Steps.antt =====
-- The calls of a write to Redis, one after the other.
use gateway_poc.Base.{ℕ, ◌≡◌, refl, false, Bool-cases, inl, inr, Option, none, some}
use gateway_poc.Base.Bytes.{Bytes}
use gateway_poc.Common.Config.{RedisConfig}
use gateway_poc.Hiredis.{Hiredis, redis_ok, is_ok, auth, xadd}
use gateway_poc.Front.Connections.{find_own}
use gateway_poc.Front.Handler.{WriteResult, WriterError}
use gateway_poc.Front.RedisWriter.{
  State, CheckedConnection, is_lost, messages_stream, data_field, authenticate, kept_or_freed,
  connected, create_connection, reconnect_and_authenticate, created, find_connection, finish, send,
  retried, sent, write_to, write,
}
use gateway_poc.Front.RedisWriter.Accepted.{is_error, by-ok}

-- What every call of a writer does to the world.
pub record IsKept (lib : Hiredis) (R : lib.World → lib.World → Type 0) : Type 0 where
  pub at_once : (w : lib.World) → R w w
  pub through : (w w' w'' : lib.World) → R w w' → R w' w'' → R w w''
  pub connects : (host : Bytes) (port : ℕ) (w : lib.World) → R w (lib.connect host port w).1
  pub reconnects : (c : ℕ) (w : lib.World) → R w (lib.reconnect c w).1
  pub frees : (c : ℕ) (w : lib.World) → R w (lib.free c w)
  pub signs_in :
      (c : ℕ) (user password : Bytes) (w : lib.World) → R w (lib.command c (auth user password) w).1
  pub adds :
      (c : ℕ) (body : Bytes) (w : lib.World)
      → R w (lib.command c (xadd messages_stream data_field body) w).1

module _ (lib : Hiredis) (R : lib.World → lib.World → Type 0) (law : IsKept lib R)
    (config : RedisConfig) where
  open lib use {World, connect, reconnect, command, free, err}

  authenticate-kept : (c : ℕ) (w : World) → R w (authenticate lib config c w).1
  unfolding authenticate
  authenticate-kept c w = law.signs_in c config.user config.password w

  reconnected-kept : (c : ℕ) (w : World) → R w (reconnect_and_authenticate lib config c w).1
  unfolding reconnect_and_authenticate
  reconnected-kept c w = elim (Bool-cases (reconnect c w).0) [
    | inl done ↦
        rw done (law.through w _ _ (law.reconnects c w) (authenticate-kept c (reconnect c w).1))
    | inr failed ↦ rw failed (law.reconnects c w)
  ]

  freed-kept :
      (w₀ : World) (c : ℕ) (r : CheckedConnection) (w : World) (o : Option ℕ)
      → r.connection ≡ o
      → R w₀ w
      → R w₀ (kept_or_freed lib config c (r, w)).1
  unfolding kept_or_freed
  freed-kept w₀ c r w none e k = rw (e, kept_or_freed) (law.through w₀ _ _ k (law.frees c w))
  freed-kept w₀ c r w (some d) e k = rw (e, kept_or_freed) k

  connected-kept :
      (w₀ : World) (o : Option ℕ) (w : World) → R w₀ w → R w₀ (connected lib config (o, w)).1
  unfolding connected
  connected-kept w₀ none w k = k
  connected-kept w₀ (some c) w k = elim (Bool-cases (is_ok (err w c))) [
    | inl fine ↦ rw fine (
        freed-kept w₀ c (authenticate lib config c w).0 _ _ refl
          (law.through w₀ _ _ k (authenticate-kept c w)))
    | inr broke ↦ rw broke (law.through w₀ _ _ k (law.frees c w))
  ]

  created-kept : (w : World) → R w (create_connection lib config w).1
  unfolding create_connection
  created-kept w = connected-kept w _ _ (law.connects config.host config.port w)

  module _ (thread : ℕ) where
    made-kept :
        (s : State lib) (r : CheckedConnection) (w : World) (o : Option ℕ)
        → r.connection ≡ o
        → R s.world w
        → R s.world (created lib config thread s (r, w)).1.world
    unfolding created
    made-kept s r w none e k = rw (e, created) k
    made-kept s r w (some c) e k = rw (e, created) k

    found-kept :
        (s : State lib) (o : Option ℕ)
        → find_own thread s.connections ≡ o
        → R s.world (find_connection lib config thread s).1.world
    unfolding find_connection
    found-kept s none e = rw (e, find_connection) (made-kept s _ _ _ refl (created-kept s.world))
    found-kept s (some c) e = rw (e, find_connection) (law.at_once s.world)

    module _ (body : Bytes) (w₀ : World) where
      -- The call that took the message, which no other follows.
      pub record TookAfter (w' : World) : Type 0 where
        pub connection : ℕ
        pub before : World
        pub reached : R w₀ before
        pub after : (command connection (xadd messages_stream data_field body) before).1 ≡ w'
        pub healthy : err w' connection ≡ redis_ok
        pub no_error :
            is_error lib config thread body
              (command connection (xadd messages_stream data_field body) before).0
            ≡ false

      -- How a write ends that began in `w₀`.
      pub record Wrote (r : WriteResult × State lib) : Type 0 where
        pub kept : R w₀ r.1.world
        pub took : r.0.error ≡ WriterError.ok → TookAfter r.1.world

      send-kept : (c : ℕ) (w : World) → R w₀ w → R w₀ (send lib config thread body c w).1
      unfolding send
      send-kept c w k = law.through w₀ _ _ k (law.adds c body w)

      finish-Wrote :
          (c : ℕ) (s : State lib) (w : World)
          → R w₀ w
          → Wrote (finish lib config thread c s (send lib config thread body c w))
      unfolding finish send
      finish-Wrote c s w k = record {
        kept = law.through w₀ _ _ k (law.adds c body w);
        took = λ h.
            let (healthy, fine) = by-ok lib config thread body _ _ _ h in
            record {
              connection = c;
              before = w;
              reached = k;
              after = refl;
              healthy = healthy;
              no_error = fine;
            };
      }

      retried-Wrote :
          (s : State lib) (r : CheckedConnection) (w : World) (o : Option ℕ)
          → r.connection ≡ o
          → R w₀ w
          → Wrote (retried lib config thread body s (r, w))
      unfolding retried
      retried-Wrote s r w none e k = rw (e, retried) (record { kept = k; took = λ h. cc })
      retried-Wrote s r w (some c) e k = rw (e, retried) (finish-Wrote c s w k)

      sent-Wrote :
          (c : ℕ) (s : State lib) (w : World)
          → R w₀ w
          → Wrote (sent lib config thread body c s (send lib config thread body c w))
      unfolding sent
      sent-Wrote c s w k =
          let w' = (send lib config thread body c w).1 in
          elim (Bool-cases (is_lost (err w' c))) [
            | inl lost ↦ rw lost (
                retried-Wrote s _ _ _ refl
                  (law.through w₀ _ _ (send-kept c w k) (reconnected-kept c w')))
            | inr held ↦ rw held (finish-Wrote c s w k)
          ]

      write_to-Wrote :
          (r : CheckedConnection) (s : State lib) (o : Option ℕ)
          → r.connection ≡ o
          → R w₀ s.world
          → Wrote (write_to lib config thread body (r, s))
      unfolding write_to
      write_to-Wrote r s none e k = rw (e, write_to) (record { kept = k; took = λ h. cc })
      write_to-Wrote r s (some c) e k = rw (e, write_to) (sent-Wrote c s s.world k)

    -- A write only makes calls that are kept, whatever it meets; and if it reports success its last
    -- one was the `XADD` of these bytes, which the server took.
    pub write-Wrote :
        (body : Bytes) (s : State lib) → Wrote body s.world (write lib config thread body s)
    unfolding write
    write-Wrote body s =
        let r = find_connection lib config thread s in
        write_to-Wrote body s.world r.0 r.1 _ refl (found-kept s _ refl)
