-- ===== src/Back/RedisProducer/Connection.antt =====
-- The connection of the producer, and what a failed authentication leaves.
use gateway_poc.Base.{ℕ, ◌≡◌, refl, ap, ◌∙◌, Option, none, some, arith}
use gateway_poc.Base.Bytes.{Bytes}
use gateway_poc.Base.Outcome.{ok, throw}
use gateway_poc.Common.Config.{RedisConfig}
use gateway_poc.Hiredis.{Hiredis, error, redis_ok, auth}
use gateway_poc.Back.RedisProducer.{
  authentication_failed, State, authenticate, connected, existing, get_connection,
}

module _ (lib : Hiredis) (config : RedisConfig) (chunk_size : ℕ) where
  open lib use {World, connect, command, err, errstr}

  -- A new connection whose authentication was refused with an error reply stays the producer's
  -- connection: the first call throws, and every later call gives the connection at once, with no
  -- `AUTH` sent on it.
  pub get_connection_unauthenticated :
      (s : State lib) (c : ℕ) (shown : Bytes) (w₁ w₂ : World)
      → s.connection ≡ none
      → connect config.host config.port s.world ≡ (some c, w₁)
      → err w₁ c ≡ redis_ok
      → command c (auth config.user config.password) w₁ ≡ (some (error shown), w₂)
      → err w₂ c ≡ redis_ok
      → let t : State lib = record { connection = some c; world = w₂ } in
        (get_connection lib config chunk_size s ≡ (throw (authentication_failed shown), t))
        × (get_connection lib config chunk_size t ≡ (ok c, t))
  unfolding get_connection existing connected authenticate
  get_connection_unauthenticated s c shown w₁ w₂ absent found healthy refused still =
      (ap (λ (o : Option ℕ). existing lib config chunk_size o s) absent ∙ ground arith, refl)
