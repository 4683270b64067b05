-- ===== src/Back/RedisProducer/Storage/Calls.antt =====
-- The calls of the producer of Redis under a fetch and a mark, which remove nothing.
use gateway_poc.Base.{ℕ, Bool, true, false, Option, none, some, List, if◌then◌else◌}
use gateway_poc.Base.Bytes.{Bytes}
use gateway_poc.Base.Exec.{pure, raise, gets, modify, ◌>>=◌}
use gateway_poc.Common.Config.{RedisConfig}
use gateway_poc.Hiredis.{Hiredis, Reply, str, array, error, other, is_ok}
use gateway_poc.Back.Storage.Calls.{Defined, bind-Defined, bind-Keeps, Grows-refl, Grows-trans}
use gateway_poc.Back.Redis.Stream.{StreamEntry}
use gateway_poc.Back.RedisProducer.{
  RedisError, not_connected, connect_failed, authentication_failed, reconnect_failed, State, Action,
  lifted, check_err, check_reply, authenticate, connected, existing, get_connection,
  reconnect_again, fetch,
}
use gateway_poc.Back.RedisProducer.Server.{Safe, IsStream}

module _ (lib : Hiredis) (stream : lib.World → List StreamEntry)
    (Gone : List StreamEntry → lib.World → Type 0) (law : IsStream lib stream Gone)
    (config : RedisConfig) (chunk_size : ℕ) where
  open lib use {World, connect, reconnect, command, free, err, errstr}

  abbrev pub entries : State lib → List StreamEntry
  entries s = stream s.world

  -- A call that removes nothing, after which what is gone stays so, and which is always defined.
  pub record Good {A : Type 0} (m : Action lib A) : Type 0 where
    pub safe : (s : State lib) → Safe lib stream Gone s.world (m s).1.world
    pub defined : Defined m

  pub bind-Good :
      {A B : Type 0} {m : Action lib A} {f : A → Action lib B}
      → Good m
      → ((a : A) → Good (f a))
      → Good (m >>= f)
  bind-Good {m = m} {f = f} g h = record {
    safe =
        bind-Keeps m f (λ (s t : State lib). Safe lib stream Gone s.world t.world)
          (λ s t u x y. (Grows-trans entries s t u x.0 y.0, λ es gone. y.1 es (x.1 es gone))) g.safe
          (λ a. (h a).safe);
    defined = bind-Defined m f g.defined (λ a. (h a).defined);
  }

  pub if-Good :
      {A : Type 0} (b : Bool) {m n : Action lib A} → Good m → Good n → Good (if b then m else n)
  if-Good b {m} {n} g h = elim b as (λ c. Good (if c then m else n)) [ true ↦ g | false ↦ h ]

  pub Safe-refl : (s : State lib) → Safe lib stream Gone s.world s.world
  Safe-refl s = (Grows-refl entries s, λ es gone. gone)

  pure-Good : {A : Type 0} (a : A) → Good (pure a)
  pure-Good a = record { safe = Safe-refl; defined = λ s h. cc }

  raise-Good : {A : Type 0} (e : RedisError) → Good (raise {A = A} e)
  raise-Good e = record { safe = Safe-refl; defined = λ s h. cc }

  gets-Good : {A : Type 0} (f : State lib → A) → Good (gets f)
  gets-Good f = record { safe = Safe-refl; defined = λ s h. cc }

  lifted-Good :
      {A : Type 0} (f : World → A × World)
      → ((w : World) → Safe lib stream Gone w (f w).1)
      → Good (lifted lib f)
  lifted-Good f safe = record { safe = λ s. safe s.world; defined = λ s h. cc }

  modify-Good :
      (f : State lib → State lib)
      → ((s : State lib) → Safe lib stream Gone s.world (f s).world)
      → Good (modify f)
  modify-Good f safe = record { safe = safe; defined = λ s h. cc }

  pub check_err-Good :
      (complaint : Bytes → RedisError) (c : ℕ) → Good (check_err lib config chunk_size complaint c)
  unfolding check_err
  check_err-Good complaint c = bind-Good (gets-Good (λ s. err s.world c)) (λ e.
      bind-Good (gets-Good (λ s. errstr s.world c))
        (λ shown. if-Good (is_ok e) (pure-Good tt) (raise-Good (complaint shown))))

  pub check_reply-Good :
      (complaint : Bytes → RedisError) (o : Option Reply)
      → Good (check_reply lib config chunk_size complaint o)
  unfolding check_reply
  check_reply-Good complaint none = pure-Good tt
  check_reply-Good complaint (some (error shown)) = raise-Good (complaint shown)
  check_reply-Good complaint (some (str s)) = pure-Good tt
  check_reply-Good complaint (some (array es)) = pure-Good tt
  check_reply-Good complaint (some (other n)) = pure-Good tt

  authenticate-Good : (c : ℕ) → Good (authenticate lib config chunk_size c)
  unfolding authenticate
  authenticate-Good c =
      bind-Good (lifted-Good _ (law.auth_safe c config.user config.password)) (λ o.
        bind-Good (check_err-Good authentication_failed c)
          (λ _. check_reply-Good authentication_failed o))

  connected-Good : (o : Option ℕ) → Good (connected lib config chunk_size o)
  unfolding connected
  connected-Good none = raise-Good not_connected
  connected-Good (some c) = bind-Good (gets-Good (λ s. err s.world c)) (λ e.
      bind-Good (gets-Good (λ s. errstr s.world c)) (λ shown.
        if-Good (is_ok e)
          (bind-Good (modify-Good (λ s. record s { connection = some c }) Safe-refl)
            (λ _. bind-Good (authenticate-Good c) (λ _. pure-Good c)))
          (bind-Good
            (modify-Good (λ s. record s { world = free c s.world }) (λ s. law.free_safe c s.world))
            (λ _. raise-Good (connect_failed shown)))))

  existing-Good : (o : Option ℕ) → Good (existing lib config chunk_size o)
  unfolding existing
  existing-Good (some c) = pure-Good c
  existing-Good none =
      bind-Good (lifted-Good _ (law.connect_safe config.host config.port)) connected-Good

  pub get_connection-Good : Good (get_connection lib config chunk_size)
  unfolding get_connection
  get_connection-Good = record {
    safe = λ s. (existing-Good s.connection).safe s;
    defined = λ s. (existing-Good s.connection).defined s;
  }

  pub reconnect_again-Good : Good (reconnect_again lib config chunk_size)
  unfolding reconnect_again
  reconnect_again-Good = bind-Good get_connection-Good (λ c.
      bind-Good (lifted-Good _ (law.reconnect_safe c))
        (λ done. if-Good done (authenticate-Good c) (raise-Good reconnect_failed)))

  pub fetch-Good : (c : ℕ) → Good (fetch lib config chunk_size c)
  unfolding fetch
  fetch-Good c = lifted-Good _ (law.xrange_safe c chunk_size)
