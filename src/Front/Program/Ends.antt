-- ===== src/Front/Program/Ends.antt =====
-- When the front ends with success, and what its server has done by then.
use gateway_poc.Base.{
  ℕ, ◌≡◌, ◌≢◌, refl, sym, ap, ap₂, subst, ◌∙◌, ◌⊎◌, ◌↔◌, inl, inr, Option, none, some, List, [],
  ◌∷◌, ◌++◌, arith,
}
use gateway_poc.Base.Bytes.{Bytes, codes}
use gateway_poc.Base.Outcome.{Outcome, ok, throw, fault, >>=-eq-ok}
use gateway_poc.Common.Arguments.{ProgramOptions, Parsed, stops, goes_on, parse_arguments}
use gateway_poc.Common.Config.{Toml, PostgresConfig, RedisConfig, connection_string}
use gateway_poc.Common.ResolveHost.{Resolver, resolve_host}
use gateway_poc.Front.Config.{Config, fill_config, parse_config}
use gateway_poc.Front.Main.{make_handler, checker_of, make_handler-defined}
use gateway_poc.Front.RedisWriter.{make_config}
use gateway_poc.Front.Server.{Server, Arrival, start, stop}
use gateway_poc.Front.Server.Accepting.{arrivals}
use gateway_poc.Front.Program.{
  Serving, through_postgres, through_redis, new_server, resolved, construct, Ending, served,
  finished, listened, serve, handled, configured, parsed, main,
}

-- The constructor throws exactly for a host without an address.
make_config-cases :
    (r : Resolver) (c : RedisConfig)
    → ((resolve_host r c.host ≡ []) × ((e : Bytes) × (make_config r c ≡ throw e)))
      ⊎ ((resolve_host r c.host ≢ [])
          × (make_config r c ≡ ok (record c { host = resolve_host r c.host })))
unfolding make_config
make_config-cases r c = go (resolve_host r c.host) refl
  where
    go :
        (host : Bytes)
        → resolve_host r c.host ≡ host
        → ((resolve_host r c.host ≡ []) × ((e : Bytes) × (make_config r c ≡ throw e)))
          ⊎ ((resolve_host r c.host ≢ [])
              × (make_config r c ≡ ok (record c { host = resolve_host r c.host })))
    go [] e = inl (e, (codes "Failed to resolve '" ++ c.host ++ codes "'", rw e refl))
    go (b ∷ host) e = inr (λ h. cc, rw e refl)

served-injective :
    (a b : Serving) (s t : Server) → ◌≡◌ {A = Ending} (served a s) (served b t) → (a ≡ b) × (s ≡ t)
served-injective a b s t e = (cc, cc)

some-injective : {A : Type 0} {a b : A} → ◌≡◌ {A = Option A} (some a) (some b) → a ≡ b
some-injective e = cc

module _ (options : ProgramOptions) (toml : Toml) (resolver : Resolver) (refuses : ℕ → Option Bytes)
    (connections : List Arrival) where
  -- The handler of a configuration: with the checker of its messages, for Postgres where that is
  -- configured, and else for Redis at an address of its host.
  abbrev pub Makes : Config → Serving → Type 0
  Makes c handler =
      ((p : PostgresConfig) × (c.postgres ≡ some p)
        × (handler ≡ through_postgres (checker_of c.messages.type) (connection_string p)))
      ⊎ ((r : RedisConfig) × (c.postgres ≡ none)
          × (c.redis ≡ some r)
          × (resolve_host resolver r.host ≢ [])
          × (handler
              ≡ through_redis (checker_of c.messages.type)
                  (record r { host = resolve_host resolver r.host })))

  -- The server at the end: started, with what has come, and stopped.
  abbrev pub Stopped : Config → Server → Type 0
  Stopped c server =
      (left : Server) × (arrivals (start (new_server c.http)) connections ≡ some left)
      × (server ≡ stop left)

  finished-served_iff :
      (made handler : Serving) (server : Server) (o : Option Server)
      → (finished options toml resolver refuses connections made o ≡ served handler server)
        ↔ ((made ≡ handler) × ((left : Server) × (o ≡ some left) × (server ≡ stop left)))
  unfolding finished
  finished-served_iff made handler server none = (λ e. cc, λ (same, (left, is, ended)). cc)
  finished-served_iff made handler server (some left) = (
    λ e. let (same, ended) = served-injective _ _ _ _ e in (same, (left, refl, sym ended)),
    λ (same, (other, is, ended)). ap₂ served same (ap stop (some-injective is) ∙ sym ended),
  )

  listened-served_iff :
      (c : Config) (made handler : Serving) (server : Server) (o : Option Bytes)
      → (listened options toml resolver refuses connections c.http made o ≡ served handler server)
        ↔ ((o ≡ none) × (made ≡ handler) × Stopped c server)
  unfolding listened
  listened-served_iff c made handler server none = (
    λ e. let (same, left) = (finished-served_iff made handler server _).0 e in (refl, same, left),
    λ (open_port, same, left). (finished-served_iff made handler server _).1 (same, left),
  )
  listened-served_iff c made handler server (some what) = (λ e. cc, λ h. cc (h.0))

  -- From a configuration that was accepted to the handler that serves.
  abbrev pub Serves : Config → Serving → Server → Type 0
  Serves c handler server = Makes c handler × (refuses c.http.port ≡ none) × Stopped c server

  abbrev by_postgres : Config → PostgresConfig → Serving
  by_postgres c p = through_postgres (checker_of c.messages.type) (connection_string p)

  abbrev by_redis : Config → RedisConfig → Serving
  by_redis c r =
      through_redis (checker_of c.messages.type) (record r { host = resolve_host resolver r.host })

  Makes-postgres :
      (c : Config) (p : PostgresConfig) (handler : Serving)
      → c.postgres ≡ some p
      → Makes c handler ↔ (by_postgres c p ≡ handler)
  Makes-postgres c p handler set = (to, λ e. inl (p, set, sym e))
    where
      to : Makes c handler → by_postgres c p ≡ handler
      to (inl (p', set', same)) =
          let one : p ≡ p' = ground arith in ap (by_postgres c) one ∙ sym same
      to (inr (r, unset, set', far, same)) = cc

  Makes-redis :
      (c : Config) (r : RedisConfig) (handler : Serving)
      → c.postgres ≡ none
      → c.redis ≡ some r
      → Makes c handler ↔ ((resolve_host resolver r.host ≢ []) × (by_redis c r ≡ handler))
  Makes-redis c r handler unset set = (to, λ h. inr (r, unset, set, h.0, sym h.1))
    where
      to : Makes c handler → (resolve_host resolver r.host ≢ []) × (by_redis c r ≡ handler)
      to (inl (p, set', same)) = cc
      to (inr (r', unset', set', far, same)) =
          let one : r' ≡ r = ground arith in
          (
            subst (λ (x : RedisConfig). resolve_host resolver x.host ≢ []) one far,
            ap (by_redis c) (sym one) ∙ sym same,
          )

  handled-redis :
      (c : Config) (r : RedisConfig) (handler : Serving) (server : Server)
      → c.postgres ≡ none
      → c.redis ≡ some r
      → (serve options toml resolver refuses connections c.http
            (resolved (checker_of c.messages.type) (make_config resolver r))
          ≡ served handler server)
        ↔ Serves c handler server
  unfolding serve
  handled-redis c r handler server unset set =
      let makes = Makes-redis c r handler unset set in
      let iff = listened-served_iff c (by_redis c r) handler server (refuses c.http.port) in
      elim (make_config-cases resolver r) [
        | inl (nowhere, (e, threw)) ↦
            rw threw (λ g. cc, λ (k, port, left). absurd ((makes.0 k).0 nowhere))
        | inr (somewhere, went) ↦ rw went (
          λ g. let (port, same, left) = iff.0 g in (makes.1 (somewhere, same), port, left),
          λ (k, port, left). iff.1 (port, (makes.0 k).1, left),
        )
      ]

  handled-served_iff :
      (path : Bytes) (c : Config) (handler : Serving) (server : Server)
      → parse_config toml path ≡ ok c
      → (handled options toml resolver refuses connections c.http (make_handler c)
          ≡ served handler server)
        ↔ Serves c handler server
  unfolding handled serve construct parse_config
  handled-served_iff path c handler server e =
      let (node, read, filled) = >>=-eq-ok (toml.parse_file path) (fill_config toml) e in
      elim (make_handler-defined toml node c filled) [
        | inl (p, set, made) ↦
            let makes = Makes-postgres c p handler set in
            let iff =
              listened-served_iff c (by_postgres c p) handler server (refuses c.http.port) in
            rw made (
              λ g. let (port, same, left) = iff.0 g in (makes.1 same, port, left),
              λ (k, port, left). iff.1 (port, makes.0 k, left),
            )
        | inr (r, unset, set, made) ↦ rw made (handled-redis c r handler server unset set)
      ]

  abbrev pub Accepts : Parsed → Serving → Server → Type 0
  Accepts p handler server =
      (path : Bytes) × (c : Config) × (p ≡ goes_on path)
      × (parse_config toml path ≡ ok c)
      × Serves c handler server

  configured-served :
      (path : Bytes) (o : Outcome Bytes Config) (handler : Serving) (server : Server)
      → parse_config toml path ≡ o
      → configured options toml resolver refuses connections o ≡ served handler server
      → (c : Config) × (parse_config toml path ≡ ok c) × Serves c handler server
  unfolding configured
  configured-served path (ok c) handler server e h =
      (c, e, (handled-served_iff path c handler server e).0 h)
  configured-served path (throw x) handler server e h = cc
  configured-served path fault handler server e h = cc

  parsed-served :
      (p : Parsed) (handler : Serving) (server : Server)
      → parsed options toml resolver refuses connections p ≡ served handler server
      → Accepts p handler server
  unfolding parsed
  parsed-served (stops shown) handler server h = cc
  parsed-served (goes_on path) handler server h =
      let (c, e, serves) = configured-served path (parse_config toml path) handler server refl h in
      (path, c, refl, e, serves)

  -- The front serves, and ends with success, exactly where the command line gives it a path, the
  -- file there is accepted, its port can be listened to, and its storage is Postgres or a Redis
  -- whose host has an address, and no connection that its server started a session for was gone
  -- before the session asked for its endpoint: with the checker of the configured messages in front
  -- of that storage, and with a server that was started, met what came, and was stopped.
  pub main-served_iff :
      (args : List Bytes) (handler : Serving) (server : Server)
      → (main options toml resolver refuses connections args ≡ served handler server)
        ↔ Accepts (parse_arguments options args) handler server
  unfolding main parsed configured
  main-served_iff args handler server = (
    parsed-served (parse_arguments options args) handler server,
    λ (path, c, went_on, e, serves).
        rw (went_on, e) ((handled-served_iff path c handler server e).1 serves),
  )
