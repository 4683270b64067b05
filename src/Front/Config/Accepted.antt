-- ===== src/Front/Config/Accepted.antt =====
-- Which files the front accepts.
use gateway_poc.Base.{
  ℕ, ◌^◌, ◌≤◌, ◌<◌, ◌≡◌, ◌≢◌, ◌↔◌, refl, ap, subst, ◌⊎◌, true, Option, none, some, arith,
}
use gateway_poc.Base.Bytes.{Bytes, codes}
use gateway_poc.Base.Int.{ℤ, pos}
use gateway_poc.Base.Outcome.{ok, >>=-eq-ok, >>=-ok, ok-injective, unless-ok}
use gateway_poc.Common.Config.{
  Toml, default_log, optional, parse_log_config, parse_messages_config, parse_postgres_config,
  parse_redis_config,
}
use gateway_poc.Common.Config.Valid.{Chosen, limited-ok, limited-within, optional_iff}
use gateway_poc.Common.Tables.{
  if_present, or_initial, required, no_storage, no_storage_iff, Present, Initial, if_present_iff,
  required_iff, or_initial_iff,
}
use gateway_poc.Front.Config.{
  HttpServerConfig, Config, required_int, parse_http_server_config, fill_config,
}

-- A number of the file, within its limits.
abbrev pub Within : ℕ → ℕ → Option ℤ → ℕ → Type 0
Within lo hi v n = (v ≡ some (pos n)) × (lo ≤ n) × (n ≤ hi)

required_int_iff :
    (lo hi : ℕ) (missing wrong : Bytes) (v : Option ℤ) (n : ℕ)
    → hi < 2 ^ 16
    → (required_int (pos lo) (pos hi) missing wrong v ≡ ok n) ↔ Within lo hi v n
unfolding required_int
required_int_iff lo hi missing wrong none n fits = (λ e. cc, λ w. cc (w.0))
required_int_iff lo hi missing wrong (some v) n fits = (
  λ e. let (same, l, h) = limited-ok 16 lo hi wrong v n fits e in (ap some same, l, h),
  λ w. ground (arith, limited-within 16 lo hi wrong n fits),
)

module _ (toml : Toml) (node : toml.Node) where
  open toml use {at, as_integer}

  pub record IsHttp (c : HttpServerConfig) : Type 0 where
    pub port : Within 1 65535 (as_integer (at node (codes "port"))) c.port
    pub threads : Within 1 16384 (as_integer (at node (codes "threads"))) c.threads
    pub request_timeout :
        Chosen 1 600 10 (as_integer (at node (codes "request_timeout"))) c.request_timeout

  -- The table of the server is accepted exactly as the configuration that stands in it: a port
  -- within 1 and 65535, 1 to 16384 threads, and a timeout within 1 and 600, or 10 where there is
  -- none.
  pub parse_http_server_config_iff :
      (c : HttpServerConfig) → (parse_http_server_config toml node ≡ ok c) ↔ IsHttp c
  unfolding parse_http_server_config
  parse_http_server_config_iff c = (λ e. forth e, back)
    where
      forth : parse_http_server_config toml node ≡ ok c → IsHttp c
      forth e =
          let (port, p, e₁) =
            >>=-eq-ok (required_int _ _ _ _ (as_integer (at node (codes "port")))) _ e in
          let (threads, t, e₂) =
            >>=-eq-ok (required_int _ _ _ _ (as_integer (at node (codes "threads")))) _ e₁ in
          let (timeout, r, e₃) =
            >>=-eq-ok (optional _ _ _ _ 10 (as_integer (at node (codes "request_timeout")))) _ e₂ in
          subst IsHttp (ok-injective e₃) (record {
            port = (required_int_iff 1 65535 _ _ _ port (omega arith)).0 p;
            threads = (required_int_iff 1 16384 _ _ _ threads (omega arith)).0 t;
            request_timeout = (optional_iff 16 1 600 _ 10 _ timeout (omega arith)).0 r;
          })

      back : IsHttp c → parse_http_server_config toml node ≡ ok c
      back v = >>=-ok _ ((required_int_iff 1 65535 _ _ _ c.port (omega arith)).1 v.port) (
          >>=-ok _ ((required_int_iff 1 16384 _ _ _ c.threads (omega arith)).1 v.threads) (
            >>=-ok _
              ((optional_iff 16 1 600 _ 10 _ c.request_timeout (omega arith)).1 v.request_timeout)
              refl))

  open toml use {present}

  -- Each table by its key, and a storage among them.
  pub record IsConfig (c : Config) : Type 0 where
    pub log :
        Initial
          (present (at node (codes "log")))
          default_log
          (parse_log_config toml (at node (codes "log")))
          c.log
    pub messages_present : present (at node (codes "messages")) ≡ true
    pub messages : parse_messages_config toml (at node (codes "messages")) ≡ ok c.messages
    pub http_present : present (at node (codes "http")) ≡ true
    pub http : parse_http_server_config toml (at node (codes "http")) ≡ ok c.http
    pub postgres :
        Present
          (present (at node (codes "postgres")))
          (parse_postgres_config toml (at node (codes "postgres")))
          c.postgres
    pub redis :
        Present
          (present (at node (codes "redis")))
          (parse_redis_config toml (at node (codes "redis")))
          c.redis
    pub storage : (c.postgres ≢ none) ⊎ (c.redis ≢ none)

module _ (toml : Toml) (node : toml.Node) (c : Config) where
  open toml use {at, present}

  fill_config-IsConfig : fill_config toml node ≡ ok c → IsConfig toml node c
  unfolding fill_config
  fill_config-IsConfig e =
      let (log, l, e₁) = >>=-eq-ok (or_initial (present (at node (codes "log"))) _ _) _ e in
      let (messages, m, e₂) =
        >>=-eq-ok (required (present (at node (codes "messages"))) _ _) _ e₁ in
      let (http, h, e₃) = >>=-eq-ok (required (present (at node (codes "http"))) _ _) _ e₂ in
      let (postgres, p, e₄) =
        >>=-eq-ok (if_present (present (at node (codes "postgres"))) _) _ e₃ in
      let (redis, r, e₅) = >>=-eq-ok (if_present (present (at node (codes "redis"))) _) _ e₄ in
      let (stored, e₆) = unless-ok (no_storage postgres redis) _ _ e₅ in
      subst (IsConfig toml node) (ok-injective e₆) (record {
        log = (or_initial_iff _ _ _ log).0 l;
        messages_present = ((required_iff _ _ _ messages).0 m).0;
        messages = ((required_iff _ _ _ messages).0 m).1;
        http_present = ((required_iff _ _ _ http).0 h).0;
        http = ((required_iff _ _ _ http).0 h).1;
        postgres = (if_present_iff _ _ postgres).0 p;
        redis = (if_present_iff _ _ redis).0 r;
        storage = (no_storage_iff postgres redis).0 stored;
      })

  IsConfig-fill_config : IsConfig toml node c → fill_config toml node ≡ ok c
  unfolding fill_config
  IsConfig-fill_config v = >>=-ok _ ((or_initial_iff _ _ _ c.log).1 v.log) (
      >>=-ok _ ((required_iff _ _ _ c.messages).1 (v.messages_present, v.messages)) (
        >>=-ok _ ((required_iff _ _ _ c.http).1 (v.http_present, v.http)) (
          >>=-ok _ ((if_present_iff _ _ c.postgres).1 v.postgres) (
            >>=-ok _ ((if_present_iff _ _ c.redis).1 v.redis)
              (rw ((no_storage_iff c.postgres c.redis).1 v.storage))))))

  -- The front accepts a file exactly as the configuration that stands in it: messages, a server and
  -- a storage, each from its table, and the default severity where there is no table of the log.
  pub fill_config_iff : (fill_config toml node ≡ ok c) ↔ IsConfig toml node c
  fill_config_iff = (fill_config-IsConfig, IsConfig-fill_config)
