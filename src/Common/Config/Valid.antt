-- ===== src/Common/Config/Valid.antt =====
-- What an accepted configuration holds.
use native.Mathlib.Nat.{mod-eq_of_lt}
use gateway_poc.Base.{
  ℕ, ◌^◌, ◌%◌, ◌≤◌, ◌<◌, ◌≡◌, ◌≢◌, ◌↔◌, refl, ap, subst, ◌⊎◌, inl, inr, Option, none, some, [], ◌∷◌,
  arith,
}
use gateway_poc.Base.Bytes.{Bytes, codes}
use gateway_poc.Base.Int.{ℤ, pos, negsuc}
use gateway_poc.Base.Outcome.{ok, >>=-eq-ok, >>=-ok, ok-injective}
use gateway_poc.Common.Config.{
  Toml, PostgresConfig, RedisConfig, non_empty, given, limited, optional, optional_port,
  parse_postgres_config, parse_redis_config,
}

cast-fits : (w m hi : ℕ) → hi < 2 ^ w → m ≤ hi → m % 2 ^ w ≡ m
cast-fits w m hi h l = mod-eq_of_lt (omega arith)

-- A value within its limits is kept as it is by the cast.
pub limited-ok :
    (w lo hi : ℕ) (complaint : Bytes) (v : ℤ) (n : ℕ)
    → hi < 2 ^ w
    → limited w (pos lo) (pos hi) complaint v ≡ ok n
    → (v ≡ pos n) × (lo ≤ n) × (n ≤ hi)
unfolding limited
limited-ok w lo hi complaint (pos m) n fits e = ground (arith, cast-fits w m hi fits)
limited-ok w lo hi complaint (negsuc m) n fits e = ground arith

pub limited-within :
    (w lo hi : ℕ) (complaint : Bytes) (n : ℕ)
    → hi < 2 ^ w
    → lo ≤ n
    → n ≤ hi
    → limited w (pos lo) (pos hi) complaint (pos n) ≡ ok n
unfolding limited
limited-within w lo hi complaint n fits l h = ground (arith, cast-fits w n hi fits)

-- Where a number comes from: from the file, within its limits, or from the initialiser.
abbrev pub Chosen : ℕ → ℕ → ℕ → Option ℤ → ℕ → Type 0
Chosen lo hi initial v n = ((v ≡ none) × (n ≡ initial)) ⊎ ((v ≡ some (pos n)) × (lo ≤ n) × (n ≤ hi))

pub optional_iff :
    (w lo hi : ℕ) (complaint : Bytes) (initial : ℕ) (v : Option ℤ) (n : ℕ)
    → hi < 2 ^ w
    → (optional w (pos lo) (pos hi) complaint initial v ≡ ok n) ↔ Chosen lo hi initial v n
unfolding optional
optional_iff w lo hi complaint initial none n fits =
    (λ e. inl (refl, ground arith), λ c. ground arith)
optional_iff w lo hi complaint initial (some v) n fits = (
  λ e. let (same, l, h) = limited-ok w lo hi complaint v n fits e in inr (ap some same, l, h),
  λ c. ground (arith, limited-within w lo hi complaint n fits),
)

pub non_empty_iff :
    (complaint : Bytes) (o : Option Bytes) (s : Bytes)
    → (non_empty complaint o ≡ ok s) ↔ ((o ≡ some s) × (s ≢ []))
unfolding non_empty
non_empty_iff complaint none s = (λ e. cc, λ c. cc (c.0))
non_empty_iff complaint (some []) s = (λ e. cc, λ c. ground arith)
non_empty_iff complaint (some (c ∷ t)) s = (λ e. ground arith, λ p. ground arith)

pub given_iff :
    (complaint : Bytes) (o : Option Bytes) (s : Bytes) → (given complaint o ≡ ok s) ↔ (o ≡ some s)
unfolding given
given_iff complaint none s = (λ e. cc, λ c. cc)
given_iff complaint (some t) s = (λ e. cc, λ c. cc)

-- A port of the file lies within 1 and 65535, and is the port of the configuration.
abbrev pub ChosenPort : ℕ → Option ℤ → ℕ → Type 0
ChosenPort = Chosen 1 65535

pub optional_port_iff :
    (complaint : Bytes) (initial : ℕ) (v : Option ℤ) (n : ℕ)
    → (optional_port complaint initial v ≡ ok n) ↔ ChosenPort initial v n
unfolding optional_port
optional_port_iff complaint initial v n =
    optional_iff 16 1 65535 complaint initial v n (omega arith)

module _ (toml : Toml) (node : toml.Node) where
  open toml use {at, as_integer, as_string}

  abbrev pub NamedText : Bytes → Bytes → Type 0
  NamedText key s = (as_string (at node key) ≡ some s) × (s ≢ [])

  -- The configuration stands in the table.
  pub record IsPostgres (c : PostgresConfig) : Type 0 where
    pub host : NamedText (codes "host") c.host
    pub port : ChosenPort 5432 (as_integer (at node (codes "port"))) c.port
    pub database : NamedText (codes "database") c.database
    pub user : NamedText (codes "user") c.user
    pub password : as_string (at node (codes "password")) ≡ some c.password

  -- The table of Postgres is accepted exactly as the configuration that stands in it: host,
  -- database and user not empty, a password, and a port within 1 and 65535, or 5432 where there is
  -- none.
  pub parse_postgres_config_iff :
      (c : PostgresConfig) → (parse_postgres_config toml node ≡ ok c) ↔ IsPostgres c
  unfolding parse_postgres_config
  parse_postgres_config_iff c = (λ e. forth e, back)
    where
      forth : parse_postgres_config toml node ≡ ok c → IsPostgres c
      forth e =
          let (host, h, e₁) = >>=-eq-ok (non_empty _ (as_string (at node (codes "host")))) _ e in
          let (port, p, e₂) =
            >>=-eq-ok (optional_port _ 5432 (as_integer (at node (codes "port")))) _ e₁ in
          let (database, d, e₃) =
            >>=-eq-ok (non_empty _ (as_string (at node (codes "database")))) _ e₂ in
          let (user, u, e₄) = >>=-eq-ok (non_empty _ (as_string (at node (codes "user")))) _ e₃ in
          let (password, w, e₅) =
            >>=-eq-ok (given _ (as_string (at node (codes "password")))) _ e₄ in
          subst IsPostgres (ok-injective e₅) (record {
            host = (non_empty_iff _ _ host).0 h;
            port = (optional_port_iff _ 5432 _ port).0 p;
            database = (non_empty_iff _ _ database).0 d;
            user = (non_empty_iff _ _ user).0 u;
            password = (given_iff _ _ password).0 w;
          })

      back : IsPostgres c → parse_postgres_config toml node ≡ ok c
      back v = >>=-ok _ ((non_empty_iff _ _ c.host).1 v.host) (
          >>=-ok _ ((optional_port_iff _ 5432 _ c.port).1 v.port) (
            >>=-ok _ ((non_empty_iff _ _ c.database).1 v.database) (
              >>=-ok _ ((non_empty_iff _ _ c.user).1 v.user)
                (>>=-ok _ ((given_iff _ _ c.password).1 v.password) refl))))

  pub record IsRedis (c : RedisConfig) : Type 0 where
    pub host : NamedText (codes "host") c.host
    pub port : ChosenPort 6379 (as_integer (at node (codes "port"))) c.port
    pub user : NamedText (codes "user") c.user
    pub password : as_string (at node (codes "password")) ≡ some c.password

  -- The table of Redis is accepted exactly as the configuration that stands in it: host and user
  -- not empty, a password, and a port within 1 and 65535, or 6379 where there is none.
  pub parse_redis_config_iff : (c : RedisConfig) → (parse_redis_config toml node ≡ ok c) ↔ IsRedis c
  unfolding parse_redis_config
  parse_redis_config_iff c = (λ e. forth e, back)
    where
      forth : parse_redis_config toml node ≡ ok c → IsRedis c
      forth e =
          let (host, h, e₁) = >>=-eq-ok (non_empty _ (as_string (at node (codes "host")))) _ e in
          let (port, p, e₂) =
            >>=-eq-ok (optional_port _ 6379 (as_integer (at node (codes "port")))) _ e₁ in
          let (user, u, e₃) = >>=-eq-ok (non_empty _ (as_string (at node (codes "user")))) _ e₂ in
          let (password, w, e₄) =
            >>=-eq-ok (given _ (as_string (at node (codes "password")))) _ e₃ in
          subst IsRedis (ok-injective e₄) (record {
            host = (non_empty_iff _ _ host).0 h;
            port = (optional_port_iff _ 6379 _ port).0 p;
            user = (non_empty_iff _ _ user).0 u;
            password = (given_iff _ _ password).0 w;
          })

      back : IsRedis c → parse_redis_config toml node ≡ ok c
      back v = >>=-ok _ ((non_empty_iff _ _ c.host).1 v.host) (
          >>=-ok _ ((optional_port_iff _ 6379 _ c.port).1 v.port) (
            >>=-ok _ ((non_empty_iff _ _ c.user).1 v.user)
              (>>=-ok _ ((given_iff _ _ c.password).1 v.password) refl)))
