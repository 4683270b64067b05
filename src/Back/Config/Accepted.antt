-- ===== src/Back/Config/Accepted.antt =====
-- Which files the back accepts.
use gateway_poc.Base.{ℕ, ◌≡◌, ◌≢◌, ◌↔◌, ◌⊎◌, true, Option, none, refl, subst, arith}
use gateway_poc.Base.Bytes.{codes}
use gateway_poc.Base.Int.{ℤ}
use gateway_poc.Base.Outcome.{ok, >>=-eq-ok, >>=-ok, ok-injective, unless-ok}
use gateway_poc.Common.Config.{
  Toml, default_log, non_empty, parse_log_config, parse_postgres_config, parse_redis_config,
}
use gateway_poc.Common.Config.Valid.{Chosen, optional_iff, NamedText, non_empty_iff}
use gateway_poc.Common.Tables.{
  if_present, or_initial, required, no_storage, no_storage_iff, Present, Initial, if_present_iff,
  required_iff, or_initial_iff,
}
use gateway_poc.Back.Config.{
  ConsumerConfig, Config, chunk_size_of, parse_consumer_config, parse_producer_config, fill_config,
}

-- A chunk holds between one and a million messages, a thousand unless the file says otherwise.
abbrev pub ChosenChunk : Option ℤ → ℕ → Type 0
ChosenChunk = Chosen 1 1000000 1000

pub chunk_size_of_iff : (v : Option ℤ) (n : ℕ) → (chunk_size_of v ≡ ok n) ↔ ChosenChunk v n
unfolding chunk_size_of
chunk_size_of_iff v n = optional_iff 32 1 1000000 _ 1000 v n (omega arith)

module _ (toml : Toml) (node : toml.Node) where
  open toml use {at, as_integer, as_string, present}

  pub record IsConsumer (c : ConsumerConfig) : Type 0 where
    pub chunk_size : ChosenChunk (as_integer (at node (codes "chunk_size"))) c.chunk_size
    pub output_folder : NamedText toml node (codes "output_folder") c.output_folder

  -- The table of the consumer is accepted exactly as the configuration that stands in it: a chunk
  -- within 1 and a million messages, or a thousand where there is none, and a folder not empty.
  pub parse_consumer_config_iff :
      (c : ConsumerConfig) → (parse_consumer_config toml node ≡ ok c) ↔ IsConsumer c
  unfolding parse_consumer_config
  parse_consumer_config_iff c = (forth, back)
    where
      forth : parse_consumer_config toml node ≡ ok c → IsConsumer c
      forth e =
          let (size, s, e₁) =
            >>=-eq-ok (chunk_size_of (as_integer (at node (codes "chunk_size")))) _ e in
          let (folder, f, e₂) =
            >>=-eq-ok (non_empty _ (as_string (at node (codes "output_folder")))) _ e₁ in
          subst IsConsumer (ok-injective e₂) (record {
            chunk_size = (chunk_size_of_iff _ size).0 s;
            output_folder = (non_empty_iff _ _ folder).0 f;
          })

      back : IsConsumer c → parse_consumer_config toml node ≡ ok c
      back v =
          >>=-ok _ ((chunk_size_of_iff _ c.chunk_size).1 v.chunk_size)
            (>>=-ok _ ((non_empty_iff _ _ c.output_folder).1 v.output_folder) refl)

  -- Each table by its key, and a storage among them.
  pub record IsConfig (c : Config) : Type 0 where
    pub log :
        Initial
          (present (at node (codes "log")))
          default_log
          (parse_log_config toml (at node (codes "log")))
          c.log
    pub postgres :
        Present
          (present (at node (codes "postgres")))
          (parse_postgres_config toml (at node (codes "postgres")))
          c.postgres
    pub redis :
        Present
          (present (at node (codes "redis")))
          (parse_redis_config toml (at node (codes "redis")))
          c.redis
    pub storage : (c.postgres ≢ none) ⊎ (c.redis ≢ none)
    pub consumer_present : present (at node (codes "consumer")) ≡ true
    pub consumer : parse_consumer_config toml (at node (codes "consumer")) ≡ ok c.consumer
    pub producer_present : present (at node (codes "producer")) ≡ true
    pub producer : parse_producer_config toml (at node (codes "producer")) ≡ ok c.producer

module _ (toml : Toml) (node : toml.Node) (c : Config) where
  open toml use {at, present}

  fill_config-IsConfig : fill_config toml node ≡ ok c → IsConfig toml node c
  unfolding fill_config
  fill_config-IsConfig e =
      let (log, l, e₁) = >>=-eq-ok (or_initial (present (at node (codes "log"))) _ _) _ e in
      let (postgres, p, e₂) =
        >>=-eq-ok (if_present (present (at node (codes "postgres"))) _) _ e₁ in
      let (redis, r, e₃) = >>=-eq-ok (if_present (present (at node (codes "redis"))) _) _ e₂ in
      let (stored, e₄) = unless-ok (no_storage postgres redis) _ _ e₃ in
      let (consumer, k, e₅) =
        >>=-eq-ok (required (present (at node (codes "consumer"))) _ _) _ e₄ in
      let (producer, d, e₆) =
        >>=-eq-ok (required (present (at node (codes "producer"))) _ _) _ e₅ in
      subst (IsConfig toml node) (ok-injective e₆) (record {
        log = (or_initial_iff _ _ _ log).0 l;
        postgres = (if_present_iff _ _ postgres).0 p;
        redis = (if_present_iff _ _ redis).0 r;
        storage = (no_storage_iff postgres redis).0 stored;
        consumer_present = ((required_iff _ _ _ consumer).0 k).0;
        consumer = ((required_iff _ _ _ consumer).0 k).1;
        producer_present = ((required_iff _ _ _ producer).0 d).0;
        producer = ((required_iff _ _ _ producer).0 d).1;
      })

  IsConfig-fill_config : IsConfig toml node c → fill_config toml node ≡ ok c
  unfolding fill_config
  IsConfig-fill_config v = >>=-ok _ ((or_initial_iff _ _ _ c.log).1 v.log) (
      >>=-ok _ ((if_present_iff _ _ c.postgres).1 v.postgres) (
        >>=-ok _ ((if_present_iff _ _ c.redis).1 v.redis) (
          rw ((no_storage_iff c.postgres c.redis).1 v.storage) (
            >>=-ok _ ((required_iff _ _ _ c.consumer).1 (v.consumer_present, v.consumer)) (
              >>=-ok _ ((required_iff _ _ _ c.producer).1 (v.producer_present, v.producer))
                refl)))))

  -- The back accepts a file exactly as the configuration that stands in it: a storage, a consumer
  -- and a producer, each from its table, and the default severity where there is no table of the
  -- log.
  pub back_fill_config_iff : (fill_config toml node ≡ ok c) ↔ IsConfig toml node c
  back_fill_config_iff = (fill_config-IsConfig, IsConfig-fill_config)
