-- ===== src/Gateway/Streams.antt =====
-- What a front relies on of the stream of a server of Redis.
use mathlib.Core.List.{append_assoc}
use gateway_poc.Base.{ℕ, ◌≡◌, refl, sym, ap, ◌∙◌, false, Option, none, some, List, [], ◌∷◌, ◌++◌}
use gateway_poc.Base.Bytes.{Bytes, str_eq}
use gateway_poc.Common.Config.{RedisConfig}
use gateway_poc.Hiredis.{Hiredis, Reply, str, array, error, other, redis_ok, xadd}
use gateway_poc.Back.Redis.{messages_stream, data_field}
use gateway_poc.Front.RedisWriter.Accepted as Writer
use gateway_poc.Front.RedisWriter.Accepted.{Took}
use gateway_poc.Back.Redis.Stream.{StreamEntry, to_message}
use gateway_poc.Back.RedisProducer.Marking.{is_error}
use gateway_poc.Back.Storage.Calls.{Grows}

module _ (lib : Hiredis) (stream : lib.World → List StreamEntry) where
  open lib use {World, command, err}

  -- An entry with one field `data`, whose value is the body, stands behind those that were there.
  pub record NewEntry (body : Bytes) (w w' : World) : Type 0 where
    pub entry : StreamEntry
    pub before : List StreamEntry
    pub after : List StreamEntry
    pub one_field : entry.fields ≡ (data_field, body) ∷ []
    pub split : stream w' ≡ stream w ++ (before ++ (entry ∷ after))

  -- What the front relies on: an `XADD` removes nothing, and has added its entry if it is not
  -- refused.
  pub record AddsEntries : Type 0 where
    pub grows :
        (c : ℕ) (body : Bytes) (w : World)
        → Grows stream w (command c (xadd messages_stream data_field body) w).1
    pub added :
        (c : ℕ) (body : Bytes) (w : World)
        → let r = command c (xadd messages_stream data_field body) w in
          err r.1 c ≡ redis_ok → is_error r.0 ≡ false → NewEntry body w r.1

  -- What was added meanwhile stands before it.
  pub later-NewEntry :
      (body : Bytes) (w w' w'' : World)
      → Grows stream w w'
      → NewEntry body w' w''
      → NewEntry body w w''
  later-NewEntry body w w' w'' (more, grown) n = record {
    entry = n.entry;
    before = more ++ n.before;
    after = n.after;
    one_field = n.one_field;
    split =
        n.split
        ∙ ap (λ (x : List StreamEntry). x ++ (n.before ++ (n.entry ∷ n.after))) grown
        ∙ append_assoc (stream w) more (n.before ++ (n.entry ∷ n.after))
        ∙ ap (◌++◌ (stream w)) (sym (append_assoc more n.before (n.entry ∷ n.after)));
  }

module _ (lib : Hiredis) (config : RedisConfig) (thread : ℕ) (body : Bytes) where
  pub same_error : (o : Option Reply) → Writer.is_error lib config thread body o ≡ is_error o
  same_error none = refl
  same_error (some (error shown)) = refl
  same_error (some (str s)) = refl
  same_error (some (array es)) = refl
  same_error (some (other n)) = refl

pub carried :
    (e : StreamEntry) (body : Bytes)
    → e.fields ≡ (data_field, body) ∷ []
    → (to_message e).payload ≡ body
unfolding str_eq
carried e body one = rw one refl
