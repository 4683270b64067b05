-- ===== src/Back/RedisProducer/Storage.antt =====
-- The producer of Redis as a storage of the loop.
mod Calls
mod Command
mod Fetch
pub mod Healthy
mod Mark
use mathlib.Core.List.{append_assoc, map-append}
use gateway_poc.Base.{
  ℕ, ◌≡◌, ◌≢◌, refl, sym, ap, ap₂, subst, ◌∙◌, ◌⊎◌, inl, inr, List, [], ◌∷◌, ◌++◌, map,
}
use gateway_poc.Base.Outcome.{Outcome, ok, throw, fault}
use gateway_poc.Common.Config.{RedisConfig}
use gateway_poc.Hiredis.{Hiredis}
use gateway_poc.Back.Message.{Message}
use gateway_poc.Back.Consumer.Chunks.{ids}
use gateway_poc.Back.Storage.{IsStorage}
use gateway_poc.Back.Storage.Calls.{Grows, Marks}
use gateway_poc.Back.Redis.Stream.{StreamEntry, to_message}
use gateway_poc.Back.RedisProducer.{State, mark_consumed, redis_producer}
use gateway_poc.Back.RedisProducer.Server.{IsStream}
use gateway_poc.Back.RedisProducer.Storage.Fetch.{get_next-Gives}
use gateway_poc.Back.RedisProducer.Storage.Command.{map-split}
use gateway_poc.Back.RedisProducer.Storage.Mark.{mark_consumed-Marks, mark_consumed-Defined}

-- The messages of the entries that a server has.
abbrev pub streamed : (lib : Hiredis) → (lib.World → List StreamEntry) → State lib → List Message
streamed lib stream s = map to_message (stream s.world)

map-two :
    (all left right : List StreamEntry)
    → all ≡ left ++ right
    → map to_message all ≡ map to_message left ++ map to_message right
map-two all left right e =
    ap (λ (x : List StreamEntry). map to_message x) e ∙ map-append to_message left right

module _ (lib : Hiredis) (stream : lib.World → List StreamEntry)
    (Gone : List StreamEntry → lib.World → Type 0) (law : IsStream lib stream Gone)
    (config : RedisConfig) (chunk_size : ℕ) where
  -- The rows of entries that a mark leaves are rows of messages.
  marked-messages :
      (first given rest : List Message) (s : State lib)
      → ids given ≡ ids first
      → streamed lib stream s ≡ first ++ rest
      → let r = mark_consumed lib config chunk_size given s in
        Marks (streamed lib stream) rest s r.0 r.1
  marked-messages first given rest s same head =
      let (es, behind, split, left, right) = map-split (stream s.world) first rest head in
      let marks =
        mark_consumed-Marks lib stream Gone law config chunk_size es behind given s
          (same ∙ ap ids (sym left)) split in
      record {
        done = λ h.
            let (more, kept) = marks.done h in
            (
              map to_message more,
              map-two _ _ _ kept ∙ ap (λ (x : List Message). x ++ map to_message more) right,
            );
        ended =
            let (more, either) = marks.ended in
            (
              map to_message more,
              elim either [
                | inl gone ↦
                    inl (
                      map-two _ _ _ gone
                      ∙ ap (λ (x : List Message). x ++ map to_message more) right)
                | inr kept ↦ inr (map-two _ _ _ kept)
              ],
            );
        defined = mark_consumed-Defined lib stream Gone law config chunk_size given s;
      }

  -- Over a server that keeps a stream in order, with names within 42 bits of time and 22 bits of
  -- sequence, removes the entries that are named, and gives no name twice, while others add entries
  -- at the end, the producer is a storage as the loop relies on it.
  pub redis_producer-IsStorage :
      IsStorage (redis_producer lib config chunk_size) (streamed lib stream)
  redis_producer-IsStorage = record {
    fetched = λ s ms h.
        let gives = get_next-Gives lib stream Gone law config chunk_size s in
        let (es, rest, same, head) = gives.first ms h in
        let (more, grown) = gives.safe.0 in
        (
          map to_message rest,
          map to_message more,
          map-two _ _ _ head ∙ ap (λ (x : List Message). x ++ map to_message rest) (sym same),
          map-two _ _ _ grown,
        );
    fetch_failed = λ s e h.
        let (more, grown) = (get_next-Gives lib stream Gone law config chunk_size s).safe.0 in
        (map to_message more, map-two _ _ _ grown);
    fetch_defined = λ s. (get_next-Gives lib stream Gone law config chunk_size s).defined;
    deleted =
        λ s m ms given rest same head h. (marked-messages (m ∷ ms) given rest s same head).done h;
    delete_failed =
        λ s e m ms given rest same head h. (marked-messages (m ∷ ms) given rest s same head).ended;
    delete_defined =
        λ s m ms given same. mark_consumed-Defined lib stream Gone law config chunk_size given s;
  }
