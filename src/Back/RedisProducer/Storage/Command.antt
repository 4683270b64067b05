-- ===== src/Back/RedisProducer/Storage/Command.antt =====
-- The text of a deletion, and the entries behind the messages that it names.
use gateway_poc.Base.{◌≡◌, refl, ap, ap₂, ◌∙◌, List, [], ◌∷◌, ◌++◌, map, All, arith}
use gateway_poc.Base.Bytes.{codes}
use gateway_poc.Back.Message.{Message}
use gateway_poc.Back.Consumer.Chunks.{ids}
use gateway_poc.Back.Redis.{xdel_arguments, make_xdel_command}
use gateway_poc.Back.Redis.Stream.{StreamEntry, InRange, to_message, make_xdel_command-stream}
use gateway_poc.Back.RedisProducer.Server.{xdel_text}

-- The command is written from the ids alone.
xdel_arguments-ids :
    (given ms : List Message) → ids given ≡ ids ms → xdel_arguments given ≡ xdel_arguments ms
unfolding xdel_arguments
xdel_arguments-ids [] [] e = refl
xdel_arguments-ids [] (m ∷ ms) e = cc
xdel_arguments-ids (g ∷ given) [] e = cc
xdel_arguments-ids (g ∷ given) (m ∷ ms) e =
    let head : g.id ≡ m.id = ground arith in rw (head, xdel_arguments-ids given ms (ground arith))

pub given-xdel_text :
    (given : List Message) (es : List StreamEntry)
    → ids given ≡ ids (map to_message es)
    → All InRange es
    → make_xdel_command given ≡ xdel_text es
unfolding make_xdel_command
given-xdel_text given es same fit =
    ap (◌++◌ (codes "XDEL messages")) (xdel_arguments-ids given (map to_message es) same)
    ∙ make_xdel_command-stream es fit

-- Messages of a stream, split, are the messages of its parts.
pub map-split :
    (all : List StreamEntry) (first rest : List Message)
    → map to_message all ≡ first ++ rest
    → (es : List StreamEntry) × (more : List StreamEntry) × (all ≡ es ++ more)
      × (map to_message es ≡ first)
      × (map to_message more ≡ rest)
map-split all [] rest e = ([], all, refl, refl, e)
map-split [] (m ∷ first) rest e = cc
map-split (x ∷ all) (m ∷ first) rest e =
    let (es, more, split, left, right) = map-split all first rest (ground arith) in
    (
      x ∷ es,
      more,
      ap (◌∷◌ x) split,
      ap₂ (λ (k : Message) (ms : List Message). k ∷ ms) (ground arith) left,
      right,
    )
