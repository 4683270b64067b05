-- ===== src/Tests/Server.antt =====
-- A server whose stream has one entry or none, and whose connection may be lost until it is made
-- again.
use mathlib.Core.List.{append-nil}
use gateway_poc.Base.{
  ◌≡◌, refl, sym, ap, ◌∙◌, ◌⊎◌, inl, inr, Bool, true, false, Option, none, some, List, [], ◌∷◌,
  ◌++◌, if◌then◌else◌, arith,
}
use gateway_poc.Base.Bytes.{Bytes, codes, str_eq}
use gateway_poc.Base.Decimal.{to_string}
use gateway_poc.Common.Config.{RedisConfig}
use gateway_poc.Hiredis.{
  Hiredis, Reply, array, error, other, Command, auth, xadd, xrange, text, redis_ok, err_eof,
}
use gateway_poc.Back.Storage.{IsStorage}
use gateway_poc.Back.Redis.{data_field, messages_stream}
use gateway_poc.Back.Redis.Stream.{StreamEntry, entries_reply}
use gateway_poc.Back.RedisProducer.{redis_producer}
use gateway_poc.Back.RedisProducer.Server.{xdel_text, Safe, Refused, IsStream}
use gateway_poc.Back.RedisProducer.Storage.{streamed, redis_producer-IsStorage}

pub record Single : Type 0 where
  pub up : Bool
  pub full : Bool

abbrev pub an_entry : StreamEntry
an_entry = record { time = 17; sequence = 3; fields = (data_field, codes "hello") ∷ [] }

abbrev pub entries_in : Single → List StreamEntry
entries_in w = if w.full then an_entry ∷ [] else []

abbrev answer : Command → Single → Option Reply × Single
answer (auth user password) w = (some (other 5), w)
answer (xadd stream field value) w = (none, w)
answer (xrange stream n) w = (some (array (entries_reply (entries_in w))), w)
answer (text query) w = (
  some (other 3),
  if str_eq query (xdel_text (an_entry ∷ [])) then record w { full = false } else w,
)

abbrev pub server : Hiredis
server = record {
  World = Single;
  connect = λ host port w. (some 7, record w { up = true });
  reconnect = λ c w. (true, record w { up = true });
  command = λ c asked w. if w.up then answer asked w else (none, w);
  free = λ c w. w;
  err = λ w c. if w.up then redis_ok else err_eof;
  errstr = λ w c. [];
}

abbrev pub GoneFrom : List StreamEntry → Single → Type 0
GoneFrom es w = (w.full ≡ false) ⊎ (es ≡ [])

same-Safe : (w v : Single) → w.full ≡ v.full → Safe server entries_in GoneFrom w v
same-Safe w v e = (
  (
    [],
    ap (λ (b : Bool). if b then an_entry ∷ [] else []) (sym e) ∙ sym (append-nil (entries_in w)),
  ),
  λ es gone. elim gone [ inl left ↦ inl (sym e ∙ left) | inr nothing ↦ inr nothing ],
)

abbrev Present : List StreamEntry → List StreamEntry → Single → Type 0
Present es rest w =
    let r = server.command 7 (text (xdel_text es)) w in
    (GoneFrom es r.1 × ((more : List StreamEntry) × (entries_in r.1 ≡ rest ++ more)))
    ⊎ (Refused r.0 (server.err r.1 7)
        × ((more : List StreamEntry) × (entries_in r.1 ≡ entries_in w ++ more)))

abbrev single : Bool → Bool → Single
single up full = record { up = up; full = full }

present-Present :
    (up full : Bool) (es rest : List StreamEntry)
    → entries_in (single up full) ≡ es ++ rest
    → Present es rest (single up full)
unfolding str_eq to_string
present-Present false full es rest head =
    inr (λ h. cc, ([], sym (append-nil (entries_in (single false full)))))
present-Present true false [] rest head = inl (inl refl, ([], head ∙ sym (append-nil rest)))
present-Present true false (e ∷ es) rest head = cc
present-Present true true [] rest head = inl (inr refl, ([], head ∙ sym (append-nil rest)))
present-Present true true (e ∷ []) rest head =
    let first : an_entry ≡ e = ground arith in
    let behind : rest ≡ [] = ground arith in rw (sym first, behind) (inl (inl refl, ([], refl)))
present-Present true true (e ∷ f ∷ es) rest head = cc

gone-Safe :
    (up full : Bool) (es : List StreamEntry)
    → GoneFrom es (single up full)
    → Safe server entries_in GoneFrom
        (single up full)
        (server.command 7 (text (xdel_text es)) (single up full)).1
unfolding str_eq to_string
gone-Safe false full es gone = same-Safe (single false full) (single false full) refl
gone-Safe true false es gone =
    same-Safe (single true false) (server.command 7 (text (xdel_text es)) (single true false)).1
      (elim (str_eq (xdel_text es) (xdel_text (an_entry ∷ [])))
        as (λ (b : Bool).
          false
          ≡ (if b then record (single true false) { full = false } else single true false).full) [
            | true ↦ refl
            | false ↦ refl
          ])
gone-Safe true true es (inl left) = cc
gone-Safe true true es (inr nothing) =
    rw (nothing) (same-Safe (single true true) (single true true) refl)

answer-Safe :
    (asked : Command) (w : Single)
    → (answer asked w).1 ≡ w
    → Safe server entries_in GoneFrom w (server.command 7 asked w).1
answer-Safe asked w e = same-Safe w (server.command 7 asked w).1 (ground arith)

abbrev Described : Single → Type 0
Described w =
    let r = server.command 7 (xrange messages_stream 10) w in
    (r.0 ≡ none)
    ⊎ ((shown : Bytes) × (r.0 ≡ some (error shown)))
    ⊎ ((es : List StreamEntry) × (rest : List StreamEntry) × (r.0 ≡ some (array (entries_reply es)))
        × (entries_in r.1 ≡ es ++ rest))

xrange-Described : (up full : Bool) → Described (single up full)
xrange-Described false full = inl refl
xrange-Described true full =
    let es = entries_in (single true full) in inr (inr (es, [], refl, sym (append-nil es)))

pub server-IsStream : IsStream server entries_in GoneFrom
server-IsStream = record {
  in_range = λ w. ground arith;
  connect_safe = λ host port w. same-Safe w (record w { up = true }) refl;
  reconnect_safe = λ c w. same-Safe w (record w { up = true }) refl;
  free_safe = λ c w. same-Safe w w refl;
  auth_safe = λ c user password w. answer-Safe (auth user password) w refl;
  xrange_safe = λ c n w. answer-Safe (xrange messages_stream n) w refl;
  xrange_reply = λ c n w. xrange-Described w.up w.full;
  xdel_present = λ c es rest w head. present-Present w.up w.full es rest head;
  xdel_gone = λ c es w gone. gone-Safe w.up w.full es gone;
}

abbrev pub a_config : RedisConfig
a_config = record { host = codes "redis"; port = 6379; user = codes "u"; password = codes "p" }

redis_producer-IsStorage_example :
    IsStorage (redis_producer server a_config 10) (streamed server entries_in)
redis_producer-IsStorage_example =
    redis_producer-IsStorage server entries_in GoneFrom server-IsStream a_config 10
