-- ===== src/Tests/Steady.antt =====
-- A server of Redis that is always there, with one entry in its stream or none, and the back on it.
use mathlib.Core.List.{append-nil}
use gateway_poc.Base.{
  ◌≡◌, ◌≢◌, refl, sym, ap, ◌∙◌, ◌⊎◌, inl, inr, Bool, true, false, Option, none, some, List, [], ◌∷◌,
  ◌++◌, if◌then◌else◌, All, arith,
}
use gateway_poc.Base.Bytes.{Bytes, codes, str_eq}
use gateway_poc.Base.Decimal.{to_string}
use gateway_poc.Common.ResolveHost.{resolve_host}
use gateway_poc.Hiredis.{
  Hiredis, Reply, str, array, error, other, Command, auth, xadd, xrange, text, redis_ok,
}
use gateway_poc.Back.Redis.Stream.{StreamEntry, InRange, entries_reply}
use gateway_poc.Back.RedisProducer.Server.{xdel_text, Safe, Refused, IsStream, IsHealthy}
use gateway_poc.Back.Program.{main}
use gateway_poc.Back.Program.Drained.{Delivers, main-Delivered}
use gateway_poc.Tests.Common.{redis, back, back_toml, parse_config-back}
use gateway_poc.Tests.Database.{database}
use gateway_poc.Tests.Programs.{line, given, parsed_given, names, no_rows}

-- The entry with a value, by the name that this server always gives.
abbrev pub entry_with : Bytes → StreamEntry
entry_with value = record { time = 17; sequence = 0; fields = (codes "data", value) ∷ [] }

abbrev pub held : Option Bytes → List StreamEntry
held none = []
held (some value) = entry_with value ∷ []

abbrev pub removed : Bool → Option Bytes → Option Bytes
removed named w = if named then none else w

-- An entry is refused where there is one.
abbrev pub add : Bytes → Option Bytes → Option Reply × Option Bytes
add value none = (some (str (codes "17-0")), some value)
add value (some old) = (some (error (codes "full")), some old)

abbrev pub reply_to : Command → Option Bytes → Option Reply × Option Bytes
reply_to (auth user password) w = (some (other 5), w)
reply_to (xadd stream field value) w = add value w
reply_to (xrange stream n) w = (some (array (entries_reply (held w))), w)
reply_to (text query) w =
    (some (other 3), removed (str_eq query (xdel_text (entry_with [] ∷ []))) w)

abbrev pub steady : Hiredis
steady = record {
  World = Option Bytes;
  connect = λ host port w. (some 7, w);
  reconnect = λ c w. (true, w);
  command = λ c asked w. reply_to asked w;
  free = λ c w. w;
  err = λ w c. redis_ok;
  errstr = λ w c. [];
}

abbrev pub Left : List StreamEntry → Option Bytes → Type 0
Left es w = (w ≡ none) ⊎ (es ≡ [])

unmoved : (w v : Option Bytes) → w ≡ v → Safe steady held Left w v
unmoved w v e = (
  ([], ap held (sym e) ∙ sym (append-nil (held w))),
  λ es gone. elim gone [ inl left ↦ inl (sym e ∙ left) | inr nothing ↦ inr nothing ],
)

abbrev Removed : List StreamEntry → List StreamEntry → Option Bytes → Type 0
Removed es rest w =
    let r = steady.command 7 (text (xdel_text es)) w in
    (Left es r.1 × ((more : List StreamEntry) × (held r.1 ≡ rest ++ more)))
    ⊎ (Refused r.0 (steady.err r.1 7) × ((more : List StreamEntry) × (held r.1 ≡ held w ++ more)))

removed-none : (named : Bool) → none ≡ removed named none
removed-none true = refl
removed-none false = refl

deleted-Removed :
    (w : Option Bytes) (es rest : List StreamEntry) → held w ≡ es ++ rest → Removed es rest w
unfolding str_eq to_string
deleted-Removed none [] rest head =
    rw (sym (removed-none (str_eq (xdel_text []) (xdel_text (entry_with [] ∷ [])))))
      (inl (inl refl, ([], head ∙ sym (append-nil rest))))
deleted-Removed none (e ∷ es) rest head = cc
deleted-Removed (some value) [] rest head = inl (inr refl, ([], head ∙ sym (append-nil rest)))
deleted-Removed (some value) (e ∷ []) rest head =
    let first : entry_with value ≡ e = ground arith in
    let behind : rest ≡ [] = ground arith in rw (sym first, behind) (inl (inl refl, ([], refl)))
deleted-Removed (some value) (e ∷ f ∷ es) rest head = cc

again-Safe :
    (w : Option Bytes) (es : List StreamEntry)
    → Left es w
    → Safe steady held Left w (steady.command 7 (text (xdel_text es)) w).1
unfolding str_eq to_string
again-Safe none es gone =
    unmoved none (steady.command 7 (text (xdel_text es)) none).1
      (removed-none (str_eq (xdel_text es) (xdel_text (entry_with [] ∷ []))))
again-Safe (some value) es (inl left) = cc
again-Safe (some value) es (inr nothing) = rw nothing (unmoved (some value) (some value) refl)

held-InRange : (w : Option Bytes) → All InRange (held w)
held-InRange none = tt
held-InRange (some value) = ((omega arith, omega arith), tt)

pub steady-IsStream : IsStream steady held Left
steady-IsStream = record {
  in_range = held-InRange;
  connect_safe = λ host port w. unmoved w w refl;
  reconnect_safe = λ c w. unmoved w w refl;
  free_safe = λ c w. unmoved w w refl;
  auth_safe = λ c user password w. unmoved w w refl;
  xrange_safe = λ c n w. unmoved w w refl;
  xrange_reply = λ c n w. inr (inr (held w, [], refl, sym (append-nil (held w))));
  xdel_present = λ c es rest w head. deleted-Removed w es rest head;
  xdel_gone = λ c es w gone. again-Safe w es gone;
}

pub steady-IsHealthy : IsHealthy steady held
steady-IsHealthy = record {
  connects = λ host port w. (7, refl);
  in_order = λ w c. refl;
  welcomes = λ c user password w. refl;
  describes = λ c n w positive. (held w, [], refl, sym (append-nil (held w)), λ e. e);
  removes = λ c query w. refl;
}

pub address : resolve_host names redis.host ≢ []
unfolding resolve_host
address h = cc h

main-Delivered_example :
    Delivers line back_toml names steady database held Left steady-IsStream steady-IsHealthy 1
      no_rows
      (some (codes "x"))
      (main line back_toml names steady database 1 no_rows (some (codes "x")) given)
main-Delivered_example =
    main-Delivered line back_toml names steady database held Left steady-IsStream steady-IsHealthy 1
      no_rows (some (codes "x")) given (codes "gateway.toml") back redis parsed_given
      parse_config-back refl refl address (omega arith)
