-- ===== src/Back/Redis/Stream.antt =====
-- A stream of Redis as `XRANGE` describes it, and what the producer makes of that reply.
use gateway_poc.Base.{
  ℕ, ◌+◌, ◌*◌, ◌^◌, ◌<◌, ◌≡◌, refl, ap, ap₂, List, [], ◌∷◌, ◌++◌, map, length, All, if◌then◌else◌,
  arith, Bool-cases, inl, inr,
}
use gateway_poc.Base.Bytes.{Bytes, codes, str_eq}
use gateway_poc.Base.Outcome.{ok, >>=-eq-ok}
use gateway_poc.Back.Message.{Message}
use gateway_poc.Hiredis.{Reply, str, array, Replies, nil, cons, elements}
use gateway_poc.Back.Redis.{
  data_field, data_from_fields, message_from_entry, messages_from_entries, messages_from_reply,
  xdel_arguments, make_xdel_command,
}
use gateway_poc.Back.Redis.Names.{
  entry_name, message_id-entry_name, pack_id-fields, entry_of_id-fields,
}

pub record StreamEntry : Type 0 where
  pub time : ℕ
  pub sequence : ℕ
  pub fields : List (Bytes × Bytes)

abbrev pub name_of : StreamEntry → Bytes
name_of e = entry_name e.time e.sequence

-- An array of entries, each a pair of its name and an array of its fields and values in turn.
abbrev pub fields_reply : List (Bytes × Bytes) → Replies
fields_reply [] = nil
fields_reply ((name, value) ∷ fields) = cons (str name) (cons (str value) (fields_reply fields))

abbrev pub entry_reply : StreamEntry → Reply
entry_reply e = array (cons (str (name_of e)) (cons (array (fields_reply e.fields)) nil))

abbrev pub entries_reply : List StreamEntry → Replies
entries_reply [] = nil
entries_reply (e ∷ es) = cons (entry_reply e) (entries_reply es)

-- The value of the first field `data`; nothing, where there is none.
abbrev pub payload_of : List (Bytes × Bytes) → Bytes
payload_of [] = []
payload_of ((name, value) ∷ fields) = if str_eq name data_field then value else payload_of fields

abbrev pub InRange : StreamEntry → Type 0
InRange e = (e.time < 2 ^ 42) × (e.sequence < 2 ^ 22)

abbrev pub to_message : StreamEntry → Message
to_message e = record { id = e.time * 2 ^ 22 + e.sequence; payload = payload_of e.fields }

data_from_fields-reply :
    (fields : List (Bytes × Bytes))
    → data_from_fields (fields_reply fields) ≡ ok (payload_of fields)
unfolding data_from_fields
data_from_fields-reply [] = refl
data_from_fields-reply ((name, value) ∷ fields) = elim (Bool-cases (str_eq name data_field)) [
  | inl e ↦ rw e
  | inr e ↦ rw e (data_from_fields-reply fields)
]

message_from_entry-reply :
    (e : StreamEntry) → InRange e → message_from_entry (entry_reply e) ≡ ok (to_message e)
unfolding message_from_entry
message_from_entry-reply e h = rw (
  message_id-entry_name e.time e.sequence (omega arith) (omega arith),
  pack_id-fields e.time e.sequence h.0 h.1,
  data_from_fields-reply e.fields,
)

messages_from_entries-reply :
    (es : List StreamEntry)
    → All InRange es
    → messages_from_entries (entries_reply es) ≡ ok (map to_message es)
unfolding messages_from_entries
messages_from_entries-reply [] h = refl
messages_from_entries-reply (e ∷ es) h =
    rw (message_from_entry-reply e h.0, messages_from_entries-reply es h.1)

-- Entries within 42 bits of time and 22 bits of sequence become messages in the order of the
-- stream, none dropped and none invented, each with the entry's id and with the value of its first
-- field `data`, or with no bytes where it has none.
pub messages_from_reply-stream :
    (es : List StreamEntry)
    → All InRange es
    → messages_from_reply (array (entries_reply es)) ≡ ok (map to_message es)
unfolding messages_from_reply
messages_from_reply-stream es h = messages_from_entries-reply es h

abbrev pub names : List StreamEntry → Bytes
names [] = []
names (e ∷ es) = (b' ' ∷ name_of e) ++ names es

xdel_arguments-names :
    (es : List StreamEntry) → All InRange es → xdel_arguments (map to_message es) ≡ names es
unfolding xdel_arguments
xdel_arguments-names [] h = refl
xdel_arguments-names (e ∷ es) h =
    ap₂ (λ (s t : Bytes). (b' ' ∷ s) ++ t) (entry_of_id-fields e.time e.sequence h.0.1)
      (xdel_arguments-names es h.1)

-- The command written for the messages of entries within 42 bits of time and 22 bits of sequence
-- names those entries, in their order.
pub make_xdel_command-stream :
    (es : List StreamEntry)
    → All InRange es
    → make_xdel_command (map to_message es) ≡ codes "XDEL messages" ++ names es
unfolding make_xdel_command
make_xdel_command-stream es h = ap (◌++◌ (codes "XDEL messages")) (xdel_arguments-names es h)

messages_from_entries-length :
    (entries : Replies) (messages : List Message)
    → messages_from_entries entries ≡ ok messages
    → length messages ≡ elements entries
unfolding messages_from_entries
messages_from_entries-length nil messages e = ground arith
messages_from_entries-length (cons entry rest) messages e =
    let (m, read, e') = >>=-eq-ok (message_from_entry entry) _ e in
    let (ms, read_rest, e'') = >>=-eq-ok (messages_from_entries rest) _ e' in
    ground (arith, messages_from_entries-length rest ms read_rest)

-- An array whose elements are all read, of whatever shape, gives as many messages as it has
-- elements.
pub messages_from_reply-length :
    (entries : Replies) (messages : List Message)
    → messages_from_reply (array entries) ≡ ok messages
    → length messages ≡ elements entries
unfolding messages_from_reply
messages_from_reply-length entries messages e = messages_from_entries-length entries messages e
