-- ===== src/Back/Redis.antt =====
-- The functions of gwback/src/producer/redis_producer.cpp that read a reply of Redis and write the
-- command that deletes its entries.
pub mod Names
pub mod Stream
use Prim.Native.Nat.{bit_or, bit_and}
use gateway_poc.Base.{
  ℕ, zero, suc, ◌+◌, ◌-◌, ◌*◌, ◌/◌, ◌%◌, ◌^◌, Bool, true, false, ◌&&◌, List, [], ◌∷◌, ◌++◌, drop,
  if◌then◌else◌,
}
use gateway_poc.Base.Bytes.{Bytes, codes, str_eq}
use gateway_poc.Base.Decimal.{read_digits, to_string}
use gateway_poc.Base.Outcome.{Outcome, ok, throw, fault, ◌>>=◌}
use gateway_poc.Back.Message.{Message}
use gateway_poc.Hiredis.{
  Reply, str, array, error, other, Replies, nil, cons, ReplyType, type_of, elements,
}

-- The exceptions of these functions, with the value that the text of each shows.
pub data ReplyError : Type 0 where
  unexpected_id_type unexpected_data_type unexpected_reply_type : ReplyType → ReplyError
  unexpected_entry_type : ReplyType → ReplyError
  unexpected_entry_size : ℕ → ReplyError

abbrev pub messages_stream : Bytes
messages_stream = codes "messages"

abbrev pub data_field : Bytes
data_field = codes "data"

abbrev pub timestamp_shift : ℕ
timestamp_shift = 22

-- `(1 << TIMESTAMP_SHIFT) - 1`
abbrev pub sequence_mask : ℕ
sequence_mask = 2 ^ timestamp_shift - 1

-- `(ts << TIMESTAMP_SHIFT) | seq`, where the shift drops the bits above 63.
unfoldable pub pack_id : ℕ → ℕ → ℕ
pack_id ts seq = bit_or ((ts * 2 ^ timestamp_shift) % 2 ^ 64) seq

-- The two digit loops: the second begins behind the byte at which the first has stopped.
unfoldable pub message_id : Bytes → ℕ
unfolding pack_id read_digits
message_id s =
    let (ts, stopped) = read_digits 0 s in
    let (seq, end) = read_digits 0 (drop 1 stopped) in pack_id ts seq

unfoldable pub message_id_from_reply : Reply → Outcome ReplyError ℕ
unfolding message_id
message_id_from_reply (str s) = ok (message_id s)
message_id_from_reply reply = throw (unexpected_id_type (type_of reply))

-- `fieldName` is a string and is `data`, and `fieldValue` is a string.
data_value : Reply → Reply → Bool
data_value (str name) (str value) = str_eq name data_field
data_value name value = false

value_bytes : Reply → Bytes
value_bytes (str value) = value
value_bytes value = []

-- The loop takes the elements two at a time; behind an odd number of them `element[i + 1]` is read
-- past the end of the array.
unfoldable pub data_from_fields : Replies → Outcome ReplyError Bytes
unfolding data_value value_bytes
data_from_fields nil = ok []
data_from_fields (cons name nil) = fault
data_from_fields (cons name (cons value rest)) =
    if data_value name value then ok (value_bytes value) else data_from_fields rest

unfoldable pub message_data_from_reply : Reply → Outcome ReplyError Bytes
unfolding data_from_fields
message_data_from_reply (array fields) = data_from_fields fields
message_data_from_reply reply = throw (unexpected_data_type (type_of reply))

unfoldable pub message_from_entry : Reply → Outcome ReplyError Message
unfolding message_id_from_reply message_data_from_reply
message_from_entry (array (cons id (cons fields nil))) = do
  i ← message_id_from_reply id
  bytes ← message_data_from_reply fields
  ok (record { id = i; payload = bytes })
message_from_entry (array entry) = throw (unexpected_entry_size (elements entry))
message_from_entry entry = throw (unexpected_entry_type (type_of entry))

unfoldable pub messages_from_entries : Replies → Outcome ReplyError (List Message)
unfolding message_from_entry
messages_from_entries nil = ok []
messages_from_entries (cons entry rest) = do
  message ← message_from_entry entry
  messages ← messages_from_entries rest
  ok (message ∷ messages)

unfoldable pub messages_from_reply : Reply → Outcome ReplyError (List Message)
unfolding messages_from_entries
messages_from_reply (array entries) = messages_from_entries entries
messages_from_reply reply = throw (unexpected_reply_type (type_of reply))

-- `(id >> TIMESTAMP_SHIFT) << '-' << (id & SEQUENCE_MASK)`
unfoldable pub entry_of_id : ℕ → Bytes
unfolding to_string
entry_of_id id =
    to_string (id / 2 ^ timestamp_shift) ++ (b'-' ∷ to_string (bit_and id sequence_mask))

-- What the loop of `makeXdelCommand` adds.
unfoldable pub xdel_arguments : List Message → Bytes
unfolding entry_of_id
xdel_arguments [] = []
xdel_arguments (m ∷ messages) = (b' ' ∷ entry_of_id m.id) ++ xdel_arguments messages

unfoldable pub make_xdel_command : List Message → Bytes
unfolding xdel_arguments
make_xdel_command messages = (codes "XDEL " ++ messages_stream) ++ xdel_arguments messages
