-- ===== src/Hiredis.antt =====
-- The hiredis library, as the two programs call it: its replies as data, and its functions as a
-- record of operations on a world that holds the connections and the server. A connection is the
-- pointer that `redisConnect` gave.
use gateway_poc.Base.{ℕ, suc, Bool, true, false, Option}
use gateway_poc.Base.Bytes.{Bytes}

-- `redisReply`: its type, with what the code reads of it at that type. `other` is any type that the
-- code does not name, by its number.
mutual
  pub data Reply : Type 0 where
    str : Bytes → Reply
    array : Replies → Reply
    error : Bytes → Reply
    other : ℕ → Reply

  pub data Replies : Type 0 where
    nil : Replies
    cons : Reply → Replies → Replies

pub data ReplyType : Type 0 where
  string_type array_type error_type : ReplyType
  other_type : ℕ → ReplyType

abbrev pub type_of : Reply → ReplyType
type_of (str s) = string_type
type_of (array es) = array_type
type_of (error s) = error_type
type_of (other n) = other_type n

-- `reply->elements`
abbrev pub elements : Replies → ℕ
elements nil = 0
elements (cons e es) = suc (elements es)

-- `err` of a connection; `err_other` is any code that the programs do not name.
pub data Err : Type 0 where
  redis_ok err_io err_eof err_other : Err

abbrev pub is_ok : Err → Bool
is_ok redis_ok = true
is_ok e = false

-- The formats that the programs give to `redisCommand`, with their arguments.
pub data Command : Type 0 where
  auth : Bytes → Bytes → Command  -- "AUTH %s %s"
  xadd : Bytes → Bytes → Bytes → Command  -- "XADD %s * %s %b"
  xrange : Bytes → ℕ → Command  -- "XRANGE %s - + COUNT %u"
  text : Bytes → Command  -- a text without conversions

pub record Hiredis : Type 1 where
  pub World : Type 0
  pub connect : Bytes → ℕ → World → Option ℕ × World  -- none is a null pointer
  pub reconnect : ℕ → World → Bool × World  -- the result is `REDIS_OK`
  pub command : ℕ → Command → World → Option Reply × World
  pub free : ℕ → World → World
  pub err : World → ℕ → Err
  pub errstr : World → ℕ → Bytes
