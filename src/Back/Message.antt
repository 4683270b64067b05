-- ===== src/Back/Message.antt =====
-- gwback/src/message/message.hpp
use gateway_poc.Base.{ℕ}
use gateway_poc.Base.Bytes.{Bytes}

pub record Message : Type 0 where
  pub id : ℕ  -- uint64_t
  pub payload : Bytes  -- `data`
