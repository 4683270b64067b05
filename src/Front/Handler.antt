-- ===== src/Front/Handler.antt =====
-- gwfront/src/handler/interface.hpp and universal_handler.hpp. A writer is its call on its own
-- state, the storage included.
use gateway_poc.Base.{◌≡◌, ◌↔◌, Bool, true, false, [], if◌then◌else◌, arith}
use gateway_poc.Base.Bytes.{Bytes}

-- `IHandler::Error`
pub data HandlerError : Type 0 where
  ok generic bad_data storage_unavailable : HandlerError

pub record HandlerResult : Type 0 where
  pub error : HandlerError
  pub message : Bytes

-- The `Result` of the checkers, and the `Result` of the writers.
pub record CheckResult : Type 0 where
  pub ok : Bool
  pub message : Bytes

pub data WriterError : Type 0 where
  ok generic storage_unavailable : WriterError

pub record WriteResult : Type 0 where
  pub error : WriterError
  pub message : Bytes

abbrev pub Writer : Type 0 → Type 0
Writer W = Bytes → W → WriteResult × W

-- The `switch` over the writer's error.
unfoldable pub from_write : WriterError → Bytes → HandlerResult
from_write WriterError.generic message = record { error = HandlerError.generic; message = message }
from_write WriterError.storage_unavailable message = record {
  error = HandlerError.storage_unavailable;
  message = message;
}
from_write WriterError.ok message = record { error = HandlerError.ok; message = [] }

module _ {W : Type 0} (check : Bytes → CheckResult) (write : Writer W) where
  written : WriteResult × W → HandlerResult × W
  unfolding from_write
  written (r, w) = (from_write r.error r.message, w)

  -- `UniversalHandler::operator()`
  unfoldable pub handle : Bytes → W → HandlerResult × W
  unfolding written
  handle bytes w =
      if (check bytes).ok
      then written (write bytes w)
      else (record { error = bad_data; message = (check bytes).message }, w)

  -- Data that the checker refuses never reaches the storage, and the caller gets the checker's
  -- text.
  pub handle_refused :
      (bytes : Bytes) (w : W)
      → (check bytes).ok ≡ false
      → handle bytes w ≡ (record { error = bad_data; message = (check bytes).message }, w)
  unfolding handle
  handle_refused bytes w e = rw e

  -- The caller is told that a message is accepted exactly when the checker let it through and the
  -- writer wrote it; what the state becomes is then the writer's.
  pub handle-ok_iff :
      (bytes : Bytes) (w : W)
      → ((handle bytes w).0.error ≡ HandlerError.ok)
        ↔ (((check bytes).ok ≡ true) × ((write bytes w).0.error ≡ WriterError.ok))
  unfolding handle from_write
  handle-ok_iff bytes w = (λ e. ground arith, λ h. ground arith)
