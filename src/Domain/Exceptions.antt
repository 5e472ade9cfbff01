-- ===== src/Domain/Exceptions.antt =====
-- src/atlasqueue/domain/exceptions.py, with the other exceptions that the modelled code raises or
-- lets through. A call that may raise returns a `Result`.
use Prim.Native.String.{◌++◌}
use atlas_queue.Prelude.{ℕ, String, Option, none, some}
use atlas_queue.Prelude.Text.{show}

-- `external_error` is what a call outside the repository raises: Redis, Postgres, a task handler,
-- httpx, with its text. The two validation errors are FastAPI's and pydantic's, with their text and
-- the text of their list. The last five are Python's own and `WebhookValidationError`.
pub data Exc : Type 0 where
  atlas_queue_error : (message code : String) → Exc
  task_not_found_error : (task_id : String) → Exc
  invalid_task_state_error : (message : String) → Exc
  enqueue_failed_error : (message : String) → Exc
  payload_too_large_error : (max_bytes : ℕ) → Exc
  invalid_task_id_error : (task_id : String) → Exc
  authentication_error : (message : String) → Exc
  authorization_error : (message : String) → Exc
  external_error : (message : String) → Exc
  request_validation_error validation_error : (message errors : String) → Exc
  value_error : (message : String) → Exc
  overflow_error : (message : String) → Exc
  type_error : (message : String) → Exc
  timeout_error : Exc
  webhook_validation_error : (message : String) → Exc

pub data Result {ℓ} (A : Type ℓ) : Type ℓ where
  ok : A → Result A
  err : Exc → Result A

-- `str(exc)`, and the field `message` of the repository's own exceptions
unfoldable pub message : Exc → String
message (atlas_queue_error m c) = m
message (task_not_found_error i) = "Task " ++ i ++ " not found"
message (invalid_task_state_error m) = m
message (enqueue_failed_error m) = m
message (payload_too_large_error n) = "Payload exceeds max size of " ++ show n ++ " bytes"
message (invalid_task_id_error i) = "Invalid task id: " ++ i
message (authentication_error m) = m
message (authorization_error m) = m
message (external_error m) = m
message (value_error m) = m
message (overflow_error m) = m
message (request_validation_error m e) = m
message (validation_error m e) = m
message (type_error m) = m
message timeout_error = ""
message (webhook_validation_error m) = m

-- the field `code`, which only the subclasses of `AtlasQueueError` have
unfoldable pub code : Exc → Option String
code (atlas_queue_error m c) = some c
code (task_not_found_error i) = some "task_not_found"
code (invalid_task_state_error m) = some "invalid_task_state"
code (enqueue_failed_error m) = some "enqueue_failed"
code (payload_too_large_error n) = some "payload_too_large"
code (invalid_task_id_error i) = some "invalid_task_id"
code (authentication_error m) = some "authentication_failed"
code (authorization_error m) = some "authorization_failed"
code _ = none

infixl 10 ◌>>=◌
abbrev pub ◌>>=◌ {ℓ κ} : {A : Type ℓ} {B : Type κ} → Result A → (A → Result B) → Result B
ok a >>= f = f a
err e >>= f = err e
