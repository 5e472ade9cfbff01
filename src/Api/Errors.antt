-- ===== src/Api/Errors.antt =====
-- `register_exception_handlers` of src/atlasqueue/api/errors.py.
use atlas_queue.Prelude.{ℕ, String, Option, none, some}
use atlas_queue.Domain.Exceptions.{
  Exc, message, code, atlas_queue_error, task_not_found_error, invalid_task_state_error,
  enqueue_failed_error, payload_too_large_error, invalid_task_id_error, authentication_error,
  authorization_error, request_validation_error, validation_error,
}

-- `errors` is the text of the list
pub record ErrorResponse : Type 0 where
  pub detail : String
  pub code : String
  pub request_id : Option String
  pub errors : Option String

pub record JsonResponse : Type 0 where
  pub status_code : ℕ
  pub content : ErrorResponse

-- the handler of the exception's class, and of `AtlasQueueError` for the rest of its subclasses;
-- FastAPI answers what has none with 500
unfoldable pub status_code : Exc → Option ℕ
status_code (task_not_found_error i) = some 404
status_code (invalid_task_id_error i) = some 422
status_code (invalid_task_state_error m) = some 400
status_code (payload_too_large_error n) = some 400
status_code (enqueue_failed_error m) = some 503
status_code (authentication_error m) = some 401
status_code (authorization_error m) = some 403
status_code (atlas_queue_error m c) = some 400
status_code (request_validation_error m e) = some 422
status_code (validation_error m e) = some 422
status_code _ = none

abbrev respond : Option String → Exc → Option ℕ → Option String → Option JsonResponse
respond request_id exc (some s) (some c) = some (record {
  status_code = s;
  content = record { detail = message exc; code = c; request_id = request_id; errors = none };
})
respond request_id exc _ _ = none

-- the answer to a validation error
abbrev invalid : Option String → (detail errors : String) → JsonResponse
invalid request_id detail errors = record {
  status_code = 422;
  content = record {
    detail = detail;
    code = "validation_error";
    request_id = request_id;
    errors = some errors;
  };
}

-- the handlers, most of which call `_error_response`
unfoldable pub error_response : Option String → Exc → Option JsonResponse
unfolding status_code
error_response request_id (request_validation_error m errors) =
    some (invalid request_id "Request validation failed" errors)
error_response request_id (validation_error m errors) =
    some (invalid request_id "Validation failed" errors)
error_response request_id exc = respond request_id exc (status_code exc) (code exc)
