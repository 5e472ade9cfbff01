-- ===== src/Worker/Handlers.antt =====
-- `TaskRegistry` and `PythonHandlerExecutor` of src/atlasqueue/worker/executor/python_executor.py,
-- and the two executors together.
use Prim.Native.String.{◌++◌ as cat}
use atlas_queue.Prelude.{
  ℕ, String, str_eq, Bool, Option, none, some, List, [], ◌∷◌, map, if◌then◌else◌,
}
use atlas_queue.Prelude.Text.{truthy}
use atlas_queue.Domain.Exceptions.{Result, ok, err, value_error, timeout_error, ◌>>=◌}
use atlas_queue.Domain.Task.{Task, Json, Fields, obj, end, field}
use atlas_queue.Runtime.World.{Settings}
use atlas_queue.Worker.Executor.{Executors}
use atlas_queue.Worker.Webhook.{Texts, HttpClient, execute_webhook}

-- A handler, awaited or run in a thread: what its `n`-th call of the run answers, with the keyword
-- arguments if there are any.
pub record Handler : Type 0 where
  pub call : ℕ → Option Fields → Result Json

-- the dictionary `_handlers`, in the order in which its names came
abbrev pub Registry : Type 0
Registry = List (String × Handler)

unfoldable pub add_handler : String → Handler → Registry → Registry
add_handler name handler [] = (name, handler) ∷ []
add_handler name handler ((n, h) ∷ rest) =
    if str_eq n name then (n, handler) ∷ rest else (n, h) ∷ add_handler name handler rest

unfoldable pub get_handler : String → Registry → Option Handler
get_handler name [] = none
get_handler name ((n, h) ∷ rest) = if str_eq n name then some h else get_handler name rest

unfoldable pub handler_names : Registry → List String
handler_names registry = map (λ e. e.0) registry

-- the decorator `task(name)` on a function of that `__name__`
unfoldable pub decorate : Option String → (fn_name : String) → Handler → Registry → Registry
unfolding add_handler
decorate none fn_name fn registry = add_handler fn_name fn registry
decorate (some name) fn_name fn registry =
    add_handler (if truthy (some name) then name else fn_name) fn registry

-- `handler(**payload) if payload else handler()`
abbrev pub kwargs : Fields → Option Fields
kwargs end = none
kwargs payload = some payload

-- `result if isinstance(result, dict) else {"result": result}`
abbrev pub as_dict : Json → Fields
as_dict (obj f) = f
as_dict v = field "result" v end

abbrev pub call_handler : ℕ → Task → Option Handler → Result Fields
call_handler n task none =
    err (value_error (cat "No handler registered for task '" (cat task.name "'")))
call_handler n task (some handler) = handler.call n (kwargs task.payload) >>= (λ v. ok (as_dict v))

unfoldable pub execute_python : Registry → ℕ → Task → Result Fields
unfolding get_handler
execute_python registry n task = call_handler n task (get_handler task.name registry)

-- `asyncio.wait_for`, for a call that is late or is not
abbrev pub wait_for : Bool → Result Fields → Result Fields
wait_for late result = if late then err timeout_error else result

-- the executors of a worker process, with the calls of the run that take too long
unfoldable pub executors : Registry → Texts → Settings → HttpClient → (late : ℕ → Bool) → Executors
unfolding execute_python execute_webhook
executors registry texts settings client late = record {
  execute_python = λ n task. wait_for (late n) (execute_python registry n task);
  execute_webhook = λ n task. wait_for (late n) (execute_webhook texts settings client n task);
}
