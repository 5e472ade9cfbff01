-- ===== src/Worker/Webhook.antt =====
-- src/atlasqueue/infrastructure/http/webhook_client.py
pub mod Checked
use Prim.Native.String.{◌++◌}
use atlas_queue.Prelude.{
  ℕ, String, str_eq, starts_with, Bool, true, false, not, ◌||◌, Option, none, some, List, [], ◌∷◌,
  any, ◌==◌, if◌then◌else◌,
}
use atlas_queue.Prelude.Int.{ℤ, pos, eqb_ℤ}
use atlas_queue.Prelude.Text.{truthy}
use atlas_queue.Domain.Exceptions.{Result, ok, err, value_error, webhook_validation_error, ◌>>=◌}
use atlas_queue.Domain.Task.{
  Task, Json, Fields, Items, null, bool, num, real, text, arr, obj, end, field, nil, cons,
}
use atlas_queue.Runtime.World.{Settings}

-- what the code reads of the answer of `urlparse`
pub record ParsedUrl : Type 0 where
  pub scheme : String
  pub hostname : Option String

-- Python's own functions on texts; `str` is that of a JSON value
pub record Texts : Type 0 where
  pub urlparse : String → Result ParsedUrl
  pub lower : String → String
  pub upper : String → String
  pub str : Json → String

pub record HttpRequest : Type 0 where
  pub method : String
  pub url : String
  pub headers : Json
  pub json : Option Fields
  pub content : Option String
  pub timeout : ℕ

-- `json` is `none` where `response.json()` raises a `ValueError`
pub record HttpResponse : Type 0 where
  pub status_code : ℕ
  pub text : String
  pub json : Option Json

-- httpx: the answer to the `n`-th call of the run
pub record HttpClient : Type 0 where
  pub request : ℕ → HttpRequest → Result HttpResponse
  pub raise_for_status : HttpResponse → Result (Unit {0})

-- `payload.get(key)`; a key that is there twice has its last value
unfoldable pub get : String → Fields → Option Json
get key end = none
get key (field k v rest) = elim (get key rest) [
  | some x ↦ some x
  | none ↦ if str_eq k key then some v else none
]

abbrev pub get_or : String → Json → Fields → Json
get_or key default fields = elim (get key fields) [ none ↦ default | some v ↦ v ]

-- the truth value of a JSON value; of the floats only the two zeros are false
abbrev pub is_truthy : Json → Bool
is_truthy null = false
is_truthy (bool b) = b
is_truthy (num n) = not (eqb_ℤ n (pos 0))
is_truthy (real x) = not (x.bits == 0 || x.bits == 0x8000000000000000)
is_truthy (text s) = truthy (some s)
is_truthy (arr nil) = false
is_truthy (arr (cons _ _)) = true
is_truthy (obj end) = false
is_truthy (obj (field _ _ _)) = true

-- `body if isinstance(body, dict) else None`, and the other way round
abbrev pub dict_or_none : Json → Option Fields
dict_or_none (obj f) = some f
dict_or_none _ = none

abbrev pub text_unless_dict : (Json → String) → Json → Option String
text_unless_dict str (obj f) = none
text_unless_dict str v = some (str v)

abbrev pub text_or_empty : Option String → String
text_or_empty none = ""
text_or_empty (some s) = s

-- the hosts that are refused
abbrev pub is_private : String → Bool
is_private host =
    any (str_eq host) ("localhost" ∷ "127.0.0.1" ∷ "0.0.0.0" ∷ "::1" ∷ [])
    || (starts_with host "10." || (starts_with host "192.168." || starts_with host "172."))

module _ (texts : Texts) (settings : Settings) where
  abbrev pub host_of : ParsedUrl → String
  host_of parsed = texts.lower (text_or_empty parsed.hostname)

  abbrev pub check_parsed : ParsedUrl → Result (Unit {0})
  check_parsed parsed =
      if any (str_eq parsed.scheme) ("http" ∷ "https" ∷ [])
      then (if is_private (host_of parsed)
          then err
              (webhook_validation_error ("Webhook URL targets private network: " ++ host_of parsed))
          else ok tt)
      else err (webhook_validation_error ("Unsupported webhook scheme: " ++ parsed.scheme))

  unfoldable pub validate_webhook_url : String → Result (Unit {0})
  validate_webhook_url url =
      if settings.block_private_webhook_urls then texts.urlparse url >>= check_parsed else ok tt

  -- what is sent for a payload with that URL
  abbrev pub request_for : Task → String → HttpRequest
  request_for task url =
      let body = get_or "body" (get_or "data" (obj end) task.payload) task.payload in
      record {
        method = texts.upper (texts.str (get_or "method" (text "POST") task.payload));
        url = url;
        headers =
            let headers = get_or "headers" null task.payload in
            if is_truthy headers then headers else obj end;
        json = dict_or_none body;
        content = text_unless_dict texts.str body;
        timeout = task.timeout_seconds;
      }

  -- `execute` up to the request
  unfoldable pub prepare : Task → Result HttpRequest
  unfolding validate_webhook_url get
  prepare task =
      let url = get_or "url" null task.payload in
      if is_truthy url
      then validate_webhook_url (texts.str url) >>= (λ _. ok (request_for task (texts.str url)))
      else err (value_error "Webhook payload must include 'url'")

  abbrev pub body_of : HttpResponse → Json
  body_of response = elim response.json [
    | none ↦ obj (field "text" (text response.text) end)
    | some v ↦ v
  ]

  unfoldable pub execute_webhook : HttpClient → ℕ → Task → Result Fields
  unfolding prepare
  execute_webhook client n task = prepare task >>= (λ request.
      client.request n request >>= (λ response. client.raise_for_status response >>= (λ _. ok (
        field "status_code" (num (pos response.status_code))
          (field "body" (body_of response) end)))))
