-- ===== src/Api/Requests/Accepted.antt =====
-- What is known of a body that has been accepted.
use Prim.Native.String.{count}
use mathlib.Core.Option.{get_or}
use atlas_queue.Prelude.{ℕ, ◌≤◌, ◌≡◌, refl, String, Bool, Option, none, some, List, [], ◌∷◌, arith}
use atlas_queue.Prelude.Int.{ℤ, pos, negsuc}
use atlas_queue.Prelude.Options.{IfSome, IfSome-bind, IfSome-some, IfSome-none, IfSome-any, ◌>>=◌}
use atlas_queue.Domain.Backoff.{Float, BackoffPolicy}
use atlas_queue.Services.QueueManager.{SubmitTaskRequest}
use atlas_queue.Api.Requests.{
  BackoffPolicyBody, SubmitTaskBody, at_least, between, length_between, one_of, or_null,
  float_at_least_one, validate_backoff, validate_submit, dump_backoff, map_option, model_dump,
}

at_least-again : (low : ℕ) (z : ℤ) → IfSome (λ n. at_least low (pos n) ≡ some n) (at_least low z)
at_least-again low (pos n) = record { at = λ a e. ground arith }
at_least-again low (negsuc n) = IfSome-none

between-again :
    (low high : ℕ) (z : ℤ) → IfSome (λ n. between low high (pos n) ≡ some n) (between low high z)
between-again low high (pos n) = record { at = λ a e. ground arith }
between-again low high (negsuc n) = IfSome-none

length_between-again :
    (low high : ℕ) (s : String)
    → IfSome (λ t. length_between low high t ≡ some t) (length_between low high s)
length_between-again low high s = record { at = λ a e. ground arith }

pub between_le : (low high n : ℕ) → between low high (pos n) ≡ some n → n ≤ high
between_le low high n h = ground arith

pub length_between_le :
    (low high : ℕ) (s : String) → length_between low high s ≡ some s → count s ≤ high
length_between_le low high s h = ground arith

one_of-again :
    (options : List String) (s : String)
    → IfSome (λ t. one_of options t ≡ some t) (one_of options s)
one_of-again options s = record { at = λ a e. ground arith }

or_null-IfSome :
    {A B : Type 0} {Q : B → Type 0} (f : A → Option B) (o : Option A)
    → ((a : A) → IfSome Q (f a))
    → IfSome (IfSome Q) (or_null f o)
or_null-IfSome f none h = IfSome-some none IfSome-none
or_null-IfSome f (some a) h =
    IfSome-bind (f a) _ (h a) (λ b q. IfSome-some (some b) (IfSome-some b q))

-- an optional value that is dumped and read again
or_null-again :
    {A B : Type 0} (dump : B → A) (f : A → Option B) (o : Option B)
    → IfSome (λ b. f (dump b) ≡ some b) o
    → or_null f (map_option dump o) ≡ some o
unfolding ◌>>=◌
or_null-again dump f none h = refl
or_null-again dump f (some b) h = rw (h.at b refl) refl

or_null-same :
    {A : Type 0} (f : A → Option A) (o : Option A)
    → IfSome (λ b. f b ≡ some b) o
    → or_null f o ≡ some o
unfolding ◌>>=◌
or_null-same f none h = refl
or_null-same f (some b) h = rw (h.at b refl) refl

module _ (is_at_least_one : Float → Bool) where
  float-again :
      (x : Float)
      → IfSome
          (λ y. float_at_least_one is_at_least_one y ≡ some y)
          (float_at_least_one is_at_least_one x)
  float-again x = record { at = λ a e. ground arith }

  abbrev Again : BackoffPolicy → Type 0
  Again p = validate_backoff is_at_least_one (dump_backoff p) ≡ some p

  fields-Again :
      (p : BackoffPolicy)
      → one_of ("fixed" ∷ "exponential" ∷ []) p.strategy ≡ some p.strategy
      → at_least 0 (pos p.base_delay_seconds) ≡ some p.base_delay_seconds
      → at_least 1 (pos p.max_delay_seconds) ≡ some p.max_delay_seconds
      → float_at_least_one is_at_least_one p.multiplier ≡ some p.multiplier
      → Again p
  unfolding validate_backoff ◌>>=◌
  fields-Again p s b m f = rw (s, b, m, f) refl

  backoff-Again : (body : BackoffPolicyBody) → IfSome Again (validate_backoff is_at_least_one body)
  unfolding validate_backoff
  backoff-Again body =
      IfSome-bind _ _ (one_of-again ("fixed" ∷ "exponential" ∷ []) (get_or body.strategy "fixed"))
        λ strategy s.
          IfSome-bind _ _ (at_least-again 0 (get_or body.base_delay_seconds (pos 5))) λ base b.
            IfSome-bind _ _ (at_least-again 1 (get_or body.max_delay_seconds (pos 300))) λ most m.
              IfSome-bind _ _ (float-again _) λ x f. IfSome-some _ (fields-Again _ s b m f)

  -- each field of the request keeps its constraints
  pub record Valid (r : SubmitTaskRequest) : Type 0 where
    pub name : length_between 1 255 r.name ≡ some r.name
    pub executor_type : one_of ("python" ∷ "webhook" ∷ []) r.executor_type ≡ some r.executor_type
    pub priority : (n : ℕ) × (r.priority ≡ pos n) × (between 0 10 (pos n) ≡ some n)
    pub max_retries : between 0 20 (pos r.max_retries) ≡ some r.max_retries
    pub timeout_seconds : between 1 3600 (pos r.timeout_seconds) ≡ some r.timeout_seconds
    pub backoff_policy : IfSome Again r.backoff_policy
    pub idempotency_key : IfSome (λ k. length_between 0 255 k ≡ some k) r.idempotency_key

  pub validate_submit-Valid :
      (body : SubmitTaskBody) → IfSome Valid (validate_submit is_at_least_one body)
  unfolding validate_submit
  validate_submit-Valid body = IfSome-bind _ _ (IfSome-any body.name) λ given _.
      IfSome-bind _ _ (length_between-again 1 255 given) λ name n.
        IfSome-bind _ _
          (one_of-again ("python" ∷ "webhook" ∷ []) (get_or body.executor_type "python"))
          λ executor e.
            IfSome-bind _ _ (between-again 0 10 (get_or body.priority (pos 2))) λ priority p.
              IfSome-bind _ _ (between-again 0 20 (get_or body.max_retries (pos 3))) λ retries m.
                IfSome-bind _ _ (between-again 1 3600 (get_or body.timeout_seconds (pos 300)))
                  λ timeout t.
                    IfSome-bind _ _ (or_null-IfSome {Q = Again} _ body.backoff_policy backoff-Again)
                      λ backoff b.
                        IfSome-bind _ _
                          (or_null-IfSome _ body.idempotency_key (length_between-again 0 255))
                          λ key k. IfSome-some _ (record {
                            name = n;
                            executor_type = e;
                            priority = (priority, refl, p);
                            max_retries = m;
                            timeout_seconds = t;
                            backoff_policy = b;
                            idempotency_key = k;
                          })

  Valid-again :
      (r : SubmitTaskRequest) → Valid r → validate_submit is_at_least_one (model_dump r) ≡ some r
  unfolding validate_submit model_dump ◌>>=◌
  Valid-again r v =
      rw
        (
          v.name,
          v.executor_type,
          v.priority.1,
          v.priority.2,
          v.max_retries,
          v.timeout_seconds,
          or_null-again dump_backoff (validate_backoff is_at_least_one) r.backoff_policy
              v.backoff_policy,
          or_null-same (length_between 0 255) r.idempotency_key v.idempotency_key,
        )
        refl

-- What the client of the SDK sends for a request that it has built is accepted by the API, as the
-- same request.
pub validate_submit-model_dump :
    (is_at_least_one : Float → Bool) (body : SubmitTaskBody) (r : SubmitTaskRequest)
    → validate_submit is_at_least_one body ≡ some r
    → validate_submit is_at_least_one (model_dump r) ≡ some r
validate_submit-model_dump is_at_least_one body r e =
    Valid-again is_at_least_one r ((validate_submit-Valid is_at_least_one body).at r e)
