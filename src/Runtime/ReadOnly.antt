-- ===== src/Runtime/ReadOnly.antt =====
-- Actions that read: the tables and the queues are the same after them.
use atlas_queue.Prelude.{◌≡◌, refl, ◌∙◌}
use atlas_queue.Domain.Exceptions.{Exc, Result, ok, err}
use atlas_queue.Domain.Task.{Instant}
use atlas_queue.Persistence.Models.{Db}
use atlas_queue.Redis.State.{Redis, expire_keys}
use atlas_queue.Runtime.Exec.{Exec, ◌>>=◌, pure, raise, lift}
use atlas_queue.Runtime.Exec.Ensures.{
  Post, Ensures, Ensures-bind, Ensures-pure, Ensures-raise, Ensures-lift,
}
use atlas_queue.Runtime.World.{
  Env, World, Metric, Fault, served, lost_request, lost_reply, tick, db_call, redis_call, emit,
}
use atlas_queue.Runtime.World.Calls.{Ensures-db_call, Ensures-redis_call}
use atlas_queue.Runtime.Session.{session, end_session, commit}

-- the tables of the database and the queues are as in `w`
pub record SameQueues (w v : World) : Type 0 where
  pub db : v.db ≡ w.db
  pub ready : v.redis.ready ≡ w.redis.ready
  pub scheduled : v.redis.scheduled ≡ w.redis.scheduled
  pub dlq : v.redis.dlq ≡ w.redis.dlq

pub SameQueues-refl : (w : World) → SameQueues w w
SameQueues-refl w = record { db = refl; ready = refl; scheduled = refl; dlq = refl }

pub SameQueues-trans : (w v v' : World) → SameQueues v v' → SameQueues w v → SameQueues w v'
SameQueues-trans w v v' s h = record {
  db = s.db ∙ h.db;
  ready = s.ready ∙ h.ready;
  scheduled = s.scheduled ∙ h.scheduled;
  dlq = s.dlq ∙ h.dlq;
}

pub record ReadOnly {A : Type 0} (m : Exec World A) : Type 0 where
  pub at : (w : World) → Ensures (SameQueues w) m (λ _. SameQueues w) (SameQueues w)

pub ReadOnly-pure : {A : Type 0} (a : A) → ReadOnly (pure a)
ReadOnly-pure a = record { at = λ w. Ensures-pure a (λ v h. h) }

pub ReadOnly-raise : {A : Type 0} (e : Exc) → ReadOnly (raise {A = A} e)
ReadOnly-raise e = record { at = λ w. Ensures-raise e (λ v h. h) }

pub ReadOnly-lift : {A : Type 0} (r : Result A) → ReadOnly (lift r)
ReadOnly-lift r = record { at = λ w. Ensures-lift r (λ a v e h. h) (λ v h. h) }

pub ReadOnly-bind :
    {A B : Type 0} (m : Exec World A) (k : A → Exec World B)
    → ReadOnly m
    → ((a : A) → ReadOnly (k a))
    → ReadOnly (m >>= k)
ReadOnly-bind m k hm hk = record { at = λ w. Ensures-bind m k (hm.at w) (λ a. (hk a).at w) }

pub ReadOnly-emit : (m : Metric) → ReadOnly (emit m)
unfolding emit
ReadOnly-emit m = record {
  at = λ w. record {
    at = λ v h. record { db = h.db; ready = h.ready; scheduled = h.scheduled; dlq = h.dlq };
  };
}

module _ (env : Env) where
  -- a query
  pub ReadOnly-db_call :
      {A : Type 0} (f : Db → Result A) → ReadOnly (db_call env (λ db. (f db, db)))
  ReadOnly-db_call f = record {
    at = λ w. Ensures-db_call env _ (λ v h. either w (f v.db) v h) (λ v h. ticked w v h);
  }
    where
      ticked : (w v : World) → SameQueues w v → SameQueues w (tick v)
      ticked w v h = record { db = h.db; ready = h.ready; scheduled = h.scheduled; dlq = h.dlq }

      either :
          {A : Type 0} (w : World) (r : Result A) (v : World)
          → SameQueues w v
          → Post (λ _. SameQueues w) (SameQueues w) (r, tick v)
      either w (ok a) v h = ticked w v h
      either w (err e) v h = ticked w v h

  -- a command that only reads its key
  pub ReadOnly-redis_call :
      {A : Type 0} (f : Instant → Redis → A) → ReadOnly (redis_call env (λ at r. (f at r, r)))
  unfolding expire_keys
  ReadOnly-redis_call f = record {
    at = λ w.
        Ensures-redis_call env _
          (λ v at h.
            let h' : SameQueues w (record (tick v) { redis = expire_keys at v.redis }) = record {
              db = h.db;
              ready = h.ready;
              scheduled = h.scheduled;
              dlq = h.dlq;
            } in
            (h', h'))
          (λ v h. record { db = h.db; ready = h.ready; scheduled = h.scheduled; dlq = h.dlq });
  }

  -- whether the transaction is committed or not
  pub ReadOnly-session : {A : Type 0} (m : Exec World A) → ReadOnly m → ReadOnly (session env m)
  unfolding session
  ReadOnly-session {A} m h = record {
    at = λ w. record { at = λ v s. ended w v (m v) s ((h.at w).at v s) };
  }
    where
      committed :
          (w v x : World) (a : A) (f : Fault)
          → SameQueues w v
          → SameQueues w x
          → Post (λ _. SameQueues w) (SameQueues w) (commit v.db f a x)
      committed w v x a served s h = h
      committed w v x a (lost_request e) s h = record {
        db = s.db;
        ready = h.ready;
        scheduled = h.scheduled;
        dlq = h.dlq;
      }
      committed w v x a (lost_reply e) s h = h

      ended :
          (w v : World) (r : Result A × World)
          → SameQueues w v
          → Post (λ _. SameQueues w) (SameQueues w) r
          → Post (λ _. SameQueues w) (SameQueues w) (end_session v.db env r)
      ended w v (ok a, x) s h =
          committed w v (tick x) a (env.fault x.calls) s
            (record { db = h.db; ready = h.ready; scheduled = h.scheduled; dlq = h.dlq })
      ended w v (err e, x) s h = record {
        db = s.db;
        ready = h.ready;
        scheduled = h.scheduled;
        dlq = h.dlq;
      }
