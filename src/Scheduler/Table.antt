-- ===== src/Scheduler/Table.antt =====
-- The scheduler over a table with no RUNNING row.
use atlas_queue.Prelude.{ℕ, zero, suc, subst, str_eq, sym, ◌≡◌, String, true, false, ◌==◌}
use atlas_queue.Domain.Exceptions.{Result, ok, err}
use atlas_queue.Persistence.Models.{Db}
use atlas_queue.Redis.Leader.{acquire, renew, release, renew_owned, release_owned}
use atlas_queue.Runtime.Exec.Ensures.{
  Post, Ensures-bind, Ensures-if, Ensures-pure, Ensures-try_finally,
}
use atlas_queue.Runtime.World.{Env, World, Settings, Metric, elapse, emit, scheduler_ticks}
use atlas_queue.Runtime.World.Calls.{Ensures-redis_call, Ensures-redis_do}
use atlas_queue.Scheduler.{tick_services, lead, campaign}
use atlas_queue.Services.Inflight.{reconcile}
use atlas_queue.Services.Inflight.Idle.{reconcile-Quiet}
use atlas_queue.Runtime.ReadOnly.{SameQueues}
use atlas_queue.Services.QueueManager.Table.{reconcile_enqueue_failed-Quiet}
use atlas_queue.Services.Rows.Quiet.{Quiet}
use atlas_queue.Services.Rows.Sessions.{QuietDb}
use atlas_queue.Services.Rows.Calm.{KeepsQuiet, Ensures-session}
use atlas_queue.Services.Scheduler.Table.{process_due_tasks-Quiet}
use atlas_queue.Prelude.{Option, none, some}
use atlas_queue.Prelude.Text.{truthy}

emit-Quiet : (m : Metric) → KeepsQuiet (emit m)
unfolding emit
emit-Quiet m = record { at = λ w h. h }

module _ (env : Env) (owner_id : String) where
  elapse-Quiet : KeepsQuiet (elapse env)
  unfolding elapse
  elapse-Quiet = record { at = λ w h. h }

  acquire-Quiet : (ttl : ℕ) → KeepsQuiet (acquire env owner_id ttl)
  unfolding acquire
  acquire-Quiet ttl = Ensures-redis_call env _ (λ w at h. (h, h)) (λ w h. h)

  renew_owned-Quiet : (ttl : ℕ) (o : Option String) → KeepsQuiet (renew_owned env owner_id ttl o)
  renew_owned-Quiet ttl none = Ensures-pure false (λ w h. h)
  renew_owned-Quiet ttl (some owner) =
      Ensures-if (str_eq owner owner_id) _ _
        (λ _. Ensures-bind _ _ elapse-Quiet λ _.
          Ensures-bind _ _ (Ensures-redis_do env _ (λ w at h. (h, h)) (λ w h. h))
            λ _. Ensures-pure true (λ w h. h))
        (λ _. Ensures-pure false (λ w h. h))

  renew-Quiet : (ttl : ℕ) → KeepsQuiet (renew env owner_id ttl)
  unfolding renew
  renew-Quiet ttl =
      Ensures-bind _ _ (Ensures-redis_call env _ (λ w at h. (h, h)) (λ w h. h))
        (renew_owned-Quiet ttl)

  release_owned-Quiet : (o : Option String) → KeepsQuiet (release_owned env owner_id o)
  release_owned-Quiet none = Ensures-pure tt (λ w h. h)
  release_owned-Quiet (some owner) =
      Ensures-if (truthy (some owner)) _ _
        (λ _.
          Ensures-if (str_eq owner owner_id) _ _
            (λ _.
              Ensures-bind _ _ elapse-Quiet
                λ _. Ensures-redis_do env _ (λ w at h. (h, h)) (λ w h. h))
            (λ _. Ensures-pure tt (λ w h. h)))
        (λ _. Ensures-pure tt (λ w h. h))

  release-Quiet : KeepsQuiet (release env owner_id)
  unfolding release
  release-Quiet =
      Ensures-bind _ _ (Ensures-redis_call env _ (λ w at h. (h, h)) (λ w h. h)) release_owned-Quiet

reconcile-Keeps : (env : Env) → KeepsQuiet (reconcile env)
reconcile-Keeps env = record { at = λ w q. same w q _ (reconcile-Quiet env w q) }
  where
    same :
        (w : World)
        → QuietDb w
        → (r : Result ℕ × World) → Post (λ n v. (n ≡ 0) × SameQueues w v) (SameQueues w) r
        → Post (λ _. QuietDb) QuietDb r
    same w q (ok _, v) p = subst (λ (d : Db). Quiet d.tasks) (sym (p.1).db) q
    same w q (err _, v) p = subst (λ (d : Db). Quiet d.tasks) (sym p.db) q

module _ (env : Env) (settings : Settings) (owner_id : String) where
  tick-Quiet : KeepsQuiet (tick_services env settings owner_id)
  unfolding tick_services
  tick-Quiet = Ensures-bind _ _ (process_due_tasks-Quiet env settings) λ processed.
      Ensures-bind _ _
        (Ensures-if (processed == 0) _ _ (λ _. Ensures-pure tt (λ w h. h)) (λ _. emit-Quiet _))
        λ _. Ensures-bind _ _ (reconcile-Keeps env) λ requeued.
          Ensures-bind _ _ (reconcile_enqueue_failed-Quiet env settings 50)
            λ reconciled. Ensures-pure tt (λ w h. h)

  lead-Quiet : (ticks : ℕ) → KeepsQuiet (lead env settings owner_id ticks)
  unfolding lead
  lead-Quiet zero = Ensures-pure tt (λ w h. h)
  lead-Quiet (suc ticks) =
      Ensures-bind _ _ (renew-Quiet env owner_id settings.scheduler_lock_ttl) λ still.
        Ensures-if still _ _
          (λ _.
            Ensures-bind _ _ (emit-Quiet scheduler_ticks)
              λ _. Ensures-bind _ _ (Ensures-session env _ tick-Quiet) λ _. lead-Quiet ticks)
          (λ _. Ensures-pure tt (λ w h. h))

  pub campaign-Quiet : (ticks : ℕ) → KeepsQuiet (campaign env settings owner_id ticks)
  unfolding campaign
  campaign-Quiet ticks =
      Ensures-bind _ _ (acquire-Quiet env owner_id settings.scheduler_lock_ttl) λ acquired.
        Ensures-if acquired _ _
          (λ _.
            Ensures-try_finally _ _ (lead-Quiet ticks) (λ _. release-Quiet env owner_id)
              (release-Quiet env owner_id))
          (λ _. Ensures-pure tt (λ w h. h))
