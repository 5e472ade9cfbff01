-- ===== src/Scheduler/Kept.antt =====
-- The scheduler keeps what every save of a task keeps of the table.
use atlas_queue.Prelude.{ℕ, zero, suc, String, Option, none, some, List}
use atlas_queue.Persistence.Models.{TaskModel}
use atlas_queue.Redis.Leader.{acquire, renew, release, renew_owned, release_owned}
use atlas_queue.Runtime.Exec.Invariant.{Preserves, Preserves-bind, Preserves-if}
use atlas_queue.Runtime.World.{Env, Settings, elapse}
use atlas_queue.Scheduler.{tick_services, lead, campaign}
use atlas_queue.Services.Kept.{
  kept-process_due_tasks, kept-reconcile, kept-reconcile_enqueue_failed,
}
use atlas_queue.Services.Rows.Kept.{Closed, InDb, kept_rules}

module _ (P : List TaskModel → Type 0) (closed : Closed P) (env : Env) (settings : Settings)
    (owner_id : String) where
  kept-elapse : Preserves (InDb P) (elapse env)
  unfolding elapse
  kept-elapse = record { after = λ w h. h }

  kept-acquire : (ttl : ℕ) → Preserves (InDb P) (acquire env owner_id ttl)
  unfolding acquire
  kept-acquire ttl = search kept_rules

  kept-renew : (ttl : ℕ) → Preserves (InDb P) (renew env owner_id ttl)
  unfolding renew
  kept-renew ttl = search (kept_rules, owned) depth 24
    where
      owned : (o : Option String) → Preserves (InDb P) (renew_owned env owner_id ttl o)
      owned none = search kept_rules
      owned (some owner) = search (kept_rules, kept-elapse) depth 24

  kept-release : Preserves (InDb P) (release env owner_id)
  unfolding release
  kept-release = search (kept_rules, owned) depth 24
    where
      owned : (o : Option String) → Preserves (InDb P) (release_owned env owner_id o)
      owned none = search kept_rules
      owned (some owner) = search (kept_rules, kept-elapse) depth 24

  kept-tick_services : Preserves (InDb P) (tick_services env settings owner_id)
  unfolding tick_services
  kept-tick_services =
      search (kept_rules, kept-process_due_tasks, kept-reconcile, kept-reconcile_enqueue_failed)
        depth 24

  kept-lead : (ticks : ℕ) → Preserves (InDb P) (lead env settings owner_id ticks)
  unfolding lead
  kept-lead zero = search kept_rules
  kept-lead (suc ticks) = Preserves-bind _ _ (kept-renew settings.scheduler_lock_ttl) λ still.
      Preserves-if still _ _
        (Preserves-bind _ _ (search kept_rules)
          λ _. Preserves-bind _ _ (search (kept_rules, kept-tick_services)) (λ _. kept-lead ticks))
        (search kept_rules)

  pub kept-campaign : (ticks : ℕ) → Preserves (InDb P) (campaign env settings owner_id ticks)
  unfolding campaign
  kept-campaign ticks = search (kept_rules, kept-acquire, kept-lead, kept-release) depth 24
