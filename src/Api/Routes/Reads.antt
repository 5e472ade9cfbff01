-- ===== src/Api/Routes/Reads.antt =====
-- The routes that read.
use atlas_queue.Prelude.{ℕ, zero, suc, String, Option, none, some, List, [], ◌∷◌}
use atlas_queue.Domain.Task.{Task, TaskId}
use atlas_queue.Persistence.Models.{TaskModel}
use atlas_queue.Persistence.Tasks.{
  get_by_id, optional_task, list_tasks, count_tasks, count_by_status,
}
use atlas_queue.Persistence.Events.{list_for_task}
use atlas_queue.Persistence.Workers.{list_workers}
use atlas_queue.Redis.Queue.{ready_depths, queue_depths, get_active_workers}
use atlas_queue.Runtime.Exec.{Exec}
use atlas_queue.Runtime.Exec.Ensures.{Post}
use atlas_queue.Runtime.World.{Env, World, Settings}
use atlas_queue.Runtime.ReadOnly.{
  SameQueues, SameQueues-refl, ReadOnly, ReadOnly-pure, ReadOnly-raise, ReadOnly-lift,
  ReadOnly-bind, ReadOnly-emit, ReadOnly-db_call, ReadOnly-redis_call, ReadOnly-session,
}
use atlas_queue.Services.QueueManager.{
  get_task_or_raise, get_task_events, get_admin_stats as admin_statistics, require,
}
use atlas_queue.Domain.Exceptions.{Result, ok, err}
use atlas_queue.Domain.Task.{Instant}
use atlas_queue.Api.Auth.{verify_api_key_or_jwt, require_role}
use atlas_queue.Api.Routes.{
  Site, Credentials, Request, answer, check, with_role, with_caller, post_tasks, get_tasks_id,
  get_tasks, post_tasks_cancel, post_tasks_retry, get_tasks_events, post_workers_register,
  get_workers, get_admin_stats, get_task, list_tasks_page, get_events, list_all_workers,
  admin_stats, set_depths,
}

-- the GET requests
abbrev pub Gets : Request → Type 0
Gets (post_tasks b) = ⊥
Gets (post_tasks_cancel i) = ⊥
Gets (post_tasks_retry i) = ⊥
Gets (post_workers_register b) = ⊥
Gets _ = Unit

module _ (env : Env) (settings : Settings) where
  ReadOnly-optional_task : (o : Option TaskModel) → ReadOnly (optional_task env o)
  unfolding optional_task
  ReadOnly-optional_task none = ReadOnly-pure none
  ReadOnly-optional_task (some m) = ReadOnly-bind _ _ (ReadOnly-lift _) λ t. ReadOnly-pure (some t)

  ReadOnly-require : (id : TaskId) (o : Option Task) → ReadOnly (require id o)
  ReadOnly-require id none = ReadOnly-raise _
  ReadOnly-require id (some t) = ReadOnly-pure t

  ReadOnly-get_task_or_raise : (id : TaskId) → ReadOnly (get_task_or_raise env settings id)
  unfolding get_task_or_raise get_by_id
  ReadOnly-get_task_or_raise id =
      ReadOnly-bind _ _ (ReadOnly-bind _ _ (ReadOnly-db_call env _) ReadOnly-optional_task)
        (ReadOnly-require id)

  ReadOnly-get_task_events : (id : TaskId) → ReadOnly (get_task_events env settings id)
  unfolding get_task_events list_for_task
  ReadOnly-get_task_events id =
      ReadOnly-bind _ _ (ReadOnly-get_task_or_raise id)
        λ _. ReadOnly-bind _ _ (ReadOnly-db_call env _) λ rows. ReadOnly-lift _

  ReadOnly-list_workers : (n : ℕ) → ReadOnly (list_workers env n)
  unfolding list_workers
  ReadOnly-list_workers n = ReadOnly-bind _ _ (ReadOnly-db_call env _) λ rows. ReadOnly-lift _

  ReadOnly-ready_depths : (from n : ℕ) → ReadOnly (ready_depths env from n)
  unfolding ready_depths
  ReadOnly-ready_depths from zero = ReadOnly-pure []
  ReadOnly-ready_depths from (suc n) =
      ReadOnly-bind _ _ (ReadOnly-redis_call env _)
        λ d. ReadOnly-bind _ _ (ReadOnly-ready_depths (suc from) n) λ ds. ReadOnly-pure _

  ReadOnly-admin_stats : ReadOnly (admin_statistics env settings)
  unfolding admin_statistics count_by_status queue_depths get_active_workers
  ReadOnly-admin_stats = ReadOnly-bind _ _ (ReadOnly-db_call env _) λ s.
      ReadOnly-bind _ _
        (ReadOnly-bind _ _ (ReadOnly-ready_depths 0 settings.priority_levels) λ ds.
          ReadOnly-bind _ _ (ReadOnly-redis_call env _)
            λ a. ReadOnly-bind _ _ (ReadOnly-redis_call env _) λ b. ReadOnly-pure _)
        λ d. ReadOnly-bind _ _ (ReadOnly-redis_call env _) λ a. ReadOnly-pure _

  ReadOnly-set_depths : (ds : List (String × ℕ)) → ReadOnly (set_depths ds)
  unfolding set_depths
  ReadOnly-set_depths [] = ReadOnly-pure tt
  ReadOnly-set_depths ((q, d) ∷ ds) =
      ReadOnly-bind _ _ (ReadOnly-emit _) λ _. ReadOnly-set_depths ds

module _ (site : Site) (env : Env) (c : Credentials) where
  ReadOnly-check : {A : Type 0} (f : Instant → Result A) → ReadOnly (check site env f)
  unfolding check
  ReadOnly-check f = record { at = λ w. record { at = λ v h. kept v (f (env.now v.calls)) h } }
    where
      kept :
          {A : Type 0} {w : World} (v : World) (r : Result A)
          → SameQueues w v
          → Post (λ _. SameQueues w) (SameQueues w) (r, v)
      kept v (ok a) h = h
      kept v (err e) h = h

  by_caller :
      {A : Type 0} (body : Exec World A) → ReadOnly body → ReadOnly (with_caller site env c body)
  unfolding with_caller
  by_caller body h =
      ReadOnly-bind _ _
        (ReadOnly-check (λ at. verify_api_key_or_jwt site.crypto at site.auth c.api_key c.bearer))
        λ _. h

  ReadOnly-answer : (request : Request) → Gets request → ReadOnly (answer site env c request)
  unfolding answer get_task list_tasks_page get_events list_all_workers admin_stats with_role
      list_tasks count_tasks
  ReadOnly-answer (get_tasks_id i) g =
      ReadOnly-bind _ _
        (by_caller _ (
          ReadOnly-bind _ _ (ReadOnly-lift _) λ id. ReadOnly-session env _ (
            ReadOnly-bind _ _ (ReadOnly-get_task_or_raise env site.settings id)
              λ t. ReadOnly-pure _)))
        λ r. ReadOnly-pure _
  ReadOnly-answer (get_tasks q) g =
      ReadOnly-bind _ _
        (by_caller _ (
          ReadOnly-session env _ (
            ReadOnly-bind _ _ (ReadOnly-bind _ _ (ReadOnly-db_call env _) λ rows. ReadOnly-lift _)
              λ ts. ReadOnly-bind _ _ (ReadOnly-db_call env _) λ n. ReadOnly-pure _)))
        λ r. ReadOnly-pure _
  ReadOnly-answer (get_tasks_events i) g =
      ReadOnly-bind _ _
        (by_caller _ (
          ReadOnly-bind _ _ (ReadOnly-lift _) λ id. ReadOnly-session env _ (
            ReadOnly-bind _ _ (ReadOnly-get_task_events env site.settings id)
              λ t. ReadOnly-pure _)))
        λ r. ReadOnly-pure _
  ReadOnly-answer get_workers g =
      ReadOnly-bind _ _
        (by_caller _ (
          ReadOnly-session env _
            (ReadOnly-bind _ _ (ReadOnly-list_workers env site.settings 100) λ t. ReadOnly-pure _)))
        λ r. ReadOnly-pure _
  ReadOnly-answer get_admin_stats g =
      ReadOnly-bind _ _
        (ReadOnly-bind _ _
          (ReadOnly-check
            (λ at. require_role site.crypto at site.auth ("admin" ∷ []) c.api_key c.bearer))
          λ _. ReadOnly-session env _ (
            ReadOnly-bind _ _ (ReadOnly-admin_stats env site.settings) λ s.
              ReadOnly-bind _ _ (ReadOnly-set_depths env site.settings s.queue_depths) λ _.
                ReadOnly-bind _ _ (ReadOnly-emit _) λ _.
                  ReadOnly-bind _ _ (ReadOnly-list_workers env site.settings 100)
                    λ ws. ReadOnly-pure _))
        λ r. ReadOnly-pure _
  ReadOnly-answer (post_tasks b) g = absurd g
  ReadOnly-answer (post_tasks_cancel i) g = absurd g
  ReadOnly-answer (post_tasks_retry i) g = absurd g
  ReadOnly-answer (post_workers_register b) g = absurd g

-- A GET request leaves the database, the ready lists, the scheduled set and the dead-letter list
-- as they were, however it ends: the gauges of the statistics are all that it sets.
pub answer-SameQueues :
    (site : Site) (env : Env) (c : Credentials) (request : Request) (w : World)
    → Gets request
    → Post (λ _. SameQueues w) (SameQueues w) (answer site env c request w)
answer-SameQueues site env c request w g =
    ((ReadOnly-answer site env c request g).at w).at w (SameQueues-refl w)
