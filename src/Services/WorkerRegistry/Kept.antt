-- ===== src/Services/WorkerRegistry/Kept.antt =====
-- The registry of workers, its process and its heartbeats leave the table of tasks alone.
use atlas_queue.Prelude.{ℕ, zero, suc, refl, String, Option, none, some, List}
use atlas_queue.Domain.Worker.{Worker, Metadata}
use atlas_queue.Persistence.Models.{TaskModel, WorkerModel}
use atlas_queue.Persistence.Workers.{save_worker, get_worker, optional_worker}
use atlas_queue.Redis.Queue.{set_worker_heartbeat}
use atlas_queue.Runtime.Container.{worker_repository, queue_backend}
use atlas_queue.Runtime.Exec.Invariant.{Preserves, Preserves-bind}
use atlas_queue.Runtime.World.{Env, Settings}
use atlas_queue.Services.Rows.Kept.{InDb, kept-elsewhere, kept-query, kept_rules}
use atlas_queue.Services.WorkerRegistry.{register, beat, beat_row}
use atlas_queue.Worker.Process.{chosen_id, start_worker, heartbeat_round, heartbeat_loop}

module _ (P : List TaskModel → Type 0) (env : Env) where
  kept-save_worker : (w : Worker) → Preserves (InDb P) (save_worker env w)
  unfolding save_worker
  kept-save_worker w =
      Preserves-bind _ _ (kept-query P env _) (λ _. kept-elsewhere P env _ _ (λ db. refl))

  kept-optional_worker : (o : Option WorkerModel) → Preserves (InDb P) (optional_worker env o)
  unfolding optional_worker
  kept-optional_worker none = search kept_rules
  kept-optional_worker (some m) = search kept_rules

  kept-get_worker : (id : ℕ) → Preserves (InDb P) (get_worker env id)
  unfolding get_worker
  kept-get_worker id = Preserves-bind _ _ (kept-query P env _) kept-optional_worker

  module _ (settings : Settings) where
    kept-set_worker_heartbeat :
        (key : String) (metadata : Metadata)
        → Preserves (InDb P) (set_worker_heartbeat env settings key metadata)
    unfolding set_worker_heartbeat
    kept-set_worker_heartbeat key metadata = search kept_rules depth 24

    kept-register :
        (hostname : String) (metadata : Metadata)
        → Preserves
            (InDb P)
            (register env (worker_repository env) (queue_backend env settings) hostname metadata)
    unfolding register
    kept-register hostname metadata =
        search (kept_rules, kept-save_worker, kept-set_worker_heartbeat) depth 24

    kept-beat :
        (id : ℕ) (hostname : String)
        → Preserves
            (InDb P)
            (beat env (worker_repository env) (queue_backend env settings) id hostname)
    unfolding beat beat_row
    kept-beat id hostname =
        search (kept_rules, kept-get_worker, kept-row, kept-set_worker_heartbeat) depth 24
      where
        kept-row :
            (o : Option Worker)
            → Preserves
                (InDb P)
                (beat_row env (worker_repository env) (queue_backend env settings) o)
        kept-row none = search kept_rules
        kept-row (some w) = search (kept_rules, kept-save_worker) depth 24

    pub kept-start_worker :
        (id : Option String) (hostname : String)
        → Preserves (InDb P) (start_worker env settings id hostname)
    unfolding start_worker chosen_id
    kept-start_worker id hostname = search (kept_rules, kept-chosen_id, kept-register) depth 24
      where
        kept-chosen_id : (id : Option String) → Preserves (InDb P) (chosen_id env settings id)
        kept-chosen_id none = search kept_rules
        kept-chosen_id (some id) = search kept_rules depth 24

    pub kept-heartbeat_loop :
        (rounds id : ℕ) (hostname : String)
        → Preserves (InDb P) (heartbeat_loop env settings rounds id hostname)
    unfolding heartbeat_loop heartbeat_round
    kept-heartbeat_loop zero id hostname = search kept_rules
    kept-heartbeat_loop (suc rounds) id hostname =
        Preserves-bind _ _ (search (kept_rules, kept-beat) depth 24)
          (λ _. kept-heartbeat_loop rounds id hostname)
