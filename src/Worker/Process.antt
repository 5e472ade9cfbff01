-- ===== src/Worker/Process.antt =====
-- `run_worker` of src/atlasqueue/worker/main.py up to its pool, and the heartbeats of the pool
-- (src/atlasqueue/worker/pool.py).
use atlas_queue.Prelude.{ℕ, zero, suc, String, Option, none, some, [], ◌∷◌, if◌then◌else◌}
use atlas_queue.Prelude.Text.{truthy, show_uuid}
use atlas_queue.Runtime.Exec.{Exec, ◌>>=◌, ◌>>◌, pure, try_except}
use atlas_queue.Runtime.World.{Env, World, Settings, uuid4}
use atlas_queue.Runtime.Session.{session}
use atlas_queue.Runtime.Container.{worker_repository, queue_backend}
use atlas_queue.Services.WorkerRegistry.{register, beat}

module _ (env : Env) (settings : Settings) where
  -- `settings.worker_id or str(uuid.uuid4())`
  unfoldable pub chosen_id : Option String → Exec World String
  chosen_id none = do id ← uuid4 env; pure (show_uuid id)
  chosen_id (some id) = if truthy (some id) then pure id else do u ← uuid4 env; pure (show_uuid u)

  -- the session that registers the process, and the id that its pool runs under
  unfoldable pub start_worker : (worker_id : Option String) → (hostname : String) → Exec World ℕ
  unfolding chosen_id
  start_worker worker_id hostname = do
    id ← chosen_id worker_id
    session env (do
      worker ←
          register env (worker_repository env) (queue_backend env settings) hostname
            (("worker_id", id) ∷ [])
      pure worker.id)

  -- one round of `_heartbeat_loop`: what it raises is logged and dropped
  unfoldable pub heartbeat_round : (worker_id : ℕ) → (hostname : String) → Exec World Unit
  heartbeat_round worker_id hostname =
      try_except
        (session env
          (beat env (worker_repository env) (queue_backend env settings) worker_id hostname))
        (λ exc. pure tt)

  -- the loop, for a pool that is stopped after that many rounds
  unfoldable pub heartbeat_loop :
      (rounds : ℕ) → (worker_id : ℕ) → (hostname : String) → Exec World Unit
  unfolding heartbeat_round
  heartbeat_loop zero worker_id hostname = pure tt
  heartbeat_loop (suc rounds) worker_id hostname =
      let rest = heartbeat_loop rounds worker_id hostname in
      (do heartbeat_round worker_id hostname; rest)
