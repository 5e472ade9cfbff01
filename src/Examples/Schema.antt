-- ===== src/Examples/Schema.antt =====
-- The schema of the database at concrete inputs.
use atlas_queue.Prelude.{◌≡◌, refl, some, [], All, arith}
use atlas_queue.Domain.Worker.{Worker, create}
use atlas_queue.Persistence.Schema.{Schema}
use atlas_queue.Persistence.Schema.Cells.{Sized, TaskFits, WorkerFits}
use atlas_queue.Persistence.Schema.Fits.{to_model_task-Fits, saves-Fit}
use atlas_queue.Persistence.Migrations.{upgrade_head, downgrade_base}
use atlas_queue.Persistence.Migrations.Undone.{Free, with_models, migrations_lem}
use atlas_queue.Persistence.Tasks.{save}
use atlas_queue.Persistence.Workers.{save_worker}
use atlas_queue.Runtime.Exec.Ensures.{Post}
use atlas_queue.Examples.States.{sample}
use atlas_queue.Examples.Services.{calm, one_queued}

abbrev empty : Schema
empty = record { tables = []; indexes = [] }

empty-Free : Free empty
empty-Free = record {
  tasks = (refl, refl, refl);
  task_events = (refl, refl, refl);
  workers = (refl, refl, refl);
  users = (refl, refl, refl);
  status = refl;
  idempotency_key = refl;
  task_id = refl;
}

migrations_lem_example :
    (upgrade_head empty ≡ some (with_models empty))
    × (downgrade_base (with_models empty) ≡ some empty)
migrations_lem_example = migrations_lem empty empty-Free

pub sample-Sized : Sized sample
sample-Sized = record {
  name = omega arith;
  priority = omega arith;
  attempts = omega arith;
  max_retries = omega arith;
  timeout_seconds = omega arith;
  worker_id = λ s e. cc;
  idempotency_key = λ s e. cc;
}

abbrev helper : Worker
helper = create 1 2 "host" []

saves-Fit_example :
    Post
      (λ _ v. All TaskFits v.db.tasks)
      (λ v. All TaskFits v.db.tasks)
      (save calm sample one_queued)
    × Post
        (λ _ v. All WorkerFits v.db.workers)
        (λ v. All WorkerFits v.db.workers)
        (save_worker calm helper one_queued)
unfolding create
saves-Fit_example =
    saves-Fit calm sample helper one_queued sample-Sized (omega arith)
      (to_model_task-Fits sample sample-Sized 1 2, tt) tt
