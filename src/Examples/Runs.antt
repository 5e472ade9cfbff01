-- ===== src/Examples/Runs.antt =====
-- Sequences of calls at concrete inputs.
use atlas_queue.Prelude.{◌≡◌, refl, ap, List, [], ◌∷◌}
use atlas_queue.Domain.Exceptions.{ok, message}
use atlas_queue.Domain.Enums.{queued}
use atlas_queue.Domain.Task.{transition_to, can_retry, retry_delay_seconds}
use atlas_queue.Domain.Backoff.{delay_for_attempt}
use atlas_queue.Persistence.Mapping.{to_model_task}
use atlas_queue.Persistence.Tasks.{save, save_row, insert_row, or_now, assign, update_row}
use atlas_queue.Persistence.Events.{append}
use atlas_queue.Redis.State.{
  expire_keys, zadd, zrem, sismember, hset_inflight, expire_inflight, del_inflight,
}
use atlas_queue.Redis.Queue.{is_cancelled, mark_inflight, clear_inflight, enqueue_scheduled}
use atlas_queue.Redis.Queue.Fifo.{Call, put, get, play, ideal, play-ideal}
use atlas_queue.Runtime.Exec.{◌>>=◌, try_except, try_finally, pure, raise, lift, gets}
use atlas_queue.Runtime.World.{now, uuid4, db_call, redis_do, redis_call, emit}
use atlas_queue.Runtime.Frame.{Frame, on_world, update, transition}
use atlas_queue.Services.FailureHandler.{
  handle_execution_failure, schedule_retry, move_to_dead_letter,
}
use atlas_queue.Worker.Executor.{
  execute_task, execute_cancelled, start_task, attempt, clean_up, run_executor,
}
use atlas_queue.Worker.Executor.Retries.{Failures, fresh, again, Bounds, Failures-Bounds}
use atlas_queue.Examples.States.{sample}
use atlas_queue.Examples.Queue.{settings}
use atlas_queue.Examples.Services.{calm, failing, one_queued}

abbrev calls : List Call
calls = put 5 1 ∷ put 6 0 ∷ put 7 1 ∷ get ∷ get ∷ []

play-ideal_example : (play settings calm calls one_queued).0 ≡ ok (ideal settings calls [])
play-ideal_example = play-ideal settings calm calls [] one_queued (λ n. refl) (λ k. refl)

abbrev started : Frame
started = record { task = sample; world = one_queued }

abbrev left : Frame
left = (execute_task calm failing "w" started).1

ended : (execute_task calm failing "w" started).0 ≡ ok tt
unfolding to_model_task execute_task execute_cancelled start_task attempt clean_up run_executor
    is_cancelled mark_inflight clear_inflight handle_execution_failure schedule_retry
    move_to_dead_letter can_retry retry_delay_seconds delay_for_attempt transition_to ◌>>=◌
    try_except try_finally pure raise lift gets now uuid4 db_call redis_do redis_call emit on_world
    update transition save save_row insert_row or_now assign update_row append enqueue_scheduled
    expire_keys zadd zrem sismember hset_inflight expire_inflight del_inflight message
ended = refl

requeued : left.task.status ≡ queued
unfolding to_model_task execute_task execute_cancelled start_task attempt clean_up run_executor
    is_cancelled mark_inflight clear_inflight handle_execution_failure schedule_retry
    move_to_dead_letter can_retry retry_delay_seconds delay_for_attempt transition_to ◌>>=◌
    try_except try_finally pure raise lift gets now uuid4 db_call redis_do redis_call emit on_world
    update transition save save_row insert_row or_now assign update_row append enqueue_scheduled
    expire_keys zadd zrem sismember hset_inflight expire_inflight del_inflight message
requeued = refl

returned : execute_task calm failing "w" started ≡ (ok tt, left)
returned = ap (λ r. (r, left)) ended

one_failure : Failures sample 1 left.task
one_failure =
    again fresh calm failing "w" one_queued left.world returned (λ e. cc (e, requeued))
      (λ e. cc (e, requeued))

Failures-Bounds_example : Bounds sample 1 left.task
Failures-Bounds_example = Failures-Bounds one_failure
