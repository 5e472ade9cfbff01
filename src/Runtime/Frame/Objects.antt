-- ===== src/Runtime/Frame/Objects.antt =====
-- Facts about the task object alone, across the steps of a service: `Gives P m Q` says that `Q`
-- holds when the action returns.
use atlas_queue.Prelude.{◌≡◌, refl, Bool, true, false, any, some, if◌then◌else◌}
use atlas_queue.Domain.Exceptions.{Exc, ok, err}
use atlas_queue.Domain.Enums.{TaskStatus, same_status}
use atlas_queue.Domain.Task.{Task, Instant, transition_to, allowed}
use atlas_queue.Domain.Task.Lifecycle.{◌⟶◌, allowed-⟶}
use atlas_queue.Runtime.Exec.{Exec}
use atlas_queue.Runtime.Exec.Ensures.{Post, Ensures, Ensures-weaken}
use atlas_queue.Runtime.World.{Env, World}
use atlas_queue.Runtime.Frame.{Frame, on_world, update, transition, moved}
use atlas_queue.Runtime.Frame.Rules.{Ensures-on_world}

abbrev pub Gives : {S A : Type 0} → (S → Type 0) → Exec S A → (A → S → Type 0) → Type 0
Gives P m Q = Ensures P m Q (λ _. Unit)

-- a fact about the object
abbrev pub Of : (Task → Type 0) → Frame → Type 0
Of X f = X f.task

module _ (X : Task → Type 0) where
  pub object : {A : Type 0} (m : Exec World A) → Gives (Of X) (on_world m) (λ _. Of X)
  object m = Ensures-weaken _ (Ensures-on_world X m) (λ f h. h) (λ _ f h. h) (λ f h. tt)

module _ (X Y : Task → Type 0) where
  pub object_update :
      {E : Frame → Type 0} (g : Task → Task)
      → ((t : Task) → X t → Y (g t))
      → Ensures (Of X) (update g) (λ _. Of Y) E
  unfolding update
  object_update g h = record { at = λ f x. h f.task x }

  -- after a transition; one that raises leaves the object as it was
  pub object_moves :
      (env : Env) (s : TaskStatus)
      → ((t : Task) (at : Instant)
          → X t
          → t.status ⟶ s
          → Y (record t { status = s; updated_at = some at }))
      → Ensures (Of X) (transition env s) (λ _. Of Y) (Of X)
  unfolding transition transition_to
  object_moves env s h = record {
    at = λ f x. by_edge f x (any (same_status s) (allowed f.task.status)) refl _;
  }
    where
      by_edge :
          (f : Frame)
          → X f.task
          → (b : Bool) → any (same_status s) (allowed f.task.status) ≡ b
          → (e : Exc)
          → Post
              (λ _. Of Y)
              (Of X)
              (moved f (
                if b
                then ok (record f.task { status = s; updated_at = some (env.now f.world.calls) })
                else err e))
      by_edge f x true edge e = h f.task (env.now f.world.calls) x (allowed-⟶ f.task.status s edge)
      by_edge f x false edge e = x

  pub object_transition :
      (env : Env) (s : TaskStatus)
      → ((t : Task) (at : Instant)
          → X t
          → t.status ⟶ s
          → Y (record t { status = s; updated_at = some at }))
      → Gives (Of X) (transition env s) (λ _. Of Y)
  object_transition env s h =
      Ensures-weaken _ (object_moves env s h) (λ f x. x) (λ _ f y. y) (λ f x. tt)
