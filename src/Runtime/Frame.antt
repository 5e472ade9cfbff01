-- ===== src/Runtime/Frame.antt =====
-- A `Task` object that a service mutates, beside the world. What the code wrote to the object
-- before a raise is there for the handler of the exception.
pub mod Rules
pub mod Objects
use atlas_queue.Domain.Exceptions.{Result, ok, err}
use atlas_queue.Domain.Enums.{TaskStatus}
use atlas_queue.Domain.Task.{Task, transition_to}
use atlas_queue.Runtime.Exec.{Exec}
use atlas_queue.Runtime.World.{Env, World, tick}

pub record Frame : Type 0 where
  pub task : Task
  pub world : World

-- an action on the world alone
unfoldable pub on_world : {A : Type 0} → Exec World A → Exec Frame A
on_world m f = let (r, w) = m f.world in (r, record f { world = w })

-- runs a body with a task object of its own
unfoldable pub with_task : {A : Type 0} → Task → Exec Frame A → Exec World A
with_task t m w = let (r, f) = m (record { task = t; world = w }) in (r, f.world)

-- assignments to the fields of the object
unfoldable pub update : (Task → Task) → Exec Frame Unit
update g f = (ok tt, record f { task = g f.task })

abbrev pub moved : Frame → Result Task → Result (Unit {0}) × Frame
moved f (ok t) = (ok tt, record { task = t; world = tick f.world })
moved f (err e) = (err e, f)

-- `task.transition_to(status)`
unfoldable pub transition : Env → TaskStatus → Exec Frame Unit
unfolding transition_to
transition env status f = moved f (transition_to status (env.now f.world.calls) f.task)
