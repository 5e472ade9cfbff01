-- ===== src/Runtime/Session.antt =====
-- `Container.session` of src/atlasqueue/infrastructure/di/container.py: a transaction around a body.
use atlas_queue.Domain.Exceptions.{Result, ok, err, external_error}
use atlas_queue.Persistence.Models.{Db}
use atlas_queue.Runtime.Exec.{Exec}
use atlas_queue.Runtime.World.{Env, World, Fault, served, lost_request, lost_reply, tick}

-- `session.rollback()`, to the tables from before
abbrev pub roll_back : Db → World → World
roll_back before w = record w { db = before }

module _ {A : Type 0} (before : Db) where
  -- `session.commit()`. One that is lost before the server acted leaves nothing of the body.
  abbrev pub commit : Fault → A → World → Result A × World
  commit served a w = (ok a, w)
  commit (lost_request m) a w = (err (external_error m), roll_back before w)
  commit (lost_reply m) a w = (err (external_error m), w)

  abbrev pub end_session : Env → Result A × World → Result A × World
  end_session env (ok a, w) = commit (env.fault w.calls) a (tick w)
  end_session env (err e, w) = (err e, roll_back before w)

-- Other sessions see the tables as this one leaves them, and not in between.
unfoldable pub session : {A : Type 0} → Env → Exec World A → Exec World A
session env body w = end_session w.db env (body w)
