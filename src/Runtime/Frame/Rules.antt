-- ===== src/Runtime/Frame/Rules.antt =====
-- Rules for the steps of a frame, about the object and the world together.
use atlas_queue.Prelude.{◌≡◌, refl}
use atlas_queue.Domain.Exceptions.{Result, ok, err}
use atlas_queue.Domain.Task.{Task}
use atlas_queue.Runtime.Exec.{Exec, gets, ◌>>=◌}
use atlas_queue.Runtime.Exec.Ensures.{Post, Ensures}
use atlas_queue.Runtime.World.{World}
use atlas_queue.Runtime.Frame.{Frame, on_world}

-- nothing is asked of the action
pub Ensures-any :
    {S A : Type 0} {P : S → Type 0} (m : Exec S A) → Ensures P m (λ _ _. Unit) (λ _. Unit)
Ensures-any m = record { at = λ s h. go (m s) }
  where
    go : {S A : Type 0} (r : Result A × S) → Post (λ _ _. Unit) (λ _. Unit) r
    go (ok a, s) = tt
    go (err e, s) = tt

-- an action on the world keeps what is known of the object
pub Ensures-on_world :
    {A : Type 0} (X : Task → Type 0) (m : Exec World A)
    → Ensures (λ f. X f.task) (on_world m) (λ _ f. X f.task) (λ f. X f.task)
unfolding on_world
Ensures-on_world X m = record { at = λ f h. go f.task (m f.world) h }
  where
    go :
        {A : Type 0} (t : Task) (r : Result A × World)
        → X t
        → Post {S = Frame} (λ _ f. X f.task) (λ f. X f.task) (r.0, record { task = t; world = r.1 })
    go t (ok a, w) h = h
    go t (err e, w) h = h

-- a read of the object, which the rest of the block may rely on
pub Ensures-read :
    {B : Type 0} {P E : Frame → Type 0} {Q : B → Frame → Type 0} (k : Task → Exec Frame B)
    → ((u : Task) → Ensures (λ f. (f.task ≡ u) × P f) (k u) Q E)
    → Ensures P (gets (λ f. f.task) >>= k) Q E
unfolding ◌>>=◌ gets
Ensures-read k h = record { at = λ f p. (h f.task).at f (refl, p) }
