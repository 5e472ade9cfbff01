-- ===== src/Services/WorkerRegistry/Entries.antt =====
-- What the registry does to the table of workers behind its ports, whatever stands there.
use atlas_queue.Prelude.{
  ℕ, ◌≡◌, refl, sym, subst, ap, ◌∙◌, String, ◌⊎◌, inl, inr, Option, none, some, [], ◌∷◌, ◌==◌,
  ==_iff, Bool-cases, if◌then◌else◌,
}
use atlas_queue.Prelude.Text.{show_uuid}
use atlas_queue.Domain.Exceptions.{ok}
use atlas_queue.Domain.Task.{Instant}
use atlas_queue.Domain.Worker.{Worker, Metadata, create, heartbeat}
use atlas_queue.Domain.Ports.{WorkerRepository, QueueBackend}
use atlas_queue.Domain.Ports.Lawful.{Workers, Same, Since, Sets, Reads, IsLawful}
use atlas_queue.Runtime.Exec.{Exec}
use atlas_queue.Runtime.Exec.Ensures.{Post, Ensures, Ensures-bind, Ensures-pure, Ensures-weaken}
use atlas_queue.Runtime.World.{Env, World, now, uuid4}
use atlas_queue.Services.WorkerRegistry.{register, beat, beat_row}
use atlas_queue.Services.WorkerRegistry.Rows.{new_worker, seen_at}

-- the answer of a registration, and the table after it
abbrev pub Entered : String → Metadata → Workers → Worker → Workers → Type 0
Entered hostname metadata f worker g =
    ((at : Instant) × (id : ℕ) × (worker ≡ new_worker at id hostname metadata)) × Sets worker f g

-- the table after a heartbeat
abbrev pub Refreshed : ℕ → Workers → Workers → Type 0
Refreshed id f g = (t : Instant) × ((j : ℕ) → g j ≡ (if id == j then seen_at t (f id) else f j))

module _ (env : Env) (workers : WorkerRepository World) (queue : QueueBackend World)
    (view : World → Workers) (lawful : IsLawful workers queue view) where
  open lawful use {view-tick, view-id, save-Sets, get_by_id-Reads, set_worker_heartbeat-Same}

  -- the table is this one
  abbrev Is : Workers → World → Type 0
  Is f v = Same f (view v)

  now-Is : (f : Workers) → Ensures (Is f) (now env) (λ _. Is f) (Is f)
  unfolding now
  now-Is f = record { at = λ v h. view-tick v ∙ h }

  uuid4-Is : (f : Workers) → Ensures (Is f) (uuid4 env) (λ _. Is f) (Is f)
  unfolding uuid4
  uuid4-Is f = record { at = λ v h. view-tick v ∙ h }

  save-Is :
      (f : Workers) (u : Worker) → Ensures (Is f) (workers.save u) (λ _ v. Sets u f (view v)) (Is f)
  save-Is f u = record {
    at = λ v h.
        subst (λ k. Post (λ _ t. Sets u k (view t)) (λ t. Same k (view t)) (workers.save u v)) h
          (save-Sets u v);
  }

  get_by_id-Is :
      (f : Workers) (id : ℕ)
      → Ensures (Is f) (workers.get_by_id id) (λ o v. Reads o (f id) × Is f v) (Is f)
  get_by_id-Is f id = record {
    at = λ v h.
        subst
          (λ k.
            Post (λ o t. Reads o (k id) × Same k (view t)) (λ t. Same k (view t))
              (workers.get_by_id id v))
          h (get_by_id-Reads id v);
  }

  -- the heartbeat in Redis keeps whatever holds of the table
  heartbeat-keeps :
      (P : Workers → Type 0) (key : String) (metadata : Metadata)
      → Ensures
          (λ v. P (view v))
          (queue.set_worker_heartbeat key metadata)
          (λ _ v. P (view v))
          (λ v. P (view v))
  heartbeat-keeps P key metadata = record {
    at = λ v h.
        (Ensures-weaken {P = λ t. t ≡ v} _
            (record {
              at = λ t e.
                  subst
                    (λ x.
                      Post (λ _ t'. Same (view v) (view t')) (λ t'. Same (view v) (view t'))
                        (queue.set_worker_heartbeat key metadata x))
                    (sym e) (set_worker_heartbeat-Same key metadata v);
            })
            (λ t e. e) (λ _ t e. subst P (sym e) h) (λ t e. subst P (sym e) h)).at
          v refl;
  }

  register-Entered :
      (hostname : String) (metadata : Metadata) (f : Workers)
      → Ensures
          (Is f)
          (register env workers queue hostname metadata)
          (λ worker v. Entered hostname metadata f worker (view v))
          (λ _. Unit)
  unfolding register create
  register-Entered hostname metadata f = Ensures-bind _ _ (dropped (now-Is f)) λ at.
      Ensures-bind _ _ (dropped (uuid4-Is f)) λ id.
        let worker : Worker = create at id hostname metadata in
        Ensures-bind _ _ (dropped (save-Is f worker)) λ _.
          Ensures-bind _ _
            (dropped
              (heartbeat-keeps (Sets worker f) (show_uuid worker.id) (("hostname", hostname) ∷ [])))
            λ _. Ensures-pure worker (λ v h. ((at, id, refl), h))
    where
      dropped :
          {A : Type 0} {P E : World → Type 0} {Q : A → World → Type 0} {m : Exec World A}
          → Ensures P m Q E
          → Ensures P m Q (λ _. Unit)
      dropped h = Ensures-weaken _ h (λ v x. x) (λ _ v x. x) (λ v x. tt)

  Sets-Refreshed :
      (id : ℕ) (t : Instant) (f g : Workers) (u : Worker)
      → u.id ≡ id
      → f id ≡ some (ok u)
      → Sets (heartbeat t u) f g
      → Refreshed id f g
  unfolding heartbeat
  Sets-Refreshed id t f g u mine e (at, since, h) =
      let same : at ≡ u.registered_at =
        subst (λ o. Since (heartbeat t u) o at) (ap f mine ∙ e) since in
      (t, λ j. h j ∙ rw (same, e, mine) refl)

  beat_row-Refreshed :
      (id : ℕ) (f : Workers) (o : Option Worker)
      → Ensures
          (λ v. Reads o (f id) × Is f v)
          (beat_row env workers queue o)
          (λ _ v. Refreshed id f (view v))
          (Is f)
  unfolding beat_row now
  beat_row-Refreshed id f none = Ensures-pure tt (λ v h. (0, λ j. rw h.1 (unseen h.0 j)))
    where
      unseen : f id ≡ none → (j : ℕ) → f j ≡ (if id == j then seen_at 0 (f id) else f j)
      unseen missing j = elim (Bool-cases (id == j)) [
        | inl e ↦ rw (e, missing, sym ((==_iff id j).0 e), missing) refl
        | inr e ↦ rw e refl
      ]
  beat_row-Refreshed id f (some u) =
      Ensures-bind {R = λ _ v. (u.id ≡ id) × (f id ≡ some (ok u)) × Is f v} _ _
        (record {
          at = λ v h. (view-id v id u (ap (λ k. k id) h.1 ∙ h.0), h.0, (now-Is f).at v h.1);
        })
        λ t. record {
          at = λ v (mine, e, h).
              (Ensures-weaken _ (save-Is f (heartbeat t u)) (λ x k. k)
                  (λ _ x k. Sets-Refreshed id t f (view x) u mine e k) (λ x k. k)).at
                v h;
        }

  beat-Refreshed :
      (id : ℕ) (hostname : String) (f : Workers)
      → Ensures
          (Is f)
          (beat env workers queue id hostname)
          (λ _ v. Refreshed id f (view v))
          (λ v. Is f v ⊎ Refreshed id f (view v))
  unfolding beat
  beat-Refreshed id hostname f =
      Ensures-bind _ _ (Ensures-weaken _ (get_by_id-Is f id) (λ v h. h) (λ _ v h. h) (λ v h. inl h))
        λ o.
          Ensures-bind _ _
            (Ensures-weaken _ (beat_row-Refreshed id f o) (λ v h. h) (λ _ v h. h) (λ v h. inl h))
            λ _.
              Ensures-weaken _
                (heartbeat-keeps (Refreshed id f) (show_uuid id) (("hostname", hostname) ∷ []))
                (λ v h. h) (λ _ v h. h) (λ v h. inr h)

-- Over any repository and any queue that keep the laws of a table of workers: a registration, if it
-- returns, answers a new, active worker and enters it at its id, where a worker that was there keeps
-- its time of registration; a heartbeat, if it returns, makes the worker of its id, if there is one,
-- active and seen at an instant, and leaves the rest of the table; where it raises, the table is
-- that or still the same.
pub registry_lawful :
    (env : Env) (workers : WorkerRepository World) (queue : QueueBackend World)
    (view : World → Workers) (hostname : String) (metadata : Metadata) (id : ℕ) (w : World)
    → IsLawful workers queue view
    → Post
        (λ worker v. Entered hostname metadata (view w) worker (view v))
        (λ _. Unit)
        (register env workers queue hostname metadata w)
      × Post
          (λ _ v. Refreshed id (view w) (view v))
          (λ v. Same (view w) (view v) ⊎ Refreshed id (view w) (view v))
          (beat env workers queue id hostname w)
registry_lawful env workers queue view hostname metadata id w lawful = (
  (register-Entered env workers queue view lawful hostname metadata (view w)).at w refl,
  (beat-Refreshed env workers queue view lawful id hostname (view w)).at w refl,
)
