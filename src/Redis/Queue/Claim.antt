-- ===== src/Redis/Queue/Claim.antt =====
-- The claim of due tasks.
use atlas_queue.Prelude.{
  ℕ, zero, suc, ◌≤◌, ◌≡◌, refl, Bool, true, false, ◌&&◌, Option, none, List, [], ◌∷◌, any, find,
  take, map, keep, length, leb, ◌==◌, arith, if◌then◌else◌, length-take-le,
}
use atlas_queue.Domain.Task.{TaskId, Instant}
use atlas_queue.Redis.State.{zrem}
use atlas_queue.Redis.Queue.{due, remove_all}

-- the first entry of a member in the sorted set
abbrev pub entry_of : TaskId → List (Instant × TaskId) → Option (Instant × TaskId)
entry_of t z = find (λ e. e.1 == t) z

entry_of-zrem :
    (u t : TaskId) (z : List (Instant × TaskId))
    → entry_of t (zrem u z) ≡ (if u == t then none else entry_of t z)
unfolding zrem
entry_of-zrem u t [] = ground arith
entry_of-zrem u t (e ∷ z) = ground (arith, entry_of-zrem u t z)

entry_of-remove_all :
    (t : TaskId) (ids : List TaskId) (z : List (Instant × TaskId))
    → entry_of t (remove_all ids z) ≡ (if any (λ u. u == t) ids then none else entry_of t z)
unfolding remove_all
entry_of-remove_all t [] z = refl
entry_of-remove_all t (u ∷ ids) z =
    rw (entry_of-remove_all t ids (zrem u z)) (ground (arith, entry_of-zrem u t z))

any-take :
    (p : TaskId → Bool) (n : ℕ) (xs : List TaskId) → any p (take n xs) ≡ true → any p xs ≡ true
any-take p zero xs h = cc
any-take p (suc n) [] h = cc
any-take p (suc n) (x ∷ xs) h = ground (arith, any-take p n xs)

any-due :
    (t : TaskId) (at : Instant) (z : List (Instant × TaskId))
    → any (λ u. u == t) (map (λ e. e.1) (keep (λ e. leb e.0 at) z)) ≡ true
    → any (λ e. e.1 == t && leb e.0 at) z ≡ true
any-due t at [] h = cc
any-due t at (e ∷ z) h = ground (arith, any-due t at z)

-- A claim at `at` hands out at most `limit` tasks. A task that it hands out was in the set with a
-- score of at most `at`, and is in it no more; of any other task the entry stays as it was.
pub claim_lem :
    (at limit : ℕ) (z : List (Instant × TaskId))
    → let ids = due at limit z in
      let z' = remove_all ids z in
      (length ids ≤ limit)
      × ((t : TaskId)
          → any (λ u. u == t) ids ≡ true
          → (any (λ e. e.1 == t && leb e.0 at) z ≡ true) × (entry_of t z' ≡ none))
      × ((t : TaskId) → any (λ u. u == t) ids ≡ false → entry_of t z' ≡ entry_of t z)
unfolding due
claim_lem at limit z = (
  length-take-le limit _,
  λ t h. (
    any-due t at z (any-take (λ u. u == t) limit _ h),
    rw (entry_of-remove_all t (due at limit z) z, h),
  ),
  λ t h. rw (entry_of-remove_all t (due at limit z) z, h),
)
