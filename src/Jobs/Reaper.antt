-- ===== src/Jobs/Reaper.antt =====
-- `reclaim_expired_leases` and `expire_due_jobs` (backend/src/fetchnow/jobs/repository.py).
use fetch_now.Prelude.{
  ℕ, ◌+◌, Bool, false, not, ◌&&◌, Option, none, some, [], ◌∷◌, any, length, keep, leb, ltb,
  if◌then◌else◌, Result, ok, ◌>>=◌, flush,
}
use fetch_now.Jobs.States.{queued, inspecting, inspected, failed, expired, same_state, JobError}
use fetch_now.Jobs.Model.{MediaJob}
use fetch_now.Jobs.Repository.{Table, id_of}
use fetch_now.Jobs.Worker.{or_now, move_rows}

-- `column IS NOT NULL AND column <= t`
abbrev pub due : Option ℕ → ℕ → Bool
due none t = false
due (some u) t = leb u t

module _ {Json : Type 0} where
  unfoldable pub lease_expired : ℕ → MediaJob Json → Bool
  lease_expired clock j =
      same_state j.public_state inspecting && due j.lease_expires_at clock && ltb clock j.expires_at

  unfoldable pub exhausted : MediaJob Json → Bool
  exhausted j = leb j.max_attempts j.attempt_count

  unfoldable pub reclaim_row : ℕ → MediaJob Json → MediaJob Json
  unfolding exhausted
  reclaim_row now j = record j {
    public_state = if exhausted j then failed else queued;
    lease_owner = none;
    lease_expires_at = none;
    fence_token = j.fence_token + 1;
    available_at = now;
    updated_at = now;
    public_error_code = if exhausted j then some "MEDIA_INSPECTION_FAILED" else j.public_error_code;
    completed_at = if exhausted j then some now else j.completed_at;
  }

  unfoldable pub reclaim_expired_leases :
      ℕ → (ℕ → Bool) → ℕ → Table Json → Result JobError (ℕ × Table Json)
  unfolding lease_expired exhausted reclaim_row move_rows flush
  reclaim_expired_leases clock locked now t = do
    let jobs = keep (λ j. lease_expired clock j && not (locked j.id)) t
    moved ← move_rows (λ j. if exhausted j then failed else queued) (reclaim_row now) jobs
    ok (length jobs, flush id_of moved t)

  unfoldable pub due_to_expire : ℕ → MediaJob Json → Bool
  due_to_expire clock j =
      leb j.expires_at clock
      && any (same_state j.public_state) (queued ∷ inspecting ∷ inspected ∷ failed ∷ [])

  unfoldable pub expire_row : ℕ → MediaJob Json → MediaJob Json
  expire_row now j = record j {
    public_state = expired;
    result_metadata = none;
    public_error_code = none;
    lease_owner = none;
    lease_expires_at = none;
    updated_at = now;
    fence_token = j.fence_token + 1;
    completed_at = or_now j.completed_at now;
  }

  unfoldable pub expire_due_jobs :
      ℕ → (ℕ → Bool) → ℕ → Table Json → Result JobError (ℕ × Table Json)
  unfolding due_to_expire expire_row move_rows flush
  expire_due_jobs clock locked now t = do
    let jobs = keep (λ j. due_to_expire clock j && not (locked j.id)) t
    moved ← move_rows (λ _. expired) (expire_row now) jobs
    ok (length jobs, flush id_of moved t)
