-- ===== src/Jobs/Worker.antt =====
-- The methods of `MediaJobRepository` by which workers and the reaper move jobs
-- (backend/src/fetchnow/jobs/repository.py).
use fetch_now.Prelude.{
  ℕ, ◌+◌, ◌-◌, String, Bool, false, not, ◌&&◌, ◌||◌, Option, none, some, [], length, keep, take,
  str_eq, leb, ltb, ◌==◌, if◌then◌else◌, Result, ok, err, ◌>>=◌, ◌>>◌, codes, ℤ, pos_part, order_by,
  for_each, flush,
}
use fetch_now.Jobs.States.{
  MediaJobState, queued, inspecting, inspected, failed, value, same_state, member, raw,
  assert_transition, JobError, job_error, internal_error,
}
use fetch_now.Jobs.Model.{MediaJob}
use fetch_now.Jobs.Repository.{Table, text_is, id_of, get_by_id, fenced_update}

abbrev pub or_now : Option ℕ → ℕ → Option ℕ
or_now none now = some now
or_now (some t) now = some t

module _ {Json : Type 0} where
  unfoldable pub claimable : ℕ → MediaJob Json → Bool
  claimable clock j =
      same_state j.public_state queued
      && leb j.available_at clock
      && ltb clock j.expires_at
      && ltb j.attempt_count j.max_attempts

  -- `ORDER BY created_at, id`
  unfoldable pub created_before : MediaJob Json → MediaJob Json → Bool
  created_before i j =
      ltb i.created_at j.created_at || (i.created_at == j.created_at) && leb i.id j.id

  -- `locked` are the rows that other transactions hold, which SKIP LOCKED leaves out.
  unfoldable pub claim_select : ℕ → (ℕ → Bool) → ℕ → Table Json → Table Json
  unfolding claimable created_before order_by
  claim_select clock locked limit t =
      take limit (order_by created_before (keep (λ j. claimable clock j && not (locked j.id)) t))

  unfoldable pub claim_row : String → ℕ → ℕ → MediaJob Json → MediaJob Json
  claim_row worker_id lease now j = record j {
    public_state = inspecting;
    lease_owner = some worker_id;
    lease_expires_at = some (now + lease);
    fence_token = j.fence_token + 1;
    attempt_count = j.attempt_count + 1;
    updated_at = now;
    started_at = or_now j.started_at now;
  }

  -- The loops that move selected rows: assert the edge, then change the row.
  unfoldable pub move_rows :
      (MediaJob Json → MediaJobState)
      → (MediaJob Json → MediaJob Json)
      → Table Json
      → Result JobError (Table Json)
  unfolding for_each assert_transition
  move_rows target change rows =
      for_each
        (λ j. do assert_transition (raw (value j.public_state)) (member (target j)); ok (change j))
        rows

  unfoldable pub claim_next :
      ℕ → (ℕ → Bool) → String → ℕ → ℕ → ℕ → Table Json → Result JobError (Table Json × Table Json)
  unfolding claim_select claim_row move_rows flush
  claim_next clock locked worker_id lease now limit t =
      if ltb limit 1
      then ok ([], t)
      else if str_eq worker_id "" || ltb 128 (length (codes worker_id))
      then err (job_error internal_error "INVALID_WORKER_ID")
      else do
        claimed ←
            move_rows (λ _. inspecting) (claim_row worker_id lease now)
              (claim_select clock locked limit t)
        ok (claimed, flush id_of claimed t)

  unfoldable pub complete_row : ℕ → Json → MediaJob Json → MediaJob Json
  complete_row clock metadata j = record j {
    public_state = inspected;
    result_metadata = some metadata;
    public_error_code = none;
    result_version = 1;
    lease_owner = none;
    lease_expires_at = none;
    completed_at = some clock;
    updated_at = clock;
  }

  unfoldable pub complete :
      ℕ → ℕ → String → ℕ → Json → Table Json → Result JobError (Bool × Table Json)
  unfolding complete_row fenced_update assert_transition
  complete clock job_id owner fence metadata t = do
    assert_transition (member inspecting) (member inspected)
    ok (fenced_update clock job_id owner fence (complete_row clock metadata) t)

  unfoldable pub fail_row : ℕ → String → MediaJob Json → MediaJob Json
  fail_row clock code j = record j {
    public_state = failed;
    public_error_code = some code;
    result_metadata = none;
    lease_owner = none;
    lease_expires_at = none;
    completed_at = some clock;
    updated_at = clock;
  }

  unfoldable pub fail_permanent :
      ℕ → ℕ → String → ℕ → String → Table Json → Result JobError (Bool × Table Json)
  unfolding fail_row fenced_update assert_transition
  fail_permanent clock job_id owner fence code t = do
    assert_transition (member inspecting) (member failed)
    ok (fenced_update clock job_id owner fence (fail_row clock code) t)

  unfoldable pub retry_row : ℕ → ℕ → MediaJob Json → MediaJob Json
  retry_row clock available j = record j {
    public_state = queued;
    public_error_code = none;
    available_at = available;
    lease_owner = none;
    lease_expires_at = none;
    updated_at = clock;
  }

  -- `seen` is the table as the method's SELECT finds it, which takes no lock; `t` is the table when
  -- its UPDATE runs.
  unfoldable pub fail_retry :
      ℕ
      → ℕ
      → String
      → ℕ
      → ℕ
      → ℤ
      → String
      → Table Json
      → Table Json
      → Result JobError (Bool × Table Json)
  unfolding fail_permanent retry_row fenced_update assert_transition
  fail_retry clock job_id owner fence now backoff code seen t = elim (get_by_id job_id seen) [
    | none ↦ ok (false, t)
    | some job ↦
        if not (same_state job.public_state inspecting)
          || not (text_is job.lease_owner owner)
          || not (job.fence_token == fence)
        then ok (false, t)
        else if leb job.max_attempts job.attempt_count
        then fail_permanent clock job_id owner fence code t
        else do
          assert_transition (member inspecting) (member queued)
          ok (fenced_update clock job_id owner fence (retry_row clock (now + pos_part backoff)) t)
  ]

  unfoldable pub release_row : ℕ → ℕ → MediaJob Json → MediaJob Json
  release_row clock now j = record j {
    public_state = queued;
    attempt_count = j.attempt_count - 1;
    available_at = now;
    lease_owner = none;
    lease_expires_at = none;
    updated_at = clock;
  }

  -- `greatest(attempt_count - 1, 0)` is the truncated `-`.
  unfoldable pub release_to_queued :
      ℕ → ℕ → String → ℕ → ℕ → Table Json → Result JobError (Bool × Table Json)
  unfolding release_row fenced_update assert_transition
  release_to_queued clock job_id owner fence now t = do
    assert_transition (member inspecting) (member queued)
    ok (fenced_update clock job_id owner fence (release_row clock now) t)

  unfoldable pub renew_row : ℕ → ℕ → MediaJob Json → MediaJob Json
  renew_row clock lease j = record j { lease_expires_at = some (clock + lease); updated_at = clock }

  unfoldable pub renew_lease :
      ℕ → ℕ → String → ℕ → ℕ → Table Json → Result JobError (Bool × Table Json)
  unfolding renew_row fenced_update
  renew_lease clock job_id owner fence lease t =
      ok (fenced_update clock job_id owner fence (renew_row clock lease) t)
