-- ===== src/Downloads/Reaper.antt =====
-- Claims, expired leases and expired jobs (backend/src/fetchnow/downloads/repository.py). A batch
-- method lists the ids of rows, and then locks and treats them one by one: what it does to one job
-- is a function of that job's slot.
use fetch_now.Prelude.{
  ℕ, ◌+◌, String, Bool, true, false, not, ◌&&◌, ◌||◌, Option, none, some, [], ◌∷◌, ltb, leb,
  if◌then◌else◌, is_some, codes, length, any, Result, ◌>>=◌, ◌>>◌, ok, err,
}
use fetch_now.Jobs.Reaper.{due}
use fetch_now.Downloads.Errors.{download_error, internal_error}
use fetch_now.Downloads.States.{
  queued, downloading, ready, failed, expired, cancelled, value, same_state, member, raw,
  assert_transition,
}
use fetch_now.Downloads.Stages.{DownloadProgressStage}
use fetch_now.Downloads.Model.{MediaDownloadJob}
use fetch_now.Downloads.Grants.{revoke_active_grants}
use fetch_now.Downloads.Slot.{
  Slot, Fault, download, quota, integrity, value_error, download_step, quota_step, lock_identity,
  release_quota, is_coherent_promoted_premium_job,
}
use fetch_now.Downloads.Worker.{not_cancelled}
use fetch_now.Downloads.Progress.{or_now, apply_stored_cancel, stored_cancelled}
use fetch_now.Quota.Model.{QuotaEntry, EntryState, is_reserved, QuotaError, invariant}
use fetch_now.Quota.Ranges.{release_locked}
use fetch_now.Quota.Delivery.{has_live_attempt, reconcile}

-- The rows that `_claim_select` may take.
unfoldable pub claimable : ℕ → MediaDownloadJob → Bool
claimable clock j =
    same_state j.public_state queued
    && leb j.available_at clock
    && ltb clock j.expires_at
    && ltb j.attempt_count j.max_attempts
    && not_cancelled j

unfoldable pub claim_row : String → ℕ → ℕ → MediaDownloadJob → MediaDownloadJob
claim_row worker lease now j = record j {
  public_state = downloading;
  progress_stage = DownloadProgressStage.inspecting;
  progress_percent = none;
  lease_owner = some worker;
  lease_expires_at = some (now + lease);
  fence_token = j.fence_token + 1;
  attempt_count = j.attempt_count + 1;
  updated_at = now;
  started_at = or_now j.started_at now;
}

-- The body of the loop in `claim_next`.
unfoldable pub claim_slot : String → ℕ → ℕ → Slot → Result Fault Slot
unfolding assert_transition
claim_slot worker lease now s = do
  download_step (assert_transition (raw (value s.job.public_state)) (member downloading))
  ok (record s { job = claim_row worker lease now s.job })

abbrev pub valid_worker : String → Bool
valid_worker worker = leb 1 (length (codes worker)) && leb (length (codes worker)) 128

-- `claim_next` for one job and a limit of at least 1; `passed_over` tells whether the job's row is
-- locked or comes after the limit.
unfoldable pub try_claim : ℕ → Bool → String → ℕ → ℕ → Slot → Result Fault (Bool × Slot)
try_claim clock passed_over worker lease now s =
    if not (valid_worker worker)
    then err (download (download_error internal_error "INVALID_WORKER_ID"))
    else if passed_over || not (claimable clock s.job)
    then ok (false, s)
    else (do claimed ← claim_slot worker lease now s; ok (true, claimed))

unfoldable pub lease_expired : ℕ → MediaDownloadJob → Bool
lease_expired clock j =
    same_state j.public_state downloading && due j.lease_expires_at clock && ltb clock j.expires_at

abbrev pub exhausted : MediaDownloadJob → Bool
exhausted j = leb j.max_attempts j.attempt_count

-- The row of a job without a request to cancel.
unfoldable pub reclaim_row : ℕ → MediaDownloadJob → MediaDownloadJob
reclaim_row now j =
    let out = exhausted j in
    record j {
      public_state = if out then failed else queued;
      progress_stage = if out then DownloadProgressStage.failed else DownloadProgressStage.retrying;
      progress_percent = none;
      lease_owner = none;
      lease_expires_at = none;
      fence_token = j.fence_token + 1;
      available_at = now;
      updated_at = now;
      public_error_code = if out then some "DOWNLOAD_TOOL_FAILED" else j.public_error_code;
      completed_at = if out then some now else j.completed_at;
      artifact_id = if out then none else j.artifact_id;
      artifact_bytes = if out then none else j.artifact_bytes;
      artifact_content_type = if out then none else j.artifact_content_type;
      artifact_container = if out then none else j.artifact_container;
    }

abbrev pub bump_fence : MediaDownloadJob → MediaDownloadJob
bump_fence j = record j { fence_token = j.fence_token + 1 }

-- The part of `reclaim_expired_leases` for a locked row.
unfoldable pub reclaim_locked : Bool → ℕ → ℕ → Slot → Result Fault Slot
unfolding assert_transition
reclaim_locked governed quota_clock now s =
    if is_some s.job.cancel_requested_at
    then (do
      download_step (assert_transition (member downloading) (member expired))
      release_quota governed quota_clock
          (record s { job = bump_fence (apply_stored_cancel now s.job) }))
    else do
      download_step (
          assert_transition (member downloading)
            (member (if exhausted s.job then failed else queued)))
      let moved = record s { job = reclaim_row now s.job }
      if exhausted s.job then release_quota governed quota_clock moved else ok moved

-- The readings of `clock_timestamp()` in a batch method: when it lists the ids, when it locks the
-- row, and when it dates the quota entry.
pub record Clocks : Type 0 where
  pub listed : ℕ
  pub selected : ℕ
  pub dated : ℕ

-- `reclaim_expired_leases` for one job; `locked` tells whether another transaction holds the row.
-- The number of jobs changed is the number of `true` results.
unfoldable pub reclaim_slot : Clocks → Bool → ℕ → Slot → Result Fault (Bool × Slot)
reclaim_slot clocks locked now s =
    if not (lease_expired clocks.listed s.job) then ok (false, s) else do
      governed ← lock_identity s
      if locked || not (lease_expired clocks.selected s.job)
          then ok (false, s)
          else (do moved ← reclaim_locked governed clocks.dated now s; ok (true, moved))

-- `_apply_expired_job_fields`
unfoldable pub expire_row : ℕ → MediaDownloadJob → MediaDownloadJob
expire_row now j = record j {
  public_state = expired;
  progress_stage = DownloadProgressStage.expired;
  progress_percent = none;
  lease_owner = none;
  lease_expires_at = none;
  cancel_requested_at = none;
  artifact_id = none;
  artifact_bytes = none;
  artifact_content_type = none;
  artifact_container = none;
  public_error_code = none;
  updated_at = now;
  fence_token = j.fence_token + 1;
  completed_at = or_now j.completed_at now;
}

-- The artifact id that has to be deleted, and the row.
unfoldable pub apply_expired : ℕ → MediaDownloadJob → Result Fault (Option ℕ × MediaDownloadJob)
apply_expired now j = do
  download_step (
      if stored_cancelled j
      then assert_transition (member cancelled) (member expired)
      else assert_transition (raw (value j.public_state)) (member expired))
  ok (j.artifact_id, expire_row now j)

unfoldable pub due_to_expire : ℕ → MediaDownloadJob → Bool
unfolding stored_cancelled
due_to_expire clock j =
    leb j.expires_at clock
    && (any (same_state j.public_state) (queued ∷ downloading ∷ ready ∷ failed ∷ [])
        || stored_cancelled j)

-- What a batch method reports of one job: whether it changed it, and the artifact to delete.
pub record Expiry : Type 0 where
  pub changed : Bool
  pub artifact : Option ℕ

abbrev pub unchanged : Expiry
unchanged = record { changed = false; artifact = none }

abbrev pub is_ready : Slot → Bool
is_ready s = same_state s.job.public_state ready

-- The job's fields expire, and the grants of a ready job end.
unfoldable pub retire : ℕ → Slot → Result Fault (Expiry × Slot)
retire now s = do
  (artifact, row) ← apply_expired now s.job
  ok (
    record { changed = true; artifact = artifact },
    record s {
      job = row;
      grants = if is_ready s then revoke_active_grants now s.grants else s.grants;
    },
  )

-- A reservation ends with its job.
unfoldable pub retire_reserved : ℕ → ℕ → QuotaEntry → Slot → Result Fault (Expiry × Slot)
retire_reserved quota_clock now e s = do
  (expiry, retired) ← retire now s
  freed ← if is_reserved e.state then quota_step (release_locked e quota_clock true) else ok e
  ok (expiry, record retired { entry = some freed })

-- A ready job with a reservation: its delivery is settled first.
unfoldable pub expire_reserved : ℕ → ℕ → (ℕ → ℕ) → QuotaEntry → Slot → Result Fault (Expiry × Slot)
expire_reserved quota_clock now fresh e s = do
  (result, settled, ranges) ← quota_step (reconcile s.job e now fresh s.ranges)
  let kept = record s { entry = some settled; ranges = ranges }
  if is_reserved settled.state && has_live_attempt ranges now
      then ok (unchanged, kept)
      else retire_reserved quota_clock now settled kept

-- A ready job whose reservation was released before.
unfoldable pub expire_released : ℕ → ℕ → QuotaEntry → Slot → Result Fault (Expiry × Slot)
expire_released quota_clock now e s =
    if has_live_attempt s.ranges now
    then ok (unchanged, s)
    else if is_coherent_promoted_premium_job s.job.selected_format_snapshot e.anonymous_client_id
    then retire_reserved quota_clock now e s
    else retire now s

-- A ready job, by the state of its quota entry.
unfoldable pub expire_ready :
    ℕ → ℕ → (ℕ → ℕ) → QuotaEntry → Slot → EntryState → Result Fault (Expiry × Slot)
expire_ready quota_clock now fresh e s EntryState.reserved =
    expire_reserved quota_clock now fresh e s
expire_ready quota_clock now fresh e s EntryState.consumed = retire_reserved quota_clock now e s
expire_ready quota_clock now fresh e s EntryState.released = expire_released quota_clock now e s
expire_ready quota_clock now fresh e s EntryState.expired =
    if has_live_attempt s.ranges now then ok (unchanged, s) else retire now s

-- The savepoint's body for a job with the quota entry `e`.
unfoldable pub expire_governed : ℕ → ℕ → (ℕ → ℕ) → QuotaEntry → Slot → Result Fault (Expiry × Slot)
expire_governed quota_clock now fresh e s =
    if is_ready s
    then expire_ready quota_clock now fresh e s e.state
    else retire_reserved quota_clock now e s

unfoldable pub expire_entry :
    ℕ → ℕ → (ℕ → ℕ) → Slot → Option QuotaEntry → Result Fault (Expiry × Slot)
expire_entry quota_clock now fresh s none = retire now s
expire_entry quota_clock now fresh s (some e) = expire_governed quota_clock now fresh e s

unfoldable pub expire_locked : ℕ → ℕ → (ℕ → ℕ) → Slot → Result Fault (Expiry × Slot)
expire_locked quota_clock now fresh s = expire_entry quota_clock now fresh s s.entry

-- The savepoint: a QuotaInvariantError leaves the job as it was, anything else goes on.
abbrev pub isolate : Slot → Result Fault (Expiry × Slot) → Result Fault (Expiry × Slot)
isolate s (ok r) = ok r
isolate s (err (quota (invariant reason))) = ok (unchanged, s)
isolate s (err (quota (QuotaError.storage_unavailable reason))) =
    err (quota (QuotaError.storage_unavailable reason))
isolate s (err (quota (QuotaError.callback_raised reason))) =
    err (quota (QuotaError.callback_raised reason))
isolate s (err (quota QuotaError.integrity_error)) = err (quota QuotaError.integrity_error)
isolate s (err (download e)) = err (download e)
isolate s (err integrity) = err integrity
isolate s (err value_error) = err value_error

-- `expire_due_jobs` for one job.
unfoldable pub expire_slot : Clocks → Bool → ℕ → (ℕ → ℕ) → Slot → Result Fault (Expiry × Slot)
expire_slot clocks locked now fresh s =
    if not (due_to_expire clocks.listed s.job)
    then ok (unchanged, s)
    else isolate s (do
      governed ← lock_identity s
      if locked || not (due_to_expire clocks.selected s.job)
          then ok (unchanged, s)
          else expire_locked clocks.dated now fresh s)
