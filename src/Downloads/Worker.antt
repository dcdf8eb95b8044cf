-- ===== src/Downloads/Worker.antt =====
-- The methods of `MediaDownloadJobRepository` that a worker calls under its lease
-- (backend/src/fetchnow/downloads/repository.py). `clock` is the reading of `clock_timestamp()` in
-- the statement, and `quota_clock` the one after it that dates the quota entry.
use fetch_now.Prelude.{
  ℕ, ◌+◌, ◌-◌, String, Bool, true, false, not, ◌&&◌, ◌||◌, Option, none, some, ltb, leb, ◌==◌,
  if◌then◌else◌, is_some, ℤ, pos_part, Result, ◌>>=◌, ◌>>◌, ok, err,
}
use fetch_now.Jobs.Repository.{text_is, later_than}
use fetch_now.Downloads.Errors.{download_error, internal_error}
use fetch_now.Downloads.States.{
  queued, downloading, ready, failed, expired, same_state, member, assert_transition,
}
use fetch_now.Downloads.Stages.{DownloadProgressStage}
use fetch_now.Downloads.Model.{MediaDownloadJob}
use fetch_now.Downloads.Slot.{
  Slot, Fault, download, download_step, lock_identity, consume_quota, release_quota, store,
}

-- A live lease of `owner` under `fence`.
unfoldable pub holds_lease : ℕ → String → ℕ → MediaDownloadJob → Bool
holds_lease clock owner fence j =
    same_state j.public_state downloading
    && text_is j.lease_owner owner
    && (j.fence_token == fence)
    && later_than j.lease_expires_at clock
    && ltb clock j.expires_at

abbrev pub not_cancelled : MediaDownloadJob → Bool
not_cancelled j = not (is_some j.cancel_requested_at)

unfoldable pub renew_lease : ℕ → String → ℕ → ℕ → Slot → Bool × Slot
renew_lease clock owner fence lease s =
    if holds_lease clock owner fence s.job
    then (
      true,
      record s {
        job = record (s.job) { lease_expires_at = some (clock + lease); updated_at = clock };
      },
    )
    else (false, s)

unfoldable pub ready_row : ℕ → ℕ → ℕ → String → String → MediaDownloadJob → MediaDownloadJob
ready_row clock artifact bytes content_type container j = record j {
  public_state = ready;
  progress_stage = DownloadProgressStage.ready;
  progress_percent = none;
  artifact_id = some artifact;
  artifact_bytes = some bytes;
  artifact_content_type = some content_type;
  artifact_container = some container;
  public_error_code = none;
  lease_owner = none;
  lease_expires_at = none;
  completed_at = some clock;
  updated_at = clock;
}

unfoldable pub complete_ready :
    ℕ → ℕ → String → ℕ → ℕ → ℕ → String → String → Bool → Slot → Result Fault (Bool × Slot)
unfolding assert_transition
complete_ready clock quota_clock owner fence artifact bytes content_type container consume s =
    if bytes == 0
    then err (download (download_error internal_error "ARTIFACT_BYTES_INVALID"))
    else do
      download_step (assert_transition (member downloading) (member ready))
      governed ← if consume then lock_identity s else ok false
      if holds_lease clock owner fence s.job && not_cancelled s.job
          then (do
            done ←
                consume_quota governed quota_clock
                  (record s { job = ready_row clock artifact bytes content_type container s.job })
            ok (true, done))
          else ok (false, s)

unfoldable pub fail_row : ℕ → String → MediaDownloadJob → MediaDownloadJob
fail_row clock code j = record j {
  public_state = failed;
  progress_stage = DownloadProgressStage.failed;
  progress_percent = none;
  public_error_code = some code;
  artifact_id = none;
  artifact_bytes = none;
  artifact_content_type = none;
  artifact_container = none;
  lease_owner = none;
  lease_expires_at = none;
  completed_at = some clock;
  updated_at = clock;
}

-- The UPDATE fails where the code is empty or too long.
unfoldable pub fail_permanent : ℕ → ℕ → String → ℕ → String → Slot → Result Fault (Bool × Slot)
unfolding assert_transition
fail_permanent clock quota_clock owner fence code s = do
  download_step (assert_transition (member downloading) (member failed))
  governed ← lock_identity s
  if holds_lease clock owner fence s.job && not_cancelled s.job
      then (do
        stored ← store (fail_row clock code s.job) s
        done ← release_quota governed quota_clock stored
        ok (true, done))
      else ok (false, s)

unfoldable pub cancelled_row : ℕ → MediaDownloadJob → MediaDownloadJob
cancelled_row clock j = record j {
  public_state = expired;
  progress_stage = DownloadProgressStage.cancelled;
  progress_percent = none;
  public_error_code = none;
  artifact_id = none;
  artifact_bytes = none;
  artifact_content_type = none;
  artifact_container = none;
  lease_owner = none;
  lease_expires_at = none;
  completed_at = some clock;
  updated_at = clock;
}

-- A worker may report the cancellation after its lease has run out.
unfoldable pub holds_cancelled : String → ℕ → MediaDownloadJob → Bool
holds_cancelled owner fence j =
    same_state j.public_state downloading
    && text_is j.lease_owner owner
    && (j.fence_token == fence)
    && is_some j.cancel_requested_at

unfoldable pub complete_cancelled : ℕ → ℕ → String → ℕ → Slot → Result Fault (Bool × Slot)
unfolding assert_transition
complete_cancelled clock quota_clock owner fence s = do
  download_step (assert_transition (member downloading) (member expired))
  governed ← lock_identity s
  if holds_cancelled owner fence s.job
      then (do
        done ← release_quota governed quota_clock (record s { job = cancelled_row clock s.job })
        ok (true, done))
      else ok (false, s)

unfoldable pub retry_row : ℕ → ℕ → MediaDownloadJob → MediaDownloadJob
retry_row clock available j = record j {
  public_state = queued;
  progress_stage = DownloadProgressStage.retrying;
  progress_percent = none;
  public_error_code = none;
  available_at = available;
  lease_owner = none;
  lease_expires_at = none;
  updated_at = clock;
}

-- Whether the row that the unlocked SELECT saw is not the caller's.
abbrev pub seen_lost : String → ℕ → MediaDownloadJob → Bool
seen_lost owner fence j =
    not (same_state j.public_state downloading)
    || not (text_is j.lease_owner owner)
    || not (j.fence_token == fence)

unfoldable pub requeue_retry : ℕ → String → ℕ → ℕ → Slot → Result Fault (Bool × Slot)
unfolding assert_transition
requeue_retry clock owner fence available s = do
  download_step (assert_transition (member downloading) (member queued))
  ok (
      if holds_lease clock owner fence s.job && not_cancelled s.job
      then (true, record s { job = retry_row clock available s.job })
      else (false, s))

-- `seen` is the row that the unlocked SELECT reads.
unfoldable pub fail_retry :
    ℕ
    → ℕ
    → String
    → ℕ
    → ℕ
    → ℤ
    → String
    → Option MediaDownloadJob
    → Slot
    → Result Fault (Bool × Slot)
fail_retry clock quota_clock owner fence now backoff code none s = ok (false, s)
fail_retry clock quota_clock owner fence now backoff code (some seen) s =
    if seen_lost owner fence seen
    then ok (false, s)
    else if is_some seen.cancel_requested_at
    then complete_cancelled clock quota_clock owner fence s
    else if leb seen.max_attempts seen.attempt_count
    then fail_permanent clock quota_clock owner fence code s
    else requeue_retry clock owner fence (now + pos_part backoff) s

unfoldable pub release_row : ℕ → ℕ → MediaDownloadJob → MediaDownloadJob
release_row clock now j = record j {
  public_state = queued;
  progress_stage = DownloadProgressStage.queued;
  progress_percent = none;
  attempt_count = j.attempt_count - 1;
  available_at = now;
  lease_owner = none;
  lease_expires_at = none;
  updated_at = clock;
}

unfoldable pub release_to_queued : ℕ → String → ℕ → ℕ → Slot → Result Fault (Bool × Slot)
unfolding assert_transition
release_to_queued clock owner fence now s = do
  download_step (assert_transition (member downloading) (member queued))
  ok (
      if holds_lease clock owner fence s.job && not_cancelled s.job
      then (true, record s { job = release_row clock now s.job })
      else (false, s))
