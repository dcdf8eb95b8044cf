-- ===== src/Downloads/Progress.antt =====
-- Cancellation and progress of a running download
-- (backend/src/fetchnow/downloads/repository.py).
use fetch_now.Prelude.{
  ℕ, String, Bool, true, false, not, ◌&&◌, ◌||◌, Option, none, some, [], ◌∷◌, ltb, leb, ◌==◌,
  if◌then◌else◌, is_some, any, ℤ, pos, negsuc, Result, ◌>>=◌, ◌>>◌, ok, err,
}
use fetch_now.Jobs.Repository.{text_is}
use fetch_now.Downloads.Errors.{download_error, internal_error}
use fetch_now.Downloads.States.{
  queued, downloading, ready, failed, expired, value, same_state, member, assert_transition,
  is_stored_cancelled,
}
use fetch_now.Downloads.Stages
use fetch_now.Downloads.Stages.{
  DownloadProgressStage, StageArg, same_stage, parse_stage, terminal_progress,
  assert_progress_transition,
}
use fetch_now.Downloads.Model.{MediaDownloadJob, counts_bytes}
use fetch_now.Downloads.Slot.{
  Slot, Fault, download, value_error, download_step, lock_identity, release_quota, store,
}
use fetch_now.Downloads.Worker.{holds_lease, not_cancelled, renew_lease}

abbrev pub or_now : Option ℕ → ℕ → Option ℕ
or_now none now = some now
or_now (some t) now = some t

-- `_apply_stored_cancel`
unfoldable pub apply_stored_cancel : ℕ → MediaDownloadJob → MediaDownloadJob
apply_stored_cancel now j = record j {
  public_state = expired;
  progress_stage = DownloadProgressStage.cancelled;
  progress_percent = none;
  lease_owner = none;
  lease_expires_at = none;
  updated_at = now;
  completed_at = or_now j.completed_at now;
  public_error_code = none;
  artifact_id = none;
  artifact_bytes = none;
  artifact_content_type = none;
  artifact_container = none;
}

-- A row that encodes a user cancellation.
unfoldable pub stored_cancelled : MediaDownloadJob → Bool
stored_cancelled j =
    is_stored_cancelled (value j.public_state) (some (Stages.value j.progress_stage))
      j.cancel_requested_at

unfoldable pub mark_requested : ℕ → MediaDownloadJob → MediaDownloadJob
mark_requested now j =
    if is_some j.cancel_requested_at
    then j
    else record j { cancel_requested_at = some now; updated_at = now }

-- `request_cancel`, for a job that exists; a stored state is never `cancelled`.
unfoldable pub request_cancel : ℕ → ℕ → Slot → Result Fault Slot
unfolding assert_transition
request_cancel quota_clock now s = do
  governed ← lock_identity s
  if stored_cancelled s.job || any (same_state s.job.public_state) (ready ∷ failed ∷ expired ∷ [])
      then ok s
      else if same_state s.job.public_state queued
      then (do
        download_step (assert_transition (member queued) (member expired))
        release_quota governed quota_clock (record s {
          job = apply_stored_cancel now (record (s.job) { cancel_requested_at = some now });
        }))
      else if same_state s.job.public_state downloading
      then ok (record s { job = mark_requested now s.job })
      else err (download (download_error internal_error "UNKNOWN_DOWNLOAD_STATE"))

-- The row that the two progress methods lock: the owner's, also after its lease has run out.
unfoldable pub runs_for : String → ℕ → MediaDownloadJob → Bool
runs_for owner fence j =
    same_state j.public_state downloading
    && text_is j.lease_owner owner
    && (j.fence_token == fence)
    && not_cancelled j

unfoldable pub stage_row : DownloadProgressStage → ℕ → MediaDownloadJob → MediaDownloadJob
stage_row target now j = record j {
  progress_percent = if same_stage j.progress_stage target then j.progress_percent else none;
  progress_stage = target;
  updated_at = now;
}

-- `DownloadProgressStage(str(stage))` raises a ValueError for an unknown text.
abbrev pub read_stage : StageArg → Result Fault DownloadProgressStage
read_stage (StageArg.member stage) = ok stage
read_stage (StageArg.raw s) = elim (parse_stage s) [
  | none ↦ err value_error
  | some stage ↦ ok stage
]

-- The flush fails where the new stage does not go with the state "downloading".
unfoldable pub move_stage :
    String → ℕ → DownloadProgressStage → ℕ → Slot → Result Fault (Bool × Slot)
move_stage owner fence target now s =
    if any (same_stage target) terminal_progress
    then ok (false, s)
    else if not (runs_for owner fence s.job)
    then ok (false, s)
    else do
      download_step (
          assert_progress_transition (StageArg.raw (Stages.value s.job.progress_stage))
            (StageArg.member target))
      done ← store (stage_row target now s.job) s
      ok (true, done)

unfoldable pub set_progress_stage : String → ℕ → StageArg → ℕ → Slot → Result Fault (Bool × Slot)
set_progress_stage owner fence stage now s = do
  target ← read_stage stage
  move_stage owner fence target now s

abbrev pub at_most_99 : ℤ → Option ℕ
at_most_99 (pos n) = if leb n 99 then some n else none
at_most_99 (negsuc n) = none

-- The stored percentage against the new one.
unfoldable pub write_percent : ℕ → ℕ → Option ℕ → Slot → Bool × Slot
write_percent percent now none s =
    (true, record s { job = record (s.job) { progress_percent = some percent; updated_at = now } })
write_percent percent now (some stored) s =
    if ltb percent stored then (false, s) else if percent == stored then (true, s) else (
      true,
      record s { job = record (s.job) { progress_percent = some percent; updated_at = now } },
    )

-- The row that the method locks: the holder's, while it counts bytes.
abbrev pub put_percent : ℕ → String → ℕ → ℕ → Option ℕ → Slot → Bool × Slot
put_percent clock owner fence now none s = (false, s)
put_percent clock owner fence now (some percent) s =
    if holds_lease clock owner fence s.job
      && not_cancelled s.job
      && counts_bytes s.job.progress_stage
    then write_percent percent now s.job.progress_percent s
    else (false, s)

unfoldable pub set_progress_percent : ℕ → String → ℕ → ℤ → ℕ → Slot → Bool × Slot
set_progress_percent clock owner fence percent now s =
    put_percent clock owner fence now (at_most_99 percent) s

pub data LeaseStatus : Type 0 where
  owned lost cancelled : LeaseStatus

-- `renewed` is the clock's reading in the UPDATE of `renew_lease`.
unfoldable pub lease_status : ℕ → ℕ → String → ℕ → ℕ → Slot → LeaseStatus × Slot
lease_status clock renewed owner fence lease s =
    if not (holds_lease clock owner fence s.job)
    then (lost, s)
    else if is_some s.job.cancel_requested_at
    then (cancelled, s)
    else (
      if (renew_lease renewed owner fence lease s).0 then owned else lost,
      (renew_lease renewed owner fence lease s).1,
    )
