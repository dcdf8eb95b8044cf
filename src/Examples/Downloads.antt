-- ===== src/Examples/Downloads.antt =====
-- Download jobs (backend/src/fetchnow/downloads/repository.py).
use fetch_now.Prelude.{
  ◌+◌, ◌≤◌, ◌≡◌, refl, inl, true, false, none, some, List, [], ◌∷◌, arith, ok, All,
}
use fetch_now.Downloads.States.{is_stored_cancelled, MediaDownloadJobState}
use fetch_now.Downloads.Slot.{lock_identity}
use fetch_now.Downloads.Reaper.{lease_expired}
use fetch_now.Downloads.Progress.{stored_cancelled, mark_requested, runs_for}
use fetch_now.Downloads.Stages.{DownloadProgressStage, StageArg}
use fetch_now.Downloads.Model.{MediaDownloadJob, row_check, no_artifact}
use fetch_now.Downloads.Slot.{Slot}
use fetch_now.Downloads.Progress.{request_cancel, set_progress_stage}
use fetch_now.Downloads.Reaper.{Clocks, Expiry, reclaim_slot, expire_slot}
use fetch_now.Downloads.Moves.Laws.{is_stopping}
use fetch_now.Downloads.History.{Call, transact, history}
use fetch_now.Downloads.History.Invariants.{IsSound, history-IsSound, cancellation_is_final}
use fetch_now.Downloads.History.Fencing.{Lost, stale_download_is_fenced}
use fetch_now.Downloads.History.Expiry.{Settled, expire_slot_never_raises}
use fetch_now.Downloads.History.Reclaim.{reclaim_slot_frees_job}
use fetch_now.Downloads.History.Report.{Report, set_progress_stage-Report}
use fetch_now.Quota.Model.{range_check}
use fetch_now.Quota.Delivery.Raises.{IsKept}
use fetch_now.Examples.Ranges.{ready_job, reserved_entry, closed_range}

-- A job that runs until 600 for the worker "w" under the token 3.
abbrev running_job : MediaDownloadJob
running_job = record ready_job {
  public_state = MediaDownloadJobState.downloading;
  lease_owner = some "w";
  lease_expires_at = some 600;
  artifact_id = none;
  artifact_bytes = none;
  artifact_content_type = none;
  artifact_container = none;
  progress_stage = DownloadProgressStage.downloading_video;
  progress_percent = some 40;
  completed_at = none;
}

abbrev running_slot : Slot
running_slot = record {
  job = running_job;
  entry = some reserved_entry;
  client = true;
  ranges = [];
  grants = [];
}

running_slot-IsSound : IsSound running_slot
unfolding row_check
running_slot-IsSound = record { checks = refl; attempts = omega arith; pairs = refl }

abbrev calls : List Call
calls =
    Call.request 20 21
    ∷ Call.finish 30 31 "w" 3 9 100 "video/mp4" "mp4" true
    ∷ Call.reclaim (record { listed = 700; selected = 701; dated = 702 }) false 703
    ∷ Call.claim 800 false "v" 100 801
    ∷ []

history-IsSound_example : IsSound (history calls running_slot)
history-IsSound_example = history-IsSound calls running_slot running_slot-IsSound

abbrev requested_slot : Slot
requested_slot = record running_slot {
  job = record running_job { cancel_requested_at = some 21; updated_at = 21 };
}

requested : request_cancel 20 21 running_slot ≡ ok requested_slot
unfolding request_cancel lock_identity stored_cancelled is_stored_cancelled mark_requested
requested = refl

cancellation_is_final_example :
    (is_stopping (history calls requested_slot).job ≡ true)
    × (no_artifact (history calls requested_slot).job ≡ true)
cancellation_is_final_example =
    cancellation_is_final 20 21 running_slot calls running_slot-IsSound refl requested

-- The worker that came before, under the token 2.
before : Lost 2 running_job
before = record { issued = omega arith; gone = inl (omega arith) }

abbrev late_call : Call
late_call = Call.finish 30 31 "w" 2 9 100 "video/mp4" "mp4" true

stale_download_is_fenced_example :
    (3 ≤ (history calls running_slot).job.fence_token)
    × (transact late_call (history calls running_slot) ≡ history calls running_slot)
stale_download_is_fenced_example =
    stale_download_is_fenced calls late_call running_slot 2 before refl

abbrev late : Clocks
late = record { listed = 700; selected = 701; dated = 702 }

reclaim_slot_frees_job_example :
    (t : Slot) × (reclaim_slot late false 703 running_slot ≡ ok (true, t))
    × (t.job.public_state ≡ MediaDownloadJobState.queued)
    × (t.job.fence_token ≡ 3 + 1)
unfolding lease_expired
reclaim_slot_frees_job_example =
    reclaim_slot_frees_job late 703 running_slot running_slot-IsSound refl refl refl

-- A ready job with two closed ranges that are compacted when it expires.
abbrev served_slot : Slot
served_slot = record running_slot {
  job = record ready_job { expires_at = 600 };
  ranges = closed_range 1 0 30 ∷ closed_range 2 20 60 ∷ [];
}

served_slot-IsKept : All (IsKept 703) served_slot.ranges
unfolding range_check
served_slot-IsKept = ((refl, omega arith), ((refl, omega arith), tt))

expire_slot_never_raises_example :
    (x : Expiry) × (t : Slot) × (expire_slot late false 703 (λ k. k) served_slot ≡ ok (x, t))
    × Settled 703 served_slot x t
expire_slot_never_raises_example =
    expire_slot_never_raises late false 703 (λ k. k) served_slot served_slot-IsKept

set_progress_stage-Report_example :
    Report running_slot DownloadProgressStage.retrying 50
      (set_progress_stage "w" 3 (StageArg.member DownloadProgressStage.retrying) 50 running_slot)
unfolding runs_for
set_progress_stage-Report_example =
    set_progress_stage-Report "w" 3 DownloadProgressStage.retrying 50 running_slot
      running_slot-IsSound.checks refl
