-- ===== src/Downloads/Moves.antt =====
-- What one method may do to a download job and to its quota entry, as step relations.
pub mod Rows
pub mod Laws
pub mod Entries
pub mod Worker
pub mod Progress
pub mod Reaper
pub mod Expiry
use fetch_now.Prelude.{
  ℕ, ◌+◌, ◌-◌, ◌≤◌, ◌<◌, String, ◌≡◌, ◌⊎◌, Bool, true, false, not, ◌||◌, Option, none, some, [],
  ◌∷◌, if◌then◌else◌, is_some, any,
}
use fetch_now.Downloads.States.{MediaDownloadJobState, queued, downloading, ready, same_state}
use fetch_now.Downloads.Stages.{DownloadProgressStage}
use fetch_now.Downloads.Model.{MediaDownloadJob, row_check, counts_bytes}
use fetch_now.Quota.Model.{QuotaEntry, is_reserved}
use fetch_now.Downloads.Slot.{Slot}
use fetch_now.Downloads.Worker.{
  not_cancelled, ready_row, fail_row, cancelled_row, retry_row, release_row,
}
use fetch_now.Downloads.Progress.{apply_stored_cancel, mark_requested, stage_row}
use fetch_now.Downloads.Reaper.{claimable, claim_row, reclaim_row, expire_row}

-- A job that runs: the rules of the workers and of the reclaim begin with one.
abbrev pub running : MediaDownloadJob → Bool
running j = same_state j.public_state downloading

-- A cancelled job expires, whatever its token becomes.
abbrev pub cancelled_with : ℕ → ℕ → MediaDownloadJob → MediaDownloadJob
cancelled_with now fence j = record (apply_stored_cancel now j) { fence_token = fence }

pub data RowMove (j : MediaDownloadJob) : MediaDownloadJob → Type 0 where
  idle : RowMove j j
  renew :
      (until clock : ℕ)
      → running j ≡ true
      → RowMove j (record j { lease_expires_at = some until; updated_at = clock })
  finish :
      (clock artifact bytes : ℕ) (content_type container : String)
      → 0 < bytes
      → running j ≡ true
      → not_cancelled j ≡ true
      → RowMove j (ready_row clock artifact bytes content_type container j)
  fail :
      (clock : ℕ) (code : String)
      → running j ≡ true
      → not_cancelled j ≡ true
      → row_check (fail_row clock code j) ≡ true
      → RowMove j (fail_row clock code j)
  cancel :
      (clock : ℕ)
      → running j ≡ true
      → is_some j.cancel_requested_at ≡ true
      → RowMove j (cancelled_row clock j)
  retry :
      (clock available : ℕ)
      → running j ≡ true
      → not_cancelled j ≡ true
      → RowMove j (retry_row clock available j)
  release :
      (clock now : ℕ)
      → running j ≡ true
      → not_cancelled j ≡ true
      → RowMove j (release_row clock now j)
  request : (now : ℕ) → running j ≡ true → RowMove j (mark_requested now j)
  drop :
      (now : ℕ)
      → same_state j.public_state queued ≡ true
      → RowMove j (apply_stored_cancel now (record j { cancel_requested_at = some now }))
  stage :
      (target : DownloadProgressStage) (now : ℕ)
      → running j ≡ true
      → not_cancelled j ≡ true
      → row_check (stage_row target now j) ≡ true
      → RowMove j (stage_row target now j)
  percent :
      (value now : ℕ)
      → running j ≡ true
      → value ≤ 99
      → counts_bytes j.progress_stage ≡ true
      → RowMove j (record j { progress_percent = some value; updated_at = now })
  claim :
      (clock : ℕ) (worker : String) (lease now : ℕ)
      → claimable clock j ≡ true
      → RowMove j (claim_row worker lease now j)
  stop :
      (now : ℕ)
      → running j ≡ true
      → is_some j.cancel_requested_at ≡ true
      → RowMove j (cancelled_with now (j.fence_token + 1) j)
  reclaim : (now : ℕ) → running j ≡ true → not_cancelled j ≡ true → RowMove j (reclaim_row now j)
  expire : (now : ℕ) → RowMove j (expire_row now j)

abbrev pub unreserved : Option QuotaEntry → Bool
unreserved none = true
unreserved (some e) = not (is_reserved e.state)

abbrev pub is_live : MediaDownloadJobState → Bool
is_live state = any (same_state state) (queued ∷ downloading ∷ [])

-- The entry of a queued or running job is reserved, and that of a job that failed or expired is not;
-- the entry of a ready job may be in any state.
abbrev pub coupled : MediaDownloadJobState → Option QuotaEntry → Bool
coupled state none = true
coupled state (some e) =
    if is_live state
    then is_reserved e.state
    else same_state state ready || not (is_reserved e.state)

-- The entry stays while the job waits or runs, and a job that ends without a file has no
-- reservation.
abbrev pub EntryMove : Slot → Slot → Type 0
EntryMove s t =
    ((t.entry ≡ s.entry)
      × (is_live s.job.public_state ≡ true)
      × (is_live t.job.public_state ≡ true))
    ⊎ (same_state t.job.public_state ready ≡ true)
    ⊎ (unreserved t.entry ≡ true) × (is_live t.job.public_state ≡ false)

pub record Move (s t : Slot) : Type 0 where
  pub row : RowMove s.job t.job
  pub entries : (t ≡ s) ⊎ EntryMove s t
  pub client : t.client ≡ s.client
