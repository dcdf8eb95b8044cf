-- ===== src/Downloads/Slot.antt =====
-- A download job with what hangs on it, and the quota steps of
-- `MediaDownloadJobRepository` (backend/src/fetchnow/downloads/repository.py).
use fetch_now.Prelude.{
  ℕ, Bool, true, false, ◌&&◌, Option, none, some, List, ◌==◌, if◌then◌else◌, Result, ◌>>=◌, ok, err,
}
use fetch_now.Downloads.Errors.{DownloadError}
use fetch_now.Downloads.Model.{MediaDownloadJob, row_check, Snapshot, policy}
use fetch_now.Downloads.Grants.{MediaDeliveryGrant}
use fetch_now.Quota.Model.{QuotaEntry, QuotaError, invariant, DeliveryRange}
use fetch_now.Quota.Ranges.{consume_locked, release_locked}

-- A job, its quota entry (the table has at most one per job), whether the entry's identity exists,
-- the entry's delivery ranges, and the job's grants.
pub record Slot : Type 0 where
  pub job : MediaDownloadJob
  pub entry : Option QuotaEntry
  pub client : Bool
  pub ranges : List DeliveryRange
  pub grants : List MediaDeliveryGrant

-- What a method raises: a DownloadError, what the quota raises, an IntegrityError for a CHECK
-- constraint, or a ValueError for an unknown stage.
pub data Fault : Type 0 where
  download : DownloadError → Fault
  quota : QuotaError → Fault
  integrity value_error : Fault

abbrev pub download_step : {A : Type 0} → Result DownloadError A → Result Fault A
download_step (ok a) = ok a
download_step (err e) = err (download e)

abbrev pub quota_step : {A : Type 0} → Result QuotaError A → Result Fault A
quota_step (ok a) = ok a
quota_step (err e) = err (quota e)

-- `_lock_quota_identity_for_job`: whether the job is governed by the quota.
unfoldable pub lock_identity : Slot → Result Fault Bool
lock_identity s = elim s.entry [
  | none ↦ ok false
  | some e ↦
      if s.client
      then ok true
      else err (quota (invariant "quota entry references a missing identity"))
]

-- `_consume_quota_after_job_lock`
unfoldable pub consume_quota : Bool → ℕ → Slot → Result Fault Slot
unfolding consume_locked
consume_quota false clock s = ok s
consume_quota true clock s = elim s.entry [
  | none ↦ err (quota (invariant "quota entry disappeared during ready transition"))
  | some e ↦ do spent ← quota_step (consume_locked e clock); ok (record s { entry = some spent })
]

-- `_release_quota_after_job_lock`
unfoldable pub release_quota : Bool → ℕ → Slot → Result Fault Slot
unfolding release_locked
release_quota false clock s = ok s
release_quota true clock s = elim s.entry [
  | none ↦ err (quota (invariant "quota entry disappeared during terminal transition"))
  | some e ↦ do
    freed ← quota_step (release_locked e clock false)
    ok (record s { entry = some freed })
]

-- The write of a row, where the new row may break a CHECK constraint.
unfoldable pub store : MediaDownloadJob → Slot → Result Fault Slot
store j s = if row_check j then ok (record s { job = j }) else err integrity

abbrev bound_to : Option ℕ → ℕ → Bool
bound_to none identity = false
bound_to (some i) identity = i == identity

-- `is_coherent_promoted_premium_job`, for the identity of the quota entry.
unfoldable pub is_coherent_promoted_premium_job : Snapshot → ℕ → Bool
is_coherent_promoted_premium_job snapshot identity = elim snapshot.policy_part [
  | policy is_premium authorized ↦ is_premium && bound_to authorized identity
  | _ ↦ false
]
