-- ===== src/Delivery/Authorize.antt =====
-- Who may read an artifact: `authorize` and `authorize_browser_grant`
-- (backend/src/fetchnow/delivery/service.py), and the issue of a browser grant
-- (backend/src/fetchnow/downloads/grant_service.py and downloads/grant_repository.py).
pub mod Safety
use fetch_now.Prelude.{
  ◌>>=◌, ◌>>◌, ℕ, ◌-◌, ◌/◌, ◌<◌, String, Bool, true, false, not, ◌||◌, Option, none, some, List,
  leb, ◌==◌, is_some, find, Result, ok, err,
}
use fetch_now.Payments.Signature.{same_text}
use fetch_now.Jobs.States.{
  same_state as same_job_state, MediaJobState, JobError, job_error, JobErrorCode,
  invalid_access_token,
}
use fetch_now.Jobs.Model.{MediaJob}
use fetch_now.Downloads.States.{same_state, MediaDownloadJobState, ready}
use fetch_now.Downloads.Errors.{
  DownloadError, download_error, DownloadErrorCode, download_job_not_found, delivery_disabled,
  downloads_disabled, download_expired, download_not_ready, download_storage_unavailable,
}
use fetch_now.Downloads.Model.{MediaDownloadJob, PolicyPart, absent, malformed, policy}
use fetch_now.Downloads.Grants.{MediaDeliveryGrant, is_active_grant, revoke_grant}
use fetch_now.Tokens.{generate_token}
use fetch_now.Tokens.Hashes.{
  parse_grant_token, hash_grant_token, hash_access_token, grant_hashes_match, tokens_match,
}

-- The settings that the two services read; the limits are validated to be at least 1.
pub record DeliverySettings : Type 0 where
  pub media_delivery_enabled : Bool
  pub media_browser_delivery_enabled : Bool
  pub media_downloads_enabled : Bool
  pub media_browser_grant_ttl_seconds : ℕ
  pub media_browser_grant_max_active : ℕ

-- A grant with the job that its foreign key names.
pub record GrantRow : Type 0 where
  pub download_job_id : ℕ
  pub grant : MediaDeliveryGrant

-- The tables that the services read. A row that is inserted stands in front of the others.
pub record Tables (Json : Type 0) : Type 0 where
  pub media_jobs : List (MediaJob Json)
  pub download_jobs : List MediaDownloadJob
  pub grants : List GrantRow

-- The policy that a delivery follows: the service's own, or the one of the snapshot.
pub data AppliedPolicy : Type 0 where
  service_policy : AppliedPolicy
  snapshot_policy : (is_premium : Bool) (authorized_identity : Option ℕ) → AppliedPolicy

pub record DeliveryAuthorization : Type 0 where
  pub job : MediaDownloadJob
  pub now : ℕ
  pub applied : AppliedPolicy

abbrev pub raise_if : Bool → DownloadErrorCode → String → Result DownloadError (Unit {0})
raise_if true code reason = err (download_error code reason)
raise_if false code reason = ok tt

abbrev pub some_or : {A : Type 0} → Option A → DownloadErrorCode → String → Result DownloadError A
some_or none code reason = err (download_error code reason)
some_or (some a) code reason = ok a

-- How both services pass on what `hash_access_token` raises.
unfoldable pub credential : {A : Type 0} → Result JobError A → Result DownloadError A
credential (ok a) = ok a
credential (err (job_error invalid_access_token reason)) =
    err (download_error download_job_not_found "TOKEN_SHAPE")
credential (err (job_error code reason)) =
    err (download_error DownloadErrorCode.internal_error "TOKEN_HASH_FAILED")

unfoldable pub is_ready : MediaDownloadJob → Bool
is_ready job = same_state job.public_state ready

-- The job or its parent is past its time.
unfoldable pub is_over : {Json : Type 0} → MediaJob Json → MediaDownloadJob → ℕ → Bool
is_over parent job now =
    same_job_state parent.public_state MediaJobState.expired
    || leb parent.expires_at now
    || same_state job.public_state MediaDownloadJobState.expired
    || leb job.expires_at now

-- The condition that both `_assert_ready_pointer`s refuse.
unfoldable pub is_incomplete : MediaDownloadJob → Bool
is_incomplete job =
    not (is_some job.artifact_id)
    || not (is_some job.artifact_bytes)
    || not (is_some job.artifact_container)
    || not (is_some job.artifact_content_type)
    || not (is_some job.completed_at)
    || is_some job.public_error_code

-- `int(job.artifact_bytes) <= 0`
unfoldable pub is_empty : Option ℕ → Bool
is_empty none = true
is_empty (some n) = n == 0

-- `_assert_ready_pointer` of the delivery service.
unfoldable pub assert_ready_pointer : MediaDownloadJob → Result DownloadError (Unit {0})
unfolding is_incomplete is_empty
assert_ready_pointer job = do
  raise_if (is_incomplete job) download_storage_unavailable "READY_POINTER_INCOMPLETE"
  raise_if (is_empty job.artifact_bytes) download_storage_unavailable "READY_POINTER_EMPTY"

-- `_policy_for_job`
unfoldable pub policy_for_job : PolicyPart → Result DownloadError AppliedPolicy
policy_for_job malformed =
    err (download_error download_storage_unavailable "POLICY_SNAPSHOT_INVALID")
policy_for_job absent = ok service_policy
policy_for_job (policy is_premium identity) = ok (snapshot_policy is_premium identity)

abbrev pub names : Option ℕ → ℕ → Bool
names none id = false
names (some artifact) id = artifact == id

-- The grant is for another artifact or another lease than the job's.
unfoldable pub is_stale : MediaDownloadJob → MediaDeliveryGrant → Bool
is_stale job grant =
    not (names job.artifact_id grant.artifact_id) || not (job.fence_token == grant.fence_token)

abbrev pub job_of : {Json : Type 0} → Tables Json → ℕ → Option MediaDownloadJob
job_of tables id = find (λ job. job.id == id) tables.download_jobs

abbrev pub parent_of : {Json : Type 0} → Tables Json → MediaDownloadJob → Option (MediaJob Json)
parent_of tables job = find (λ parent. parent.id == job.media_job_id) tables.media_jobs

module _ {Json : Type 0} (sha256 : List ℕ → List ℕ) (settings : DeliverySettings) where
  -- `authorize`
  unfoldable pub authorize :
      Tables Json → ℕ → ℕ → List ℕ → Result DownloadError DeliveryAuthorization
  unfolding hash_access_token credential tokens_match is_over is_ready assert_ready_pointer
      policy_for_job find
  authorize tables now download_job_id access_token = do
    credential_hash ← credential (hash_access_token sha256 access_token)
    raise_if (not settings.media_delivery_enabled) delivery_disabled "DELIVERY_DISABLED"
    job ← some_or (job_of tables download_job_id) download_job_not_found "MISSING"
    parent ← some_or (parent_of tables job) download_job_not_found "UNAUTHORIZED"
    raise_if (not (tokens_match parent.credential_hash credential_hash)) download_job_not_found
        "UNAUTHORIZED"
    raise_if (is_over parent job now) download_expired "TTL_ELAPSED"
    raise_if (not (is_ready job)) download_not_ready "NOT_READY"
    assert_ready_pointer job
    applied ← policy_for_job job.selected_format_snapshot.policy_part
    ok (record { job = job; now = now; applied = applied })

  -- `authorize_browser_grant`
  unfoldable pub authorize_browser_grant :
      Tables Json → ℕ → ℕ → List ℕ → Result DownloadError DeliveryAuthorization
  unfolding parse_grant_token hash_grant_token grant_hashes_match is_over is_ready
      assert_ready_pointer is_stale policy_for_job find
  authorize_browser_grant tables now grant_id raw_token = do
    raw ← parse_grant_token raw_token
    token_hash ← hash_grant_token sha256 raw_token
    raise_if (not settings.media_delivery_enabled) delivery_disabled "DELIVERY_DISABLED"
    raise_if (not settings.media_browser_delivery_enabled) delivery_disabled
        "BROWSER_DELIVERY_DISABLED"
    row ←
        some_or (find (λ row. row.grant.id == grant_id) tables.grants) download_job_not_found
          "GRANT_UNAUTHORIZED"
    raise_if (not (grant_hashes_match row.grant.token_hash token_hash)) download_job_not_found
        "GRANT_UNAUTHORIZED"
    raise_if (is_some row.grant.revoked_at || leb row.grant.expires_at now) download_expired
        "GRANT_EXPIRED"
    job ← some_or (job_of tables row.download_job_id) download_job_not_found "GRANT_JOB_MISSING"
    parent ← some_or (parent_of tables job) download_job_not_found "GRANT_PARENT_MISSING"
    raise_if (is_over parent job now) download_expired "TTL_ELAPSED"
    raise_if (not (is_ready job)) download_not_ready "NOT_READY"
    assert_ready_pointer job
    raise_if (is_stale job row.grant) download_job_not_found "GRANT_ARTIFACT_MISMATCH"
    applied ← policy_for_job job.selected_format_snapshot.policy_part
    ok (record { job = job; now = now; applied = applied })
