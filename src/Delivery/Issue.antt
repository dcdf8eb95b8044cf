-- ===== src/Delivery/Issue.antt =====
-- The issue of a browser grant: `BrowserGrantService.issue`
-- (backend/src/fetchnow/downloads/grant_service.py) with the repository's methods that it calls
-- (backend/src/fetchnow/downloads/grant_repository.py).
pub mod RoundTrip
pub mod Bound
pub mod Oldest
use fetch_now.Prelude.{
  ◌>>=◌, ◌>>◌, ℕ, ◌+◌, ◌-◌, ◌*◌, ◌/◌, min, max, not, ◌&&◌, Option, none, some, List, ◌∷◌, ◌++◌, leb,
  ◌==◌, update_where, find, insert_sorted, order_by, codes, length, take, keep, any, Result, ok,
}
use fetch_now.Jobs.States.{MediaJobState, JobError}
use fetch_now.Jobs.Model.{MediaJob}
use fetch_now.Downloads.Errors.{
  DownloadError, download_error, DownloadErrorCode, download_job_not_found, delivery_disabled,
  downloads_disabled, download_expired, download_not_ready, download_storage_unavailable,
}
use fetch_now.Downloads.Model.{MediaDownloadJob}
use fetch_now.Downloads.Grants.{MediaDeliveryGrant, is_active_grant, revoke_grant}
use fetch_now.Tokens.{generate_token}
use fetch_now.Tokens.Hashes.{hash_grant_token, hash_access_token, tokens_match}
use fetch_now.Delivery.Authorize.{
  DeliverySettings, GrantRow, Tables, raise_if, some_or, credential, is_ready, is_over,
  is_incomplete, job_of, parent_of,
}

pub record IssuedBrowserGrant : Type 0 where
  pub grant_id : ℕ
  pub download_path : List ℕ
  pub expires_at : ℕ
  pub raw_token : List ℕ
  pub cookie_max_age : ℕ

-- `list_active_for_job`
unfoldable pub list_active_for_job : ℕ → ℕ → List GrantRow → List GrantRow
unfolding is_active_grant insert_sorted order_by
list_active_for_job job now rows =
    order_by (λ a b. leb a.grant.created_at b.grant.created_at)
      (keep (λ row. (row.download_job_id == job) && is_active_grant now row.grant) rows)

unfoldable pub revoke_row : ℕ → GrantRow → GrantRow
unfolding revoke_grant
revoke_row now row = record row { grant = revoke_grant now row.grant }

-- `revoke_grants`: the rows with the primary keys of the list.
unfoldable pub revoke_grants : List GrantRow → ℕ → List GrantRow → List GrantRow
unfolding revoke_row update_where
revoke_grants doomed now rows =
    update_where (λ row. any (λ d. d.grant.id == row.grant.id) doomed) (revoke_row now) rows

-- `insert_grant`. The id and the token hash are new: what the table's keys would refuse is left out.
unfoldable pub insert_grant :
    ℕ → MediaDeliveryGrant → List GrantRow → Result DownloadError (List GrantRow)
insert_grant job grant rows = do
  raise_if (not (length grant.token_hash == 32)) DownloadErrorCode.internal_error
      "GRANT_HASH_LENGTH"
  raise_if (leb grant.expires_at grant.created_at) DownloadErrorCode.internal_error
      "GRANT_TTL_INVALID"
  ok (record { download_job_id = job; grant = grant } ∷ rows)

-- The rows after the oldest active grants are revoked that leave no room under the limit.
unfoldable pub evict : ℕ → ℕ → ℕ → List GrantRow → List GrantRow
unfolding list_active_for_job revoke_grants
evict max_active job now rows =
    let active = list_active_for_job job now rows in
    revoke_grants (take (length active + 1 - max_active) active) now rows

-- `content_path_for_grant` of the grant's UUID as a text.
unfoldable pub content_path_for_grant : List ℕ → List ℕ
content_path_for_grant uuid = codes "/api/v1/media/browser-grants/" ++ (uuid ++ codes "/content")

-- `job.artifact_id`, which `issue` asserts not to be None.
abbrev pub asserted_id : Option ℕ → ℕ
asserted_id none = 0
asserted_id (some id) = id

-- `min(now + timedelta(seconds=configured_ttl), job.expires_at)`
abbrev pub grant_expiry : ℕ → MediaDownloadJob → ℕ → ℕ
grant_expiry ttl job now = min (now + ttl * 1000000) job.expires_at

-- The row that `issue` inserts.
abbrev pub new_grant : MediaDownloadJob → ℕ → List ℕ → ℕ → ℕ → MediaDeliveryGrant
new_grant job grant_id token_hash now grant_expires = record {
  id = grant_id;
  token_hash = token_hash;
  artifact_id = asserted_id job.artifact_id;
  fence_token = job.fence_token;
  created_at = now;
  expires_at = grant_expires;
  revoked_at = none;
}

-- `uuid_text` is `str` of a UUID. `random` and `grant_id` are what the generators give.
module _ {Json : Type 0} (sha256 : List ℕ → List ℕ) (uuid_text : ℕ → List ℕ)
    (settings : DeliverySettings) where
  -- The part of `issue` that writes, for a job that the client may read.
  unfoldable pub grant_access :
      Tables Json
      → MediaDownloadJob
      → (now : ℕ) (random : List ℕ) (grant_id : ℕ)
      → Result DownloadError (IssuedBrowserGrant × Tables Json)
  unfolding evict generate_token hash_grant_token insert_grant content_path_for_grant
  grant_access tables job now random grant_id =
      let grant_expires = grant_expiry settings.media_browser_grant_ttl_seconds job now in
      let raw_token = generate_token random in
      do
        raise_if (leb grant_expires now) download_expired "GRANT_TTL_ELAPSED"
        token_hash ← hash_grant_token sha256 raw_token
        rows ←
            insert_grant job.id (new_grant job grant_id token_hash now grant_expires)
              (evict settings.media_browser_grant_max_active job.id now tables.grants)
        ok (
          record {
            grant_id = grant_id;
            download_path = content_path_for_grant (uuid_text grant_id);
            expires_at = grant_expires;
            raw_token = raw_token;
            cookie_max_age = max 1 ((grant_expires - now) / 1000000);
          },
          record tables { grants = rows },
        )

  -- `issue`
  unfoldable pub issue :
      Tables Json
      → (now : ℕ) (random : List ℕ) (grant_id download_job_id : ℕ) (access_token : List ℕ)
      → Result DownloadError (IssuedBrowserGrant × Tables Json)
  unfolding hash_access_token credential tokens_match is_over is_ready is_incomplete grant_access
      find
  issue tables now random grant_id download_job_id access_token = do
    credential_hash ← credential (hash_access_token sha256 access_token)
    raise_if (not settings.media_browser_delivery_enabled) delivery_disabled
        "BROWSER_DELIVERY_DISABLED"
    raise_if (not settings.media_downloads_enabled) downloads_disabled "DOWNLOADS_DISABLED"
    job ← some_or (job_of tables download_job_id) download_job_not_found "MISSING"
    parent ← some_or (parent_of tables job) download_job_not_found "UNAUTHORIZED"
    raise_if (not (tokens_match parent.credential_hash credential_hash)) download_job_not_found
        "UNAUTHORIZED"
    raise_if (is_over parent job now) download_expired "TTL_ELAPSED"
    raise_if (not (is_ready job)) download_not_ready "NOT_READY"
    raise_if (is_incomplete job) download_storage_unavailable "READY_POINTER_INCOMPLETE"
    grant_access tables job now random grant_id
