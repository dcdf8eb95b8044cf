-- ===== src/Jobs/Model.antt =====
-- The table `media_jobs` and its CHECK constraints (backend/src/fetchnow/jobs/models.py).
use fetch_now.Prelude.{
  ℕ, String, Bool, not, ◌&&◌, ◌||◌, Option, List, [], ◌∷◌, any, length, codes, has_code, is_some,
  str_eq, leb, ◌==◌,
}
use fetch_now.Jobs.States.{MediaJobState, inspecting, inspected, failed, same_state}

-- The columns that describe the trusted terminal target; no operation changes them.
pub record Target : Type 0 where
  pub provider_id : String
  pub canonical_provider_url : String
  pub media_id : String
  pub hostname : String
  pub path : String
  pub scheme : String
  pub port : Option ℕ

-- One row. `Json` is the type of the JSONB documents; times are microseconds, an id is the number
-- of a UUID, a hash is its bytes.
pub record MediaJob (Json : Type 0) : Type 0 where
  pub id : ℕ
  pub schema_version : ℕ
  pub result_version : ℕ
  pub public_state : MediaJobState
  pub target : Target
  pub credential_hash : List ℕ
  pub request_fingerprint : List ℕ
  pub result_metadata : Option Json
  pub public_error_code : Option String
  pub attempt_count : ℕ
  pub max_attempts : ℕ
  pub available_at : ℕ
  pub lease_owner : Option String
  pub lease_expires_at : Option ℕ
  pub fence_token : ℕ
  pub created_at : ℕ
  pub updated_at : ℕ
  pub started_at : Option ℕ
  pub completed_at : Option ℕ
  pub expires_at : ℕ

-- ck_media_jobs_lease_state
unfoldable pub lease_state_check : {Json : Type 0} → MediaJob Json → Bool
lease_state_check j =
    same_state j.public_state inspecting && is_some j.lease_owner && is_some j.lease_expires_at
    || not (same_state j.public_state inspecting)
      && not (is_some j.lease_owner)
      && not (is_some j.lease_expires_at)

-- ck_media_jobs_result_state
unfoldable pub result_state_check : {Json : Type 0} → MediaJob Json → Bool
result_state_check j =
    same_state j.public_state inspected
      && is_some j.result_metadata
      && not (is_some j.public_error_code)
      && is_some j.completed_at
    || same_state j.public_state failed
      && not (is_some j.result_metadata)
      && is_some j.public_error_code
      && is_some j.completed_at
    || not (any (same_state j.public_state) (inspected ∷ failed ∷ []))
      && not (is_some j.result_metadata)
      && not (is_some j.public_error_code)

-- The constraints on the columns that no operation changes.
unfoldable pub request_check : {Json : Type 0} → MediaJob Json → Bool
request_check j =
    not (has_code b'?' (codes j.target.canonical_provider_url))
    && not (has_code b'#' (codes j.target.canonical_provider_url))
    && leb 1 j.max_attempts
    && (length j.credential_hash == 32)
    && (length j.request_fingerprint == 32)
    && leb 1 j.schema_version
    && str_eq j.target.scheme "https"
    && not (is_some j.target.port)

-- All CHECK constraints of a row. Counters are natural numbers and states members of the enum, so
-- the constraints that say this hold by themselves.
unfoldable pub row_check : {Json : Type 0} → MediaJob Json → Bool
unfolding request_check lease_state_check result_state_check
row_check j = request_check j && lease_state_check j && result_state_check j
