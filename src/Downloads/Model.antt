-- ===== src/Downloads/Model.antt =====
-- The table `media_download_jobs` and its CHECK constraints
-- (backend/src/fetchnow/downloads/models.py).
use fetch_now.Prelude.{
  ℕ, String, Bool, true, false, not, ◌&&◌, ◌||◌, Option, none, some, List, [], ◌∷◌, str_eq, ltb,
  leb, is_some, codes, has_code, length, any,
}
use fetch_now.Jobs.Model.{Target}
use fetch_now.Downloads.States.{
  MediaDownloadJobState, queued, downloading, ready, failed, expired, same_state,
}
use fetch_now.Downloads.Stages.{DownloadProgressStage, same_stage}

-- What the decoders of downloads/snapshot_codec.py find under the policy key of a snapshot: no
-- policy, one that they refuse, or a policy with its tier and the identity that it is bound to.
pub data PolicyPart : Type 0 where
  absent malformed : PolicyPart
  policy : (is_premium : Bool) (authorized_identity : Option ℕ) → PolicyPart

-- The document in `selected_format_snapshot`: the text of all but the policy key, and that key.
pub record Snapshot : Type 0 where
  pub format_portion : String
  pub policy_part : PolicyPart

-- One row; times are microseconds and an id is the number of a UUID.
pub record MediaDownloadJob : Type 0 where
  pub id : ℕ
  pub media_job_id : ℕ
  pub schema_version : ℕ
  pub public_state : MediaDownloadJobState
  pub format_option_id : String
  pub target : Target
  pub selected_format_snapshot : Snapshot
  pub attempt_count : ℕ
  pub max_attempts : ℕ
  pub available_at : ℕ
  pub lease_owner : Option String
  pub lease_expires_at : Option ℕ
  pub fence_token : ℕ
  pub artifact_id : Option ℕ
  pub artifact_bytes : Option ℕ
  pub artifact_content_type : Option String
  pub artifact_container : Option String
  pub public_error_code : Option String
  pub progress_stage : DownloadProgressStage
  pub cancel_requested_at : Option ℕ
  pub suggested_filename : Option String
  pub progress_percent : Option ℕ
  pub created_at : ℕ
  pub updated_at : ℕ
  pub started_at : Option ℕ
  pub completed_at : Option ℕ
  pub expires_at : ℕ

-- ck_media_download_jobs_lease_state
unfoldable pub lease_state_check : MediaDownloadJob → Bool
lease_state_check j =
    same_state j.public_state downloading && is_some j.lease_owner && is_some j.lease_expires_at
    || not (same_state j.public_state downloading)
      && not (is_some j.lease_owner)
      && not (is_some j.lease_expires_at)

abbrev pub positive : Option ℕ → Bool
positive none = false
positive (some n) = ltb 0 n

abbrev pub no_artifact : MediaDownloadJob → Bool
no_artifact j =
    not (is_some j.artifact_id)
    && not (is_some j.artifact_bytes)
    && not (is_some j.artifact_container)
    && not (is_some j.artifact_content_type)

-- `char_length(public_error_code) BETWEEN 1 AND 64`
abbrev pub short_code : Option String → Bool
short_code none = false
short_code (some s) = leb 1 (length (codes s)) && leb (length (codes s)) 64

-- ck_media_download_jobs_result_state
unfoldable pub result_state_check : MediaDownloadJob → Bool
result_state_check j =
    same_state j.public_state ready
      && is_some j.artifact_id
      && positive j.artifact_bytes
      && is_some j.artifact_container
      && is_some j.artifact_content_type
      && not (is_some j.public_error_code)
      && is_some j.completed_at
    || same_state j.public_state failed
      && no_artifact j
      && is_some j.completed_at
      && short_code j.public_error_code
    || any (same_state j.public_state) (queued ∷ downloading ∷ expired ∷ [])
      && no_artifact j
      && not (is_some j.public_error_code)

-- The stages of a job in this public state.
abbrev pub stages_of : MediaDownloadJobState → List DownloadProgressStage
stages_of queued = DownloadProgressStage.queued ∷ DownloadProgressStage.retrying ∷ []
stages_of downloading =
    DownloadProgressStage.inspecting ∷ DownloadProgressStage.downloading_video
    ∷ DownloadProgressStage.downloading_audio ∷ DownloadProgressStage.muxing
    ∷ DownloadProgressStage.verifying ∷ DownloadProgressStage.publishing ∷ []
stages_of ready = DownloadProgressStage.ready ∷ []
stages_of failed = DownloadProgressStage.failed ∷ []
stages_of expired = DownloadProgressStage.expired ∷ DownloadProgressStage.cancelled ∷ []
stages_of MediaDownloadJobState.cancelled = []

-- ck_media_download_jobs_progress_state; no stored state is `cancelled`, which is no value of
-- ck_media_download_jobs_public_state.
unfoldable pub progress_state_check : MediaDownloadJob → Bool
progress_state_check j = any (same_stage j.progress_stage) (stages_of j.public_state)

abbrev pub is_cancelled_stage : DownloadProgressStage → Bool
is_cancelled_stage = same_stage DownloadProgressStage.cancelled

-- ck_media_download_jobs_cancel_requested
unfoldable pub cancel_requested_check : MediaDownloadJob → Bool
cancel_requested_check j =
    not (is_some j.cancel_requested_at) && not (is_cancelled_stage j.progress_stage)
    || is_some j.cancel_requested_at
      && (same_state j.public_state downloading
          || same_state j.public_state expired && is_cancelled_stage j.progress_stage)

abbrev pub counts_bytes : DownloadProgressStage → Bool
counts_bytes stage =
    any (same_stage stage)
      (DownloadProgressStage.downloading_video ∷ DownloadProgressStage.downloading_audio ∷ [])

-- ck_media_download_jobs_progress_percent
unfoldable pub progress_percent_check : MediaDownloadJob → Bool
progress_percent_check j = elim j.progress_percent [
  | none ↦ true
  | some percent ↦
      leb percent 99 && same_state j.public_state downloading && counts_bytes j.progress_stage
]

-- The constraints on the columns that no operation changes.
unfoldable pub request_check : MediaDownloadJob → Bool
request_check j =
    not (has_code b'?' (codes j.target.canonical_provider_url))
    && not (has_code b'#' (codes j.target.canonical_provider_url))
    && leb 1 j.max_attempts
    && leb 1 j.schema_version
    && str_eq j.target.scheme "https"
    && not (is_some j.target.port)

-- The CHECK constraints of a row, but for that on `suggested_filename`.
unfoldable pub row_check : MediaDownloadJob → Bool
unfolding request_check lease_state_check result_state_check progress_state_check
    cancel_requested_check progress_percent_check
row_check j =
    request_check j
    && lease_state_check j
    && result_state_check j
    && progress_state_check j
    && cancel_requested_check j
    && progress_percent_check j
