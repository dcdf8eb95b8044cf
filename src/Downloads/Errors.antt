-- ===== src/Downloads/Errors.antt =====
-- Download errors (backend/src/fetchnow/downloads/errors.py).
use fetch_now.Prelude.{String}

pub data DownloadErrorCode : Type 0 where
  downloads_disabled download_job_not_found parent_job_not_ready : DownloadErrorCode
  format_not_found format_not_eligible format_unavailable : DownloadErrorCode
  media_capability_requires_premium media_capability_unavailable provider_capability_disabled :
      DownloadErrorCode
  download_timeout download_too_large download_tool_failed : DownloadErrorCode
  download_invalid_output download_storage_unavailable download_expired : DownloadErrorCode
  delivery_disabled download_not_ready muxing_unavailable : DownloadErrorCode
  muxing_failed muxing_timeout muxed_output_invalid : DownloadErrorCode
  delivery_in_progress quota_state_incoherent internal_error : DownloadErrorCode

-- A raised `DownloadError`: its code and its internal reason.
pub data DownloadError : Type 0 where
  download_error : DownloadErrorCode → String → DownloadError
