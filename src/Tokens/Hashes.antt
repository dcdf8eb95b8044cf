-- ===== src/Tokens/Hashes.antt =====
-- The digests under which tokens are stored (backend/src/fetchnow/jobs/credentials.py and
-- backend/src/fetchnow/downloads/browser_grant_tokens.py). SHA-256 is a parameter.
use fetch_now.Prelude.{
  ℕ, String, Bool, not, ◌&&◌, ◌||◌, List, [], ◌∷◌, ◌++◌, ◌==◌, if◌then◌else◌, codes, length, Result,
  ◌>>=◌, ok, err,
}
use fetch_now.Payments.Signature.{same_text}
use fetch_now.Jobs.States.{JobError, job_error, JobErrorCode, invalid_access_token}
use fetch_now.Downloads.Errors.{
  DownloadError, download_error, DownloadErrorCode, download_job_not_found,
}
use fetch_now.Tokens.{
  TokenFault, token_shape, token_decode, token_length, token_noncanonical, parse_token,
}

unfoldable pub grant_reason : TokenFault → String
grant_reason token_shape = "GRANT_TOKEN_SHAPE"
grant_reason token_decode = "GRANT_TOKEN_DECODE"
grant_reason token_length = "GRANT_TOKEN_LENGTH"
grant_reason token_noncanonical = "GRANT_TOKEN_NONCANONICAL"

unfoldable pub access_reason : TokenFault → String
access_reason token_shape = "TOKEN_SHAPE"
access_reason token_decode = "TOKEN_DECODE"
access_reason token_length = "TOKEN_LENGTH"
access_reason token_noncanonical = "TOKEN_NONCANONICAL"

abbrev pub grant_fault : {A : Type 0} → Result TokenFault A → Result DownloadError A
grant_fault (ok a) = ok a
grant_fault (err e) = err (download_error download_job_not_found (grant_reason e))

abbrev pub access_fault : {A : Type 0} → Result TokenFault A → Result JobError A
access_fault (ok a) = ok a
access_fault (err e) = err (job_error invalid_access_token (access_reason e))

unfoldable pub parse_grant_token : List ℕ → Result DownloadError (List ℕ)
unfolding parse_token grant_reason
parse_grant_token token = grant_fault (parse_token token)

unfoldable pub parse_access_token : List ℕ → Result JobError (List ℕ)
unfolding parse_token access_reason
parse_access_token token = access_fault (parse_token token)

-- `_GRANT_DOMAIN`
abbrev pub grant_domain : List ℕ
grant_domain = codes "fetchnow:v1:browser-delivery-grant" ++ (0 ∷ [])

-- `_ACCESS_DOMAIN`
abbrev pub access_domain : List ℕ
access_domain = codes "fetchnow:v1:media-job:access" ++ (0 ∷ [])

-- A digest of 32 bytes; the code refuses another.
abbrev pub digest_or : {E : Type 0} → E → List ℕ → Result E (List ℕ)
digest_or e digest = if length digest == 32 then ok digest else err e

module _ (sha256 : List ℕ → List ℕ) where
  unfoldable pub hash_grant_token : List ℕ → Result DownloadError (List ℕ)
  unfolding parse_grant_token
  hash_grant_token token = do
    raw ← parse_grant_token token
    digest_or (download_error DownloadErrorCode.internal_error "GRANT_HASH_LENGTH")
        (sha256 (grant_domain ++ raw))

  unfoldable pub hash_access_token : List ℕ → Result JobError (List ℕ)
  unfolding parse_access_token
  hash_access_token token = do
    raw ← parse_access_token token
    digest_or (job_error JobErrorCode.internal_error "HASH_LENGTH") (sha256 (access_domain ++ raw))

-- `hmac.compare_digest` is equality of byte strings.
unfoldable pub grant_hashes_match : List ℕ → List ℕ → Bool
grant_hashes_match left right =
    not (not (length left == 32) || not (length right == 32)) && same_text left right

unfoldable pub tokens_match : List ℕ → List ℕ → Bool
tokens_match left right = (length left == length right) && same_text left right
