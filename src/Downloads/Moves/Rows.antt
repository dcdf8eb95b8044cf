-- ===== src/Downloads/Moves/Rows.antt =====
-- The rows that the methods write meet the CHECK constraints.
use fetch_now.Prelude.{
  if-holds, ℕ, ◌≤◌, ◌<◌, String, ◌≡◌, refl, Bool, true, not, ◌&&◌, some, [], ◌∷◌, arith, is_some,
  any,
}
use fetch_now.Downloads.States.{same_state, downloading, queued, expired}
use fetch_now.Downloads.Model.{
  MediaDownloadJob, row_check, no_artifact, counts_bytes, request_check, lease_state_check,
  result_state_check, progress_state_check, cancel_requested_check, progress_percent_check,
}
use fetch_now.Downloads.Progress.{apply_stored_cancel, mark_requested}
use fetch_now.Downloads.Reaper.{claimable, claim_row, reclaim_row, expire_row}
use fetch_now.Downloads.Worker.{not_cancelled, ready_row, cancelled_row, retry_row, release_row}

-- The constraints, one by one.
pub record Checks (j : MediaDownloadJob) : Type 0 where
  pub request : request_check j ≡ true
  pub lease : lease_state_check j ≡ true
  pub result : result_state_check j ≡ true
  pub progress : progress_state_check j ≡ true
  pub cancel : cancel_requested_check j ≡ true
  pub percent : progress_percent_check j ≡ true

all_six :
    (a b c d e f : Bool)
    → (a && b && c && d && e && f) ≡ true
    → (a ≡ true) × (b ≡ true) × (c ≡ true) × (d ≡ true) × (e ≡ true) × (f ≡ true)
all_six true true true true true true h = (refl, refl, refl, refl, refl, refl)
all_six a b c d e f h = ground arith

pub row_check-Checks : (j : MediaDownloadJob) → row_check j ≡ true → Checks j
unfolding row_check
row_check-Checks j h =
    let (a, b, c, d, e, f) =
      all_six (request_check j) (lease_state_check j) (result_state_check j)
        (progress_state_check j) (cancel_requested_check j) (progress_percent_check j) h in
    record { request = a; lease = b; result = c; progress = d; cancel = e; percent = f }

pub Checks-row_check : (j : MediaDownloadJob) → Checks j → row_check j ≡ true
unfolding row_check
Checks-row_check j c = rw (c.request, c.lease, c.result, c.progress, c.cancel, c.percent)

-- A job that is not ready or failed has no result.
no_result :
    (j : MediaDownloadJob)
    → any (same_state j.public_state) (queued ∷ downloading ∷ expired ∷ []) ≡ true
    → result_state_check j ≡ true
    → (no_artifact j && not (is_some j.public_error_code)) ≡ true
unfolding result_state_check
no_result j w h = ground arith

pub ready_row-Checks :
    (clock artifact bytes : ℕ) (content_type container : String) (j : MediaDownloadJob)
    → 0 < bytes
    → not_cancelled j ≡ true
    → Checks j
    → Checks (ready_row clock artifact bytes content_type container j)
unfolding ready_row request_check lease_state_check result_state_check progress_state_check
    cancel_requested_check progress_percent_check
ready_row-Checks clock artifact bytes content_type container j pos_bytes c h = record {
  request = h.request;
  lease = refl;
  result = ground arith;
  progress = refl;
  cancel = ground arith;
  percent = refl;
}

pub claim_row-Checks :
    (clock : ℕ) (worker : String) (lease now : ℕ) (j : MediaDownloadJob)
    → claimable clock j ≡ true
    → Checks j
    → Checks (claim_row worker lease now j)
unfolding claim_row claimable request_check lease_state_check result_state_check
    progress_state_check cancel_requested_check progress_percent_check
claim_row-Checks clock worker lease now j c h = record {
  request = h.request;
  lease = refl;
  result = no_result j (ground arith) h.result;
  progress = refl;
  cancel = ground (arith, c);
  percent = refl;
}

pub renew_row-Checks :
    (until clock : ℕ) (j : MediaDownloadJob)
    → same_state j.public_state downloading ≡ true
    → Checks j
    → Checks (record j { lease_expires_at = some until; updated_at = clock })
unfolding request_check lease_state_check result_state_check progress_state_check
    cancel_requested_check progress_percent_check
renew_row-Checks until clock j c h = record {
  request = h.request;
  lease = ground (arith, h.lease);
  result = h.result;
  progress = h.progress;
  cancel = h.cancel;
  percent = h.percent;
}

pub cancelled_row-Checks :
    (clock : ℕ) (j : MediaDownloadJob)
    → is_some j.cancel_requested_at ≡ true
    → Checks j
    → Checks (cancelled_row clock j)
unfolding cancelled_row request_check lease_state_check result_state_check progress_state_check
    cancel_requested_check progress_percent_check
cancelled_row-Checks clock j c h = record {
  request = h.request;
  lease = refl;
  result = refl;
  progress = refl;
  cancel = ground arith;
  percent = refl;
}

pub retry_row-Checks :
    (clock available : ℕ) (j : MediaDownloadJob)
    → same_state j.public_state downloading ≡ true
    → not_cancelled j ≡ true
    → Checks j
    → Checks (retry_row clock available j)
unfolding retry_row request_check lease_state_check result_state_check progress_state_check
    cancel_requested_check progress_percent_check
retry_row-Checks clock available j c n h = record {
  request = h.request;
  lease = refl;
  result = ground (arith, no_result j (ground arith) h.result);
  progress = refl;
  cancel = ground arith;
  percent = refl;
}

pub release_row-Checks :
    (clock now : ℕ) (j : MediaDownloadJob)
    → same_state j.public_state downloading ≡ true
    → not_cancelled j ≡ true
    → Checks j
    → Checks (release_row clock now j)
unfolding release_row request_check lease_state_check result_state_check progress_state_check
    cancel_requested_check progress_percent_check
release_row-Checks clock now j c n h = record {
  request = h.request;
  lease = refl;
  result = no_result j (ground arith) h.result;
  progress = refl;
  cancel = ground arith;
  percent = refl;
}

pub apply_stored_cancel-Checks :
    (now fence : ℕ) (j : MediaDownloadJob)
    → is_some j.cancel_requested_at ≡ true
    → Checks j
    → Checks (record (apply_stored_cancel now j) { fence_token = fence })
unfolding apply_stored_cancel request_check lease_state_check result_state_check
    progress_state_check cancel_requested_check progress_percent_check
apply_stored_cancel-Checks now fence j c h = record {
  request = h.request;
  lease = refl;
  result = refl;
  progress = refl;
  cancel = ground arith;
  percent = refl;
}

pub dropped_row-Checks :
    (now : ℕ) (j : MediaDownloadJob)
    → Checks j
    → Checks (apply_stored_cancel now (record j { cancel_requested_at = some now }))
unfolding apply_stored_cancel request_check lease_state_check result_state_check
    progress_state_check cancel_requested_check progress_percent_check
dropped_row-Checks now j h = record {
  request = h.request;
  lease = refl;
  result = refl;
  progress = refl;
  cancel = refl;
  percent = refl;
}

requested_row-Checks :
    (now : ℕ) (j : MediaDownloadJob)
    → same_state j.public_state downloading ≡ true
    → Checks j
    → Checks (record j { cancel_requested_at = some now; updated_at = now })
unfolding request_check lease_state_check result_state_check progress_state_check
    cancel_requested_check progress_percent_check
requested_row-Checks now j c h = record {
  request = h.request;
  lease = h.lease;
  result = h.result;
  progress = h.progress;
  cancel = ground arith;
  percent = h.percent;
}

pub mark_requested-Checks :
    (now : ℕ) (j : MediaDownloadJob)
    → same_state j.public_state downloading ≡ true
    → Checks j
    → Checks (mark_requested now j)
unfolding mark_requested
mark_requested-Checks now j c h =
    if-holds Checks (is_some j.cancel_requested_at) (λ e. h) (λ e. requested_row-Checks now j c h)

pub percent_row-Checks :
    (percent now : ℕ) (j : MediaDownloadJob)
    → same_state j.public_state downloading ≡ true
    → percent ≤ 99
    → counts_bytes j.progress_stage ≡ true
    → Checks j
    → Checks (record j { progress_percent = some percent; updated_at = now })
unfolding request_check lease_state_check result_state_check progress_state_check
    cancel_requested_check progress_percent_check
percent_row-Checks percent now j c le b h = record {
  request = h.request;
  lease = h.lease;
  result = h.result;
  progress = h.progress;
  cancel = h.cancel;
  percent = ground arith;
}

pub expire_row-Checks : (now : ℕ) (j : MediaDownloadJob) → Checks j → Checks (expire_row now j)
unfolding expire_row request_check lease_state_check result_state_check progress_state_check
    cancel_requested_check progress_percent_check
expire_row-Checks now j h = record {
  request = h.request;
  lease = refl;
  result = refl;
  progress = refl;
  cancel = refl;
  percent = refl;
}

pub reclaim_row-Checks :
    (now : ℕ) (j : MediaDownloadJob)
    → same_state j.public_state downloading ≡ true
    → not_cancelled j ≡ true
    → Checks j
    → Checks (reclaim_row now j)
unfolding reclaim_row request_check lease_state_check result_state_check progress_state_check
    cancel_requested_check progress_percent_check
reclaim_row-Checks now j c n h = record {
  request = h.request;
  lease = ground arith;
  result = ground (arith, no_result j (ground arith) h.result);
  progress = ground arith;
  cancel = ground arith;
  percent = refl;
}
