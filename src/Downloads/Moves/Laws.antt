-- ===== src/Downloads/Moves/Laws.antt =====
-- What every move of a row keeps true.
use fetch_now.Prelude.{◌+◌, ◌≤◌, ◌≡◌, refl, Bool, true, ◌&&◌, ◌||◌, arith, is_some, if-holds}
use fetch_now.Downloads.States.{downloading, expired, same_state}
use fetch_now.Downloads.Model.{MediaDownloadJob, row_check}
use fetch_now.Downloads.Worker.{ready_row, fail_row, cancelled_row, retry_row, release_row}
use fetch_now.Downloads.Progress.{apply_stored_cancel, mark_requested, stage_row}
use fetch_now.Downloads.Reaper.{claimable, claim_row, reclaim_row, expire_row}
use fetch_now.Downloads.Moves.{RowMove, running}
use fetch_now.Downloads.Moves.Rows.{
  Checks, row_check-Checks, Checks-row_check, ready_row-Checks, renew_row-Checks,
  cancelled_row-Checks, retry_row-Checks, release_row-Checks, apply_stored_cancel-Checks,
  mark_requested-Checks, percent_row-Checks, claim_row-Checks, reclaim_row-Checks,
  expire_row-Checks, dropped_row-Checks,
}

Checks-move : {j k : MediaDownloadJob} → RowMove j k → Checks j → Checks k
Checks-move RowMove.idle h = h
Checks-move {j} (RowMove.renew until clock c) h = renew_row-Checks until clock j c h
Checks-move {j} (RowMove.finish clock artifact bytes kind container p c n) h =
    ready_row-Checks clock artifact bytes kind container j p n h
Checks-move {j} (RowMove.fail clock code c n r) h = row_check-Checks _ r
Checks-move {j} (RowMove.cancel clock c n) h = cancelled_row-Checks clock j n h
Checks-move {j} (RowMove.retry clock available c n) h = retry_row-Checks clock available j c n h
Checks-move {j} (RowMove.release clock now c n) h = release_row-Checks clock now j c n h
Checks-move {j} (RowMove.request now c) h = mark_requested-Checks now j c h
Checks-move {j} (RowMove.drop now c) h = dropped_row-Checks now j h
Checks-move {j} (RowMove.stage target now c n r) h = row_check-Checks _ r
Checks-move {j} (RowMove.percent value now c p b) h = percent_row-Checks value now j c p b h
Checks-move {j} (RowMove.claim clock worker lease now c) h =
    claim_row-Checks clock worker lease now j c h
Checks-move {j} (RowMove.stop now c n) h = apply_stored_cancel-Checks now (j.fence_token + 1) j n h
Checks-move {j} (RowMove.reclaim now c n) h = reclaim_row-Checks now j c n h
Checks-move {j} (RowMove.expire now) h = expire_row-Checks now j h

pub row_check-move :
    {j k : MediaDownloadJob} → RowMove j k → row_check j ≡ true → row_check k ≡ true
row_check-move m h = Checks-row_check _ (Checks-move m (row_check-Checks _ h))

pub attempts-move :
    {j k : MediaDownloadJob}
    → RowMove j k
    → j.attempt_count ≤ j.max_attempts
    → k.attempt_count ≤ k.max_attempts
unfolding claimable ready_row fail_row cancelled_row retry_row release_row apply_stored_cancel
    mark_requested stage_row claim_row reclaim_row expire_row
attempts-move {j} (RowMove.claim clock worker lease now c) h = ground arith
attempts-move {j} (RowMove.release clock now c n) h = omega arith
attempts-move {j} (RowMove.request now c) h =
    if-holds (λ (k : MediaDownloadJob). k.attempt_count ≤ k.max_attempts)
      (is_some j.cancel_requested_at) (λ e. h) (λ e. h)
attempts-move _ h = h

-- The token never goes back.
pub fence-move : {j k : MediaDownloadJob} → RowMove j k → j.fence_token ≤ k.fence_token
unfolding claimable ready_row fail_row cancelled_row retry_row release_row apply_stored_cancel
    mark_requested stage_row claim_row reclaim_row expire_row
fence-move {j} (RowMove.request now c) =
    if-holds (λ (k : MediaDownloadJob). j.fence_token ≤ k.fence_token)
      (is_some j.cancel_requested_at) (λ e. omega arith) (λ e. omega arith)
fence-move _ = omega arith

-- The job expires or has been asked to stop.
abbrev pub is_stopping : MediaDownloadJob → Bool
is_stopping j = same_state j.public_state expired || running j && is_some j.cancel_requested_at

pub is_stopping-move :
    {j k : MediaDownloadJob} → RowMove j k → is_stopping j ≡ true → is_stopping k ≡ true
unfolding claimable ready_row fail_row cancelled_row retry_row release_row apply_stored_cancel
    mark_requested stage_row claim_row reclaim_row expire_row
is_stopping-move RowMove.idle h = h
is_stopping-move {j} (RowMove.renew until clock c) h = h
is_stopping-move {j} (RowMove.finish clock artifact bytes kind container p c n) h = ground arith
is_stopping-move {j} (RowMove.fail clock code c n r) h = ground arith
is_stopping-move {j} (RowMove.cancel clock c n) h = refl
is_stopping-move {j} (RowMove.retry clock available c n) h = ground arith
is_stopping-move {j} (RowMove.release clock now c n) h = ground arith
is_stopping-move {j} (RowMove.request now c) h = ground arith
is_stopping-move {j} (RowMove.drop now c) h = refl
is_stopping-move {j} (RowMove.stage target now c n r) h = ground arith
is_stopping-move {j} (RowMove.percent value now c p b) h = h
is_stopping-move {j} (RowMove.claim clock worker lease now c) h = ground arith
is_stopping-move {j} (RowMove.stop now c n) h = refl
is_stopping-move {j} (RowMove.reclaim now c n) h = ground arith
is_stopping-move {j} (RowMove.expire now) h = refl

pub running-eq : (j : MediaDownloadJob) → running j ≡ true → j.public_state ≡ downloading
running-eq j h = ground arith
