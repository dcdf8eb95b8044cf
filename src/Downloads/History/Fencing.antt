-- ===== src/Downloads/History/Fencing.antt =====
-- A worker that has lost its lease on a download changes nothing.
use fetch_now.Prelude.{
  ℕ, ◌+◌, ◌≤◌, ◌<◌, String, ◌≡◌, refl, sym, subst, ◌⊎◌, inl, inr, Bool, false, ◌&&◌, Option, none,
  some, List, arith, leb, ◌==◌, if◌then◌else◌, is_some, if-holds, any, ℤ, pos_part, Result, ◌>>=◌,
  ◌>>◌, ok, err,
}
use fetch_now.Downloads.States.{downloading, ready, failed, expired, member, assert_transition}
use fetch_now.Downloads.Stages.{StageArg, same_stage, terminal_progress}
use fetch_now.Downloads.Slot.{Slot, Fault, lock_identity, download_step}
use fetch_now.Downloads.Model.{MediaDownloadJob}
use fetch_now.Downloads.Worker.{
  renew_lease, holds_lease, not_cancelled, ready_row, complete_ready, fail_row, fail_permanent,
  holds_cancelled, cancelled_row, complete_cancelled, retry_row, requeue_retry, fail_retry,
  seen_lost, release_row, release_to_queued,
}
use fetch_now.Downloads.Progress.{
  at_most_99, set_progress_percent, lease_status, move_stage, set_progress_stage, read_stage,
  apply_stored_cancel, mark_requested, stage_row, runs_for, put_percent,
}
use fetch_now.Downloads.Reaper.{claimable, claim_row, reclaim_row, expire_row}
use fetch_now.Downloads.Moves.{RowMove, running}
use fetch_now.Downloads.Moves.Laws.{fence-move}
use fetch_now.Downloads.History.{
  set_progress_percent, lease_status, renew_lease, history-keeps, history, transact, Call, kept,
}

-- The holder of `fence` has lost the row: the token has moved on, or the job does not run.
pub record Lost (fence : ℕ) (j : MediaDownloadJob) : Type 0 where
  pub issued : fence ≤ j.fence_token
  pub gone : (fence < j.fence_token) ⊎ (running j ≡ false)

gone-move :
    {fence : ℕ} {j k : MediaDownloadJob}
    → RowMove j k
    → Lost fence j
    → (fence < k.fence_token) ⊎ (running k ≡ false)
unfolding claimable ready_row fail_row cancelled_row retry_row release_row apply_stored_cancel
    mark_requested stage_row claim_row reclaim_row expire_row
gone-move RowMove.idle h = h.gone
gone-move {fence} {j} (RowMove.renew until clock c) h = ground (arith, h.gone)
gone-move (RowMove.finish clock artifact bytes kind container p c n) h = inr refl
gone-move (RowMove.fail clock code c n r) h = inr refl
gone-move (RowMove.cancel clock c n) h = inr refl
gone-move (RowMove.retry clock available c n) h = inr refl
gone-move (RowMove.release clock now c n) h = inr refl
gone-move {fence} {j} (RowMove.request now c) h =
    if-holds (λ (k : MediaDownloadJob). (fence < k.fence_token) ⊎ (running k ≡ false))
      (is_some j.cancel_requested_at) (λ e. h.gone) (λ e. h.gone)
gone-move (RowMove.drop now c) h = inr refl
gone-move (RowMove.stage target now c n r) h = h.gone
gone-move (RowMove.percent value now c p b) h = h.gone
gone-move {fence} {j} (RowMove.claim clock worker lease now c) h =
    let i = h.issued in inl (omega arith)
gone-move (RowMove.stop now c n) h = inr refl
gone-move {fence} {j} (RowMove.reclaim now c n) h = let i = h.issued in inl (omega arith)
gone-move (RowMove.expire now) h = inr refl

Lost-move : {fence : ℕ} {j k : MediaDownloadJob} → RowMove j k → Lost fence j → Lost fence k
Lost-move {fence} {j} {k} m h =
    let up = fence-move m in
    let i = h.issued in record { issued = omega arith; gone = gone-move m h }

-- The token under which a worker makes a call.
abbrev pub fence_of : Call → Option ℕ
fence_of (Call.renew clock owner fence lease) = some fence
fence_of (Call.finish clock quota_clock owner fence artifact bytes kind container consume) =
    some fence
fence_of (Call.fail clock quota_clock owner fence code) = some fence
fence_of (Call.cancel clock quota_clock owner fence) = some fence
fence_of (Call.retry clock quota_clock owner fence now backoff code seen) = some fence
fence_of (Call.release clock owner fence now) = some fence
fence_of (Call.stage owner fence named now) = some fence
fence_of (Call.percent clock owner fence reported now) = some fence
fence_of (Call.status clock renewed owner fence lease) = some fence
fence_of (Call.claim clock passed_over worker lease now) = none
fence_of (Call.request quota_clock now) = none
fence_of (Call.reclaim clocks locked now) = none
fence_of (Call.expire clocks locked now fresh) = none

-- A call with this outcome changes nothing.
record IsVain {B : Type 0} (s : Slot) (r : Result Fault (B × Slot)) : Type 0 where
  same : kept r s ≡ s

IsVain-bind :
    {A B : Type 0} (s : Slot) (r : Result Fault A) (next : A → Result Fault (B × Slot))
    → ((a : A) → IsVain s (next a))
    → IsVain s (r >>= next)
IsVain-bind s (ok a) next h = h a
IsVain-bind s (err e) next h = record { same = refl }

IsVain-check :
    {B : Type 0} (s : Slot) (check : Result Fault (Unit {0})) (rest : Result Fault (B × Slot))
    → IsVain s rest
    → IsVain s (check >> rest)
IsVain-check s (ok u) rest h = h
IsVain-check s (err e) rest h = record { same = refl }

module _ (owner : String) (fence : ℕ) (s : Slot) (lost : Lost fence s.job) where
  not_held : (clock : ℕ) → holds_lease clock owner fence s.job ≡ false
  unfolding holds_lease
  not_held clock = ground (arith, lost.gone)

  not_held_cancelled : holds_cancelled owner fence s.job ≡ false
  unfolding holds_cancelled
  not_held_cancelled = ground (arith, lost.gone)

  not_run : runs_for owner fence s.job ≡ false
  unfolding runs_for
  not_run = ground (arith, lost.gone)

  -- The branch of a call that needs the lease is not taken.
  skipped :
      (clock : ℕ) (r : Result Fault (Bool × Slot))
      → IsVain s
          (if holds_lease clock owner fence s.job && not_cancelled s.job then r else ok (false, s))
  skipped clock r = rw (not_held clock) (record { same = refl })

  complete_ready-IsVain :
      (clock quota_clock artifact bytes : ℕ) (kind container : String) (consume : Bool)
      → IsVain s
          (complete_ready clock quota_clock owner fence artifact bytes kind container consume s)
  unfolding complete_ready
  complete_ready-IsVain clock quota_clock artifact bytes kind container consume =
      if-holds (IsVain s) (bytes == 0) (λ e. record { same = refl })
        (λ e.
          IsVain-check s (download_step (assert_transition (member downloading) (member ready))) _ (
            IsVain-bind s (if consume then lock_identity s else ok false) _ (λ g. skipped clock _)))

  fail_permanent-IsVain :
      (clock quota_clock : ℕ) (code : String)
      → IsVain s (fail_permanent clock quota_clock owner fence code s)
  unfolding fail_permanent
  fail_permanent-IsVain clock quota_clock code =
      IsVain-check s (download_step (assert_transition (member downloading) (member failed))) _
        (IsVain-bind s (lock_identity s) _ (λ g. skipped clock _))

  complete_cancelled-IsVain :
      (clock quota_clock : ℕ) → IsVain s (complete_cancelled clock quota_clock owner fence s)
  unfolding complete_cancelled
  complete_cancelled-IsVain clock quota_clock =
      IsVain-check s (download_step (assert_transition (member downloading) (member expired))) _
        (IsVain-bind s (lock_identity s) _ (λ g. rw (not_held_cancelled) (record { same = refl })))

  requeue_retry-IsVain :
      (clock available : ℕ) → IsVain s (requeue_retry clock owner fence available s)
  unfolding requeue_retry
  requeue_retry-IsVain clock available = record { same = rw (not_held clock) }

  release_to_queued-IsVain : (clock now : ℕ) → IsVain s (release_to_queued clock owner fence now s)
  unfolding release_to_queued
  release_to_queued-IsVain clock now = record { same = rw (not_held clock) }

  fail_retry-IsVain :
      (clock quota_clock now : ℕ) (backoff : ℤ) (code : String) (seen : Option MediaDownloadJob)
      → IsVain s (fail_retry clock quota_clock owner fence now backoff code seen s)
  unfolding fail_retry
  fail_retry-IsVain clock quota_clock now backoff code none = record { same = refl }
  fail_retry-IsVain clock quota_clock now backoff code (some seen) =
      if-holds (IsVain s) (seen_lost owner fence seen) (λ e. record { same = refl })
        (λ e.
          if-holds (IsVain s) (is_some seen.cancel_requested_at)
            (λ e. complete_cancelled-IsVain clock quota_clock)
            (λ e.
              if-holds (IsVain s) (leb seen.max_attempts seen.attempt_count)
                (λ e. fail_permanent-IsVain clock quota_clock code)
                (λ e. requeue_retry-IsVain clock (now + pos_part backoff))))

  set_progress_stage-IsVain :
      (named : StageArg) (now : ℕ) → IsVain s (set_progress_stage owner fence named now s)
  unfolding set_progress_stage move_stage
  set_progress_stage-IsVain named now = IsVain-bind s (read_stage named) _ (λ target.
      if-holds (IsVain s) (any (same_stage target) terminal_progress) (λ e. record { same = refl })
        (λ e. rw (not_run) (record { same = refl })))

  put_percent-Lost : (clock now : ℕ) (p : Option ℕ) → (put_percent clock owner fence now p s).1 ≡ s
  put_percent-Lost clock now none = refl
  put_percent-Lost clock now (some p) = rw (not_held clock)

  renew_lease-Lost : (clock lease : ℕ) → (renew_lease clock owner fence lease s).1 ≡ s
  unfolding renew_lease
  renew_lease-Lost clock lease = rw (not_held clock)

  lease_status-Lost :
      (clock renewed lease : ℕ) → (lease_status clock renewed owner fence lease s).1 ≡ s
  unfolding lease_status
  lease_status-Lost clock renewed lease = rw (not_held clock)

some-injective : {a b : ℕ} → some a ≡ some b → a ≡ b
some-injective h = cc

mine : {a b : ℕ} {j : MediaDownloadJob} → some a ≡ some b → Lost b j → Lost a j
mine {a} {b} {j} e l = subst (λ f. Lost f j) (sym (some-injective e)) l

-- A call under the token of a lost lease changes nothing.
transact-Lost :
    (c : Call) (s : Slot) {fence : ℕ}
    → fence_of c ≡ some fence
    → Lost fence s.job
    → transact c s ≡ s
unfolding transact set_progress_percent
transact-Lost (Call.renew clock owner f lease) s e l =
    renew_lease-Lost owner f s (mine e l) clock lease
transact-Lost (Call.finish clock quota_clock owner f artifact bytes kind container consume) s e l =
    (complete_ready-IsVain owner f s (mine e l) clock quota_clock artifact bytes kind container
      consume).same
transact-Lost (Call.fail clock quota_clock owner f code) s e l =
    (fail_permanent-IsVain owner f s (mine e l) clock quota_clock code).same
transact-Lost (Call.cancel clock quota_clock owner f) s e l =
    (complete_cancelled-IsVain owner f s (mine e l) clock quota_clock).same
transact-Lost (Call.retry clock quota_clock owner f now backoff code seen) s e l =
    (fail_retry-IsVain owner f s (mine e l) clock quota_clock now backoff code seen).same
transact-Lost (Call.release clock owner f now) s e l =
    (release_to_queued-IsVain owner f s (mine e l) clock now).same
transact-Lost (Call.stage owner f named now) s e l =
    (set_progress_stage-IsVain owner f s (mine e l) named now).same
transact-Lost (Call.percent clock owner f reported now) s e l =
    put_percent-Lost owner f s (mine e l) clock now (at_most_99 reported)
transact-Lost (Call.status clock renewed owner f lease) s e l =
    lease_status-Lost owner f s (mine e l) clock renewed lease
transact-Lost (Call.claim clock passed_over worker lease now) s e l = cc
transact-Lost (Call.request quota_clock now) s e l = cc
transact-Lost (Call.reclaim clocks locked now) s e l = cc
transact-Lost (Call.expire clocks locked now fresh) s e l = cc

-- The token never goes back, and where the lease that came with `fence` is over (the token has moved
-- on, or the job does not run), then after any further calls of any kind, with any clocks, every
-- call that a worker makes under that token (renew, complete, fail, retry, release, report a
-- cancellation, a stage or a percentage, ask for the status) leaves the job, its quota entry, its
-- ranges and its grants as they are.
pub stale_download_is_fenced :
    (cs : List Call) (c : Call) (s : Slot) (fence : ℕ)
    → Lost fence s.job
    → fence_of c ≡ some fence
    → (s.job.fence_token ≤ (history cs s).job.fence_token)
      × (transact c (history cs s) ≡ history cs s)
stale_download_is_fenced cs c s fence l e = (
  history-keeps (λ (u : Slot). s.job.fence_token ≤ u.job.fence_token)
      (λ u v m h. let up = fence-move m.row in omega arith) cs s (omega arith),
  transact-Lost c (history cs s) e
      (history-keeps (λ (u : Slot). Lost fence u.job) (λ u v m. Lost-move m.row) cs s l),
)
