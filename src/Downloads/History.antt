-- ===== src/Downloads/History.antt =====
-- Calls of `MediaDownloadJobRepository` on one job, in any order and with any clocks.
pub mod Invariants
pub mod Fencing
pub mod Report
pub mod Reclaim
pub mod Expiry
use fetch_now.Prelude.{ℕ, String, ◌≡◌, refl, Bool, Option, List, [], ◌∷◌, ℤ, Result, ok, err}
use fetch_now.Downloads.Stages.{StageArg}
use fetch_now.Downloads.Model.{MediaDownloadJob}
use fetch_now.Downloads.Slot.{Slot, Fault}
use fetch_now.Downloads.Worker.{
  renew_lease, complete_ready, fail_permanent, complete_cancelled, fail_retry, release_to_queued,
}
use fetch_now.Downloads.Progress.{
  request_cancel, set_progress_stage, set_progress_percent, lease_status,
}
use fetch_now.Downloads.Reaper.{Clocks, try_claim, reclaim_slot, expire_slot}
use fetch_now.Downloads.Moves.{Move}
use fetch_now.Downloads.Moves.Entries.{stay}
use fetch_now.Downloads.Moves.Worker.{
  renew_lease-Move, complete_ready-Move, fail_permanent-Move, complete_cancelled-Move,
  fail_retry-Move, release_to_queued-Move,
}
use fetch_now.Downloads.Moves.Progress.{
  request_cancel-Move, set_progress_stage-Move, set_progress_percent-Move, lease_status-Move,
}
use fetch_now.Downloads.Moves.Reaper.{try_claim-Move, reclaim_slot-Move}
use fetch_now.Downloads.Moves.Expiry.{expire_slot-Move}

-- A call, with its arguments and what the database chooses.
pub data Call : Type 0 where
  claim : (clock : ℕ) (passed_over : Bool) (worker : String) (lease now : ℕ) → Call
  renew : (clock : ℕ) (owner : String) (fence lease : ℕ) → Call
  finish :
      (clock quota_clock : ℕ) (owner : String) (fence artifact bytes : ℕ)
      (content_type container : String) (consume : Bool)
      → Call
  fail : (clock quota_clock : ℕ) (owner : String) (fence : ℕ) (code : String) → Call
  cancel : (clock quota_clock : ℕ) (owner : String) (fence : ℕ) → Call
  retry :
      (clock quota_clock : ℕ) (owner : String) (fence now : ℕ) (backoff : ℤ) (code : String)
      (seen : Option MediaDownloadJob)
      → Call
  release : (clock : ℕ) (owner : String) (fence now : ℕ) → Call
  stage : (owner : String) (fence : ℕ) (stage : StageArg) (now : ℕ) → Call
  percent : (clock : ℕ) (owner : String) (fence : ℕ) (percent : ℤ) (now : ℕ) → Call
  status : (clock renewed : ℕ) (owner : String) (fence lease : ℕ) → Call
  request : (quota_clock now : ℕ) → Call
  reclaim : (clocks : Clocks) (locked : Bool) (now : ℕ) → Call
  expire : (clocks : Clocks) (locked : Bool) (now : ℕ) (fresh : ℕ → ℕ) → Call

-- A call that raises is rolled back.
abbrev pub kept : {A : Type 0} → Result Fault (A × Slot) → Slot → Slot
kept (ok r) s = r.1
kept (err e) s = s

abbrev pub kept_slot : Result Fault Slot → Slot → Slot
kept_slot (ok t) s = t
kept_slot (err e) s = s

-- The job after the transaction of one call.
unfoldable pub transact : Call → Slot → Slot
transact (Call.claim clock passed_over worker lease now) s =
    kept (try_claim clock passed_over worker lease now s) s
transact (Call.renew clock owner fence lease) s = (renew_lease clock owner fence lease s).1
transact (Call.finish clock quota_clock owner fence artifact bytes kind container consume) s =
    kept (complete_ready clock quota_clock owner fence artifact bytes kind container consume s) s
transact (Call.fail clock quota_clock owner fence code) s =
    kept (fail_permanent clock quota_clock owner fence code s) s
transact (Call.cancel clock quota_clock owner fence) s =
    kept (complete_cancelled clock quota_clock owner fence s) s
transact (Call.retry clock quota_clock owner fence now backoff code seen) s =
    kept (fail_retry clock quota_clock owner fence now backoff code seen s) s
transact (Call.release clock owner fence now) s = kept (release_to_queued clock owner fence now s) s
transact (Call.stage owner fence named now) s = kept (set_progress_stage owner fence named now s) s
transact (Call.percent clock owner fence reported now) s =
    (set_progress_percent clock owner fence reported now s).1
transact (Call.status clock renewed owner fence lease) s =
    (lease_status clock renewed owner fence lease s).1
transact (Call.request quota_clock now) s = kept_slot (request_cancel quota_clock now s) s
transact (Call.reclaim clocks locked now) s = kept (reclaim_slot clocks locked now s) s
transact (Call.expire clocks locked now fresh) s = kept (expire_slot clocks locked now fresh s) s

unfoldable pub history : List Call → Slot → Slot
unfolding transact
history [] s = s
history (c ∷ cs) s = history cs (transact c s)

kept-Move :
    {A : Type 0} (s : Slot) (r : Result Fault (A × Slot))
    → ((a : A) (t : Slot) → r ≡ ok (a, t) → Move s t)
    → Move s (kept r s)
kept-Move s (ok r) m = m r.0 r.1 refl
kept-Move s (err e) m = stay s

kept_slot-Move :
    (s : Slot) (r : Result Fault Slot) → ((t : Slot) → r ≡ ok t → Move s t) → Move s (kept_slot r s)
kept_slot-Move s (ok t) m = m t refl
kept_slot-Move s (err e) m = stay s

pub transact-Move : (c : Call) (s : Slot) → Move s (transact c s)
unfolding transact
transact-Move (Call.claim clock passed_over worker lease now) s =
    kept-Move s _ (λ b t e. try_claim-Move clock passed_over worker lease now s e)
transact-Move (Call.renew clock owner fence lease) s = renew_lease-Move clock owner fence lease s
transact-Move (Call.finish clock quota_clock owner fence artifact bytes kind container consume) s =
    kept-Move s _ (λ b t e.
      complete_ready-Move clock quota_clock owner fence s artifact bytes kind container consume e)
transact-Move (Call.fail clock quota_clock owner fence code) s =
    kept-Move s _ (λ b t e. fail_permanent-Move clock quota_clock owner fence s code e)
transact-Move (Call.cancel clock quota_clock owner fence) s =
    kept-Move s _ (λ b t e. complete_cancelled-Move clock quota_clock owner fence s e)
transact-Move (Call.retry clock quota_clock owner fence now backoff code seen) s =
    kept-Move s _ (λ b t e. fail_retry-Move clock quota_clock owner fence s now backoff code seen e)
transact-Move (Call.release clock owner fence now) s =
    kept-Move s _ (λ b t e. release_to_queued-Move clock owner fence now s e)
transact-Move (Call.stage owner fence named now) s =
    kept-Move s _ (λ b t e. set_progress_stage-Move owner fence named now s e)
transact-Move (Call.percent clock owner fence reported now) s =
    set_progress_percent-Move clock owner fence reported now s
transact-Move (Call.status clock renewed owner fence lease) s =
    lease_status-Move clock renewed owner fence lease s
transact-Move (Call.request quota_clock now) s =
    kept_slot-Move s _ (λ t e. request_cancel-Move quota_clock now s e)
transact-Move (Call.reclaim clocks locked now) s =
    kept-Move s _ (λ b t e. reclaim_slot-Move clocks locked now s e)
transact-Move (Call.expire clocks locked now fresh) s =
    kept-Move s _ (λ b t e. expire_slot-Move clocks locked now fresh s e)

-- What every move keeps, a history keeps.
pub history-keeps {ℓ} :
    (P : Slot → Type ℓ)
    → ((s t : Slot) → Move s t → P s → P t)
    → (cs : List Call) (s : Slot) → P s
    → P (history cs s)
unfolding history
history-keeps P step [] s h = h
history-keeps P step (c ∷ cs) s h = history-keeps P step cs _ (step s _ (transact-Move c s) h)
