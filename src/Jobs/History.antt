-- ===== src/Jobs/History.antt =====
-- Transactions on the table of jobs, in any order, with any clocks and row locks.
use fetch_now.Prelude.{ℕ, String, Bool, List, [], ◌∷◌, Result, ok, err, ℤ}
use fetch_now.Jobs.States.{JobError}
use fetch_now.Jobs.Model.{Target, MediaJob}
use fetch_now.Jobs.Repository.{Table, enqueue_or_get}
use fetch_now.Jobs.Worker.{
  claim_next, complete, fail_permanent, fail_retry, release_to_queued, renew_lease,
}
use fetch_now.Jobs.Reaper.{reclaim_expired_leases, expire_due_jobs}

-- A call of the repository, with its arguments and what the database chooses.
pub data Call (Json : Type 0) : Type 0 where
  enqueue :
      (fresh : ℕ) (credential_hash request_fingerprint : List ℕ) (target : Target)
      (now ttl max_attempts : ℕ)
      → Call Json
  claim : (clock : ℕ) (locked : ℕ → Bool) (worker : String) (lease now limit : ℕ) → Call Json
  finish : (clock job_id : ℕ) (owner : String) (fence : ℕ) (metadata : Json) → Call Json
  fail : (clock job_id : ℕ) (owner : String) (fence : ℕ) (code : String) → Call Json
  retry :
      (clock job_id : ℕ) (owner : String) (fence now : ℕ) (backoff : ℤ) (code : String)
      (seen : List (MediaJob Json))
      → Call Json
  release : (clock job_id : ℕ) (owner : String) (fence now : ℕ) → Call Json
  renew : (clock job_id : ℕ) (owner : String) (fence lease : ℕ) → Call Json
  reclaim : (clock : ℕ) (locked : ℕ → Bool) (now : ℕ) → Call Json
  expire : (clock : ℕ) (locked : ℕ → Bool) (now : ℕ) → Call Json

abbrev written : {Json A : Type 0} → Result JobError (A × Table Json) → Table Json → Table Json
written (ok r) t = r.1
written (err e) t = t

module _ {Json : Type 0} where
  -- The table after the transaction of one call: a call that raises is rolled back.
  unfoldable pub transact : Call Json → Table Json → Table Json
  transact (enqueue fresh hash print target now ttl tries) t =
      written (enqueue_or_get fresh hash print target now ttl tries t) t
  transact (claim clock locked worker lease now limit) t =
      written (claim_next clock locked worker lease now limit t) t
  transact (finish clock i owner fence metadata) t =
      written (complete clock i owner fence metadata t) t
  transact (fail clock i owner fence code) t = written (fail_permanent clock i owner fence code t) t
  transact (retry clock i owner fence now backoff code seen) t =
      written (fail_retry clock i owner fence now backoff code seen t) t
  transact (release clock i owner fence now) t =
      written (release_to_queued clock i owner fence now t) t
  transact (renew clock i owner fence lease) t = written (renew_lease clock i owner fence lease t) t
  transact (reclaim clock locked now) t = written (reclaim_expired_leases clock locked now t) t
  transact (expire clock locked now) t = written (expire_due_jobs clock locked now t) t

  unfoldable pub history : List (Call Json) → Table Json → Table Json
  unfolding transact
  history [] t = t
  history (c ∷ cs) t = history cs (transact c t)
