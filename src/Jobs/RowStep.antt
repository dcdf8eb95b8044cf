-- ===== src/Jobs/RowStep.antt =====
-- What one operation may do to one row: the abstract view of the repository, as a step relation.
use fetch_now.Prelude.{ℕ, String, ◌≡◌, true}
use fetch_now.Jobs.Model.{MediaJob}
use fetch_now.Jobs.Repository.{holds_lease}
use fetch_now.Jobs.Worker.{
  claimable, claim_row, complete_row, fail_row, retry_row, release_row, renew_row,
}
use fetch_now.Jobs.Reaper.{lease_expired, reclaim_row, due_to_expire, expire_row}

module _ {Json : Type 0} where
  -- The six rules of a worker hold a premise: its live lease, or a row that may be claimed.
  pub data RowStep (j : MediaJob Json) : MediaJob Json → Type 0 where
    idle : RowStep j j
    claim :
        (clock : ℕ) (worker : String) (lease now : ℕ)
        → claimable clock j ≡ true
        → RowStep j (claim_row worker lease now j)
    finish :
        (clock : ℕ) (job_id : ℕ) (owner : String) (fence : ℕ) (metadata : Json)
        → holds_lease clock job_id owner fence j ≡ true
        → RowStep j (complete_row clock metadata j)
    fail :
        (clock : ℕ) (job_id : ℕ) (owner : String) (fence : ℕ) (code : String)
        → holds_lease clock job_id owner fence j ≡ true
        → RowStep j (fail_row clock code j)
    retry :
        (clock : ℕ) (job_id : ℕ) (owner : String) (fence available : ℕ)
        → holds_lease clock job_id owner fence j ≡ true
        → RowStep j (retry_row clock available j)
    release :
        (clock : ℕ) (job_id : ℕ) (owner : String) (fence now : ℕ)
        → holds_lease clock job_id owner fence j ≡ true
        → RowStep j (release_row clock now j)
    renew :
        (clock : ℕ) (job_id : ℕ) (owner : String) (fence lease : ℕ)
        → holds_lease clock job_id owner fence j ≡ true
        → RowStep j (renew_row clock lease j)
    reclaim : (clock now : ℕ) → lease_expired clock j ≡ true → RowStep j (reclaim_row now j)
    expire : (clock now : ℕ) → due_to_expire clock j ≡ true → RowStep j (expire_row now j)
