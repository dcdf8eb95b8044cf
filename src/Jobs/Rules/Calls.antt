-- ===== src/Jobs/Rules/Calls.antt =====
-- Every call of the repository keeps to its rule (backend/src/fetchnow/jobs/repository.py).
use fetch_now.Prelude.{ℕ, ◌≡◌, ◌⊎◌, true, false, List, [], ◌∷◌, ◌++◌, ◌==◌, Forall₂, any}
use fetch_now.Jobs.States.{queued}
use fetch_now.Jobs.Model.{Target, MediaJob, row_check}
use fetch_now.Jobs.Repository.{Table, same_bytes}
use fetch_now.Jobs.History.{
  Call, enqueue, claim, finish, fail, retry, release, renew, reclaim, expire,
}
use fetch_now.Jobs.Rules.{CallStep}

module _ {Json : Type 0} where
  -- One queued job was added, whose id and credential hash were free.
  pub record Added (fresh : ℕ) (hash print : List ℕ) (target : Target) (t u : Table Json)
      : Type 0 where
    pub row : MediaJob Json
    pub after : u ≡ t ++ row ∷ []
    pub named : row.id ≡ fresh
    pub credential : row.credential_hash ≡ hash
    pub request : row.request_fingerprint ≡ print
    pub place : row.target ≡ target
    pub waits : row.public_state ≡ queued
    pub unspent : row.attempt_count ≡ 0
    pub checks : row_check row ≡ true
    pub free_id : any (λ j. j.id == fresh) t ≡ false
    pub free_hash : any (λ j. same_bytes j.credential_hash hash) t ≡ false

  -- What a call makes of a table.
  abbrev pub Outcome : Call Json → Table Json → Table Json → Type 0
  Outcome (enqueue fresh hash print target now ttl tries) t u =
      (u ≡ t) ⊎ Added fresh hash print target t u
  Outcome (claim clock locked worker lease now limit) t u =
      Forall₂ (CallStep (claim clock locked worker lease now limit)) t u
  Outcome (finish clock i owner fence metadata) t u =
      Forall₂ (CallStep (finish clock i owner fence metadata)) t u
  Outcome (fail clock i owner fence code) t u =
      Forall₂ (CallStep (fail clock i owner fence code)) t u
  Outcome (retry clock i owner fence now backoff code seen) t u =
      Forall₂ (CallStep (retry clock i owner fence now backoff code seen)) t u
  Outcome (release clock i owner fence now) t u =
      Forall₂ (CallStep (release clock i owner fence now)) t u
  Outcome (renew clock i owner fence lease) t u =
      Forall₂ (CallStep (renew clock i owner fence lease)) t u
  Outcome (reclaim clock locked now) t u = Forall₂ (CallStep (reclaim clock locked now)) t u
  Outcome (expire clock locked now) t u = Forall₂ (CallStep (expire clock locked now)) t u
