-- ===== src/Jobs/RowLaws.antt =====
-- What every step of a row keeps.
use fetch_now.Prelude.{inr, ℕ, String, ◌≤◌, ◌<◌, ◌⊎◌, inl, refl, false, any, ◌≡◌, true, arith}
use fetch_now.Jobs.States.{inspecting, same_state, allowed_transitions}
use fetch_now.Jobs.Model.{MediaJob, request_check, lease_state_check, result_state_check, row_check}
use fetch_now.Jobs.Repository.{holds_lease}
use fetch_now.Jobs.Worker.{
  claimable, claim_row, complete_row, fail_row, retry_row, release_row, renew_row,
}
use fetch_now.Jobs.Reaper.{lease_expired, exhausted, reclaim_row, due_to_expire, expire_row}
use fetch_now.Jobs.RowStep.{
  RowStep, idle, claim, finish, fail, retry, release, renew, reclaim, expire,
}

module _ {Json : Type 0} where
  pub row_check-step : {j k : MediaJob Json} → RowStep j k → row_check j ≡ true → row_check k ≡ true
  unfolding row_check lease_state_check result_state_check request_check holds_lease claimable
      claim_row complete_row fail_row retry_row release_row renew_row lease_expired exhausted
      reclaim_row due_to_expire expire_row
  row_check-step idle h = h
  row_check-step {j} (claim clock w l n c) h = ground arith
  row_check-step {j} (finish clock i o f m p) h = ground arith
  row_check-step {j} (fail clock i o f c p) h = ground arith
  row_check-step {j} (retry clock i o f a p) h = ground arith
  row_check-step {j} (release clock i o f n p) h = ground arith
  row_check-step {j} (renew clock i o f l p) h = ground arith
  row_check-step {j} (reclaim clock n p) h = ground arith
  row_check-step {j} (expire clock n p) h = ground arith

  -- The state of a row moves along an edge of the table of transitions, or stays.
  pub state-step :
      {j k : MediaJob Json}
      → RowStep j k
      → (k.public_state ≡ j.public_state)
        ⊎ (any (same_state k.public_state) (allowed_transitions j.public_state) ≡ true)
  unfolding holds_lease claimable claim_row complete_row fail_row retry_row release_row renew_row
      lease_expired exhausted reclaim_row due_to_expire expire_row
  state-step idle = inl refl
  state-step {j} (claim clock w l n c) = ground arith
  state-step {j} (finish clock i o f m p) = ground arith
  state-step {j} (fail clock i o f c p) = ground arith
  state-step {j} (retry clock i o f a p) = ground arith
  state-step {j} (release clock i o f n p) = ground arith
  state-step {j} (renew clock i o f l p) = inl refl
  state-step {j} (reclaim clock n p) = ground arith
  state-step {j} (expire clock n p) = ground arith

  -- What no step changes.
  pub record SameRequest (j k : MediaJob Json) : Type 0 where
    pub id : k.id ≡ j.id
    pub credential : k.credential_hash ≡ j.credential_hash
    pub fingerprint : k.request_fingerprint ≡ j.request_fingerprint
    pub target : k.target ≡ j.target
    pub tries : k.max_attempts ≡ j.max_attempts
    pub created : k.created_at ≡ j.created_at
    pub expires : k.expires_at ≡ j.expires_at

  pub SameRequest-step : {j k : MediaJob Json} → RowStep j k → SameRequest j k
  unfolding claim_row complete_row fail_row retry_row release_row renew_row reclaim_row expire_row
  SameRequest-step idle = ground arith
  SameRequest-step _ = record {
    id = refl;
    credential = refl;
    fingerprint = refl;
    target = refl;
    tries = refl;
    created = refl;
    expires = refl;
  }

  -- The attempts spent never pass the attempts allowed.
  pub attempts-step :
      {j k : MediaJob Json}
      → RowStep j k
      → j.attempt_count ≤ j.max_attempts
      → k.attempt_count ≤ k.max_attempts
  unfolding claimable claim_row complete_row fail_row retry_row release_row renew_row reclaim_row
      expire_row
  attempts-step idle h = h
  attempts-step {j} (claim clock w l n c) h = ground arith
  attempts-step {j} (release clock i o f n p) h = omega arith
  attempts-step _ h = h

  -- The holder of `fence` has lost the row: the token has moved on, or the row is not leased.
  pub record Lost (fence : ℕ) (j : MediaJob Json) : Type 0 where
    pub issued : fence ≤ j.fence_token
    pub gone : (fence < j.fence_token) ⊎ (same_state j.public_state inspecting ≡ false)

  pub Lost-step : {fence : ℕ} {j k : MediaJob Json} → RowStep j k → Lost fence j → Lost fence k
  unfolding holds_lease claimable claim_row complete_row fail_row retry_row release_row renew_row
      lease_expired exhausted reclaim_row due_to_expire expire_row
  Lost-step idle h = h
  Lost-step {j = j} (claim clock w l n c) h = ground arith
  Lost-step {j = j} (finish clock i o f m p) h = ground arith
  Lost-step {j = j} (fail clock i o f c p) h = ground arith
  Lost-step {j = j} (retry clock i o f a p) h = ground arith
  Lost-step {j = j} (release clock i o f n p) h = ground arith
  Lost-step {j = j} (renew clock i o f l p) h = ground arith
  Lost-step {j = j} (reclaim clock n p) h = ground arith
  Lost-step {j = j} (expire clock n p) h = ground arith

  -- Such a holder addresses no row.
  pub holds_lease-Lost :
      (clock job_id : ℕ) (owner : String) {fence : ℕ} {j : MediaJob Json}
      → Lost fence j
      → holds_lease clock job_id owner fence j ≡ false
  unfolding holds_lease
  holds_lease-Lost clock job_id owner h = ground arith

  -- A step never takes a fence token back.
  pub fence-step : {j k : MediaJob Json} → RowStep j k → j.fence_token ≤ k.fence_token
  unfolding claim_row complete_row fail_row retry_row release_row renew_row reclaim_row expire_row
  fence-step {j} idle = omega arith
  fence-step {j} _ = omega arith

  -- A step of a leased row leaves the lease with its owner under its fence, or ends it for good.
  pub lease-step :
      {j k : MediaJob Json}
      → RowStep j k
      → j.public_state ≡ inspecting
      → (k.public_state ≡ inspecting)
          × (k.lease_owner ≡ j.lease_owner)
          × (k.fence_token ≡ j.fence_token)
        ⊎ Lost j.fence_token k
  unfolding holds_lease claimable claim_row complete_row fail_row retry_row release_row renew_row
      lease_expired exhausted reclaim_row due_to_expire expire_row
  lease-step idle h = inl (h, refl, refl)
  lease-step {j} (claim clock w l n c) h = ground arith
  lease-step {j} (finish clock i o f m p) h = inr (record { issued = omega arith; gone = inr refl })
  lease-step {j} (fail clock i o f c p) h = inr (record { issued = omega arith; gone = inr refl })
  lease-step {j} (retry clock i o f a p) h = inr (record { issued = omega arith; gone = inr refl })
  lease-step {j} (release clock i o f n p) h =
      inr (record { issued = omega arith; gone = inr refl })
  lease-step {j} (renew clock i o f l p) h = inl (h, refl, refl)
  lease-step {j} (reclaim clock n p) h =
      inr (record { issued = omega arith; gone = inl (omega arith) })
  lease-step {j} (expire clock n p) h =
      inr (record { issued = omega arith; gone = inl (omega arith) })
