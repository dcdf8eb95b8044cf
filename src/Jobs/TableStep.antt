-- ===== src/Jobs/TableStep.antt =====
-- Every call is a step of the whole table: its rows make steps, or one new row is added.
use fetch_now.Prelude.{
  ◌⊎◌, refl, sym, subst, ℕ, ◌+◌, String, ◌≡◌, inl, inr, Bool, false, not, ◌||◌, List, [], ◌∷◌, ◌++◌,
  length, codes, has_code, str_eq, ltb, leb, ◌==◌, Bool-cases, Option-cases, ℤ, pos_part,
  Forall₂-same, UniqueIds,
}
use fetch_now.Jobs.States.{inspecting, same_state}
use fetch_now.Jobs.Model.{Target}
use fetch_now.Jobs.Repository.{
  Table, text_is, id_of, same_bytes, get_by_id, get_by_credential_hash, new_job, insert_conflicts,
  enqueue_or_get,
}
use fetch_now.Jobs.Worker.{
  claim_next, complete_row, complete, fail_row, fail_permanent, retry_row, fail_retry, release_row,
  release_to_queued, renew_row, renew_lease,
}
use fetch_now.Jobs.Reaper.{reclaim_expired_leases, expire_due_jobs}
use fetch_now.Jobs.RowStep.{RowStep}
use fetch_now.Jobs.Refinement.{
  Steps, fenced_update-Steps, claim_loop, reclaim_loop, expire_loop, claim-Steps, reclaim-Steps,
  expire-Steps,
}
use fetch_now.Jobs.History.{
  Call, enqueue, claim, finish, fail, retry, release, renew, reclaim, expire, transact,
}

module _ {Json : Type 0} where
  pub data TableStep (t : Table Json) : Table Json → Type 0 where
    moved : {u : Table Json} → Steps t u → TableStep t u
    added :
        (fresh : ℕ) (hash print : List ℕ) (target : Target) (now ttl tries : ℕ)
        → insert_conflicts (new_job fresh hash print target now ttl tries) t ≡ false
        → TableStep t (t ++ new_job fresh hash print target now ttl tries ∷ [])

  unmoved : (t : Table Json) → TableStep t t
  unmoved t = moved (Forall₂-same RowStep t (λ j. RowStep.idle))

  -- An enqueue writes nothing, or it adds its row, where that breaks no constraint.
  pub enqueue-cases :
      (fresh : ℕ) (hash print : List ℕ) (target : Target) (now ttl tries : ℕ) (t : Table Json)
      → (let job = new_job fresh hash print target now ttl tries in
          let after = transact (enqueue fresh hash print target now ttl tries) t in
          (after ≡ t) ⊎ (insert_conflicts job t ≡ false) × (after ≡ t ++ job ∷ []))
  unfolding transact enqueue_or_get
  enqueue-cases fresh hash print target now ttl tries t =
      let url = codes target.canonical_provider_url in
      let job = new_job fresh hash print target now ttl tries in
      elim (Bool-cases (not (length hash == 32) || not (length print == 32))) [
        | inl e ↦ inl (rw e refl)
        | inr e ↦ elim (Bool-cases (has_code b'?' url || has_code b'#' url)) [
          | inl d ↦ inl (rw (e, d) refl)
          | inr d ↦ elim (Bool-cases (insert_conflicts job t)) [
            | inr fits ↦ inr (fits, rw (e, d, fits) refl)
            | inl clash ↦ elim (Option-cases (get_by_credential_hash hash t)) [
              | inl miss ↦ inl (rw (e, d, clash, miss) refl)
              | inr (existing, found) ↦
                  elim (Bool-cases (same_bytes existing.request_fingerprint print)) [
                    | inl same ↦ inl (rw (e, d, clash, found, same) refl)
                    | inr other ↦ inl (rw (e, d, clash, found, other) refl)
                  ]
            ]
          ]
        ]
      ]

  enqueue-TableStep :
      (fresh : ℕ) (hash print : List ℕ) (target : Target) (now ttl tries : ℕ) (t : Table Json)
      → TableStep t (transact (enqueue fresh hash print target now ttl tries) t)
  enqueue-TableStep fresh hash print target now ttl tries t =
      elim (enqueue-cases fresh hash print target now ttl tries t) [
        | inl same ↦ subst (TableStep t) (sym same) (unmoved t)
        | inr (fits, same) ↦
            subst (TableStep t) (sym same) (added fresh hash print target now ttl tries fits)
      ]

  claim-TableStep :
      (clock : ℕ) (locked : ℕ → Bool) (worker : String) (lease now limit : ℕ) (t : Table Json)
      → UniqueIds id_of t
      → TableStep t (transact (claim clock locked worker lease now limit) t)
  unfolding transact claim_next
  claim-TableStep clock locked worker lease now limit t u = elim (Bool-cases (ltb limit 1)) [
    | inl e ↦ rw e (unmoved t)
    | inr e ↦ elim (Bool-cases (str_eq worker "" || ltb 128 (length (codes worker)))) [
      | inl d ↦ rw (e, d) (unmoved t)
      | inr d ↦
          rw (e, d, claim_loop clock locked worker lease now limit t)
            (moved (claim-Steps clock locked worker lease now limit t u))
    ]
  ]

  retry-TableStep :
      (clock i : ℕ) (owner : String) (fence now : ℕ) (backoff : ℤ) (code : String)
      (seen t : Table Json)
      → TableStep t (transact (retry clock i owner fence now backoff code seen) t)
  unfolding transact fail_retry
  retry-TableStep clock i owner fence now backoff code seen t =
      elim (Option-cases (get_by_id i seen)) [
        | inl e ↦ rw (e, fail_retry) (unmoved t)
        | inr (job, e) ↦
            elim (Bool-cases (
              not (same_state job.public_state inspecting)
              || not (text_is job.lease_owner owner)
              || not (job.fence_token == fence))) [
                | inl stale ↦ rw (e, fail_retry, stale) (unmoved t)
                | inr live ↦ elim (Bool-cases (leb job.max_attempts job.attempt_count)) [
                  | inl last ↦
                      rw (e, fail_retry, live, last)
                        (moved (
                          fenced_update-Steps clock i owner fence (fail_row clock code) t
                            (λ j h. RowStep.fail clock i owner fence code h)))
                  | inr again ↦
                      rw (e, fail_retry, live, again)
                        (moved (
                          fenced_update-Steps clock i owner fence
                            (retry_row clock (now + pos_part backoff)) t
                            (λ j h. RowStep.retry clock i owner fence (now + pos_part backoff) h)))
                ]
              ]
      ]

  -- On a table without two rows of one id, a call moves each row by a step of `RowStep` or leaves
  -- it, or it adds one row that meets every constraint.
  pub transact-TableStep :
      (c : Call Json) (t : Table Json) → UniqueIds id_of t → TableStep t (transact c t)
  unfolding transact complete fail_permanent release_to_queued renew_lease reclaim_expired_leases
      expire_due_jobs
  transact-TableStep (enqueue fresh hash print target now ttl tries) t u =
      enqueue-TableStep fresh hash print target now ttl tries t
  transact-TableStep (claim clock locked worker lease now limit) t u =
      claim-TableStep clock locked worker lease now limit t u
  transact-TableStep (finish clock i owner fence metadata) t u = moved (
      fenced_update-Steps clock i owner fence (complete_row clock metadata) t
        (λ j h. RowStep.finish clock i owner fence metadata h))
  transact-TableStep (fail clock i owner fence code) t u = moved (
      fenced_update-Steps clock i owner fence (fail_row clock code) t
        (λ j h. RowStep.fail clock i owner fence code h))
  transact-TableStep (retry clock i owner fence now backoff code seen) t u =
      retry-TableStep clock i owner fence now backoff code seen t
  transact-TableStep (release clock i owner fence now) t u = moved (
      fenced_update-Steps clock i owner fence (release_row clock now) t
        (λ j h. RowStep.release clock i owner fence now h))
  transact-TableStep (renew clock i owner fence lease) t u = moved (
      fenced_update-Steps clock i owner fence (renew_row clock lease) t
        (λ j h. RowStep.renew clock i owner fence lease h))
  transact-TableStep (reclaim clock locked now) t u =
      rw (reclaim_loop clock locked now t) (moved (reclaim-Steps clock locked now t u))
  transact-TableStep (expire clock locked now) t u =
      rw (expire_loop clock locked now t) (moved (expire-Steps clock locked now t u))
