-- ===== src/Jobs/RowHistory.antt =====
-- The life of one job through any transactions.
use fetch_now.Prelude.{
  sym, subst, any, true, All-Memᴰ, ◌≤◌, ◌∙◌, ◌≡◌, ◌⊎◌, inl, inr, refl, List, [], ◌∷◌, arith, Memᴰ,
  Memᴰ-Forall₂, Memᴰ-append_left,
}
use fetch_now.Jobs.States.{
  MediaJobState, same_state, allowed_transitions, expired, is_terminal, member,
}
use fetch_now.Jobs.Model.{MediaJob}
use fetch_now.Jobs.Repository.{Table, holds_lease}
use fetch_now.Jobs.Worker.{
  claimable, claim_row, complete_row, fail_row, retry_row, release_row, renew_row,
}
use fetch_now.Jobs.Reaper.{lease_expired, exhausted, reclaim_row, due_to_expire, expire_row}
use fetch_now.Jobs.RowStep.{
  RowStep, idle, claim, finish, fail, retry, release, renew, reclaim, expire,
}
use fetch_now.Jobs.RowLaws.{SameRequest, SameRequest-step, fence-step, state-step}
use fetch_now.Jobs.History.{Call, transact, history}
use fetch_now.Jobs.TableStep.{TableStep, moved, added, transact-TableStep}
use fetch_now.Jobs.Invariants.{
  history-IsConsistent, WithinAttempts, IsConsistent, transact-IsConsistent,
}

-- Edges of the table of allowed transitions, one after another.
pub data LegalPath (from : MediaJobState) : MediaJobState → Type 0 where
  here : LegalPath from from
  next :
      {mid to : MediaJobState}
      → LegalPath from mid
      → any (same_state to) (allowed_transitions mid) ≡ true
      → LegalPath from to

module _ {Json : Type 0} where
  pub data RowReach (j : MediaJob Json) : MediaJob Json → Type 0 where
    here : RowReach j j
    next : {k l : MediaJob Json} → RowReach j k → RowStep k l → RowReach j l

  first : {j k l : MediaJob Json} → RowStep j k → RowReach k l → RowReach j l
  first s here = next here s
  first s (next r q) = next (first s r) q

  one_step :
      (c : Call Json) (t : Table Json) {j : MediaJob Json}
      → IsConsistent t
      → Memᴰ j t
      → (k : MediaJob Json) × Memᴰ k (transact c t) × RowStep j k
  one_step c t {j} h m = go (transact-TableStep c t h.ids)
    where
      go : {u : Table Json} → TableStep t u → (k : MediaJob Json) × Memᴰ k u × RowStep j k
      go (moved s) = Memᴰ-Forall₂ s m
      go (added fresh hash print target now ttl tries fits) = (j, Memᴰ-append_left t _ m, idle)

  -- No transaction deletes a job: each row has a version in the later table, reached by steps.
  pub history-RowReach :
      (cs : List (Call Json)) (t : Table Json) {j : MediaJob Json}
      → IsConsistent t
      → Memᴰ j t
      → (k : MediaJob Json) × Memᴰ k (history cs t) × RowReach j k
  unfolding history
  history-RowReach [] t {j} h m = (j, m, here)
  history-RowReach (c ∷ cs) t h m =
      let (k, n, s) = one_step c t h m in
      let (l, o, r) = history-RowReach cs (transact c t) (transact-IsConsistent c t h) n in
      (l, o, first s r)

  pub SameRequest-reach : {j k : MediaJob Json} → RowReach j k → SameRequest j k
  SameRequest-reach here = SameRequest-step idle
  SameRequest-reach (next r s) =
      let old = SameRequest-reach r in
      let new = SameRequest-step s in
      record {
        id = new.id ∙ old.id;
        credential = new.credential ∙ old.credential;
        fingerprint = new.fingerprint ∙ old.fingerprint;
        target = new.target ∙ old.target;
        tries = new.tries ∙ old.tries;
        created = new.created ∙ old.created;
        expires = new.expires ∙ old.expires;
      }

  fence-reach : {j k : MediaJob Json} → RowReach j k → j.fence_token ≤ k.fence_token
  fence-reach here = omega arith
  fence-reach (next r s) = omega (arith, fence-reach r, fence-step s)

  state-reach : {j k : MediaJob Json} → RowReach j k → LegalPath j.public_state k.public_state
  state-reach here = LegalPath.here
  state-reach {j} (next r s) = elim (state-step s) [
    | inl same ↦ subst (LegalPath j.public_state) (sym same) (state-reach r)
    | inr edge ↦ LegalPath.next (state-reach r) edge
  ]

  -- In a consistent table, a job is there after any further transactions: its request columns are
  -- unchanged, its fence token has not gone back, its state was reached along edges of the table of
  -- allowed transitions, and it has spent at most the attempts allowed.
  pub job_is_kept :
      (cs : List (Call Json)) (t : Table Json) (j : MediaJob Json)
      → IsConsistent t
      → Memᴰ j t
      → (k : MediaJob Json) × Memᴰ k (history cs t)
        × SameRequest j k
        × (j.fence_token ≤ k.fence_token)
        × LegalPath j.public_state k.public_state
        × (k.attempt_count ≤ k.max_attempts)
  job_is_kept cs t j c m =
      let (k, n, r) = history-RowReach cs t c m in
      (
        k,
        n,
        SameRequest-reach r,
        fence-reach r,
        state-reach r,
        All-Memᴰ WithinAttempts (history cs t) n (history-IsConsistent cs t c).attempts,
      )

  -- A finished job: its result, error and attempts are as they were, or it has expired.
  pub record Finished (j k : MediaJob Json) : Type 0 where
    pub terminal : is_terminal (member k.public_state) ≡ true
    pub attempts : k.attempt_count ≡ j.attempt_count
    pub outcome :
        (k.public_state ≡ j.public_state)
          × (k.result_metadata ≡ j.result_metadata)
          × (k.public_error_code ≡ j.public_error_code)
        ⊎ (k.public_state ≡ expired)

  Finished-step : {i j k : MediaJob Json} → RowStep j k → Finished i j → Finished i k
  unfolding is_terminal holds_lease claimable claim_row complete_row fail_row retry_row release_row
      renew_row lease_expired exhausted reclaim_row due_to_expire expire_row
  Finished-step idle h = h
  Finished-step {i} {j} (claim clock w l n c) h = absurd (ground arith)
  Finished-step {i} {j} (finish clock x o f m p) h = absurd (ground arith)
  Finished-step {i} {j} (fail clock x o f c p) h = absurd (ground arith)
  Finished-step {i} {j} (retry clock x o f a p) h = absurd (ground arith)
  Finished-step {i} {j} (release clock x o f n p) h = absurd (ground arith)
  Finished-step {i} {j} (renew clock x o f l p) h = absurd (ground arith)
  Finished-step {i} {j} (reclaim clock n p) h = absurd (ground arith)
  Finished-step {i} {j} (expire clock n p) h = record {
    terminal = refl;
    attempts = h.attempts;
    outcome = inr refl;
  }

  Finished-reach :
      {j k : MediaJob Json}
      → RowReach j k
      → is_terminal (member j.public_state) ≡ true
      → Finished j k
  Finished-reach here h = record { terminal = h; attempts = refl; outcome = inl (refl, refl, refl) }
  Finished-reach (next r s) h = Finished-step s (Finished-reach r h)

  -- In a consistent table, a job in a terminal state is there after any further transactions, in a
  -- terminal state, with no more attempts spent; it keeps its state, its result and its error code
  -- unless it has expired.
  pub terminal_job_stays :
      (cs : List (Call Json)) (t : Table Json) (j : MediaJob Json)
      → IsConsistent t
      → Memᴰ j t
      → is_terminal (member j.public_state) ≡ true
      → (k : MediaJob Json) × Memᴰ k (history cs t) × (k.id ≡ j.id) × Finished j k
  terminal_job_stays cs t j c m h =
      let (k, n, r) = history-RowReach cs t c m in
      (k, n, (SameRequest-reach r).id, Finished-reach r h)
