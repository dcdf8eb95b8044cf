-- ===== src/Jobs/Invariants.antt =====
-- What holds of the whole table after any transactions.
use fetch_now.Prelude.{
  or_false, not-false, ==-false→ne, ℕ, ◌≡◌, ◌≤◌, sym, ◌∙◌, true, false, not, List, [], ◌∷◌, ◌++◌,
  arith, any, All, All-append, All-weaken, All-Forall₂, any-eq-false, Distinct, Distinct-Forall₂,
  Distinct-append_one, UniqueIds, ◌==◌,
}
use fetch_now.Jobs.Model.{Target, MediaJob, row_check}
use fetch_now.Jobs.Repository.{Table, id_of, same_bytes, new_job, insert_conflicts}
use fetch_now.Jobs.RowStep.{RowStep}
use fetch_now.Jobs.RowLaws.{row_check-step, SameRequest-step, attempts-step}
use fetch_now.Jobs.Refinement.{Steps}
use fetch_now.Jobs.History.{Call, transact, history}
use fetch_now.Jobs.TableStep.{TableStep, moved, added, transact-TableStep}

module _ {Json : Type 0} where
  -- uq_media_jobs_credential_hash
  abbrev pub OtherCredential : MediaJob Json → MediaJob Json → Type 0
  OtherCredential j k = same_bytes j.credential_hash k.credential_hash ≡ false

  abbrev pub WithinAttempts : MediaJob Json → Type 0
  WithinAttempts j = j.attempt_count ≤ j.max_attempts

  -- Every constraint of the table: CHECK, PRIMARY KEY and UNIQUE; and no row has spent more
  -- attempts than it may.
  pub record IsConsistent (t : Table Json) : Type 0 where
    pub checks : All (λ j. row_check j ≡ true) t
    pub ids : UniqueIds id_of t
    pub credentials : Distinct OtherCredential t
    pub attempts : All WithinAttempts t

  OtherCredential-step :
      {j j' k k' : MediaJob Json}
      → RowStep j j'
      → RowStep k k'
      → OtherCredential j k
      → OtherCredential j' k'
  OtherCredential-step {j} {j'} {k} {k'} q r d =
      let ej : j'.credential_hash ≡ j.credential_hash = (SameRequest-step q).credential in
      let ek : k'.credential_hash ≡ k.credential_hash = (SameRequest-step r).credential in
      rw (ej, ek) d

  Steps-IsConsistent : {t u : Table Json} → Steps t u → IsConsistent t → IsConsistent u
  Steps-IsConsistent s c = record {
    checks = All-Forall₂ _ _ (λ j k r. row_check-step r) s c.checks;
    ids =
        Distinct-Forall₂ _
          (λ j j' k k' q r d e. d (sym (SameRequest-step r).id ∙ e ∙ (SameRequest-step q).id)) s
          c.ids;
    credentials =
        Distinct-Forall₂ OtherCredential (λ j j' k k' q r d. OtherCredential-step q r d) s
          c.credentials;
    attempts = All-Forall₂ _ _ (λ j k r. attempts-step r) s c.attempts;
  }

  added-IsConsistent :
      (fresh : ℕ) (hash print : List ℕ) (target : Target) (now ttl tries : ℕ) (t : Table Json)
      → insert_conflicts (new_job fresh hash print target now ttl tries) t ≡ false
      → IsConsistent t
      → IsConsistent (t ++ new_job fresh hash print target now ttl tries ∷ [])
  unfolding insert_conflicts
  added-IsConsistent fresh hash print target now ttl tries t fits c =
      let job = new_job fresh hash print target now ttl tries in
      let (keys, row) = or_false _ (not (row_check job)) fits in
      let (no_id, no_credential) = or_false (any (λ j. j.id == job.id) t) _ keys in
      record {
        checks = All-append _ t (job ∷ []) c.checks (not-false _ row, tt);
        ids = Distinct-append_one _ t job c.ids (
            All-weaken _ _ t (any-eq-false _ t no_id)
              (λ j e same. ==-false→ne j.id job.id e (sym same)));
        credentials =
            Distinct-append_one OtherCredential t job c.credentials
              (any-eq-false _ t no_credential);
        attempts = All-append _ t (job ∷ []) c.attempts (unfold new_job in omega arith, tt);
      }

  -- No transaction breaks a constraint of the table.
  pub transact-IsConsistent :
      (c : Call Json) (t : Table Json) → IsConsistent t → IsConsistent (transact c t)
  transact-IsConsistent c t h = go (transact-TableStep c t h.ids)
    where
      go : {u : Table Json} → TableStep t u → IsConsistent u
      go (moved s) = Steps-IsConsistent s h
      go (added fresh hash print target now ttl tries fits) =
          added-IsConsistent fresh hash print target now ttl tries t fits h

  -- Any sequence of transactions, from a table that meets all constraints, ends in such a table.
  pub history-IsConsistent :
      (cs : List (Call Json)) (t : Table Json) → IsConsistent t → IsConsistent (history cs t)
  unfolding history
  history-IsConsistent [] t h = h
  history-IsConsistent (c ∷ cs) t h =
      history-IsConsistent cs (transact c t) (transact-IsConsistent c t h)
