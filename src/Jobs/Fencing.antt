-- ===== src/Jobs/Fencing.antt =====
-- Lease fencing: a worker that has lost its lease can change nothing any more.
use fetch_now.Prelude.{
  Result, ℤ, pos_part, Option-cases, Memᴰ, Memᴰ-Forall₂, Memᴰ-append_left, All-of_Memᴰ,
  UniqueIds-eq, Bool-cases, subst, ◌∙◌, ℕ, ◌+◌, String, ◌≡◌, inl, inr, refl, sym, ap, Bool, false,
  List, [], ◌∷◌, arith, All, UniqueIds, ◌==◌, ==→eq, update_where, count_where, ok,
}
use fetch_now.Jobs.States.{JobError}
use fetch_now.Jobs.Model.{MediaJob}
use fetch_now.Jobs.Repository.{Table, id_of, holds_lease, get_by_id, fenced_update}
use fetch_now.Jobs.Worker.{
  complete_row, fail_row, retry_row, release_row, renew_row, complete, fail_permanent,
  release_to_queued, renew_lease, fail_retry,
}
use fetch_now.Jobs.RowLaws.{Lost, Lost-step, holds_lease-Lost, SameRequest-step}
use fetch_now.Jobs.History.{Call, transact, history}
use fetch_now.Jobs.TableStep.{TableStep, moved, added, transact-TableStep}
use fetch_now.Jobs.Invariants.{IsConsistent, transact-IsConsistent, history-IsConsistent}

module _ {Json : Type 0} where
  -- Nobody's row is addressed by a conditional UPDATE: it reports no row and changes none.
  none_held :
      (p : MediaJob Json → Bool) (f : MediaJob Json → MediaJob Json) (t : Table Json)
      → All (λ j. p j ≡ false) t
      → (count_where p t ≡ 0) × (update_where p f t ≡ t)
  unfolding count_where update_where
  none_held p f [] h = (refl, refl)
  none_held p f (j ∷ t) h =
      let (count, same) = none_held p f t h.1 in (rw (h.0, count), rw (h.0, same))

  -- The table has the job `job_id`, and whoever held it under `fence` has lost it.
  pub record LeaseLost (job_id fence : ℕ) (t : Table Json) : Type 0 where
    pub row : MediaJob Json
    pub here : Memᴰ row t
    pub named : row.id ≡ job_id
    pub lost : Lost fence row

  not_held :
      (clock job_id : ℕ) (owner : String) (fence : ℕ) (t : Table Json)
      → UniqueIds id_of t
      → LeaseLost job_id fence t
      → All (λ j. holds_lease clock job_id owner fence j ≡ false) t
  not_held clock job_id owner fence t u l = All-of_Memᴰ _ t λ j m.
      elim (Bool-cases (j.id == job_id)) [
        | inl e ↦
            let same : l.row ≡ j = UniqueIds-eq id_of t u l.here m (l.named ∙ sym (==→eq _ _ e)) in
            holds_lease-Lost clock job_id owner (subst (Lost fence) same l.lost)
        | inr e ↦ unfold holds_lease in rw e
      ]

  -- A conditional UPDATE under a lost lease addresses no row and changes none.
  pub fenced_update-LeaseLost :
      (clock job_id : ℕ) (owner : String) (fence : ℕ) (set : MediaJob Json → MediaJob Json)
      (t : Table Json)
      → UniqueIds id_of t
      → LeaseLost job_id fence t
      → fenced_update clock job_id owner fence set t ≡ (false, t)
  unfolding fenced_update
  fenced_update-LeaseLost clock job_id owner fence set t u l =
      let mine = holds_lease clock job_id owner fence in
      let (count, same) = none_held mine set t (not_held clock job_id owner fence t u l) in
      rw (count, same)

  transact-LeaseLost :
      {job_id fence : ℕ} (c : Call Json) (t : Table Json)
      → UniqueIds id_of t
      → LeaseLost job_id fence t
      → LeaseLost job_id fence (transact c t)
  transact-LeaseLost {job_id} {fence} c t u l = go (transact-TableStep c t u)
    where
      go : {v : Table Json} → TableStep t v → LeaseLost job_id fence v
      go (moved s) =
          let (k, m, r) = Memᴰ-Forall₂ s l.here in
          record {
            row = k;
            here = m;
            named = (SameRequest-step r).id ∙ l.named;
            lost = Lost-step r l.lost;
          }
      go (added fresh hash print target now ttl tries fits) = record {
        row = l.row;
        here = Memᴰ-append_left t _ l.here;
        named = l.named;
        lost = l.lost;
      }

  -- A lost lease stays lost, whatever transactions follow.
  pub history-LeaseLost :
      (cs : List (Call Json)) (t : Table Json) {job_id fence : ℕ}
      → IsConsistent t
      → LeaseLost job_id fence t
      → LeaseLost job_id fence (history cs t)
  unfolding history
  history-LeaseLost [] t c l = l
  history-LeaseLost (d ∷ ds) t c l =
      history-LeaseLost ds (transact d t) (transact-IsConsistent d t c)
        (transact-LeaseLost d t c.ids l)

  fail_retry-LeaseLost :
      (clock job_id : ℕ) (owner : String) (fence now : ℕ) (backoff : ℤ) (code : String)
      (seen t : Table Json)
      → UniqueIds id_of t
      → LeaseLost job_id fence t
      → fail_retry clock job_id owner fence now backoff code seen t ≡ ok (false, t)
  unfolding fail_retry
  fail_retry-LeaseLost clock job_id owner fence now backoff code seen t u l =
      elim (Option-cases (get_by_id job_id seen)) [
        | inl e ↦ rw (e, fail_retry)
        | inr (job, e) ↦ ground (
          arith,
          e,
          fenced_update-LeaseLost clock job_id owner fence (fail_row clock code) t u l,
          fenced_update-LeaseLost clock job_id owner fence
              (retry_row clock (now + pos_part backoff)) t u l,
        )
      ]

  -- Take a table that meets all constraints and in which the lease that came with `fence` on the
  -- job `job_id` is over: the token has moved on, or the job is not leased. Then after any further
  -- transactions, `complete`, `fail_permanent`, `fail_retry` (whatever row its SELECT saw),
  -- `release_to_queued` and `renew_lease` under that fence return False and write nothing.
  pub stale_worker_is_fenced :
      (cs : List (Call Json)) (t : Table Json) (job_id fence clock now lease : ℕ) (backoff : ℤ)
      (owner : String) (metadata : Json) (code : String) (seen : Table Json)
      → IsConsistent t
      → LeaseLost job_id fence t
      → let u = history cs t in
        (complete clock job_id owner fence metadata u ≡ ok (false, u))
        × (fail_permanent clock job_id owner fence code u ≡ ok (false, u))
        × (fail_retry clock job_id owner fence now backoff code seen u ≡ ok (false, u))
        × (release_to_queued clock job_id owner fence now u ≡ ok (false, u))
        × (renew_lease clock job_id owner fence lease u ≡ ok (false, u))
  unfolding complete fail_permanent release_to_queued renew_lease
  stale_worker_is_fenced cs t job_id fence clock now lease backoff owner metadata code seen c l =
      let ids = (history-IsConsistent cs t c).ids in
      let lost = history-LeaseLost cs t c l in
      let fenced = λ (set : MediaJob Json → MediaJob Json).
        ap {B = Result JobError (Bool × Table Json)} ok
          (fenced_update-LeaseLost clock job_id owner fence set (history cs t) ids lost) in
      (
        fenced (complete_row clock metadata),
        fenced (fail_row clock code),
        fail_retry-LeaseLost clock job_id owner fence now backoff code seen (history cs t) ids lost,
        fenced (release_row clock now),
        fenced (renew_row clock lease),
      )
