-- ===== src/Downloads/Moves/Worker.antt =====
-- The methods that a worker calls make moves.
use fetch_now.Prelude.{
  ℕ, ◌+◌, String, ◌≡◌, refl, sym, subst, inl, inr, Bool, true, false, ◌&&◌, Option, none, some,
  arith, leb, ◌==◌, if◌then◌else◌, is_some, and_true, if-holds, if-cases, ℤ, pos_part, Result,
  >>=-eq-ok, ok-injective, ok,
}
use fetch_now.Downloads.Model.{MediaDownloadJob, row_check}
use fetch_now.Downloads.Slot.{Slot, Fault, lock_identity, consume_quota, release_quota, store}
use fetch_now.Downloads.Worker.{
  holds_lease, not_cancelled, renew_lease, ready_row, complete_ready, fail_row, fail_permanent,
  holds_cancelled, cancelled_row, complete_cancelled, retry_row, requeue_retry, fail_retry,
  seen_lost, release_row, release_to_queued,
}
use fetch_now.Downloads.Moves.{RowMove, Move, running, is_live}
use fetch_now.Downloads.Moves.Entries.{stay, moved_row, ended, completed}

pub holds_lease-running :
    (clock : ℕ) (owner : String) (fence : ℕ) (j : MediaDownloadJob)
    → holds_lease clock owner fence j ≡ true
    → running j ≡ true
unfolding holds_lease
holds_lease-running clock owner fence j h = ground arith

pub running-is_live : (j : MediaDownloadJob) → running j ≡ true → is_live j.public_state ≡ true
running-is_live j h = ground arith

-- A call that returns `(b, u)` has made the move to `u`.
pub returned :
    (s : Slot) {A : Type 0} {a b : A} {u t : Slot}
    → ◌≡◌ {A = Result Fault (A × Slot)} (ok (a, u)) (ok (b, t))
    → Move s u
    → Move s t
returned s e m = subst (λ p. Move s p.1) (ok-injective e) m

pub renew_lease-Move :
    (clock : ℕ) (owner : String) (fence lease : ℕ) (s : Slot)
    → Move s (renew_lease clock owner fence lease s).1
unfolding renew_lease
renew_lease-Move clock owner fence lease s =
    if-holds (λ (r : Bool × Slot). Move s r.1) (holds_lease clock owner fence s.job)
      (λ e.
        let run = holds_lease-running clock owner fence s.job e in
        moved_row s _ (RowMove.renew (clock + lease) clock run) (running-is_live s.job run)
          (running-is_live s.job run))
      (λ e. stay s)

-- What `store` has written.
pub stored_row :
    (s : Slot) (j : MediaDownloadJob) {t : Slot}
    → store j s ≡ ok t
    → (row_check j ≡ true) × (record s { job = j } ≡ t)
unfolding store
stored_row s j e = elim (if-cases (row_check j) _ _ e) [
  | inl (valid, f) ↦ (valid, ok-injective f)
  | inr (valid, f) ↦ cc
]

holds_cancelled-running :
    (owner : String) (fence : ℕ) (j : MediaDownloadJob)
    → holds_cancelled owner fence j ≡ true
    → (running j ≡ true) × (is_some j.cancel_requested_at ≡ true)
unfolding holds_cancelled
holds_cancelled-running owner fence j h = (ground arith, ground arith)

abbrev answer : Bool × Slot → Result Fault (Bool × Slot)
answer r = ok r

-- A row that the lease's holder queues again.
requeued :
    (clock : ℕ) (owner : String) (fence : ℕ) (s : Slot) (j : MediaDownloadJob)
    → (running s.job ≡ true → not_cancelled s.job ≡ true → RowMove s.job j)
    → is_live j.public_state ≡ true
    → {b : Bool} {t : Slot}
    → answer (
        if holds_lease clock owner fence s.job && not_cancelled s.job
        then (true, record s { job = j })
        else (false, s))
      ≡ ok (b, t)
    → Move s t
requeued clock owner fence s j m live e = returned s e (
    if-holds (λ (r : Bool × Slot). Move s r.1)
      (holds_lease clock owner fence s.job && not_cancelled s.job)
      (λ c.
        let run = holds_lease-running clock owner fence s.job (and_true _ _ c).0 in
        moved_row s j (m run (and_true _ _ c).1) (running-is_live s.job run) live)
      (λ c. stay s))

requeue_retry-Move :
    (clock : ℕ) (owner : String) (fence available : ℕ) (s : Slot) {b : Bool} {t : Slot}
    → requeue_retry clock owner fence available s ≡ ok (b, t)
    → Move s t
unfolding requeue_retry
requeue_retry-Move clock owner fence available s e =
    requeued clock owner fence s (retry_row clock available s.job) (RowMove.retry clock available)
      (unfold retry_row in refl) e

pub release_to_queued-Move :
    (clock : ℕ) (owner : String) (fence now : ℕ) (s : Slot) {b : Bool} {t : Slot}
    → release_to_queued clock owner fence now s ≡ ok (b, t)
    → Move s t
unfolding release_to_queued
release_to_queued-Move clock owner fence now s e =
    requeued clock owner fence s (release_row clock now s.job) (RowMove.release clock now)
      (unfold release_row in refl) e

module _ (clock quota_clock : ℕ) (owner : String) (fence : ℕ) (s : Slot) {b : Bool} {t : Slot} where
  pub complete_ready-Move :
      (artifact bytes : ℕ) (kind container : String) (consume : Bool)
      → complete_ready clock quota_clock owner fence artifact bytes kind container consume s
        ≡ ok (b, t)
      → Move s t
  unfolding complete_ready
  complete_ready-Move artifact bytes kind container consume e =
      let row = ready_row clock artifact bytes kind container s.job in
      elim (if-cases (bytes == 0) _ _ e) [
        | inl (z, e1) ↦ cc
        | inr (z, e1) ↦
            let (g, locked, e2) = >>=-eq-ok (if consume then lock_identity s else ok false) _ e1 in
            elim (if-cases (holds_lease clock owner fence s.job && not_cancelled s.job) _ _ e2) [
              | inl (c, e3) ↦
                  let (lease, kept) = and_true _ _ c in
                  let (done, spent, e4) =
                    >>=-eq-ok (consume_quota g quota_clock (record s { job = row })) _ e3 in
                  returned s e4 (
                    completed s row g quota_clock
                      (RowMove.finish clock artifact bytes kind container (ground arith)
                        (holds_lease-running clock owner fence s.job lease) kept)
                      (unfold ready_row in refl) spent)
              | inr (c, e3) ↦ returned s e3 (stay s)
            ]
      ]

  pub fail_permanent-Move :
      (code : String) → fail_permanent clock quota_clock owner fence code s ≡ ok (b, t) → Move s t
  unfolding fail_permanent
  fail_permanent-Move code e =
      let (g, locked, e1) = >>=-eq-ok (lock_identity s) _ e in
      elim (if-cases (holds_lease clock owner fence s.job && not_cancelled s.job) _ _ e1) [
        | inl (c, e2) ↦
            let (lease, kept) = and_true _ _ c in
            let (stored, written, e3) = >>=-eq-ok (store (fail_row clock code s.job) s) _ e2 in
            let (valid, same) = stored_row s (fail_row clock code s.job) written in
            let (done, freed, e4) = >>=-eq-ok (release_quota g quota_clock stored) _ e3 in
            returned s e4 (
              ended s (fail_row clock code s.job) g quota_clock
                (RowMove.fail clock code (holds_lease-running clock owner fence s.job lease) kept
                  valid)
                (unfold fail_row in refl) locked
                (subst (λ u. release_quota g quota_clock u ≡ ok done) (sym same) freed))
        | inr (c, e2) ↦ returned s e2 (stay s)
      ]

  pub complete_cancelled-Move :
      complete_cancelled clock quota_clock owner fence s ≡ ok (b, t) → Move s t
  unfolding complete_cancelled
  complete_cancelled-Move e =
      let (g, locked, e1) = >>=-eq-ok (lock_identity s) _ e in
      elim (if-cases (holds_cancelled owner fence s.job) _ _ e1) [
        | inl (c, e2) ↦
            let (run, asked) = holds_cancelled-running owner fence s.job c in
            let (done, freed, e3) =
              >>=-eq-ok (release_quota g quota_clock (record s { job = cancelled_row clock s.job }))
                _ e2 in
            returned s e3 (
              ended s (cancelled_row clock s.job) g quota_clock (RowMove.cancel clock run asked)
                (unfold cancelled_row in refl) locked freed)
        | inr (c, e2) ↦ returned s e2 (stay s)
      ]

  pub fail_retry-Move :
      (now : ℕ) (backoff : ℤ) (code : String) (seen : Option MediaDownloadJob)
      → fail_retry clock quota_clock owner fence now backoff code seen s ≡ ok (b, t)
      → Move s t
  unfolding fail_retry
  fail_retry-Move now backoff code none e = returned s e (stay s)
  fail_retry-Move now backoff code (some seen) e =
      elim (if-cases (seen_lost owner fence seen) _ _ e) [
        | inl (l, e1) ↦ returned s e1 (stay s)
        | inr (l, e1) ↦ elim (if-cases (is_some seen.cancel_requested_at) _ _ e1) [
          | inl (x, e2) ↦ complete_cancelled-Move e2
          | inr (x, e2) ↦ elim (if-cases (leb seen.max_attempts seen.attempt_count) _ _ e2) [
            | inl (x, e3) ↦ fail_permanent-Move code e3
            | inr (x, e3) ↦ requeue_retry-Move clock owner fence (now + pos_part backoff) s e3
          ]
        ]
      ]
