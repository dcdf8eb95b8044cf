-- ===== src/Downloads/History/Invariants.antt =====
-- What every method of the repository of download jobs keeps true, and what a cancellation is worth.
use fetch_now.Prelude.{
  ℕ, ◌≤◌, ◌≡◌, refl, sym, subst, inl, inr, true, false, ◌||◌, some, List, [], ◌∷◌, arith, str_eq,
  is_some, if-holds, if-cases, any, >>=-eq-ok, ok-injective, ok,
}
use fetch_now.Downloads.States.{
  MediaDownloadJobState, value, is_stored_cancelled, queued, downloading, ready, failed, expired,
  same_state,
}
use fetch_now.Downloads.Model.{MediaDownloadJob, row_check, result_state_check, no_artifact}
use fetch_now.Downloads.Slot.{Slot, lock_identity}
use fetch_now.Downloads.Progress.{
  request_cancel, stored_cancelled, apply_stored_cancel, mark_requested,
}
use fetch_now.Downloads.Moves.{Move, running, coupled, is_live}
use fetch_now.Downloads.Moves.Rows.{row_check-Checks}
use fetch_now.Downloads.Moves.Laws.{row_check-move, attempts-move, is_stopping, is_stopping-move}
use fetch_now.Downloads.Moves.Entries.{coupled-Move, lock-release}
use fetch_now.Downloads.Moves.Progress.{request_cancel-Move}
use fetch_now.Downloads.History.{Call, history, history-keeps}

-- The row meets its CHECK constraints, spends at most the attempts allowed, and goes with the entry.
pub record IsSound (s : Slot) : Type 0 where
  pub checks : row_check s.job ≡ true
  pub attempts : s.job.attempt_count ≤ s.job.max_attempts
  pub pairs : coupled s.job.public_state s.entry ≡ true

pub Move-IsSound : {s t : Slot} → Move s t → IsSound s → IsSound t
Move-IsSound {s} {t} m h = record {
  checks = row_check-move m.row h.checks;
  attempts = attempts-move m.row h.attempts;
  pairs = coupled-Move s t m h.pairs;
}

-- A sound job stays sound in any sequence of calls of the repository, with any clocks, tokens and
-- arguments, where a call that raises is rolled back: its row meets the CHECK constraints of the
-- table (on the lease, the result, the stage, the cancellation and the percentage), it has spent at
-- most the attempts allowed, while it is queued or runs its quota entry, if it has one, is reserved,
-- and once it has failed or expired that entry is not reserved any more. Of the entry of a ready job
-- nothing is said: `complete_ready` may leave it reserved for the accounting of the delivery.
pub history-IsSound : (cs : List Call) (s : Slot) → IsSound s → IsSound (history cs s)
history-IsSound cs s h = history-keeps IsSound (λ s t m. Move-IsSound m) cs s h

value-is_live :
    (a : MediaDownloadJobState) → is_live a ≡ true → str_eq (value a) (value expired) ≡ false
value-is_live queued h = refl
value-is_live downloading h = refl
value-is_live ready h = cc
value-is_live failed h = cc
value-is_live expired h = cc
value-is_live MediaDownloadJobState.cancelled h = cc

live-stored_cancelled :
    (j : MediaDownloadJob) → is_live j.public_state ≡ true → stored_cancelled j ≡ false
unfolding stored_cancelled is_stored_cancelled
live-stored_cancelled j h = rw (value-is_live j.public_state h)

dropped-is_stopping :
    (now : ℕ) (j : MediaDownloadJob)
    → is_stopping (apply_stored_cancel now (record j { cancel_requested_at = some now })) ≡ true
unfolding apply_stored_cancel
dropped-is_stopping now j = refl

marked-is_stopping :
    (now : ℕ) (j : MediaDownloadJob) → running j ≡ true → is_stopping (mark_requested now j) ≡ true
unfolding mark_requested
marked-is_stopping now j run =
    if-holds (λ (k : MediaDownloadJob). is_stopping k ≡ true) (is_some j.cancel_requested_at)
      (λ e. ground arith) (λ e. ground arith)

-- A job that a request has reached.
request_cancel-is_stopping :
    (quota_clock now : ℕ) (s : Slot) {t : Slot}
    → is_live s.job.public_state ≡ true
    → request_cancel quota_clock now s ≡ ok t
    → is_stopping t.job ≡ true
unfolding request_cancel
request_cancel-is_stopping quota_clock now s {t} live e =
    let (g, locked, e1) = >>=-eq-ok (lock_identity s) _ e in
    elim (if-cases
      (stored_cancelled s.job
        || any (same_state s.job.public_state) (ready ∷ failed ∷ expired ∷ []))
      _ _ e1) [
        | inl (c, e2) ↦ ground (arith, live-stored_cancelled s.job live)
        | inr (c, e2) ↦ elim (if-cases (same_state s.job.public_state queued) _ _ e2) [
          | inl (c1, e3) ↦
              subst (λ j. is_stopping j ≡ true)
                (sym
                  (lock-release s
                    (apply_stored_cancel now (record (s.job) { cancel_requested_at = some now })) g
                    quota_clock locked e3).0)
                (dropped-is_stopping now s.job)
          | inr (c1, e3) ↦ elim (if-cases (same_state s.job.public_state downloading) _ _ e3) [
            | inl (run, e4) ↦
                subst (λ (u : Slot). is_stopping u.job ≡ true) (ok-injective e4)
                  (marked-is_stopping now s.job run)
            | inr (run, e4) ↦ cc
          ]
        ]
      ]

no_artifact-is_stopping :
    (j : MediaDownloadJob) → row_check j ≡ true → is_stopping j ≡ true → no_artifact j ≡ true
unfolding result_state_check
no_artifact-is_stopping j c h = let result = (row_check-Checks j c).result in ground (arith, result)

-- Take a sound job that is queued or runs. Once `request_cancel` has returned for it, then after any
-- further calls of any kind, with any clocks, the job has expired or still runs with the request
-- standing, and has no artifact: no worker can complete, fail, retry or release it any more.
pub cancellation_is_final :
    (quota_clock now : ℕ) (s : Slot) {t : Slot} (cs : List Call)
    → IsSound s
    → is_live s.job.public_state ≡ true
    → request_cancel quota_clock now s ≡ ok t
    → (is_stopping (history cs t).job ≡ true) × (no_artifact (history cs t).job ≡ true)
cancellation_is_final quota_clock now s {t} cs h live e =
    let sound = history-IsSound cs t (Move-IsSound (request_cancel-Move quota_clock now s e) h) in
    let stopping =
      history-keeps (λ (u : Slot). is_stopping u.job ≡ true) (λ u v m. is_stopping-move m.row) cs t
        (request_cancel-is_stopping quota_clock now s live e) in
    (stopping, no_artifact-is_stopping _ sound.checks stopping)
