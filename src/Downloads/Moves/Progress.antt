-- ===== src/Downloads/Moves/Progress.antt =====
-- The cancellation and the progress methods make moves.
use fetch_now.Prelude.{
  ℕ, ◌≤◌, String, ◌≡◌, refl, subst, inl, inr, Bool, true, not, ◌&&◌, ◌||◌, Option, none, some, [],
  ◌∷◌, arith, ltb, leb, ◌==◌, leb→le, is_some, and_true, not-false, if-holds, if-cases, any, ℤ, pos,
  negsuc, >>=-eq-ok, ok-injective, ok,
}
use fetch_now.Downloads.States.{queued, downloading, ready, failed, expired, same_state}
use fetch_now.Downloads.Stages
use fetch_now.Downloads.Stages.{
  DownloadProgressStage, StageArg, same_stage, terminal_progress, assert_progress_transition,
}
use fetch_now.Downloads.Model.{MediaDownloadJob, counts_bytes}
use fetch_now.Downloads.Slot.{Slot, download_step, lock_identity, store}
use fetch_now.Downloads.Worker.{holds_lease, not_cancelled}
use fetch_now.Downloads.Progress.{
  LeaseStatus, apply_stored_cancel, stored_cancelled, mark_requested, request_cancel, runs_for,
  stage_row, read_stage, move_stage, set_progress_stage, put_percent, write_percent,
  set_progress_percent, lease_status,
}
use fetch_now.Downloads.Moves.{RowMove, Move, running, is_live}
use fetch_now.Downloads.Moves.Entries.{stay, moved_row, ended}
use fetch_now.Downloads.Moves.Worker.{
  holds_lease-running, running-is_live, returned, stored_row, renew_lease-Move,
}

mark_requested-is_live :
    (now : ℕ) (j : MediaDownloadJob)
    → running j ≡ true
    → is_live (mark_requested now j).public_state ≡ true
unfolding mark_requested
mark_requested-is_live now j run =
    if-holds (λ (k : MediaDownloadJob). is_live k.public_state ≡ true)
      (is_some j.cancel_requested_at) (λ e. running-is_live j run) (λ e. running-is_live j run)

pub request_cancel-Move :
    (quota_clock now : ℕ) (s : Slot) {t : Slot} → request_cancel quota_clock now s ≡ ok t → Move s t
unfolding request_cancel
request_cancel-Move quota_clock now s {t} e =
    let (g, locked, e1) = >>=-eq-ok (lock_identity s) _ e in
    elim (if-cases
      (stored_cancelled s.job
        || any (same_state s.job.public_state) (ready ∷ failed ∷ expired ∷ []))
      _ _ e1) [
        | inl (c, e2) ↦ subst (Move s) (ok-injective e2) (stay s)
        | inr (c, e2) ↦ elim (if-cases (same_state s.job.public_state queued) _ _ e2) [
          | inl (c1, e3) ↦
              ended s _ g quota_clock (RowMove.drop now c1) (unfold apply_stored_cancel in refl)
                locked e3
          | inr (c1, e3) ↦ elim (if-cases (same_state s.job.public_state downloading) _ _ e3) [
            | inl (run, e4) ↦ subst (Move s) (ok-injective e4) (
                moved_row s _ (RowMove.request now run) (running-is_live s.job run)
                  (mark_requested-is_live now s.job run))
            | inr (run, e4) ↦ cc
          ]
        ]
      ]

pub runs_for-running :
    (owner : String) (fence : ℕ) (j : MediaDownloadJob)
    → runs_for owner fence j ≡ true
    → (running j ≡ true) × (not_cancelled j ≡ true)
unfolding runs_for
runs_for-running owner fence j h = (ground arith, ground arith)

move_stage-Move :
    (owner : String) (fence : ℕ) (target : DownloadProgressStage) (now : ℕ) (s : Slot) {b : Bool}
    {t : Slot}
    → move_stage owner fence target now s ≡ ok (b, t)
    → Move s t
unfolding move_stage
move_stage-Move owner fence target now s e =
    elim (if-cases (any (same_stage target) terminal_progress) _ _ e) [
      | inl (c, e1) ↦ returned s e1 (stay s)
      | inr (c, e1) ↦ elim (if-cases (not (runs_for owner fence s.job)) _ _ e1) [
        | inl (c1, e2) ↦ returned s e2 (stay s)
        | inr (c1, e2) ↦
            let (run, kept) = runs_for-running owner fence s.job (not-false _ c1) in
            let (x, allowed, e3) =
              >>=-eq-ok
                (download_step (
                  assert_progress_transition (StageArg.raw (Stages.value s.job.progress_stage))
                    (StageArg.member target)))
                _ e2 in
            let (done, written, e4) = >>=-eq-ok (store (stage_row target now s.job) s) _ e3 in
            let (valid, same) = stored_row s (stage_row target now s.job) written in
            returned s e4 (
              subst (Move s) same (
                moved_row s _ (RowMove.stage target now run kept valid) (running-is_live s.job run)
                  (unfold stage_row in running-is_live s.job run)))
      ]
    ]

pub set_progress_stage-Move :
    (owner : String) (fence : ℕ) (stage : StageArg) (now : ℕ) (s : Slot) {b : Bool} {t : Slot}
    → set_progress_stage owner fence stage now s ≡ ok (b, t)
    → Move s t
unfolding set_progress_stage
set_progress_stage-Move owner fence stage now s e =
    let (target, known, e1) = >>=-eq-ok (read_stage stage) _ e in
    move_stage-Move owner fence target now s e1

pub lease_status-Move :
    (clock renewed : ℕ) (owner : String) (fence lease : ℕ) (s : Slot)
    → Move s (lease_status clock renewed owner fence lease s).1
unfolding lease_status
lease_status-Move clock renewed owner fence lease s =
    if-holds (λ (r : LeaseStatus × Slot). Move s r.1) (not (holds_lease clock owner fence s.job))
      (λ e. stay s)
      (λ e.
        if-holds (λ (r : LeaseStatus × Slot). Move s r.1) (is_some s.job.cancel_requested_at)
          (λ e. stay s) (λ e. renew_lease-Move renewed owner fence lease s))

write_percent-Move :
    (p now : ℕ) (stored : Option ℕ) (s : Slot)
    → running s.job ≡ true
    → p ≤ 99
    → counts_bytes s.job.progress_stage ≡ true
    → Move s (write_percent p now stored s).1
unfolding write_percent
write_percent-Move p now none s run le c =
    moved_row s _ (RowMove.percent p now run le c) (running-is_live s.job run)
      (running-is_live s.job run)
write_percent-Move p now (some stored) s run le c =
    if-holds (λ (r : Bool × Slot). Move s r.1) (ltb p stored) (λ e. stay s)
      (λ e.
        if-holds (λ (r : Bool × Slot). Move s r.1) (p == stored) (λ e. stay s)
          (λ e.
            moved_row s _ (RowMove.percent p now run le c) (running-is_live s.job run)
              (running-is_live s.job run)))

put_percent-Move :
    (clock : ℕ) (owner : String) (fence now p : ℕ) (s : Slot)
    → p ≤ 99
    → Move s (put_percent clock owner fence now (some p) s).1
put_percent-Move clock owner fence now p s le =
    if-holds (λ (r : Bool × Slot). Move s r.1)
      (holds_lease clock owner fence s.job
        && not_cancelled s.job
        && counts_bytes s.job.progress_stage)
      (λ e.
        let (held, counted) = and_true _ _ e in
        write_percent-Move p now s.job.progress_percent s
          (holds_lease-running clock owner fence s.job (and_true _ _ held).0) le counted)
      (λ e. stay s)

pub set_progress_percent-Move :
    (clock : ℕ) (owner : String) (fence : ℕ) (percent : ℤ) (now : ℕ) (s : Slot)
    → Move s (set_progress_percent clock owner fence percent now s).1
unfolding set_progress_percent
set_progress_percent-Move clock owner fence (pos n) now s =
    if-holds (λ (o : Option ℕ). Move s (put_percent clock owner fence now o s).1) (leb n 99)
      (λ e. put_percent-Move clock owner fence now n s (leb→le n 99 e)) (λ e. stay s)
set_progress_percent-Move clock owner fence (negsuc n) now s = stay s
