-- ===== src/Downloads/Moves/Reaper.antt =====
-- Claims and reclaims make moves.
use fetch_now.Prelude.{
  ℕ, String, ◌≡◌, refl, subst, inl, inr, Bool, true, false, not, ◌||◌, arith, if◌then◌else◌,
  is_some, or_false, not-false, if-cases, >>=-eq-ok, >>-eq-ok, ok-injective, ok,
}
use fetch_now.Downloads.States.{
  queued, downloading, failed, expired, value, member, raw, assert_transition,
}
use fetch_now.Downloads.Model.{MediaDownloadJob}
use fetch_now.Downloads.Slot.{Slot, download_step, lock_identity}
use fetch_now.Downloads.Progress.{apply_stored_cancel}
use fetch_now.Downloads.Reaper.{
  valid_worker, claimable, claim_row, claim_slot, try_claim, lease_expired, exhausted, reclaim_row,
  bump_fence, reclaim_locked, Clocks, reclaim_slot,
}
use fetch_now.Downloads.Moves.{RowMove, Move, running, is_live}
use fetch_now.Downloads.Moves.Entries.{stay, moved_row, ended}
use fetch_now.Downloads.Moves.Worker.{running-is_live, returned}

claimable-is_live :
    (clock : ℕ) (j : MediaDownloadJob) → claimable clock j ≡ true → is_live j.public_state ≡ true
unfolding claimable
claimable-is_live clock j h = ground arith

claim_slot-Move :
    (clock : ℕ) (worker : String) (lease now : ℕ) (s : Slot) {t : Slot}
    → claimable clock s.job ≡ true
    → claim_slot worker lease now s ≡ ok t
    → Move s t
unfolding claim_slot
claim_slot-Move clock worker lease now s {t} c e =
    let e1 =
      >>-eq-ok
        (download_step (assert_transition (raw (value s.job.public_state)) (member downloading))) _
        e in
    subst (Move s) (ok-injective e1) (
      moved_row s _ (RowMove.claim clock worker lease now c) (claimable-is_live clock s.job c)
        (unfold claim_row in refl))

pub try_claim-Move :
    (clock : ℕ) (passed_over : Bool) (worker : String) (lease now : ℕ) (s : Slot) {b : Bool}
    {t : Slot}
    → try_claim clock passed_over worker lease now s ≡ ok (b, t)
    → Move s t
unfolding try_claim
try_claim-Move clock passed_over worker lease now s e =
    elim (if-cases (not (valid_worker worker)) _ _ e) [
      | inl (c, e1) ↦ cc
      | inr (c, e1) ↦ elim (if-cases (passed_over || not (claimable clock s.job)) _ _ e1) [
        | inl (d, e2) ↦ returned s e2 (stay s)
        | inr (d, e2) ↦
            let (claimed, done, e3) = >>=-eq-ok (claim_slot worker lease now s) _ e2 in
            returned s e3
              (claim_slot-Move clock worker lease now s (not-false _ (or_false _ _ d).1) done)
      ]
    ]

lease_expired-running :
    (clock : ℕ) (j : MediaDownloadJob) → lease_expired clock j ≡ true → running j ≡ true
unfolding lease_expired
lease_expired-running clock j h = ground arith

requeued_row-is_live :
    (now : ℕ) (j : MediaDownloadJob)
    → exhausted j ≡ false
    → is_live (reclaim_row now j).public_state ≡ true
unfolding reclaim_row
requeued_row-is_live now j h = ground arith

failed_row-is_live :
    (now : ℕ) (j : MediaDownloadJob)
    → exhausted j ≡ true
    → is_live (reclaim_row now j).public_state ≡ false
unfolding reclaim_row
failed_row-is_live now j h = ground arith

reclaim_locked-Move :
    (g : Bool) (quota_clock now : ℕ) (s : Slot) {t : Slot}
    → running s.job ≡ true
    → lock_identity s ≡ ok g
    → reclaim_locked g quota_clock now s ≡ ok t
    → Move s t
unfolding reclaim_locked
reclaim_locked-Move g quota_clock now s {t} run locked e =
    elim (if-cases (is_some s.job.cancel_requested_at) _ _ e) [
      | inl (c, e1) ↦
          let e2 =
            >>-eq-ok (download_step (assert_transition (member downloading) (member expired))) _
              e1 in
          ended s (bump_fence (apply_stored_cancel now s.job)) g quota_clock
            (unfold apply_stored_cancel in RowMove.stop now run c)
            (unfold apply_stored_cancel in refl) locked e2
      | inr (c, e1) ↦
          let (x, allowed, e2) =
            >>=-eq-ok
              (download_step (
                assert_transition (member downloading)
                  (member (if exhausted s.job then failed else queued))))
              _ e1 in
          let m : RowMove s.job (reclaim_row now s.job) = RowMove.reclaim now run (rw (c) refl) in
          elim (if-cases (exhausted s.job) _ _ e2) [
            | inl (out, e3) ↦ ended s _ g quota_clock m (failed_row-is_live now s.job out) locked e3
            | inr (out, e3) ↦
                subst (Move s) (ok-injective e3)
                  (moved_row s _ m (running-is_live s.job run) (requeued_row-is_live now s.job out))
          ]
    ]

pub reclaim_slot-Move :
    (clocks : Clocks) (locked : Bool) (now : ℕ) (s : Slot) {b : Bool} {t : Slot}
    → reclaim_slot clocks locked now s ≡ ok (b, t)
    → Move s t
unfolding reclaim_slot
reclaim_slot-Move clocks locked now s e =
    elim (if-cases (not (lease_expired clocks.listed s.job)) _ _ e) [
      | inl (c, e1) ↦ returned s e1 (stay s)
      | inr (c, e1) ↦
          let (g, held, e2) = >>=-eq-ok (lock_identity s) _ e1 in
          elim (if-cases (locked || not (lease_expired clocks.selected s.job)) _ _ e2) [
            | inl (c1, e3) ↦ returned s e3 (stay s)
            | inr (c1, e3) ↦
                let (moved, done, e4) = >>=-eq-ok (reclaim_locked g clocks.dated now s) _ e3 in
                returned s e4 (
                  reclaim_locked-Move g clocks.dated now s
                    (lease_expired-running clocks.listed s.job (not-false _ c)) held done)
          ]
    ]
