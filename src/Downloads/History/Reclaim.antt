-- ===== src/Downloads/History/Reclaim.antt =====
-- An expired lease is always reclaimed, and when a report of progress fails.
use fetch_now.Prelude.{
  ℕ, ◌+◌, ◌≡◌, refl, subst, inl, inr, true, false, none, some, arith, if◌then◌else◌, Bool-cases,
  is_some, Option-cases, ok,
}
use fetch_now.Downloads.States.{
  MediaDownloadJobState, queued, downloading, failed, expired, assert_transition,
}
use fetch_now.Downloads.Model.{MediaDownloadJob}
use fetch_now.Downloads.Slot.{Slot, lock_identity, release_quota}
use fetch_now.Downloads.Progress.{apply_stored_cancel}
use fetch_now.Downloads.Reaper.{
  lease_expired, exhausted, reclaim_row, bump_fence, reclaim_locked, Clocks, reclaim_slot,
}
use fetch_now.Quota.Model.{EntryState, is_reserved}
use fetch_now.Quota.Ranges.{release_locked}
use fetch_now.Downloads.Moves.Laws.{running-eq}
use fetch_now.Downloads.Moves.{running, coupled}
use fetch_now.Downloads.History.Invariants.{IsSound}

lock_identity-client : (s : Slot) → s.client ≡ true → lock_identity s ≡ ok (is_some s.entry)
unfolding lock_identity
lock_identity-client s c = elim (Option-cases s.entry) [
  | inl e ↦ rw (e) refl
  | inr (q, e) ↦ rw (e, c) refl
]

-- A running job's reservation can be released.
release_quota-running :
    (s : Slot) (j : MediaDownloadJob) (clock : ℕ)
    → coupled downloading s.entry ≡ true
    → (t : Slot) × (release_quota (is_some s.entry) clock (record s { job = j }) ≡ ok t)
      × (t.job ≡ j)
unfolding release_quota release_locked
release_quota-running s j clock c = elim (Option-cases s.entry) [
  | inl e ↦ (record s { job = j }, rw (e) refl, refl)
  | inr (q, e) ↦
      let r : is_reserved q.state ≡ true = subst (λ o. coupled downloading o ≡ true) e c in
      (
        record s {
          job = j;
          entry = some (record q {
            state = EntryState.released;
            consumed_at = none;
            released_at = some clock;
          });
        },
        rw (e, r) refl,
        refl,
      )
]

lease_expired-running :
    (clock : ℕ) (j : MediaDownloadJob) → lease_expired clock j ≡ true → running j ≡ true
unfolding lease_expired
lease_expired-running clock j h = ground arith

-- Where a reclaimed job goes.
abbrev pub next_state : MediaDownloadJob → MediaDownloadJobState
next_state j =
    if is_some j.cancel_requested_at then expired else if exhausted j then failed else queued

stopped_row :
    (now : ℕ) (j : MediaDownloadJob)
    → is_some j.cancel_requested_at ≡ true
    → ((bump_fence (apply_stored_cancel now j)).public_state ≡ next_state j)
      × ((bump_fence (apply_stored_cancel now j)).fence_token ≡ j.fence_token + 1)
unfolding apply_stored_cancel
stopped_row now j asked = (rw (asked) refl, refl)

reclaimed_row :
    (now : ℕ) (j : MediaDownloadJob)
    → is_some j.cancel_requested_at ≡ false
    → ((reclaim_row now j).public_state ≡ next_state j)
      × ((reclaim_row now j).fence_token ≡ j.fence_token + 1)
unfolding reclaim_row
reclaimed_row now j asked = (rw (asked) refl, refl)

reclaim_locked-total :
    (quota_clock now : ℕ) (s : Slot)
    → coupled downloading s.entry ≡ true
    → (t : Slot) × (reclaim_locked (is_some s.entry) quota_clock now s ≡ ok t)
      × (t.job.public_state ≡ next_state s.job)
      × (t.job.fence_token ≡ s.job.fence_token + 1)
unfolding reclaim_locked assert_transition
reclaim_locked-total quota_clock now s c = elim (Bool-cases (is_some s.job.cancel_requested_at)) [
  | inl asked ↦
      let (t, freed, row) =
        release_quota-running s (bump_fence (apply_stored_cancel now s.job)) quota_clock c in
      let (state, fence) = stopped_row now s.job asked in
      (t, rw (asked) freed, rw (row) state, rw (row) fence)
  | inr asked ↦
      let (state, fence) = reclaimed_row now s.job asked in
      elim (Bool-cases (exhausted s.job)) [
        | inl out ↦
            let (t, freed, row) = release_quota-running s (reclaim_row now s.job) quota_clock c in
            (t, rw (asked, out) freed, rw (row) state, rw (row) fence)
        | inr out ↦ (record s { job = reclaim_row now s.job }, rw (asked, out) refl, state, fence)
      ]
]

-- Take a sound job whose quota identity, where it is governed, exists. When its lease has run out at
-- both readings of the clock and no other transaction holds the row, `reclaim_expired_leases`
-- changes it: a job that was asked to stop expires, one without attempts left fails, and any other
-- is queued again. The fence token is one higher, so that the old lease is over.
pub reclaim_slot_frees_job :
    (clocks : Clocks) (now : ℕ) (s : Slot)
    → IsSound s
    → s.client ≡ true
    → lease_expired clocks.listed s.job ≡ true
    → lease_expired clocks.selected s.job ≡ true
    → (t : Slot) × (reclaim_slot clocks false now s ≡ ok (true, t))
      × (t.job.public_state ≡ next_state s.job)
      × (t.job.fence_token ≡ s.job.fence_token + 1)
unfolding reclaim_slot
reclaim_slot_frees_job clocks now s h client listed selected =
    let run = running-eq s.job (lease_expired-running clocks.listed s.job listed) in
    let (t, done, state, fence) =
      reclaim_locked-total clocks.dated now s (subst (λ a. coupled a s.entry ≡ true) run h.pairs) in
    (t, rw (listed, lock_identity-client s client, selected, done) refl, state, fence)
