-- ===== src/Downloads/History/Expiry.antt =====
-- One job cannot stop the batch that expires the due jobs.
use fetch_now.Prelude.{
  ℕ, ◌≡◌, refl, ap, ◌⊎◌, inl, inr, Bool, true, false, not, ◌&&◌, ◌||◌, Option, none, some, [], ◌∷◌,
  arith, if◌then◌else◌, Bool-cases, Option-cases, if-holds, any, Result, ◌>>=◌, ok, err, All,
}
use fetch_now.Downloads.States.{
  MediaDownloadJobState, cancelled, queued, downloading, ready, failed, expired, value, same_state,
  member, raw, assert_transition,
}
use fetch_now.Downloads.Model.{MediaDownloadJob}
use fetch_now.Downloads.Slot.{
  Slot, Fault, quota_step, lock_identity, is_coherent_promoted_premium_job,
}
use fetch_now.Downloads.Progress.{stored_cancelled}
use fetch_now.Downloads.Reaper.{
  Clocks, expire_row, apply_expired, due_to_expire, Expiry, is_ready, retire, retire_reserved,
  expire_reserved, expire_released, expire_ready, unchanged, expire_entry, expire_governed,
  expire_locked, isolate, expire_slot,
}
use fetch_now.Downloads.Moves.Expiry.{expiry_allowed}
use fetch_now.Quota.Model.{QuotaEntry, EntryState, is_reserved, QuotaError, invariant}
use fetch_now.Quota.Ranges.{release_locked}
use fetch_now.Quota.Delivery.{has_live_attempt, reconcile}
use fetch_now.Quota.Delivery.Raises.{IsKept, only_invariant, only_invariant-reconcile}

-- The job has expired and its artifact is reported, or its row is what it was.
abbrev pub Settled : ℕ → Slot → Expiry → Slot → Type 0
Settled now s x t =
    ((x.changed ≡ true) × (t.job ≡ expire_row now s.job) × (x.artifact ≡ s.job.artifact_id))
    ⊎ ((x.changed ≡ false) × (t.job ≡ s.job))

-- An outcome that the savepoint absorbs, or a settled one.
abbrev Absorbed : ℕ → Slot → Result Fault (Expiry × Slot) → Type 0
Absorbed now s (ok r) = Settled now s r.0 r.1
Absorbed now s (err (Fault.quota (invariant reason))) = Unit
Absorbed now s (err (Fault.quota (QuotaError.storage_unavailable reason))) = ⊥
Absorbed now s (err (Fault.quota (QuotaError.callback_raised reason))) = ⊥
Absorbed now s (err (Fault.quota QuotaError.integrity_error)) = ⊥
Absorbed now s (err (Fault.download e)) = ⊥
Absorbed now s (err Fault.integrity) = ⊥
Absorbed now s (err Fault.value_error) = ⊥

isolate-Absorbed :
    (now : ℕ) (s : Slot) (r : Result Fault (Expiry × Slot))
    → Absorbed now s r
    → (x : Expiry) × (t : Slot) × (isolate s r ≡ ok (x, t)) × Settled now s x t
isolate-Absorbed now s (ok r) h = (r.0, r.1, refl, h)
isolate-Absorbed now s (err (Fault.quota (invariant reason))) h = (_, s, refl, inr (refl, refl))
isolate-Absorbed now s (err (Fault.quota (QuotaError.storage_unavailable reason))) h = elim h [ ]
isolate-Absorbed now s (err (Fault.quota (QuotaError.callback_raised reason))) h = elim h [ ]
isolate-Absorbed now s (err (Fault.quota QuotaError.integrity_error)) h = elim h [ ]
isolate-Absorbed now s (err (Fault.download e)) h = elim h [ ]
isolate-Absorbed now s (err Fault.integrity) h = elim h [ ]
isolate-Absorbed now s (err Fault.value_error) h = elim h [ ]

ready_to_expire :
    (a : MediaDownloadJobState)
    → any (same_state a) (queued ∷ downloading ∷ ready ∷ failed ∷ []) ≡ true
    → assert_transition (raw (value a)) (member expired) ≡ ok tt
unfolding assert_transition
ready_to_expire queued h = refl
ready_to_expire downloading h = refl
ready_to_expire ready h = refl
ready_to_expire failed h = refl
ready_to_expire expired h = cc
ready_to_expire cancelled h = cc

due-is_old :
    (clock : ℕ) (j : MediaDownloadJob)
    → due_to_expire clock j ≡ true
    → stored_cancelled j ≡ false
    → any (same_state j.public_state) (queued ∷ downloading ∷ ready ∷ failed ∷ []) ≡ true
unfolding due_to_expire
due-is_old clock j h e = ground arith

due-expiry_allowed :
    (clock : ℕ) (j : MediaDownloadJob) → due_to_expire clock j ≡ true → expiry_allowed j ≡ ok tt
unfolding assert_transition
due-expiry_allowed clock j h = elim (Bool-cases (stored_cancelled j)) [
  | inl e ↦ rw (e) refl
  | inr e ↦ rw (e, ready_to_expire j.public_state (due-is_old clock j h e)) refl
]

module _ (now : ℕ) (s u : Slot) (same : u.job ≡ s.job)
    (allowed : expiry_allowed u.job ≡ ok tt) where
  retire-Absorbed : Absorbed now s (retire now u)
  unfolding retire apply_expired
  retire-Absorbed =
      rw (allowed)
        (inl (refl, ap (expire_row now) same, ap (λ (j : MediaDownloadJob). j.artifact_id) same))

  retire_reserved-Absorbed :
      (quota_clock : ℕ) (e : QuotaEntry) → Absorbed now s (retire_reserved quota_clock now e u)
  unfolding retire_reserved retire apply_expired release_locked
  retire_reserved-Absorbed quota_clock e = elim (Bool-cases (is_reserved e.state)) [
    | inl r ↦
        rw (allowed, r)
          (inl (refl, ap (expire_row now) same, ap (λ (j : MediaDownloadJob). j.artifact_id) same))
    | inr r ↦
        rw (allowed, r)
          (inl (refl, ap (expire_row now) same, ap (λ (j : MediaDownloadJob). j.artifact_id) same))
  ]

Absorbed-bind :
    {A : Type 0} (now : ℕ) (s : Slot) (r : Result QuotaError A)
    (next : A → Result Fault (Expiry × Slot))
    → only_invariant r ≡ true
    → ((a : A) → Absorbed now s (next a))
    → Absorbed now s (quota_step r >>= next)
Absorbed-bind now s (ok a) next h k = k a
Absorbed-bind now s (err (invariant reason)) next h k = tt
Absorbed-bind now s (err (QuotaError.storage_unavailable reason)) next h k = cc
Absorbed-bind now s (err (QuotaError.callback_raised reason)) next h k = cc
Absorbed-bind now s (err QuotaError.integrity_error) next h k = cc

expire_ready-Absorbed :
    (quota_clock now : ℕ) (fresh : ℕ → ℕ) (e : QuotaEntry) (s : Slot) (state : EntryState)
    → All (IsKept now) s.ranges
    → expiry_allowed s.job ≡ ok tt
    → e.state ≡ state
    → Absorbed now s (expire_ready quota_clock now fresh e s state)
unfolding expire_ready expire_reserved expire_released
expire_ready-Absorbed quota_clock now fresh e s EntryState.reserved kept allowed same =
    Absorbed-bind now s (reconcile s.job e now fresh s.ranges) _
      (only_invariant-reconcile s.job e now fresh s.ranges (rw (same) refl) kept)
      (λ r.
        if-holds (Absorbed now s) (is_reserved r.1.state && has_live_attempt r.2 now)
          (λ c. inr (refl, refl))
          (λ c.
            retire_reserved-Absorbed now s (record s { entry = some (r.1); ranges = r.2 }) refl
              allowed quota_clock r.1))
expire_ready-Absorbed quota_clock now fresh e s EntryState.consumed kept allowed same =
    retire_reserved-Absorbed now s s refl allowed quota_clock e
expire_ready-Absorbed quota_clock now fresh e s EntryState.released kept allowed same =
    if-holds (Absorbed now s) (has_live_attempt s.ranges now) (λ c. inr (refl, refl))
      (λ c.
        if-holds (Absorbed now s)
          (is_coherent_promoted_premium_job s.job.selected_format_snapshot e.anonymous_client_id)
          (λ d. retire_reserved-Absorbed now s s refl allowed quota_clock e)
          (λ d. retire-Absorbed now s s refl allowed))
expire_ready-Absorbed quota_clock now fresh e s EntryState.expired kept allowed same =
    if-holds (Absorbed now s) (has_live_attempt s.ranges now) (λ c. inr (refl, refl))
      (λ c. retire-Absorbed now s s refl allowed)

expire_entry-Absorbed :
    (quota_clock now : ℕ) (fresh : ℕ → ℕ) (s : Slot) (entry : Option QuotaEntry)
    → All (IsKept now) s.ranges
    → expiry_allowed s.job ≡ ok tt
    → Absorbed now s (expire_entry quota_clock now fresh s entry)
unfolding expire_entry expire_governed
expire_entry-Absorbed quota_clock now fresh s none kept allowed =
    retire-Absorbed now s s refl allowed
expire_entry-Absorbed quota_clock now fresh s (some e) kept allowed =
    if-holds (Absorbed now s) (is_ready s)
      (λ c. expire_ready-Absorbed quota_clock now fresh e s e.state kept allowed refl)
      (λ c. retire_reserved-Absorbed now s s refl allowed quota_clock e)

locked-Absorbed :
    (now : ℕ) (s : Slot) (next : Bool → Result Fault (Expiry × Slot))
    → ((g : Bool) → Absorbed now s (next g))
    → Absorbed now s (lock_identity s >>= next)
unfolding lock_identity
locked-Absorbed now s next h = elim (Option-cases s.entry) [
  | inl e ↦ rw (e) (h false)
  | inr (q, e) ↦ elim (Bool-cases s.client) [ inl c ↦ rw (e, c) (h true) | inr c ↦ rw (e, c) tt ]
]

-- Take any job, entry and grants, and ranges that meet their CHECK constraints and were begun at
-- `now` at the latest. Then with any readings of the clock and any lock on the row, `expire_due_jobs`
-- raises nothing at this job: it expires it and reports its artifact, or leaves its row as it was.
-- The CHECK constraints of the quota entry are outside the model.
pub expire_slot_never_raises :
    (clocks : Clocks) (locked : Bool) (now : ℕ) (fresh : ℕ → ℕ) (s : Slot)
    → All (IsKept now) s.ranges
    → (x : Expiry) × (t : Slot) × (expire_slot clocks locked now fresh s ≡ ok (x, t))
      × Settled now s x t
unfolding expire_slot expire_locked
expire_slot_never_raises clocks locked now fresh s kept =
    elim (Bool-cases (due_to_expire clocks.listed s.job)) [
      | inr e ↦ (unchanged, s, rw (e) refl, inr (refl, refl))
      | inl e ↦
          let (x, t, same, settled) = isolate-Absorbed now s _ (
            locked-Absorbed now s
              (λ g.
                if locked || not (due_to_expire clocks.selected s.job)
                then ok (unchanged, s)
                else expire_locked clocks.dated now fresh s)
              (λ g.
                if-holds (Absorbed now s) (locked || not (due_to_expire clocks.selected s.job))
                  (λ c. inr (refl, refl))
                  (λ c.
                    expire_entry-Absorbed clocks.dated now fresh s s.entry kept
                      (due-expiry_allowed clocks.listed s.job e)))) in
          (x, t, rw (e) same, settled)
    ]
