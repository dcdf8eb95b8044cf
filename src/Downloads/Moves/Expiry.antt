-- ===== src/Downloads/Moves/Expiry.antt =====
-- Expiries make moves.
use fetch_now.Prelude.{
  ℕ, ◌≡◌, refl, sym, ap, ◌∙◌, subst, ◌⊎◌, inl, inr, Bool, true, false, not, ◌&&◌, ◌||◌, Option,
  none, some, arith, if◌then◌else◌, if-cases, Result, >>=-eq-ok, >>-eq-ok, ok-injective, ok, err,
}
use fetch_now.Downloads.States.{
  cancelled, ready, expired, value, same_state, member, raw, assert_transition,
}
use fetch_now.Downloads.Model.{MediaDownloadJob}
use fetch_now.Downloads.Slot.{
  Slot, Fault, download_step, quota_step, lock_identity, is_coherent_promoted_premium_job,
}
use fetch_now.Downloads.Progress.{stored_cancelled}
use fetch_now.Downloads.Reaper.{
  Clocks, expire_row, apply_expired, due_to_expire, Expiry, is_ready, retire, retire_reserved,
  expire_reserved, expire_released, expire_ready, expire_entry, expire_governed, expire_locked,
  isolate, expire_slot,
}
use fetch_now.Quota.Model.{QuotaEntry, EntryState, is_reserved, QuotaError, invariant}
use fetch_now.Quota.Ranges.{release_locked}
use fetch_now.Quota.Delivery.{has_live_attempt, reconcile}
use fetch_now.Downloads.Moves.{RowMove, Move, is_live, unreserved}
use fetch_now.Downloads.Moves.Entries.{stay}
use fetch_now.Downloads.Moves.Worker.{returned}

abbrev pub expiry_allowed : MediaDownloadJob → Result Fault Unit
expiry_allowed j = download_step (
    if stored_cancelled j
    then assert_transition (member cancelled) (member expired)
    else assert_transition (raw (value j.public_state)) (member expired))

retire-row :
    (now : ℕ) (s : Slot) {x : Expiry} {t : Slot}
    → retire now s ≡ ok (x, t)
    → (t.job ≡ expire_row now s.job) × (t.entry ≡ s.entry) × (t.client ≡ s.client)
unfolding retire apply_expired
retire-row now s {x} {t} e =
    let (p, stepped, e1) = >>=-eq-ok (apply_expired now s.job) _ e in
    let expired_row = >>-eq-ok (expiry_allowed s.job) _ stepped in
    let same = ok-injective e1 in
    (
      sym (ap (λ (q : Expiry × Slot). q.1.job) same)
          ∙ sym (ap (λ (q : Option ℕ × MediaDownloadJob). q.1) (ok-injective expired_row)),
      sym (ap (λ (q : Expiry × Slot). q.1.entry) same),
      sym (ap (λ (q : Expiry × Slot). q.1.client) same),
    )

expire_row-is_live :
    (now : ℕ) (j : MediaDownloadJob) → is_live (expire_row now j).public_state ≡ false
unfolding expire_row
expire_row-is_live now j = refl

-- An expired job without a reservation.
expired-Move :
    (now : ℕ) (s t : Slot)
    → t.job ≡ expire_row now s.job
    → unreserved t.entry ≡ true
    → t.client ≡ s.client
    → Move s t
expired-Move now s t row free client = record {
  row = subst (RowMove s.job) (sym row) (RowMove.expire now);
  entries = inr (
      inr (
        inr (
          free,
          subst (λ j. is_live j.public_state ≡ false) (sym row) (expire_row-is_live now s.job),
        )));
  client = client;
}

retire-Move :
    (now : ℕ) (s : Slot) {x : Expiry} {t : Slot}
    → unreserved s.entry ≡ true
    → retire now s ≡ ok (x, t)
    → Move s t
retire-Move now s {x} {t} free e =
    let (row, entry, client) = retire-row now s e in
    expired-Move now s t row (subst (λ o. unreserved o ≡ true) (sym entry) free) client

freed-unreserved :
    (e : QuotaEntry) (clock : ℕ) {f : QuotaEntry}
    → (if is_reserved e.state then quota_step (release_locked e clock true) else ok e) ≡ ok f
    → not (is_reserved f.state) ≡ true
unfolding release_locked
freed-unreserved e clock h = ground arith

retire_reserved-row :
    (quota_clock now : ℕ) (e : QuotaEntry) (s : Slot) {x : Expiry} {t : Slot}
    → retire_reserved quota_clock now e s ≡ ok (x, t)
    → (t.job ≡ expire_row now s.job) × (unreserved t.entry ≡ true) × (t.client ≡ s.client)
unfolding retire_reserved
retire_reserved-row quota_clock now e s {x} {t} h =
    let (p, retired, h1) = >>=-eq-ok (retire now s) _ h in
    let (row, entry, client) = retire-row now s retired in
    let (f, freed, h2) =
      >>=-eq-ok
        (if is_reserved e.state then quota_step (release_locked e quota_clock true) else ok e) _
        h1 in
    let same = ok-injective h2 in
    (
      sym (ap (λ (q : Expiry × Slot). q.1.job) same) ∙ row,
      subst (λ (q : Expiry × Slot). unreserved q.1.entry ≡ true) same
          (freed-unreserved e quota_clock freed),
      sym (ap (λ (q : Expiry × Slot). q.1.client) same) ∙ client,
    )

retire_reserved-Move :
    (quota_clock now : ℕ) (e : QuotaEntry) (s : Slot) {x : Expiry} {t : Slot}
    → retire_reserved quota_clock now e s ≡ ok (x, t)
    → Move s t
retire_reserved-Move quota_clock now e s {x} {t} h =
    let (row, free, client) = retire_reserved-row quota_clock now e s h in
    expired-Move now s t row free client

-- A ready job that waits for its delivery keeps its row.
waiting : (s t : Slot) → is_ready s ≡ true → t.job ≡ s.job → t.client ≡ s.client → Move s t
waiting s t done same client = record {
  row = subst (RowMove s.job) (sym same) RowMove.idle;
  entries = inr (inr (inl (subst (λ j. same_state j.public_state ready ≡ true) (sym same) done)));
  client = client;
}

reserved-Move :
    (quota_clock now : ℕ) (fresh : ℕ → ℕ) (e : QuotaEntry) (s : Slot) {x : Expiry} {t : Slot}
    → is_ready s ≡ true
    → expire_reserved quota_clock now fresh e s ≡ ok (x, t)
    → Move s t
unfolding expire_reserved
reserved-Move quota_clock now fresh e s {x} {t} done h =
    let (r, settled, h1) = >>=-eq-ok (quota_step (reconcile s.job e now fresh s.ranges)) _ h in
    let kept = record s { entry = some (r.1); ranges = r.2 } in
    elim (if-cases (is_reserved r.1.state && has_live_attempt r.2 now) _ _ h1) [
      | inl (c, h2) ↦ returned s h2 (waiting s kept done refl refl)
      | inr (c, h2) ↦
          let (row, free, client) = retire_reserved-row quota_clock now r.1 kept h2 in
          expired-Move now s t row free client
    ]

released-Move :
    (quota_clock now : ℕ) (e : QuotaEntry) (s : Slot) {x : Expiry} {t : Slot}
    → s.entry ≡ some e
    → e.state ≡ EntryState.released
    → expire_released quota_clock now e s ≡ ok (x, t)
    → Move s t
unfolding expire_released
released-Move quota_clock now e s held state h =
    elim (if-cases (has_live_attempt s.ranges now) _ _ h) [
      | inl (c, h1) ↦ returned s h1 (stay s)
      | inr (c, h1) ↦
          elim (if-cases
            (is_coherent_promoted_premium_job s.job.selected_format_snapshot e.anonymous_client_id)
            _ _ h1) [
              | inl (c1, h2) ↦ retire_reserved-Move quota_clock now e s h2
              | inr (c1, h2) ↦ retire-Move now s (rw (held, state) refl) h2
            ]
    ]

ready-Move :
    (quota_clock now : ℕ) (fresh : ℕ → ℕ) (e : QuotaEntry) (s : Slot) (state : EntryState)
    {x : Expiry} {t : Slot}
    → is_ready s ≡ true
    → s.entry ≡ some e
    → e.state ≡ state
    → expire_ready quota_clock now fresh e s state ≡ ok (x, t)
    → Move s t
unfolding expire_ready
ready-Move quota_clock now fresh e s EntryState.reserved done held same h =
    reserved-Move quota_clock now fresh e s done h
ready-Move quota_clock now fresh e s EntryState.consumed done held same h =
    retire_reserved-Move quota_clock now e s h
ready-Move quota_clock now fresh e s EntryState.released done held same h =
    released-Move quota_clock now e s held same h
ready-Move quota_clock now fresh e s EntryState.expired done held same h =
    elim (if-cases (has_live_attempt s.ranges now) _ _ h) [
      | inl (c, h1) ↦ returned s h1 (stay s)
      | inr (c, h1) ↦ retire-Move now s (rw (held, same) refl) h1
    ]

locked-Move :
    (quota_clock now : ℕ) (fresh : ℕ → ℕ) (s : Slot) (held : Option QuotaEntry) {x : Expiry}
    {t : Slot}
    → s.entry ≡ held
    → expire_entry quota_clock now fresh s held ≡ ok (x, t)
    → Move s t
unfolding expire_entry expire_governed
locked-Move quota_clock now fresh s none held h = retire-Move now s (rw (held) refl) h
locked-Move quota_clock now fresh s (some e) held h = elim (if-cases (is_ready s) _ _ h) [
  | inl (c, h1) ↦ ready-Move quota_clock now fresh e s e.state c held refl h1
  | inr (c, h1) ↦ retire_reserved-Move quota_clock now e s h1
]

isolate-eq-ok :
    (s : Slot) (r : Result Fault (Expiry × Slot)) {x : Expiry} {t : Slot}
    → isolate s r ≡ ok (x, t)
    → (r ≡ ok (x, t)) ⊎ (t ≡ s)
isolate-eq-ok s (ok r) h = inl h
isolate-eq-ok s (err (Fault.quota (invariant reason))) h =
    inr (sym (ap (λ (q : Expiry × Slot). q.1) (ok-injective h)))
isolate-eq-ok s (err (Fault.quota (QuotaError.storage_unavailable reason))) h = cc
isolate-eq-ok s (err (Fault.quota (QuotaError.callback_raised reason))) h = cc
isolate-eq-ok s (err (Fault.quota QuotaError.integrity_error)) h = cc
isolate-eq-ok s (err (Fault.download e)) h = cc
isolate-eq-ok s (err Fault.integrity) h = cc
isolate-eq-ok s (err Fault.value_error) h = cc

pub expire_slot-Move :
    (clocks : Clocks) (locked : Bool) (now : ℕ) (fresh : ℕ → ℕ) (s : Slot) {x : Expiry} {t : Slot}
    → expire_slot clocks locked now fresh s ≡ ok (x, t)
    → Move s t
unfolding expire_slot expire_locked
expire_slot-Move clocks locked now fresh s h =
    elim (if-cases (not (due_to_expire clocks.listed s.job)) _ _ h) [
      | inl (c, h1) ↦ returned s h1 (stay s)
      | inr (c, h1) ↦ elim (isolate-eq-ok s _ h1) [
        | inr same ↦ subst (Move s) (sym same) (stay s)
        | inl h2 ↦
            let (g, identity, h3) = >>=-eq-ok (lock_identity s) _ h2 in
            elim (if-cases (locked || not (due_to_expire clocks.selected s.job)) _ _ h3) [
              | inl (c1, h4) ↦ returned s h4 (stay s)
              | inr (c1, h4) ↦ locked-Move clocks.dated now fresh s s.entry refl h4
            ]
      ]
    ]
