-- ===== src/Quota/Delivery/Consumption.antt =====
-- The quota entry is spent when, and only when, every byte of the artifact has been served.
use fetch_now.Prelude.{
  ℕ, ◌≤◌, ◌<◌, ◌≡◌, refl, sym, ◌∙◌, ◌↔◌, ◌⊎◌, inl, inr, true, false, not, ◌||◌, none, some, List,
  [], ◌∷◌, arith, ltb, ltb→lt, Bool-cases, any, ok, All, All-order_by,
}
use fetch_now.Downloads.Model.{MediaDownloadJob}
use fetch_now.Quota.Model.{reserved, consumed, QuotaEntry, DeliveryRange, range_check}
use fetch_now.Quota.Intervals.Union.{Interval, covered}
use fetch_now.Quota.Intervals.Canonical.{normalize_intervals-full_iff}
use fetch_now.Quota.Ranges.{
  settle, lock_ranges, served_intervals, closed_intervals, or_zero, same_generation,
  assert_generation, is_whole, consume_locked, consume_if_complete, range_before,
}
use fetch_now.Quota.Delivery.Coverage.{served, serves, served-nil, served-cons, served-lock_ranges}

abbrev pub IsStored : DeliveryRange → Type 0
IsStored r = range_check r ≡ true

abbrev pub IsEvidence : MediaDownloadJob → DeliveryRange → Type 0
IsEvidence job r = same_generation job r ≡ true

is_whole_iff : (xs : List Interval) (size : ℕ) → (is_whole xs size ≡ true) ↔ (xs ≡ (0, size) ∷ [])
unfolding is_whole
is_whole_iff [] size = (λ h. cc, λ h. cc)
is_whole_iff ((s, e) ∷ []) size = (λ h. ground arith, λ h. ground arith)
is_whole_iff (i ∷ j ∷ xs) size = (λ h. cc, λ h. cc)

-- Evidence for an artifact of this size witnesses no byte behind its end.
served_behind :
    (job : MediaDownloadJob) (b : ℕ) (rows : List DeliveryRange)
    → All (λ r. IsStored r × IsEvidence job r) rows
    → or_zero job.artifact_bytes ≤ b
    → served b rows ≡ false
unfolding range_check same_generation
served_behind job b [] h le = served-nil b
served_behind job b (r ∷ rows) h le =
    rw (served-cons b r rows, served_behind job b rows h.1 le) (behind h.0.0 h.0.1)
  where
    behind : IsStored r → IsEvidence job r → (serves b r || false) ≡ false
    behind c g = ground arith

-- Every byte of the artifact has been served.
abbrev pub AllServed : MediaDownloadJob → List DeliveryRange → Type 0
AllServed job rows = (b : ℕ) → b < or_zero job.artifact_bytes → served b rows ≡ true

whole_iff :
    (job : MediaDownloadJob) (rows : List DeliveryRange)
    → 0 < or_zero job.artifact_bytes
    → All (λ r. IsStored r × IsEvidence job r) rows
    → (is_whole (closed_intervals (lock_ranges rows)) (or_zero job.artifact_bytes) ≡ true)
      ↔ AllServed job rows
unfolding closed_intervals
whole_iff job rows big h =
    let size = or_zero job.artifact_bytes in
    let full = normalize_intervals-full_iff (served_intervals (lock_ranges rows)) size big in
    let whole = is_whole_iff (closed_intervals (lock_ranges rows)) size in
    (
      λ w b lt. sym (bytes b) ∙ full.0 (whole.0 w) b ∙ ground arith,
      λ all. whole.1 (
          full.1 λ b. bytes b ∙ (elim (Bool-cases (ltb b size)) [
            | inl low ↦ all b (ltb→lt b size low) ∙ sym low
            | inr high ↦ served_behind job b rows h (ground arith) ∙ sym high
          ])),
    )
  where
    bytes : (b : ℕ) → covered b (served_intervals (lock_ranges rows)) ≡ served b rows
    bytes b = unfold served in served-lock_ranges b rows

All-lock_ranges :
    (P : DeliveryRange → Type 0) (rows : List DeliveryRange) → All P rows → All P (lock_ranges rows)
unfolding lock_ranges
All-lock_ranges P rows h = All-order_by P range_before rows h

no_mismatch :
    (job : MediaDownloadJob) (rows : List DeliveryRange)
    → All (λ r. IsStored r × IsEvidence job r) rows
    → any (λ r. not (same_generation job r)) rows ≡ false
no_mismatch job [] h = refl
no_mismatch job (r ∷ rows) h = rw (h.0.1, no_mismatch job rows h.1)

-- For a reserved entry whose ranges meet the CHECK constraints and witness the job's present
-- artifact, which is not empty: `_consume_if_complete` spends the entry exactly when every byte of
-- the artifact has been served, and otherwise leaves it as it was.
pub consume_if_complete_lem :
    (job : MediaDownloadJob) (entry : QuotaEntry) (rows : List DeliveryRange) (now : ℕ)
    → entry.state ≡ reserved
    → 0 < or_zero job.artifact_bytes
    → All (λ r. IsStored r × IsEvidence job r) rows
    → ((consume_if_complete job entry rows now
          ≡ ok (
            record { consumed = true; duplicate = false },
            record entry { state = consumed; consumed_at = some now; released_at = none },
          ))
        × AllServed job rows)
      ⊎ ((consume_if_complete job entry rows now
            ≡ ok (record { consumed = false; duplicate = false }, entry))
          × ¬ AllServed job rows)
unfolding consume_if_complete assert_generation
consume_if_complete_lem job entry rows now r big h =
    let whole = whole_iff job rows big h in
    let fine = no_mismatch job (lock_ranges rows) (All-lock_ranges _ rows h) in
    elim (Bool-cases
      (is_whole (closed_intervals (lock_ranges rows)) (or_zero job.artifact_bytes))) [
        | inl w ↦ inl (rw (r, fine, w) (unfold settle consume_locked in refl), whole.0 w)
        | inr n ↦ inr (rw (r, fine, n) (unfold settle in refl), λ all. cc (whole.1 all))
      ]
