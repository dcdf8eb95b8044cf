-- ===== src/Quota/Delivery/Raises.antt =====
-- What settling a delivery raises (backend/src/fetchnow/quota/delivery.py).
use fetch_now.Prelude.{
  ℕ, ◌≤◌, ◌≡◌, refl, inl, inr, Bool, true, false, not, List, [], ◌∷◌, arith, Bool-cases, any,
  Result, ◌>>=◌, ok, err, All, All-order_by, keep,
}
use fetch_now.Downloads.Model.{MediaDownloadJob}
use fetch_now.Quota.Model.{
  QuotaEntry, is_consumed, is_reserved, QuotaError, invariant, DeliveryRange, range_check,
}
use fetch_now.Quota.Ranges.{
  consume_locked, assert_generation, same_generation, or_zero, lock_ranges, close_stale,
  compact_closed, replaced, closed_intervals, is_closed, consume_if_complete, settle,
}
use fetch_now.Quota.Delivery.{reconcile, is_stale}
use fetch_now.Quota.Delivery.Checks.{
  Fits, fragments-closed_intervals, Fits-close_stale, Fits-lock_ranges, Fits-keep,
}

-- A row as the table holds it, begun at `now` at the latest.
abbrev pub IsKept : ℕ → DeliveryRange → Type 0
IsKept now r = (range_check r ≡ true) × (r.started_at ≤ now)

-- What the quota's methods raise is at most a QuotaInvariantError.
abbrev pub only_invariant : {A : Type 0} → Result QuotaError A → Bool
only_invariant (ok a) = true
only_invariant (err (invariant reason)) = true
only_invariant (err (QuotaError.storage_unavailable reason)) = false
only_invariant (err (QuotaError.callback_raised reason)) = false
only_invariant (err QuotaError.integrity_error) = false

invariant-bind :
    {A B : Type 0} (r : Result QuotaError A) (next : A → Result QuotaError B)
    → only_invariant r ≡ true
    → ((a : A) → only_invariant (next a) ≡ true)
    → only_invariant (r >>= next) ≡ true
invariant-bind (ok a) next h k = k a
invariant-bind (err (invariant reason)) next h k = refl
invariant-bind (err (QuotaError.storage_unavailable reason)) next h k = cc
invariant-bind (err (QuotaError.callback_raised reason)) next h k = cc
invariant-bind (err QuotaError.integrity_error) next h k = cc

only_invariant-assert_generation :
    (rows : List DeliveryRange) (job : MediaDownloadJob)
    → only_invariant (assert_generation rows job) ≡ true
unfolding assert_generation
only_invariant-assert_generation rows job = ground arith

only_invariant-replaced :
    (fresh : ℕ → ℕ) (now size : ℕ) (shut rows : List DeliveryRange)
    → All (Fits size now) shut
    → only_invariant (replaced fresh now shut (closed_intervals shut) rows) ≡ true
unfolding replaced
only_invariant-replaced fresh now size [] rows h = refl
only_invariant-replaced fresh now size (template ∷ shut) rows h =
    rw (fragments-closed_intervals fresh now size template (template ∷ shut) h.0 h) refl

only_invariant-compact_closed :
    (fresh : ℕ → ℕ) (now size : ℕ) (rows : List DeliveryRange)
    → All (Fits size now) rows
    → only_invariant (compact_closed fresh now rows) ≡ true
unfolding compact_closed
only_invariant-compact_closed fresh now size rows h =
    let new =
      only_invariant-replaced fresh now size (keep is_closed rows) rows
        (Fits-keep size now is_closed rows h) in
    ground arith

-- Rows of one generation are rows of one file.
row-Fits :
    (now : ℕ) (job : MediaDownloadJob) (r : DeliveryRange)
    → IsKept now r
    → same_generation job r ≡ true
    → Fits (or_zero job.artifact_bytes) now r
unfolding same_generation range_check
row-Fits now job r h e =
    let check = h.0 in
    record { bytes = ground (arith, e); begun = h.1; within = ground (arith, e, check) }

generation-Fits :
    (now : ℕ) (job : MediaDownloadJob) (rows : List DeliveryRange)
    → All (IsKept now) rows
    → any (λ r. not (same_generation job r)) rows ≡ false
    → All (Fits (or_zero job.artifact_bytes) now) rows
generation-Fits now job [] h e = tt
generation-Fits now job (r ∷ rows) h e =
    (row-Fits now job r h.0 (ground arith), generation-Fits now job rows h.1 (ground arith))

only_invariant-settle :
    (whole : Bool) (e : QuotaEntry) (now : ℕ)
    → is_reserved e.state ≡ true
    → only_invariant (settle whole e now) ≡ true
unfolding settle consume_locked
only_invariant-settle true e now h = rw (h)
only_invariant-settle false e now h = refl

only_invariant-consume_if_complete :
    (job : MediaDownloadJob) (e : QuotaEntry) (rows : List DeliveryRange) (now : ℕ)
    → is_reserved e.state ≡ true
    → only_invariant (consume_if_complete job e rows now) ≡ true
unfolding consume_if_complete
only_invariant-consume_if_complete job e rows now h = elim (Bool-cases (is_consumed e.state)) [
  | inl c ↦ rw (c) refl
  | inr c ↦
      rw (c, h)
        (invariant-bind (assert_generation (lock_ranges rows) job) _
          (only_invariant-assert_generation (lock_ranges rows) job)
          (λ u. only_invariant-settle _ e now h))
]

IsKept-lock_ranges :
    (now : ℕ) (rows : List DeliveryRange)
    → All (IsKept now) rows
    → All (IsKept now) (lock_ranges rows)
unfolding lock_ranges
IsKept-lock_ranges now rows h = All-order_by _ _ rows h

-- Settling a delivery raises at most a QuotaInvariantError, where the entry is reserved and no row
-- was begun after `now`.
pub only_invariant-reconcile :
    (job : MediaDownloadJob) (e : QuotaEntry) (now : ℕ) (fresh : ℕ → ℕ)
    (ranges : List DeliveryRange)
    → is_reserved e.state ≡ true
    → All (IsKept now) ranges
    → only_invariant (reconcile job e now fresh ranges) ≡ true
unfolding reconcile assert_generation
only_invariant-reconcile job e now fresh ranges h kept =
    let sorted = lock_ranges ranges in
    elim (Bool-cases (any (λ r. not (same_generation job r)) sorted)) [
      | inl mixed ↦ rw (mixed) refl
      | inr pure ↦
          let size = or_zero job.artifact_bytes in
          let fits = generation-Fits now job sorted (IsKept-lock_ranges now ranges kept) pure in
          let shut = close_stale (is_stale now) now sorted in
          let first = Fits-close_stale size now (is_stale now) sorted fits in
          rw (pure) (
            invariant-bind (compact_closed fresh now (lock_ranges shut)) _
              (only_invariant-compact_closed fresh now size (lock_ranges shut)
                (Fits-lock_ranges size now shut first))
              (λ rows.
                invariant-bind (consume_if_complete job e rows now) _
                  (only_invariant-consume_if_complete job e rows now h) (λ r. refl)))
    ]
