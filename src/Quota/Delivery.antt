-- ===== src/Quota/Delivery.antt =====
-- `DeliveryQuotaAccounting` (backend/src/fetchnow/quota/delivery.py): its methods on the rows that
-- belong to one download job. Each call is one transaction; a raise leaves everything as it was.
pub mod Coverage
pub mod Consumption
pub mod Progress
pub mod Checks
pub mod Raises
use fetch_now.Prelude.{
  ℕ, suc, ◌+◌, min, max, Bool, true, false, not, ◌&&◌, ◌||◌, Option, none, some, List, [], ◌∷◌,
  ◌++◌, ltb, leb, ◌==◌, if◌then◌else◌, is_some, find, flush, length, keep, any, Result, ◌>>=◌, ◌>>◌,
  ok, err,
}
use fetch_now.Downloads.Model.{MediaDownloadJob}
use fetch_now.Quota.Model.{
  QuotaEntry, is_reserved, is_consumed, DeliveryRange, active, is_active, QuotaError, invariant,
  storage_unavailable, integrity_error, range_check, require, guard,
}
use fetch_now.Quota.Intervals.Union.{Interval, normalize_intervals}
use fetch_now.Quota.Ranges.{
  max_active_attempts, max_closed_fragments, lock_ranges, closed_intervals, live_at, close_row,
  close_stale, compact_closed, assert_generation, validate_job_binding, AccountingResult,
  consume_if_complete, is_open, or_zero,
}

-- 600 seconds
abbrev pub attempt_lease : ℕ
attempt_lease = 600_000_000

-- The job, whether its identity exists, its quota entry and that entry's ranges.
pub record Ledger : Type 0 where
  pub job : Option MediaDownloadJob
  pub client : Bool
  pub entry : Option QuotaEntry
  pub ranges : List DeliveryRange

pub record Attempt : Type 0 where
  pub id : ℕ
  pub start : ℕ
  pub stop : ℕ

-- The intervals of the first byte that each open response may serve.
unfoldable pub first_bytes : List DeliveryRange → List Interval
first_bytes [] = []
first_bytes (r ∷ rows) =
    (r.request_start, min (r.request_start + 1) r.request_end_exclusive) ∷ first_bytes rows

unfoldable pub new_attempt : ℕ → QuotaEntry → MediaDownloadJob → ℕ → ℕ → ℕ → ℕ → DeliveryRange
new_attempt id entry job artifact_id start stop now = record {
  id = id;
  quota_entry_id = entry.id;
  artifact_id = artifact_id;
  fence_token = job.fence_token;
  artifact_bytes = or_zero job.artifact_bytes;
  request_start = start;
  request_end_exclusive = stop;
  served_end_exclusive = start;
  state = active;
  started_at = now;
  lease_expires_at = some (now + attempt_lease);
  closed_at = none;
}

-- `entry.reservation_expires_at = max(entry.reservation_expires_at, lease_expires)`
unfoldable pub extend_reservation : QuotaEntry → ℕ → QuotaEntry
extend_reservation entry lease = record entry {
  reservation_expires_at = max entry.reservation_expires_at lease;
}

-- The part of `begin` after the entry is known to be reserved.
unfoldable pub open_attempt :
    MediaDownloadJob
    → QuotaEntry
    → ℕ
    → ℕ
    → ℕ
    → ℕ
    → (ℕ → ℕ)
    → Ledger
    → Result QuotaError (Option Attempt × Ledger)
unfolding first_bytes new_attempt extend_reservation lock_ranges close_stale assert_generation
    compact_closed closed_intervals normalize_intervals
open_attempt job entry artifact start stop now fresh l = do
  let rows = close_stale (λ _. true) now (lock_ranges l.ranges)
  assert_generation (lock_ranges rows) job
  compacted ← compact_closed (λ k. fresh (suc k)) now (lock_ranges rows)
  let open_rows = keep is_open (lock_ranges compacted)
  guard (ltb (length open_rows) max_active_attempts) (storage_unavailable "ACCOUNTING_ACTIVE_LIMIT")
  guard
      (leb
        (length (
          normalize_intervals (
            closed_intervals (lock_ranges compacted)
            ++ (first_bytes open_rows ++ (start, min (start + 1) stop) ∷ []))))
        max_closed_fragments)
      (storage_unavailable "ACCOUNTING_FRAGMENT_LIMIT")
  guard (range_check (new_attempt (fresh 0) entry job artifact start stop now)) integrity_error
  ok (
    some (record { id = fresh 0; start = start; stop = stop }),
    record l {
      entry = some (extend_reservation entry (now + attempt_lease));
      ranges = compacted ++ new_attempt (fresh 0) entry job artifact start stop now ∷ [];
    },
  )

-- `begin`: `snapshot` is the authorised job, `revalidated` what running the authorisation again
-- raises or returns (the id of its job).
unfoldable pub begin :
    Bool
    → MediaDownloadJob
    → ℕ
    → ℕ
    → Result QuotaError ℕ
    → ℕ
    → (ℕ → ℕ)
    → Ledger
    → Result QuotaError (Option Attempt × Ledger)
unfolding open_attempt validate_job_binding
begin premium snapshot start stop revalidated now fresh l =
    if premium
    then ok (none, l)
    else if leb stop start || not (is_some snapshot.artifact_bytes)
    then err (invariant "invalid delivery accounting interval")
    else elim l.entry [
      | none ↦ ok (none, l)
      | some entry ↦ do
        guard l.client (invariant "delivery quota entry references missing identity")
        job ← require l.job (storage_unavailable "ACCOUNTING_JOB_MISSING")
        current ← revalidated
        guard (current == job.id) (storage_unavailable "ACCOUNTING_REAUTH_MISMATCH")
        validate_job_binding job snapshot.artifact_id snapshot.fence_token
            (or_zero snapshot.artifact_bytes) (some now)
        artifact ← require job.artifact_id (invariant "AssertionError")
        bytes ← require job.artifact_bytes (invariant "AssertionError")
        if is_consumed entry.state then ok (none, l) else do
          guard (is_reserved entry.state) (storage_unavailable "ACCOUNTING_QUOTA_TERMINAL")
          open_attempt job entry artifact start stop now fresh l
    ]

unfoldable pub find_range : ℕ → List DeliveryRange → Option DeliveryRange
unfolding find
find_range id rows = find (λ r. r.id == id) rows

-- `_lock_attempt_context`, for an attempt that its SELECT finds.
unfoldable pub lock_context :
    DeliveryRange → Bool → Ledger → Result QuotaError (MediaDownloadJob × QuotaEntry)
unfolding validate_job_binding
lock_context attempt allow_closed l = do
  guard l.client (invariant "delivery attempt identity disappeared")
  job ← require l.job (invariant "delivery attempt job disappeared")
  entry ← require l.entry (invariant "delivery attempt quota entry disappeared")
  guard (allow_closed || is_active attempt.state)
      (invariant "delivery checkpoint targets closed attempt")
  validate_job_binding job (some attempt.artifact_id) attempt.fence_token attempt.artifact_bytes
      none
  ok (job, entry)

abbrev pub range_id : DeliveryRange → ℕ
range_id r = r.id

unfoldable pub advance_row : ℕ → ℕ → DeliveryRange → DeliveryRange
advance_row observed now r = record r {
  served_end_exclusive = observed;
  lease_expires_at = some (now + attempt_lease);
}

abbrev pub when_reserved : QuotaEntry → (QuotaEntry → QuotaEntry) → QuotaEntry
when_reserved entry f = if is_reserved entry.state then f entry else entry

-- `checkpoint`
unfoldable pub checkpoint : ℕ → ℕ → ℕ → Ledger → Result QuotaError (AccountingResult × Ledger)
checkpoint attempt_id observed now l = do
  attempt ←
      require (find_range attempt_id l.ranges) (invariant "active delivery attempt disappeared")
  (job, entry) ← lock_context attempt false l
  let reached = max observed attempt.served_end_exclusive
  guard (leb reached attempt.request_end_exclusive)
      (invariant "delivery checkpoint exceeds requested range")
  let ranges = flush range_id (advance_row reached now attempt ∷ []) l.ranges
  let renewed = when_reserved entry (λ e. extend_reservation e (now + attempt_lease))
  (result, settled) ← consume_if_complete job renewed ranges now
  guard (range_check (advance_row reached now attempt)) integrity_error
  ok (result, record l { entry = some settled; ranges = ranges })

-- The row of an attempt that is finalised: deleted if it served no byte, closed otherwise.
unfoldable pub finish_attempt : DeliveryRange → ℕ → ℕ → List DeliveryRange → List DeliveryRange
unfolding close_row flush
finish_attempt attempt reached now ranges =
    if reached == attempt.request_start
    then keep (λ r. not (r.id == attempt.id)) ranges
    else flush range_id (close_row now reached attempt ∷ []) ranges

-- Whether the flush of that row meets the CHECK constraints.
unfoldable pub finish_check : DeliveryRange → ℕ → ℕ → Bool
unfolding close_row range_check
finish_check attempt reached now =
    reached == attempt.request_start || range_check (close_row now reached attempt)

abbrev pub later_lease : Option ℕ → Option ℕ → Option ℕ
later_lease none o = o
later_lease (some a) none = some a
later_lease (some a) (some b) = some (max a b)

unfoldable pub latest_lease : List DeliveryRange → Option ℕ
latest_lease [] = none
latest_lease (r ∷ rows) =
    later_lease (if is_active r.state then r.lease_expires_at else none) (latest_lease rows)

-- The latest lease of the open rows, or `default` if there is none.
unfoldable pub live_until : ℕ → List DeliveryRange → ℕ
unfolding latest_lease
live_until default rows = elim (latest_lease rows) [ none ↦ default | some t ↦ t ]

-- `finalize`
unfoldable pub finalize :
    ℕ → ℕ → ℕ → (ℕ → ℕ) → Ledger → Result QuotaError (AccountingResult × Ledger)
unfolding find_range lock_context finish_attempt lock_ranges compact_closed consume_if_complete
    live_until
finalize attempt_id observed now fresh l = elim (find_range attempt_id l.ranges) [
  | none ↦ ok (record { consumed = false; duplicate = true }, l)
  | some attempt ↦ do
    (job, entry) ← lock_context attempt true l
    if not (is_active attempt.state)
        then ok (record { consumed = false; duplicate = true }, l)
        else do
          let reached = max observed attempt.served_end_exclusive
          guard (leb reached attempt.request_end_exclusive)
              (invariant "delivery finalization exceeds requested range")
          let finished = finish_attempt attempt reached now l.ranges
          guard (finish_check attempt reached now) integrity_error
          ranges ← compact_closed fresh now (lock_ranges finished)
          (result, settled) ← consume_if_complete job entry ranges now
          let until = live_until job.expires_at ranges
          let kept =
              when_reserved settled
                (λ e. record e { reservation_expires_at = max job.expires_at until })
          ok (result, record l { entry = some kept; ranges = ranges })
]

-- `has_live_attempt_locked`
unfoldable pub has_live_attempt : List DeliveryRange → ℕ → Bool
has_live_attempt ranges now = any (λ r. is_active r.state && live_at r.lease_expires_at now) ranges

abbrev pub is_stale : ℕ → DeliveryRange → Bool
is_stale now r =
    is_active r.state && is_some r.lease_expires_at && not (live_at r.lease_expires_at now)

-- `reconcile_locked`, with the job and the entry that its caller has locked.
unfoldable pub reconcile :
    MediaDownloadJob
    → QuotaEntry
    → ℕ
    → (ℕ → ℕ)
    → List DeliveryRange
    → Result QuotaError (AccountingResult × QuotaEntry × List DeliveryRange)
unfolding assert_generation close_stale lock_ranges compact_closed consume_if_complete
reconcile job entry now fresh ranges = do
  assert_generation (lock_ranges ranges) job
  let rows = close_stale (is_stale now) now (lock_ranges ranges)
  compacted ← compact_closed fresh now (lock_ranges rows)
  (result, settled) ← consume_if_complete job entry compacted now
  ok (result, settled, compacted)
