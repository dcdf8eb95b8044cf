-- ===== src/Quota/Ranges.antt =====
-- The helpers of `DeliveryQuotaAccounting` over the ranges of one quota entry
-- (backend/src/fetchnow/quota/delivery.py).
use fetch_now.Prelude.{
  ℕ, suc, Bool, true, false, not, ◌&&◌, ◌||◌, Option, none, some, List, [], ◌∷◌, ◌++◌, ltb, leb,
  ◌==◌, if◌then◌else◌, is_some, order_by, length, keep, any, Result, ◌>>=◌, ◌>>◌, ok, err,
}
use fetch_now.Downloads.States.{ready, same_state}
use fetch_now.Downloads.Model.{MediaDownloadJob}
use fetch_now.Quota.Model.{
  EntryState, consumed, QuotaEntry, is_reserved, is_consumed, DeliveryRange, closed, is_active,
  QuotaError, invariant, storage_unavailable, integrity_error, range_check, guard,
}
use fetch_now.Quota.Intervals.Union.{Interval, normalize_intervals}

abbrev pub max_active_attempts : ℕ
max_active_attempts = 16

abbrev pub max_closed_fragments : ℕ
max_closed_fragments = 64

-- `ORDER BY request_start, id`
unfoldable pub range_before : DeliveryRange → DeliveryRange → Bool
range_before r q =
    ltb r.request_start q.request_start || (r.request_start == q.request_start) && leb r.id q.id

unfoldable pub lock_ranges : List DeliveryRange → List DeliveryRange
unfolding range_before order_by
lock_ranges rows = order_by range_before rows

-- The intervals (request_start, served_end_exclusive) of the rows that served a byte.
unfoldable pub served_intervals : List DeliveryRange → List Interval
served_intervals [] = []
served_intervals (r ∷ rows) =
    let rest = served_intervals rows in
    if ltb r.request_start r.served_end_exclusive
    then (r.request_start, r.served_end_exclusive) ∷ rest
    else rest

unfoldable pub closed_intervals : List DeliveryRange → List Interval
unfolding served_intervals normalize_intervals
closed_intervals rows = normalize_intervals (served_intervals rows)

abbrev pub live_at : Option ℕ → ℕ → Bool
live_at none now = false
live_at (some lease) now = ltb now lease

-- A closed version of a row: `request_end_exclusive` shrinks to what was served.
unfoldable pub close_row : ℕ → ℕ → DeliveryRange → DeliveryRange
close_row now served r = record r {
  served_end_exclusive = served;
  request_end_exclusive = served;
  state = closed;
  lease_expires_at = none;
  closed_at = some now;
}

-- `_close_stale`; `chosen` tells which rows are in the sequence that it is called with. Its flush
-- breaks no CHECK: a stored row that it closes has a lease after its start, and `now` is past it.
unfoldable pub close_stale : (DeliveryRange → Bool) → ℕ → List DeliveryRange → List DeliveryRange
unfolding close_row
close_stale chosen now [] = []
close_stale chosen now (r ∷ rows) =
    let rest = close_stale chosen now rows in
    if not (chosen r) || not (is_active r.state) || live_at r.lease_expires_at now
    then r ∷ rest
    else if r.served_end_exclusive == r.request_start
    then rest
    else close_row now r.served_end_exclusive r ∷ rest

unfoldable pub same_shape : List DeliveryRange → List Interval → Bool
same_shape [] [] = true
same_shape (r ∷ rows) ((start, end) ∷ union) =
    (r.request_start == start)
    && (r.served_end_exclusive == end)
    && (r.request_end_exclusive == end)
    && same_shape rows union
same_shape _ _ = false

-- The rows that replace the closed ones; `fresh k` is the k-th new `uuid4`.
unfoldable pub fragments : (ℕ → ℕ) → ℕ → DeliveryRange → List Interval → List DeliveryRange
fragments fresh now template [] = []
fragments fresh now template ((start, end) ∷ union) =
    record template {
      id = fresh 0;
      request_start = start;
      request_end_exclusive = end;
      served_end_exclusive = end;
      state = closed;
      lease_expires_at = none;
      closed_at = some now;
    }
    ∷ fragments (λ k. fresh (suc k)) now template union

abbrev pub is_closed : DeliveryRange → Bool
is_closed r = not (is_active r.state)

abbrev pub is_open : DeliveryRange → Bool
is_open r = is_active r.state

-- Whether a row of the list breaks a CHECK constraint.
abbrev pub breaks_check : List DeliveryRange → Bool
breaks_check rows = any (λ r. not (range_check r)) rows

-- The closed rows are deleted and the new ones inserted; the flush raises where one breaks a CHECK.
unfoldable pub replaced :
    (ℕ → ℕ)
    → ℕ
    → List DeliveryRange
    → List Interval
    → List DeliveryRange
    → Result QuotaError (List DeliveryRange)
unfolding fragments range_check
replaced fresh now [] union rows = ok rows
replaced fresh now (template ∷ _) union rows =
    if breaks_check (fragments fresh now template union)
    then err integrity_error
    else ok (keep is_open rows ++ fragments fresh now template union)

-- `_compact_closed`
unfoldable pub compact_closed :
    (ℕ → ℕ) → ℕ → List DeliveryRange → Result QuotaError (List DeliveryRange)
compact_closed fresh now rows =
    let shut = keep is_closed rows in
    let union = closed_intervals shut in
    if ltb max_closed_fragments (length union)
    then err (invariant "delivery coverage exceeds fragment bound")
    else if same_shape shut union
    then ok rows
    else replaced fresh now shut union rows

abbrev same_id : Option ℕ → Option ℕ → Bool
same_id none none = true
same_id (some a) (some b) = a == b
same_id _ _ = false

abbrev pub or_zero : Option ℕ → ℕ
or_zero none = 0
or_zero (some n) = n

-- A row that is evidence for the job's present artifact.
unfoldable pub same_generation : MediaDownloadJob → DeliveryRange → Bool
same_generation job r =
    same_id (some r.artifact_id) job.artifact_id
    && (r.fence_token == job.fence_token)
    && (r.artifact_bytes == or_zero job.artifact_bytes)

-- `_assert_generation`
unfoldable pub assert_generation :
    List DeliveryRange → MediaDownloadJob → Result QuotaError (Unit {0})
unfolding same_generation
assert_generation rows job =
    guard (not (any (λ r. not (same_generation job r)) rows))
      (invariant "delivery evidence generation mismatch")

-- `_validate_job_binding`; a deadline is given where an unexpired job is required.
unfoldable pub validate_job_binding :
    MediaDownloadJob → Option ℕ → ℕ → ℕ → Option ℕ → Result QuotaError (Unit {0})
validate_job_binding job artifact_id fence_token artifact_bytes deadline =
    if not (same_state job.public_state ready)
      || not (is_some job.artifact_id)
      || not (same_id job.artifact_id artifact_id)
      || not (job.fence_token == fence_token)
      || not (or_zero job.artifact_bytes == artifact_bytes)
    then err (storage_unavailable "ACCOUNTING_ARTIFACT_MISMATCH")
    else elim deadline [
      | none ↦ ok tt
      | some now ↦
          if leb job.expires_at now
          then err (storage_unavailable "ACCOUNTING_JOB_EXPIRED")
          else ok tt
    ]

-- `coverage == [(0, size)]`
unfoldable pub is_whole : List Interval → ℕ → Bool
is_whole ((start, end) ∷ []) size = (start == 0) && (end == size)
is_whole _ size = false

-- `QuotaRepository.consume_locked`
unfoldable pub consume_locked : QuotaEntry → ℕ → Result QuotaError QuotaEntry
consume_locked entry now =
    if is_reserved entry.state
    then ok (record entry { state = consumed; consumed_at = some now; released_at = none })
    else err (invariant "ready transition lacks a reserved quota entry")

-- `QuotaRepository.release_locked`
unfoldable pub release_locked : QuotaEntry → ℕ → Bool → Result QuotaError QuotaEntry
release_locked entry now as_expired =
    if is_reserved entry.state
    then ok (record entry {
      state = if as_expired then EntryState.expired else EntryState.released;
      consumed_at = none;
      released_at = some now;
    })
    else if is_consumed entry.state
    then err (invariant "cannot release a consumed quota entry")
    else ok entry

pub record AccountingResult : Type 0 where
  pub consumed : Bool
  pub duplicate : Bool

-- The entry is spent where the coverage is whole.
unfoldable pub settle : Bool → QuotaEntry → ℕ → Result QuotaError (AccountingResult × QuotaEntry)
settle false entry now = ok (record { consumed = false; duplicate = false }, entry)
settle true entry now = do
  spent ← consume_locked entry now
  ok (record { consumed = true; duplicate = false }, spent)

-- `_consume_if_complete`
unfoldable pub consume_if_complete :
    MediaDownloadJob
    → QuotaEntry
    → List DeliveryRange
    → ℕ
    → Result QuotaError (AccountingResult × QuotaEntry)
unfolding consume_locked settle
consume_if_complete job entry ranges now =
    if is_consumed entry.state
    then ok (record { consumed = false; duplicate = true }, entry)
    else if not (is_reserved entry.state)
    then err (storage_unavailable "ACCOUNTING_QUOTA_NOT_RESERVED")
    else do
      assert_generation (lock_ranges ranges) job
      settle (is_whole (closed_intervals (lock_ranges ranges)) (or_zero job.artifact_bytes)) entry
          now
