-- ===== src/Examples/Ranges.antt =====
-- The ranges of one quota entry (backend/src/fetchnow/quota/delivery.py).
use fetch_now.Prelude.{
  insert_sorted, flush, ℕ, ◌+◌, ◌≤◌, ◌≡◌, refl, ◌⊎◌, true, false, ◌&&◌, ◌||◌, none, some, List, [],
  ◌∷◌, arith, ltb, leb, ok, All, UniqueIds,
}
use fetch_now.Downloads.States.{MediaDownloadJobState}
use fetch_now.Downloads.Stages.{DownloadProgressStage}
use fetch_now.Downloads.Model.{PolicyPart, MediaDownloadJob}
use fetch_now.Examples.JobTable.{sample_target}
use fetch_now.Quota.Model.{EntryState, QuotaEntry, RangeState, DeliveryRange, range_check}
use fetch_now.Quota.Ranges.{
  assert_generation, is_whole, same_shape, fragments, closed_intervals, lock_ranges, close_stale,
  compact_closed, replaced, consume_if_complete, same_generation,
}
use fetch_now.Quota.Delivery.{
  lock_context, advance_row, extend_reservation, Ledger, range_id, find_range, checkpoint,
}
use fetch_now.Quota.Delivery.Coverage.{served, served-compact_closed, served-close_stale}
use fetch_now.Quota.Delivery.Consumption.{IsStored, IsEvidence, AllServed, consume_if_complete_lem}
use fetch_now.Quota.Delivery.Progress.{served-checkpoint}

abbrev pub ready_job : MediaDownloadJob
ready_job = record {
  id = 4;
  media_job_id = 3;
  schema_version = 1;
  public_state = MediaDownloadJobState.ready;
  format_option_id = "mp4-720";
  target = sample_target;
  selected_format_snapshot = record { format_portion = "{}"; policy_part = PolicyPart.absent };
  attempt_count = 1;
  max_attempts = 3;
  available_at = 1;
  lease_owner = none;
  lease_expires_at = none;
  fence_token = 3;
  artifact_id = some 77;
  artifact_bytes = some 100;
  artifact_content_type = some "video/mp4";
  artifact_container = some "mp4";
  public_error_code = none;
  progress_stage = DownloadProgressStage.ready;
  cancel_requested_at = none;
  suggested_filename = none;
  progress_percent = none;
  created_at = 1;
  updated_at = 5;
  started_at = some 2;
  completed_at = some 5;
  expires_at = 10_000_000_000;
}

abbrev pub reserved_entry : QuotaEntry
reserved_entry = record {
  id = 6;
  anonymous_client_id = 2;
  download_job_id = 4;
  state = EntryState.reserved;
  reserved_at = 1;
  reservation_expires_at = 10_000_000_000;
  consumed_at = none;
  released_at = none;
}

abbrev pub closed_range : ℕ → ℕ → ℕ → DeliveryRange
closed_range id start stop = record {
  id = id;
  quota_entry_id = 6;
  artifact_id = 77;
  fence_token = 3;
  artifact_bytes = 100;
  request_start = start;
  request_end_exclusive = stop;
  served_end_exclusive = stop;
  state = RangeState.closed;
  started_at = 10;
  lease_expires_at = none;
  closed_at = some 20;
}

-- A response that is still open.
abbrev open_range : ℕ → ℕ → ℕ → ℕ → DeliveryRange
open_range id start reached stop = record (closed_range id start stop) {
  served_end_exclusive = reached;
  state = RangeState.active;
  lease_expires_at = some 600_000_010;
  closed_at = none;
}

abbrev rows : List DeliveryRange
rows = closed_range 1 0 30 ∷ closed_range 2 20 60 ∷ open_range 3 60 70 100 ∷ []

abbrev fresh_ids : ℕ → ℕ
fresh_ids k = 50 + k

abbrev compacted : List DeliveryRange
compacted = open_range 3 60 70 100 ∷ record (closed_range 50 0 60) { closed_at = some 30 } ∷ []

compaction : compact_closed fresh_ids 30 rows ≡ ok compacted
unfolding compact_closed closed_intervals insert_sorted same_shape fragments replaced range_check
compaction = refl

served-compact_closed_example : served 25 compacted ≡ served 25 rows
served-compact_closed_example = served-compact_closed 25 fresh_ids 30 rows compaction

served-close_stale_example : served 65 (close_stale (λ _. true) 700_000_000 rows) ≡ served 65 rows
served-close_stale_example = served-close_stale 65 (λ _. true) 700_000_000 rows

abbrev covering : List DeliveryRange
covering = closed_range 2 40 100 ∷ closed_range 1 0 50 ∷ []

covering-IsEvidence : All (λ r. IsStored r × IsEvidence ready_job r) covering
unfolding range_check same_generation
covering-IsEvidence = ((refl, refl), ((refl, refl), tt))

consume_if_complete_lem_example :
    ((consume_if_complete ready_job reserved_entry covering 30
        ≡ ok (
          record { consumed = true; duplicate = false },
          record reserved_entry {
            state = EntryState.consumed;
            consumed_at = some 30;
            released_at = none;
          },
        ))
      × AllServed ready_job covering)
    ⊎ ((consume_if_complete ready_job reserved_entry covering 30
          ≡ ok (record { consumed = false; duplicate = false }, reserved_entry))
        × ¬ AllServed ready_job covering)
consume_if_complete_lem_example =
    consume_if_complete_lem ready_job reserved_entry covering 30 refl (omega arith)
      covering-IsEvidence

abbrev ledger : Ledger
ledger = record { job = some ready_job; client = true; entry = some reserved_entry; ranges = rows }

abbrev advanced : Ledger
advanced = record ledger {
  ranges =
      closed_range 1 0 30
      ∷ closed_range 2 20 60
      ∷ record (open_range 3 60 90 100) { lease_expires_at = some 600_000_040 }
      ∷ [];
}

rows-UniqueIds : UniqueIds range_id rows
rows-UniqueIds = ((omega arith, (omega arith, tt)), ((omega arith, tt), (tt, tt)))

found : find_range 3 rows ≡ some (open_range 3 60 70 100)
unfolding find_range
found = refl

checkpointed :
    checkpoint 3 90 40 ledger ≡ ok (record { consumed = false; duplicate = false }, advanced)
unfolding checkpoint find_range lock_context consume_if_complete extend_reservation
    assert_generation lock_ranges flush insert_sorted advance_row is_whole closed_intervals
    range_check
checkpointed = refl

served-checkpoint_example :
    (90 ≤ 100) × ((b : ℕ) → served b advanced.ranges ≡ (served b rows || leb 60 b && ltb b 90))
served-checkpoint_example = served-checkpoint 3 90 40 ledger rows-UniqueIds found checkpointed
