-- ===== src/Downloads/ByteProgress.antt =====
-- Download percentages and the gate that throttles their writes
-- (backend/src/fetchnow/downloads/byte_progress.py). Times are readings of the monotonic clock.
pub mod Monotone
use fetch_now.Prelude.{
  ℕ, zero, suc, ◌+◌, ◌-◌, ◌*◌, ◌/◌, min, max, Bool, true, false, not, Option, none, some, List, [],
  ◌∷◌, ltb, leb, if◌then◌else◌, ℤ, pos_part, pos, negsuc,
}

abbrev pub progress_percent_max : ℕ
progress_percent_max = 99

-- `expected_bytes` if it is known and positive.
abbrev pub denominator : Option ℤ → Option ℕ
denominator none = none
denominator (some (pos zero)) = none
denominator (some (pos (suc n))) = some (suc n)
denominator (some (negsuc n)) = none

-- The percentage never goes below the previous one.
abbrev pub not_below : Option ℕ → ℕ → ℕ
not_below none bounded = bounded
not_below (some previous) bounded = max previous bounded

unfoldable pub progress_percent : ℤ → Option ℤ → Option ℕ → Option ℕ
progress_percent observed_bytes expected_bytes previous = elim (denominator expected_bytes) [
  | none ↦ none
  | some expected ↦
      some
        (not_below previous (min progress_percent_max (pos_part observed_bytes * 100 / expected)))
]

unfoldable pub should_persist_percent : Option ℕ → Option ℕ → ℕ → ℕ → Bool
should_persist_percent none stored elapsed min_interval = false
should_persist_percent (some candidate) none elapsed min_interval = true
should_persist_percent (some candidate) (some stored) elapsed min_interval =
    if leb candidate stored then false else leb min_interval elapsed

-- ProgressPersistGate
pub record Gate : Type 0 where
  pub min_interval : ℕ
  pub backoff_initial : ℕ
  pub backoff_max : ℕ
  pub backoff : ℕ
  pub max_observed_percent : Option ℕ
  pub last_persisted_percent : Option ℕ
  pub last_persist_attempt_at : Option ℕ
  pub last_successful_write_at : Option ℕ
  pub ownership_lost : Bool
  pub observed_sample_count : ℕ
  pub persisted_update_count : ℕ

-- ProgressPersistGate.__init__
unfoldable pub new_gate : ℕ → ℕ → ℕ → Gate
new_gate min_interval backoff_initial backoff_max = record {
  min_interval = min_interval;
  backoff_initial = backoff_initial;
  backoff_max = backoff_max;
  backoff = backoff_initial;
  max_observed_percent = none;
  last_persisted_percent = none;
  last_persist_attempt_at = none;
  last_successful_write_at = none;
  ownership_lost = false;
  observed_sample_count = 0;
  persisted_update_count = 0;
}

unfoldable pub throttle_elapsed : Gate → ℕ → ℕ
throttle_elapsed g now = elim g.last_successful_write_at [
  | none ↦ g.min_interval
  | some at ↦ now - at
]

unfoldable pub in_backoff : Gate → ℕ → Bool
in_backoff g now = elim g.last_persist_attempt_at [
  | none ↦ false
  | some attempted ↦ elim g.last_successful_write_at [
    | none ↦ ltb (now - attempted) g.backoff
    | some written ↦ if leb attempted written then false else ltb (now - attempted) g.backoff
  ]
]

-- One reading of the clock per call of it.
unfoldable pub should_attempt_persist : Gate → ℕ → ℕ → Bool
unfolding should_persist_percent throttle_elapsed in_backoff
should_attempt_persist g throttle_now backoff_now =
    if g.ownership_lost
    then false
    else if not (
        should_persist_percent g.max_observed_percent g.last_persisted_percent
          (throttle_elapsed g throttle_now) g.min_interval)
    then false
    else not (in_backoff g backoff_now)

abbrev pub raise_observed : Gate → ℕ → Gate
raise_observed g candidate = record g {
  max_observed_percent = some (not_below g.max_observed_percent candidate);
}

-- The gate after the observation, and the percentage to persist.
unfoldable pub note_observed : Gate → Option ℕ → ℕ → ℕ → Gate × Option ℕ
unfolding should_attempt_persist
note_observed g none throttle_now backoff_now = (g, none)
note_observed g (some candidate) throttle_now backoff_now =
    if g.ownership_lost
    then (g, none)
    else let h = raise_observed g candidate in
      if not (should_attempt_persist h throttle_now backoff_now)
      then (h, none)
      else (h, h.max_observed_percent)

unfoldable pub mark_persisted : Gate → ℕ → ℕ → Gate
mark_persisted g percent now = record g {
  last_persisted_percent = some percent;
  last_successful_write_at = some now;
  last_persist_attempt_at = some now;
  backoff = g.backoff_initial;
  persisted_update_count = g.persisted_update_count + 1;
}

unfoldable pub mark_attempt_failed : Gate → ℕ → Gate
mark_attempt_failed g now = record g {
  last_persist_attempt_at = some now;
  backoff = min (max g.backoff g.backoff_initial * 2) g.backoff_max;
}

unfoldable pub mark_ownership_lost : Gate → Gate
mark_ownership_lost g = record g { ownership_lost = true }

-- What the awaited `persist` does: it returns True or False, or raises.
pub data Persisted : Type 0 where
  applied refused raised : Persisted

-- What a call of `ingest` did: nothing, or one call of `persist` with the percentage.
pub data Outcome : Type 0 where
  idle : Outcome
  attempted : ℕ → Persisted → Outcome

-- A call of `ingest`: its arguments, and the clock's readings in it.
pub record Sample : Type 0 where
  pub observed_bytes : ℤ
  pub expected_bytes : Option ℤ
  pub persist : ℕ → Persisted
  pub force : Bool
  pub throttle_now : ℕ
  pub backoff_now : ℕ
  pub written_now : ℕ

unfoldable pub record_write : Gate → ℕ → Persisted → ℕ → Gate
unfolding mark_persisted mark_attempt_failed mark_ownership_lost
record_write g to_write applied now = mark_persisted g to_write now
record_write g to_write raised now = mark_attempt_failed g now
record_write g to_write refused now = mark_ownership_lost g

-- The end-of-stage sample: only the percentage persisted before can hold it back.
unfoldable pub force_observed : Gate → Option ℕ → Gate × Option ℕ
force_observed g none = (g, none)
force_observed g (some candidate) =
    let to_write = not_below g.max_observed_percent candidate in
    let h = raise_observed g candidate in
    elim g.last_persisted_percent [
      | none ↦ (h, some to_write)
      | some persisted ↦ if leb to_write persisted then (h, none) else (h, some to_write)
    ]

abbrev pub count_sample : Gate → Gate
count_sample g = record g { observed_sample_count = g.observed_sample_count + 1 }

-- The gate that a sample leaves before the write, and the percentage to write.
unfoldable pub observe : Gate → Sample → Gate × Option ℕ
unfolding progress_percent note_observed force_observed
observe g s =
    let candidate = progress_percent s.observed_bytes s.expected_bytes g.max_observed_percent in
    if s.force
    then force_observed (count_sample g) candidate
    else note_observed (count_sample g) candidate s.throttle_now s.backoff_now

-- The call of `persist`, if there is a percentage to write.
unfoldable pub try_persist : Gate → Option ℕ → (ℕ → Persisted) → ℕ → Gate × Outcome
unfolding record_write
try_persist g none persist now = (g, idle)
try_persist g (some to_write) persist now =
    (record_write g to_write (persist to_write) now, attempted to_write (persist to_write))

unfoldable pub ingest : Gate → Sample → Gate × Outcome
unfolding observe try_persist
ingest g s =
    let (h, maybe_write) = observe g s in
    if g.ownership_lost then (g, idle) else try_persist h maybe_write s.persist s.written_now

-- What successive samples of one stage do.
unfoldable pub run : Gate → List Sample → List Outcome
unfolding ingest
run g [] = []
run g (s ∷ samples) = (ingest g s).1 ∷ run (ingest g s).0 samples
