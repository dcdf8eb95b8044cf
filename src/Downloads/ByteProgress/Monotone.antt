-- ===== src/Downloads/ByteProgress/Monotone.antt =====
-- The percentages that a stage's samples write.
use fetch_now.Prelude.{
  if-holds, not-false, ℕ, zero, suc, ◌*◌, ◌/◌, ◌≤◌, ◌<◌, min, ◌≡◌, refl, subst, inl, inr, Bool,
  true, false, not, Option, none, some, List, [], ◌∷◌, arith, leb, Bool-cases, Option-cases, keep,
  ℤ, pos_part, pos, negsuc,
}
use fetch_now.Downloads.ByteProgress.{
  new_gate, Persisted, record_write, count_sample, Sample, ingest, try_persist, observe, run, Gate,
  applied, refused, raised, Outcome, idle, attempted, note_observed, force_observed,
  progress_percent, raise_observed, not_below, should_attempt_persist, should_persist_percent,
  throttle_elapsed, progress_percent_max,
}

abbrev pub Capped : Option ℕ → Type 0
Capped none = Unit
Capped (some p) = p ≤ 99

abbrev pub Above : Option ℕ → ℕ → Type 0
Above none n = Unit
Above (some p) n = p < n

-- Each percentage passed to `persist` is at most 99 and above the last one that `persist` confirmed
-- (`last` at the beginning), and `persist` is not called again once it has refused a percentage
-- (or if ownership was `lost` at the beginning).
abbrev pub Progress : Option ℕ → Bool → List Outcome → Type 0
Progress last lost [] = Unit
Progress last lost (idle ∷ rest) = Progress last lost rest
Progress last lost (attempted n applied ∷ rest) =
    (lost ≡ false) × (n ≤ 99) × Above last n × Progress (some n) lost rest
Progress last lost (attempted n refused ∷ rest) =
    (lost ≡ false) × (n ≤ 99) × Above last n × Progress last true rest
Progress last lost (attempted n raised ∷ rest) =
    (lost ≡ false) × (n ≤ 99) × Above last n × Progress last lost rest

abbrev Writable : Option ℕ → Option ℕ → Type 0
Writable last none = Unit
Writable last (some n) = (n ≤ 99) × Above last n

-- What holds of the gate and the percentage after an observation.
abbrev Observed : Gate → Gate × Option ℕ → Type 0
Observed g (h, w) =
    Capped h.max_observed_percent
    × (h.last_persisted_percent ≡ g.last_persisted_percent)
    × (h.ownership_lost ≡ g.ownership_lost)
    × Writable g.last_persisted_percent w

not_below-Capped :
    (previous : Option ℕ) (n : ℕ) → Capped previous → n ≤ 99 → not_below previous n ≤ 99
not_below-Capped none n h k = k
not_below-Capped (some p) n h k = omega arith

progress_percent-Capped :
    (observed : ℤ) (expected : Option ℤ) (previous : Option ℕ)
    → Capped previous
    → Capped (progress_percent observed expected previous)
unfolding progress_percent
progress_percent-Capped observed none previous h = tt
progress_percent-Capped observed (some (pos zero)) previous h = tt
progress_percent-Capped observed (some (pos (suc n))) previous h =
    not_below-Capped previous (min progress_percent_max (pos_part observed * 100 / suc n)) h
      (omega arith)
progress_percent-Capped observed (some (negsuc n)) previous h = tt

persistable :
    (last : Option ℕ) (n elapsed interval : ℕ)
    → should_persist_percent (some n) last elapsed interval ≡ true
    → Above last n
unfolding should_persist_percent
persistable none n elapsed interval h = tt
persistable (some p) n elapsed interval h = ground arith

attempt-Above :
    (g : Gate) (n throttle_now backoff_now : ℕ)
    → g.max_observed_percent ≡ some n
    → should_attempt_persist g throttle_now backoff_now ≡ true
    → Above g.last_persisted_percent n
unfolding should_attempt_persist
attempt-Above g n throttle_now backoff_now e h =
    let elapsed = throttle_elapsed g throttle_now in
    let q : should_persist_percent (some n) g.last_persisted_percent elapsed g.min_interval ≡ true =
      ground (arith, h, e) in
    persistable g.last_persisted_percent n elapsed g.min_interval q

note_observed-Observed :
    (g : Gate) (candidate : Option ℕ) (throttle_now backoff_now : ℕ)
    → Capped g.max_observed_percent
    → Capped candidate
    → Observed g (note_observed g candidate throttle_now backoff_now)
unfolding note_observed
note_observed-Observed g none throttle_now backoff_now h k = (h, refl, refl, tt)
note_observed-Observed g (some n) throttle_now backoff_now h k =
    let cap = not_below-Capped g.max_observed_percent n h k in
    let noted = raise_observed g n in
    if-holds (Observed g) g.ownership_lost (λ e. (h, refl, refl, tt))
      (λ e.
        if-holds (Observed g) (not (should_attempt_persist noted throttle_now backoff_now))
          (λ a. (cap, refl, refl, tt))
          (λ a. (
            cap,
            refl,
            refl,
            (cap, attempt-Above noted _ throttle_now backoff_now refl (not-false _ a)),
          )))

force_observed-Observed :
    (g : Gate) (candidate : Option ℕ)
    → Capped g.max_observed_percent
    → Capped candidate
    → Observed g (force_observed g candidate)
unfolding force_observed
force_observed-Observed g none h k = (h, refl, refl, tt)
force_observed-Observed g (some n) h k =
    let cap = not_below-Capped g.max_observed_percent n h k in
    elim (Option-cases g.last_persisted_percent) [
      | inl e ↦ rw e (cap, refl, refl, (cap, tt))
      | inr (p, e) ↦ elim (Bool-cases (leb (not_below g.max_observed_percent n) p)) [
        | inl a ↦ rw (e, a) (cap, refl, refl, tt)
        | inr a ↦ rw (e, a) (cap, refl, refl, (cap, ground arith))
      ]
    ]

observe-Observed :
    (g : Gate) (s : Sample) → Capped g.max_observed_percent → Observed g (observe g s)
unfolding observe
observe-Observed g s h =
    let candidate = progress_percent s.observed_bytes s.expected_bytes g.max_observed_percent in
    let cap : Capped candidate =
      progress_percent-Capped s.observed_bytes s.expected_bytes g.max_observed_percent h in
    elim (Bool-cases s.force) [
      | inl e ↦ rw e (force_observed-Observed (count_sample g) candidate h cap)
      | inr e ↦
          rw e
            (note_observed-Observed (count_sample g) candidate s.throttle_now s.backoff_now h cap)
    ]

-- A step to a gate and an outcome, after which progress from the new gate is progress from `g`.
abbrev Kept : Gate → Gate × Outcome → Type 0
Kept g (k, o) =
    Capped k.max_observed_percent
    × ((rest : List Outcome)
        → Progress k.last_persisted_percent k.ownership_lost rest
        → Progress g.last_persisted_percent g.ownership_lost (o ∷ rest))

record_write-Kept :
    (g h : Gate) (n : ℕ) (p : Persisted) (now : ℕ)
    → Observed g (h, some n)
    → g.ownership_lost ≡ false
    → Kept g (record_write h n p now, attempted n p)
unfolding record_write
record_write-Kept g h n applied now (cap, last, lost, (c, a)) e =
    (cap, λ rest r. (e, c, a, subst (λ x. Progress (some n) x rest) lost r))
record_write-Kept g h n refused now (cap, last, lost, (c, a)) e =
    (cap, λ rest r. (e, c, a, subst (λ x. Progress x true rest) last r))
record_write-Kept g h n raised now (cap, last, lost, (c, a)) e = (
  cap,
  λ rest r. (
    e,
    c,
    a,
    subst (λ x. Progress x g.ownership_lost rest) last
        (subst (λ x. Progress h.last_persisted_percent x rest) lost r),
  ),
)

try_persist-Kept :
    (g h : Gate) (w : Option ℕ) (persist : ℕ → Persisted) (now : ℕ)
    → Observed g (h, w)
    → g.ownership_lost ≡ false
    → Kept g (try_persist h w persist now)
unfolding try_persist
try_persist-Kept g h none persist now (cap, last, lost, _) e = (
  cap,
  λ rest r.
      subst (λ x. Progress x g.ownership_lost rest) last
        (subst (λ x. Progress h.last_persisted_percent x rest) lost r),
)
try_persist-Kept g h (some n) persist now o e = record_write-Kept g h n (persist n) now o e

ingest-Kept : (g : Gate) (s : Sample) → Capped g.max_observed_percent → Kept g (ingest g s)
unfolding ingest
ingest-Kept g s h =
    if-holds (Kept g) g.ownership_lost (λ e. (h, λ rest r. r))
      (λ e. try_persist-Kept g _ _ s.persist s.written_now (observe-Observed g s h) e)

run-from :
    (g : Gate) (samples : List Sample)
    → Capped g.max_observed_percent
    → Progress g.last_persisted_percent g.ownership_lost (run g samples)
unfolding run
run-from g [] h = tt
run-from g (s ∷ samples) h =
    let (cap, keep) = ingest-Kept g s h in
    keep (run (ingest g s).0 samples) (run-from (ingest g s).0 samples cap)

-- In a stage, whatever its samples and whatever `persist` answers, every percentage passed to
-- `persist` is at most 99 and above every percentage confirmed before it, and `persist` is not
-- called again after it has refused one.
pub run-Progress :
    (min_interval backoff_initial backoff_max : ℕ) (samples : List Sample)
    → Progress none false (run (new_gate min_interval backoff_initial backoff_max) samples)
unfolding new_gate
run-Progress min_interval backoff_initial backoff_max samples =
    run-from (new_gate min_interval backoff_initial backoff_max) samples tt
