-- ===== src/Examples/JobTable.antt =====
-- A table of jobs (backend/src/fetchnow/jobs/).
use fetch_now.Prelude.{
  ℕ, zero, suc, ◌≤◌, ◌≡◌, refl, ◌⊎◌, inl, Bool, false, none, some, List, [], ◌∷◌, Memᴰ, arith, pos,
  ok,
}
use fetch_now.Jobs.States.{queued, inspecting, inspected, is_terminal}
use fetch_now.Jobs.Model.{Target, MediaJob, row_check}
use fetch_now.Jobs.Repository.{Table, same_bytes}
use fetch_now.Jobs.Worker.{complete, fail_permanent, fail_retry, release_to_queued, renew_lease}
use fetch_now.Jobs.RowLaws.{SameRequest}
use fetch_now.Jobs.Lease.{SameLease, lease_is_kept_or_over}
use fetch_now.Jobs.History.{Call, claim, finish, reclaim, expire, history}
use fetch_now.Jobs.Invariants.{IsConsistent, history-IsConsistent}
use fetch_now.Jobs.Fencing.{LeaseLost, stale_worker_is_fenced}
use fetch_now.Jobs.RowHistory.{LegalPath, Finished, job_is_kept, terminal_job_stays}

abbrev repeated : ℕ → ℕ → List ℕ
repeated zero x = []
repeated (suc n) x = x ∷ repeated n x

abbrev pub sample_target : Target
sample_target = record {
  provider_id = "youtube";
  canonical_provider_url = "https://www.youtube.com/watch/abc";
  media_id = "abc";
  hostname = "www.youtube.com";
  path = "/watch/abc";
  scheme = "https";
  port = none;
}

abbrev pub base_job : ℕ → MediaJob ℕ
base_job i = record {
  id = i;
  schema_version = 1;
  result_version = 0;
  public_state = queued;
  target = sample_target;
  credential_hash = repeated 32 i;
  request_fingerprint = repeated 32 9;
  result_metadata = none;
  public_error_code = none;
  attempt_count = 0;
  max_attempts = 3;
  available_at = 10;
  lease_owner = none;
  lease_expires_at = none;
  fence_token = 0;
  created_at = 10;
  updated_at = 10;
  started_at = none;
  completed_at = none;
  expires_at = 1000;
}

-- Held by the second worker that claimed it.
abbrev held_job : MediaJob ℕ
held_job = record (base_job 7) {
  public_state = inspecting;
  attempt_count = 2;
  lease_owner = some "worker-b";
  lease_expires_at = some 90;
  fence_token = 2;
  started_at = some 20;
}

abbrev done_job : MediaJob ℕ
done_job = record (base_job 8) {
  public_state = inspected;
  result_metadata = some 42;
  attempt_count = 1;
  fence_token = 1;
  started_at = some 20;
  completed_at = some 40;
}

abbrev jobs : Table ℕ
jobs = held_job ∷ done_job ∷ base_job 9 ∷ []

abbrev nobody : ℕ → Bool
nobody i = false

-- The lease of job 7 runs out and is reclaimed; another worker claims; job 8 expires.
abbrev calls : List (Call ℕ)
calls =
    reclaim 100 nobody 100
    ∷ claim 110 nobody "worker-c" 50 110 1
    ∷ finish 120 7 "worker-c" 3 5
    ∷ expire 1000 nobody 1000
    ∷ []

jobs-IsConsistent : IsConsistent jobs
unfolding row_check same_bytes
jobs-IsConsistent = record {
  checks = (refl, (refl, (refl, tt)));
  ids = ((omega arith, (omega arith, tt)), ((omega arith, tt), (tt, tt)));
  credentials = ((refl, (refl, tt)), ((refl, tt), (tt, tt)));
  attempts = (omega arith, (omega arith, (omega arith, tt)));
}

-- Worker A claimed job 7 first, under fence 1.
worker_a-LeaseLost : LeaseLost 7 1 jobs
worker_a-LeaseLost = record {
  row = held_job;
  here = Memᴰ.head refl;
  named = refl;
  lost = record { issued = omega arith; gone = inl (omega arith) };
}

history-IsConsistent_example : IsConsistent (history calls jobs)
history-IsConsistent_example = history-IsConsistent calls jobs jobs-IsConsistent

stale_worker_is_fenced_example :
    let u = history calls jobs in
    (complete 130 7 "worker-a" 1 6 u ≡ ok (false, u))
    × (fail_permanent 130 7 "worker-a" 1 "FILE_TOO_LARGE" u ≡ ok (false, u))
    × (fail_retry 130 7 "worker-a" 1 130 (pos 5) "FILE_TOO_LARGE" jobs u ≡ ok (false, u))
    × (release_to_queued 130 7 "worker-a" 1 130 u ≡ ok (false, u))
    × (renew_lease 130 7 "worker-a" 1 60 u ≡ ok (false, u))
stale_worker_is_fenced_example =
    stale_worker_is_fenced calls jobs 7 1 130 130 60 (pos 5) "worker-a" 6 "FILE_TOO_LARGE" jobs
      jobs-IsConsistent worker_a-LeaseLost

job_is_kept_example :
    (k : MediaJob ℕ) × Memᴰ k (history calls jobs)
    × SameRequest held_job k
    × (2 ≤ k.fence_token)
    × LegalPath inspecting k.public_state
    × (k.attempt_count ≤ k.max_attempts)
job_is_kept_example = job_is_kept calls jobs held_job jobs-IsConsistent (Memᴰ.head refl)

terminal_job_stays_example :
    (k : MediaJob ℕ) × Memᴰ k (history calls jobs) × (k.id ≡ 8) × Finished done_job k
terminal_job_stays_example =
    terminal_job_stays calls jobs done_job jobs-IsConsistent (Memᴰ.tail (Memᴰ.head refl))
      (unfold is_terminal in refl)

lease_is_kept_or_over_example :
    (k : MediaJob ℕ) × Memᴰ k (history calls jobs)
    × (k.id ≡ 7)
    × (SameLease held_job k
        ⊎ ((ds : List (Call ℕ)) → LeaseLost 7 2 (history ds (history calls jobs))))
lease_is_kept_or_over_example =
    lease_is_kept_or_over calls jobs held_job jobs-IsConsistent (Memᴰ.head refl) refl
