-- ===== src/Jobs/Repository.antt =====
-- `MediaJobRepository` (backend/src/fetchnow/jobs/repository.py): each method is a function of the
-- table, of the arguments of the call and of what the database chooses. `clock` is the reading of
-- `clock_timestamp()` in the statement, `now` the argument of the call.
use fetch_now.Prelude.{
  ℕ, ◌+◌, String, Bool, true, false, not, ◌&&◌, ◌||◌, Option, none, some, List, [], ◌∷◌, ◌++◌, any,
  length, str_eq, ltb, ◌==◌, if◌then◌else◌, Result, ok, err, codes, has_code, update_where,
  count_where, find,
}
use fetch_now.Jobs.States.{
  queued, inspecting, same_state, JobError, job_error, internal_error, idempotency_conflict,
}
use fetch_now.Jobs.Model.{Target, MediaJob, row_check}

abbrev pub Table : Type 0 → Type 0
Table Json = List (MediaJob Json)

-- Equality of digests, as `hmac.compare_digest` decides it.
unfoldable pub same_bytes : List ℕ → List ℕ → Bool
same_bytes [] [] = true
same_bytes (x ∷ xs) (y ∷ ys) = (x == y) && same_bytes xs ys
same_bytes _ _ = false

-- `column = s`, which SQL does not take for true at NULL.
abbrev pub text_is : Option String → String → Bool
text_is none s = false
text_is (some t) s = str_eq t s

-- `column > t`, which SQL does not take for true at NULL.
abbrev pub later_than : Option ℕ → ℕ → Bool
later_than none t = false
later_than (some u) t = ltb t u

module _ {Json : Type 0} where
  abbrev pub id_of : MediaJob Json → ℕ
  id_of j = j.id

  unfoldable pub get_by_id : ℕ → Table Json → Option (MediaJob Json)
  unfolding find
  get_by_id job_id t = find (λ j. j.id == job_id) t

  unfoldable pub get_by_credential_hash : List ℕ → Table Json → Option (MediaJob Json)
  unfolding find same_bytes
  get_by_credential_hash hash t = find (λ j. same_bytes j.credential_hash hash) t

  -- The rows that a worker's conditional UPDATE addresses: its own live lease.
  unfoldable pub holds_lease : ℕ → ℕ → String → ℕ → MediaJob Json → Bool
  holds_lease clock job_id owner fence j =
      j.id == job_id
      && same_state j.public_state inspecting
      && text_is j.lease_owner owner
      && (j.fence_token == fence)
      && later_than j.lease_expires_at clock
      && ltb clock j.expires_at

  -- The conditional UPDATE that four methods share, with `bool(result.rowcount)`.
  unfoldable pub fenced_update :
      ℕ → ℕ → String → ℕ → (MediaJob Json → MediaJob Json) → Table Json → Bool × Table Json
  unfolding holds_lease update_where count_where
  fenced_update clock job_id owner fence set t =
      let mine = holds_lease clock job_id owner fence in
      (ltb 0 (count_where mine t), update_where mine set t)

  -- A new row, as `enqueue_or_get` builds it; `fresh` is `uuid.uuid4()`.
  unfoldable pub new_job : ℕ → List ℕ → List ℕ → Target → ℕ → ℕ → ℕ → MediaJob Json
  new_job fresh credential_hash request_fingerprint target now ttl max_attempts = record {
    id = fresh;
    schema_version = 1;
    result_version = 0;
    public_state = queued;
    target = target;
    credential_hash = credential_hash;
    request_fingerprint = request_fingerprint;
    result_metadata = none;
    public_error_code = none;
    attempt_count = 0;
    max_attempts = max_attempts;
    available_at = now;
    lease_owner = none;
    lease_expires_at = none;
    fence_token = 0;
    created_at = now;
    updated_at = now;
    started_at = none;
    completed_at = none;
    expires_at = now + ttl;
  }

  -- Whether the INSERT raises an IntegrityError: a constraint of the table does not hold.
  unfoldable pub insert_conflicts : MediaJob Json → Table Json → Bool
  unfolding same_bytes row_check
  insert_conflicts job t =
      any (λ j. j.id == job.id) t
      || any (λ j. same_bytes j.credential_hash job.credential_hash) t
      || not (row_check job)

  unfoldable pub enqueue_or_get :
      ℕ
      → List ℕ
      → List ℕ
      → Target
      → ℕ
      → ℕ
      → ℕ
      → Table Json
      → Result JobError ((MediaJob Json × Bool) × Table Json)
  unfolding new_job insert_conflicts get_by_credential_hash same_bytes
  enqueue_or_get fresh credential_hash request_fingerprint target now ttl max_attempts t =
      let job = new_job fresh credential_hash request_fingerprint target now ttl max_attempts in
      let url = codes target.canonical_provider_url in
      if not (length credential_hash == 32) || not (length request_fingerprint == 32)
      then err (job_error internal_error "HASH_LENGTH")
      else if has_code b'?' url || has_code b'#' url
      then err (job_error internal_error "CANONICAL_QUERY_OR_FRAGMENT")
      else if insert_conflicts job t
      then elim (get_by_credential_hash credential_hash t) [
        | none ↦ err (job_error internal_error "IDEMPOTENCY_LOOKUP_MISS")
        | some existing ↦
            if same_bytes existing.request_fingerprint request_fingerprint
            then ok ((existing, false), t)
            else err (job_error idempotency_conflict "FINGERPRINT_MISMATCH")
      ]
      else ok ((job, true), t ++ job ∷ [])
