-- ===== src/Jobs/Rules.antt =====
-- What each method of the repository promises of a row that it changes, in the columns' own terms.
pub mod Calls
use fetch_now.Prelude.{
  ℕ, ◌+◌, ◌-◌, ◌≤◌, ◌<◌, String, ◌≡◌, refl, ◌⊎◌, inl, inr, Bool, true, false, not, ◌&&◌, none, some,
  arith, pos_part, keep, map, leb, ◌==◌, Bool-cases, All, All-keep, Memᴰ, Forall₂, Forall₂-same,
  Forall₂-update_where, Forall₂-flush, UniqueIds, flush,
}
use fetch_now.Jobs.States.{queued, inspecting, inspected, failed, expired, same_state}
use fetch_now.Jobs.Model.{MediaJob}
use fetch_now.Jobs.Repository.{Table, text_is, id_of, later_than, holds_lease, fenced_update}
use fetch_now.Jobs.Worker.{claimable, claim_row}
use fetch_now.Jobs.Reaper.{due, lease_expired, exhausted, reclaim_row, due_to_expire, expire_row}
use fetch_now.Jobs.History.{
  Call, enqueue, claim, finish, fail, retry, release, renew, reclaim, expire,
}

module _ {Json : Type 0} where
  -- The worker `owner` holds the job `job_id` under `fence` at the time `clock`.
  pub record Holds (clock job_id : ℕ) (owner : String) (fence : ℕ) (j : MediaJob Json)
      : Type 0 where
    pub job : (j.id == job_id) ≡ true
    pub leased : j.public_state ≡ inspecting
    pub holder : text_is j.lease_owner owner ≡ true
    pub token : j.fence_token ≡ fence
    pub live : later_than j.lease_expires_at clock ≡ true
    pub in_time : clock < j.expires_at

  -- The job has no lease any more, under the same fence token.
  abbrev Unleased : MediaJob Json → MediaJob Json → Type 0
  Unleased j k =
      (k.lease_owner ≡ none) × (k.lease_expires_at ≡ none) × (k.fence_token ≡ j.fence_token)

  -- The rule by which a call may change a row.
  abbrev pub Rule : Call Json → MediaJob Json → MediaJob Json → Type 0
  Rule (enqueue fresh hash print target now ttl tries) j k = ⊥
  Rule (claim clock locked worker lease now limit) j k =
      (j.public_state ≡ queued)
      × (j.available_at ≤ clock)
      × (clock < j.expires_at)
      × (j.attempt_count < j.max_attempts)
      × (locked j.id ≡ false)
      × (k.public_state ≡ inspecting)
      × (k.lease_owner ≡ some worker)
      × (k.lease_expires_at ≡ some (now + lease))
      × (k.fence_token ≡ j.fence_token + 1)
      × (k.attempt_count ≡ j.attempt_count + 1)
  Rule (finish clock i owner fence metadata) j k =
      Holds clock i owner fence j
      × (k.public_state ≡ inspected)
      × (k.result_metadata ≡ some metadata)
      × (k.attempt_count ≡ j.attempt_count)
      × Unleased j k
  Rule (fail clock i owner fence code) j k =
      Holds clock i owner fence j
      × (k.public_state ≡ failed)
      × (k.public_error_code ≡ some code)
      × (k.attempt_count ≡ j.attempt_count)
      × Unleased j k
  Rule (retry clock i owner fence now backoff code seen) j k =
      Holds clock i owner fence j
      × ((k.public_state ≡ queued) × (k.available_at ≡ now + pos_part backoff)
          ⊎ (k.public_state ≡ failed) × (k.public_error_code ≡ some code))
      × (k.attempt_count ≡ j.attempt_count)
      × Unleased j k
  Rule (release clock i owner fence now) j k =
      Holds clock i owner fence j
      × (k.public_state ≡ queued)
      × (k.available_at ≡ now)
      × (k.attempt_count ≡ j.attempt_count - 1)
      × Unleased j k
  Rule (renew clock i owner fence lease) j k =
      Holds clock i owner fence j
      × (k.public_state ≡ inspecting)
      × (k.lease_owner ≡ j.lease_owner)
      × (k.lease_expires_at ≡ some (clock + lease))
      × (k.fence_token ≡ j.fence_token)
  Rule (reclaim clock locked now) j k =
      (j.public_state ≡ inspecting)
      × (due j.lease_expires_at clock ≡ true)
      × (clock < j.expires_at)
      × (locked j.id ≡ false)
      × ((j.attempt_count < j.max_attempts) × (k.public_state ≡ queued)
          ⊎ (j.max_attempts ≤ j.attempt_count) × (k.public_state ≡ failed))
      × (k.lease_owner ≡ none)
      × (k.fence_token ≡ j.fence_token + 1)
  Rule (expire clock locked now) j k =
      (j.expires_at ≤ clock)
      × (same_state j.public_state expired ≡ false)
      × (locked j.id ≡ false)
      × (k.public_state ≡ expired)
      × (k.result_metadata ≡ none)
      × (k.lease_owner ≡ none)
      × (k.fence_token ≡ j.fence_token + 1)

  -- A row stays, or changes by the rule of the call.
  abbrev pub CallStep : Call Json → MediaJob Json → MediaJob Json → Type 0
  CallStep c j k = (k ≡ j) ⊎ Rule c j k

  holds :
      (clock job_id : ℕ) (owner : String) (fence : ℕ) (j : MediaJob Json)
      → holds_lease clock job_id owner fence j ≡ true
      → Holds clock job_id owner fence j
  unfolding holds_lease
  holds clock job_id owner fence j h = record {
    job = ground arith;
    leased = ground arith;
    holder = ground arith;
    token = ground arith;
    live = ground arith;
    in_time = ground arith;
  }

  -- A conditional UPDATE under a lease.
  pub fenced-Rules :
      (c : Call Json) (clock job_id : ℕ) (owner : String) (fence : ℕ)
      (set : MediaJob Json → MediaJob Json) (t : Table Json)
      → ((j : MediaJob Json) → Holds clock job_id owner fence j → Rule c j (set j))
      → Forall₂ (CallStep c) t (fenced_update clock job_id owner fence set t).1
  unfolding fenced_update
  fenced-Rules c clock job_id owner fence set t h =
      Forall₂-update_where (CallStep c) (holds_lease clock job_id owner fence) set t
        (λ j e. inr (h j (holds clock job_id owner fence j e))) (λ j. inl refl)

  pub unmoved : (c : Call Json) (t : Table Json) → Forall₂ (CallStep c) t t
  unmoved c t = Forall₂-same (CallStep c) t (λ j. inl refl)

  -- The changed versions of selected rows are written back.
  pub flush-Rules :
      (c : Call Json) (change : MediaJob Json → MediaJob Json) (p : MediaJob Json → Bool)
      (t sel : Table Json)
      → ((j : MediaJob Json) → (change j).id ≡ j.id)
      → UniqueIds id_of t
      → All (λ j. Memᴰ j t × (p j ≡ true)) sel
      → ((j : MediaJob Json) → p j ≡ true → Rule c j (change j))
      → Forall₂ (CallStep c) t (flush id_of (map change sel) t)
  flush-Rules c change p t sel same u h hit =
      Forall₂-flush id_of (CallStep c) change p t sel same u h (λ j e. inr (hit j e))
        (λ j. inl refl)

  pub free_rows :
      (p : MediaJob Json → Bool) (t : Table Json) → All (λ j. Memᴰ j t × (p j ≡ true)) (keep p t)
  free_rows p t = All-keep _ _ t (λ j m e. (m, e))

  pub claim-Rule :
      (clock : ℕ) (locked : ℕ → Bool) (worker : String) (lease now limit : ℕ) (j : MediaJob Json)
      → (claimable clock j && not (locked j.id)) ≡ true
      → Rule (claim clock locked worker lease now limit) j (claim_row worker lease now j)
  unfolding claimable claim_row
  claim-Rule clock locked worker lease now limit j h = (
    ground arith,
    ground arith,
    ground arith,
    ground arith,
    ground arith,
    refl,
    refl,
    refl,
    refl,
    refl,
  )

  pub reclaim-Rule :
      (clock : ℕ) (locked : ℕ → Bool) (now : ℕ) (j : MediaJob Json)
      → (lease_expired clock j && not (locked j.id)) ≡ true
      → Rule (reclaim clock locked now) j (reclaim_row now j)
  unfolding lease_expired reclaim_row exhausted
  reclaim-Rule clock locked now j h = (
    ground arith,
    ground arith,
    ground arith,
    ground arith,
    elim (Bool-cases (leb j.max_attempts j.attempt_count)) [
      | inl e ↦ inr (ground arith, rw (e) refl)
      | inr e ↦ inl (ground arith, rw (e) refl)
    ],
    refl,
    refl,
  )

  pub expire-Rule :
      (clock : ℕ) (locked : ℕ → Bool) (now : ℕ) (j : MediaJob Json)
      → (due_to_expire clock j && not (locked j.id)) ≡ true
      → Rule (expire clock locked now) j (expire_row now j)
  unfolding due_to_expire expire_row
  expire-Rule clock locked now j h =
      (ground arith, ground arith, ground arith, refl, refl, refl, refl)
