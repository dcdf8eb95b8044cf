-- ===== src/Quota/Admission.antt =====
-- The rolling window of the Free quota and the admission of a download
-- (backend/src/fetchnow/quota/policy.py, quota/repository.py and quota/service.py).
pub mod Limit
use fetch_now.Prelude.{
  ◌>>=◌, ◌>>◌, ℕ, ◌+◌, ◌-◌, ◌/◌, Bool, false, not, ◌&&◌, ◌||◌, Option, none, some, List, [], ◌∷◌,
  ◌++◌, ltb, leb, ◌==◌, if◌then◌else◌, count_where, order_by, any, drop_first, Result, ok, err,
}
use fetch_now.Quota.Model.{
  EntryState, reserved, consumed, released, expired, QuotaEntry, is_reserved, is_consumed,
  QuotaError, invariant, guard,
}

pub record PremiumCapability : Type 0 where
  pub is_premium : Bool
  pub premium_expires_at : Option ℕ

-- The settings that a policy is made of; times are microseconds.
pub record Settings : Type 0 where
  pub free_download_limit : ℕ
  pub free_download_window : ℕ

-- What admission reads of `EffectiveDownloadPolicy`.
pub data Policy : Type 0 where
  premium : (premium_expires_at : ℕ) → Policy
  free : (download_limit quota_window : ℕ) → Policy

-- `QuotaStatus` of the tier "free".
pub record FreeStatus : Type 0 where
  pub download_limit : ℕ
  pub downloads_used : ℕ
  pub downloads_reserved : ℕ
  pub downloads_remaining : ℕ
  pub reset_at : Option ℕ
  pub window : ℕ

pub data QuotaStatus : Type 0 where
  premium_status : (premium_expires_at : ℕ) → QuotaStatus
  free_status : FreeStatus → QuotaStatus

pub data AdmissionError : Type 0 where
  capability_without_expiry identity_required integrity : AdmissionError
  reservation_in_past : AdmissionError
  quota_exceeded : FreeStatus → AdmissionError

abbrev free_policy : Settings → Policy
free_policy s = free s.free_download_limit s.free_download_window

unfoldable pub effective_download_policy :
    Settings → Option PremiumCapability → Result AdmissionError Policy
effective_download_policy settings none = ok (free_policy settings)
effective_download_policy settings (some c) =
    if c.is_premium
    then elim c.premium_expires_at [
      | none ↦ err capability_without_expiry
      | some t ↦ ok (premium t)
    ]
    else ok (free_policy settings)

abbrev consumed_in : ℕ → ℕ → Option ℕ → Bool
consumed_in now window none = false
consumed_in now window (some t) = ltb now (t + window) && leb t now

-- A download of the client that counts as used.
unfoldable pub is_used : ℕ → ℕ → ℕ → QuotaEntry → Bool
is_used client now window e =
    e.anonymous_client_id == client && is_consumed e.state && consumed_in now window e.consumed_at

-- A reservation of the client that counts.
unfoldable pub is_held : ℕ → ℕ → QuotaEntry → Bool
is_held client now e =
    e.anonymous_client_id == client && is_reserved e.state && ltb now e.reservation_expires_at

unfoldable pub used : ℕ → ℕ → ℕ → List QuotaEntry → ℕ
unfolding is_used count_where
used client now window t = count_where (is_used client now window) t

unfoldable pub held : ℕ → ℕ → List QuotaEntry → ℕ
unfolding is_held count_where
held client now t = count_where (is_held client now) t

-- The consumption times that count as used.
unfoldable pub used_times : ℕ → ℕ → ℕ → List QuotaEntry → List ℕ
unfolding is_used
used_times client now window [] = []
used_times client now window (e ∷ t) =
    let rest = used_times client now window t in
    elim e.consumed_at [
      | none ↦ rest
      | some at ↦ if is_used client now window e then at ∷ rest else rest
    ]

abbrev first_of : List ℕ → Option ℕ
first_of [] = none
first_of (x ∷ xs) = some x

-- `ORDER BY consumed_at OFFSET used - limit LIMIT 1`, with the window added.
unfoldable pub reset_time : ℕ → ℕ → ℕ → ℕ → List QuotaEntry → Option ℕ
unfolding used_times order_by
reset_time client now limit window t =
    let skipped = used client now window t - limit in
    elim (first_of (drop_first skipped (order_by leb (used_times client now window t)))) [
      | none ↦ none
      | some at ↦ some (at + window)
    ]

-- `status_locked`
unfoldable pub status_locked : ℕ → ℕ → ℕ → ℕ → List QuotaEntry → FreeStatus
status_locked client now limit window t =
    let taken = used client now window t in
    let kept = held client now t in
    record {
      download_limit = limit;
      downloads_used = taken;
      downloads_reserved = kept;
      downloads_remaining = limit - taken - kept;
      reset_at = if leb limit taken then reset_time client now limit window t else none;
      window = window;
    }

-- A new reservation.
unfoldable pub new_entry : ℕ → ℕ → ℕ → ℕ → ℕ → QuotaEntry
new_entry fresh client job reserved_at expires_at = record {
  id = fresh;
  anonymous_client_id = client;
  download_job_id = job;
  state = reserved;
  reserved_at = reserved_at;
  reservation_expires_at = expires_at;
  consumed_at = none;
  released_at = none;
}

-- `reserve_locked`; `fresh` is the `uuid4`. The table has one entry per download job.
unfoldable pub reserve_locked :
    ℕ → ℕ → ℕ → ℕ → ℕ → List QuotaEntry → Result AdmissionError (List QuotaEntry)
unfolding new_entry
reserve_locked fresh client job reserved_at expires_at t =
    if leb expires_at reserved_at
    then err reservation_in_past
    else if any (λ e. e.id == fresh || e.download_job_id == job) t
    then err integrity
    else ok (t ++ new_entry fresh client job reserved_at expires_at ∷ [])

-- The status that `admit_locked` returns: the one before, with one reservation more.
unfoldable pub after_reservation : FreeStatus → FreeStatus
after_reservation before = record before {
  downloads_reserved = before.downloads_reserved + 1;
  downloads_remaining = before.downloads_remaining - 1;
}

-- The part of `admit_locked` for the tier "free".
unfoldable pub admit_free :
    ℕ
    → ℕ
    → ℕ
    → ℕ
    → ℕ
    → ℕ
    → ℕ
    → List QuotaEntry
    → Result AdmissionError (FreeStatus × List QuotaEntry)
admit_free fresh client job expires_at now limit window t =
    let before = status_locked client now limit window t in
    if ltb before.downloads_remaining 1
    then err (quota_exceeded before)
    else do u ← reserve_locked fresh client job now expires_at t; ok (after_reservation before, u)

-- `admit_locked`: `active` tells whether the client exists and has not expired, `capability` is
-- what the Premium service answers.
unfoldable pub admit_locked :
    ℕ
    → ℕ
    → ℕ
    → ℕ
    → ℕ
    → Bool
    → Settings
    → Option PremiumCapability
    → List QuotaEntry
    → Result AdmissionError (QuotaStatus × List QuotaEntry)
admit_locked fresh client job expires_at now active settings capability t =
    if not active then err identity_required else do
      policy ← effective_download_policy settings capability
      elim policy [
        | premium until ↦ ok (premium_status until, t)
        | free limit window ↦ do
          (status, u) ← admit_free fresh client job expires_at now limit window t
          ok (free_status status, u)
      ]
