-- ===== src/Quota/Model.antt =====
-- The tables of the Free quota (backend/src/fetchnow/quota/models.py) and what its code raises.
use fetch_now.Prelude.{
  refl, ◌≡◌, ◌>>=◌, ℕ, String, Bool, true, false, ◌&&◌, Option, none, some, ltb, leb, Result, ok,
  err,
}

pub data EntryState : Type 0 where
  reserved consumed released expired : EntryState

-- One row of `free_download_quota_entries`; times are microseconds.
pub record QuotaEntry : Type 0 where
  pub id : ℕ
  pub anonymous_client_id : ℕ
  pub download_job_id : ℕ
  pub state : EntryState
  pub reserved_at : ℕ
  pub reservation_expires_at : ℕ
  pub consumed_at : Option ℕ
  pub released_at : Option ℕ

abbrev pub is_reserved : EntryState → Bool
is_reserved reserved = true
is_reserved _ = false

abbrev pub is_consumed : EntryState → Bool
is_consumed consumed = true
is_consumed _ = false

pub data RangeState : Type 0 where
  active closed : RangeState

abbrev pub is_active : RangeState → Bool
is_active active = true
is_active closed = false

-- One row of `free_download_delivery_ranges`.
pub record DeliveryRange : Type 0 where
  pub id : ℕ
  pub quota_entry_id : ℕ
  pub artifact_id : ℕ
  pub fence_token : ℕ
  pub artifact_bytes : ℕ
  pub request_start : ℕ
  pub request_end_exclusive : ℕ
  pub served_end_exclusive : ℕ
  pub state : RangeState
  pub started_at : ℕ
  pub lease_expires_at : Option ℕ
  pub closed_at : Option ℕ

-- ck_free_delivery_ranges_lifecycle
abbrev pub lifecycle_check : RangeState → ℕ → Option ℕ → Option ℕ → Bool
lifecycle_check active started (some lease) none = ltb started lease
lifecycle_check closed started none (some t) = leb started t
lifecycle_check _ _ _ _ = false

-- The CHECK constraints of a range; counters are natural numbers.
unfoldable pub range_check : DeliveryRange → Bool
range_check r =
    ltb 0 r.artifact_bytes
    && ltb r.request_start r.request_end_exclusive
    && leb r.request_end_exclusive r.artifact_bytes
    && leb r.request_start r.served_end_exclusive
    && leb r.served_end_exclusive r.request_end_exclusive
    && lifecycle_check r.state r.started_at r.lease_expires_at r.closed_at

-- `QuotaInvariantError`, the download error DOWNLOAD_STORAGE_UNAVAILABLE with its internal reason,
-- what a callback raises, and the IntegrityError of a flush that breaks a CHECK constraint.
pub data QuotaError : Type 0 where
  invariant : String → QuotaError
  storage_unavailable : String → QuotaError
  callback_raised : String → QuotaError
  integrity_error : QuotaError

abbrev pub require : {A : Type 0} → Option A → QuotaError → Result QuotaError A
require none e = err e
require (some a) e = ok a

abbrev pub guard : Bool → QuotaError → Result QuotaError (Unit {0})
guard true e = ok tt
guard false e = err e

pub guard-eq-ok :
    {A : Type 0} (b : Bool) (e : QuotaError) (k : Result QuotaError A) {a : A}
    → (guard b e >>= λ _. k) ≡ ok a
    → (b ≡ true) × (k ≡ ok a)
guard-eq-ok true e k h = (refl, h)
guard-eq-ok false e k h = cc
