-- ===== src/Examples/Admission.antt =====
-- Admission of a download (backend/src/fetchnow/quota/).
use fetch_now.Prelude.{ℕ, ◌+◌, ◌≤◌, ◌≡◌, refl, Option, none, some, List, [], ◌∷◌, ◌++◌, ok}
use fetch_now.Quota.Model.{EntryState, QuotaEntry}
use fetch_now.Quota.Admission.{
  reserve_locked, after_reservation, FreeStatus, used, held, status_locked, new_entry, admit_free,
}
use fetch_now.Quota.Admission.Limit.{admit_free_lem}

abbrev entry : ℕ → EntryState → Option ℕ → QuotaEntry
entry id state at = record {
  id = id;
  anonymous_client_id = 2;
  download_job_id = id;
  state = state;
  reserved_at = 100;
  reservation_expires_at = 5000;
  consumed_at = at;
  released_at = none;
}

-- One download is in the window, one is before it, and one is reserved.
abbrev entries : List QuotaEntry
entries =
    entry 1 EntryState.consumed (some 950)
    ∷ entry 2 EntryState.consumed (some 300)
    ∷ entry 3 EntryState.reserved none
    ∷ []

abbrev told : FreeStatus
told = record {
  download_limit = 3;
  downloads_used = 1;
  downloads_reserved = 2;
  downloads_remaining = 0;
  reset_at = none;
  window = 500;
}

abbrev admitted : List QuotaEntry
admitted = entries ++ new_entry 50 2 4 1000 6000 ∷ []

admission : admit_free 50 2 4 6000 1000 3 500 entries ≡ ok (told, admitted)
unfolding admit_free status_locked used held reserve_locked after_reservation
admission = refl

admit_free_lem_example :
    (used 2 1000 500 admitted + held 2 1000 admitted ≤ 3)
    × (entries ++ new_entry 50 2 4 1000 6000 ∷ [] ≡ admitted)
    × (status_locked 2 1000 3 500 admitted ≡ told)
admit_free_lem_example = admit_free_lem 50 2 4 6000 1000 3 500 entries admission
