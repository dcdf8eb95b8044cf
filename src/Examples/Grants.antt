-- ===== src/Examples/Grants.antt =====
-- Browser grants (backend/src/fetchnow/downloads/grant_service.py and
-- backend/src/fetchnow/delivery/service.py).
use fetch_now.Prelude.{
  some, ap, Memᴰ, ℕ, ◌≤◌, ◌≡◌, refl, true, none, List, [], ◌∷◌, arith, find, codes, length, ok,
}
use fetch_now.Jobs.Model.{MediaJob}
use fetch_now.Downloads.Model.{MediaDownloadJob}
use fetch_now.Delivery.Authorize.{
  DeliverySettings, GrantRow, Tables, service_policy, DeliveryAuthorization, is_over,
  policy_for_job, authorize_browser_grant, is_empty,
}
use fetch_now.Delivery.Authorize.Safety.{IsGranted, authorize_browser_grant-IsGranted}
use fetch_now.Downloads.Grants.{is_active_grant}
use fetch_now.Delivery.Issue.{IssuedBrowserGrant, issue, list_active_for_job}
use fetch_now.Delivery.Issue.RoundTrip.{authorize_browser_grant-issue}
use fetch_now.Delivery.Issue.Bound.{issue-bound}
use fetch_now.Delivery.Issue.Oldest.{issue-oldest}
use fetch_now.Examples.Ranges.{ready_job}
use fetch_now.Examples.JobTable.{base_job}
use fetch_now.Examples.Tokens.{low_bytes, low_token}

-- A digest that is the same for all texts.
abbrev flat_digest : List ℕ → List ℕ
flat_digest s = low_bytes

abbrev no_text : ℕ → List ℕ
no_text n = []

abbrev settings : DeliverySettings
settings = record {
  media_delivery_enabled = true;
  media_browser_delivery_enabled = true;
  media_downloads_enabled = true;
  media_browser_grant_ttl_seconds = 60;
  media_browser_grant_max_active = 2;
}

abbrev parent : MediaJob ℕ
parent = record (base_job 3) { credential_hash = low_bytes; expires_at = 100_000_000 }

abbrev job : MediaDownloadJob
job = record ready_job { expires_at = 50_000_000 }

abbrev tables : Tables ℕ
tables = record { media_jobs = parent ∷ []; download_jobs = job ∷ []; grants = [] }

-- The grant 5, issued at 1,000.
abbrev grant_row : GrantRow
grant_row = record {
  download_job_id = job.id;
  grant = record {
    id = 5;
    token_hash = low_bytes;
    artifact_id = 77;
    fence_token = job.fence_token;
    created_at = 1000;
    expires_at = 50_000_000;
    revoked_at = none;
  };
}

abbrev after : Tables ℕ
after = record tables { grants = grant_row ∷ [] }

abbrev issued : IssuedBrowserGrant
issued = record {
  grant_id = 5;
  download_path = codes "/api/v1/media/browser-grants//content";
  expires_at = 50_000_000;
  raw_token = low_token;
  cookie_max_age = 49;
}

issued_after :
    issue flat_digest no_text settings tables 1000 low_bytes 5 4 low_token ≡ ok (issued, after)
unfolding issue
issued_after = refl

abbrev authz : DeliveryAuthorization
authz = record { job = job; now = 2000; applied = service_policy }

opened : authorize_browser_grant flat_digest settings after 2000 5 low_token ≡ ok authz
unfolding authorize_browser_grant
opened = refl

authorize_browser_grant-IsGranted_example : IsGranted flat_digest after 2000 5 low_token job
authorize_browser_grant-IsGranted_example =
    authorize_browser_grant-IsGranted flat_digest settings after 2000 5 low_token authz opened

-- Another grant was issued since.
abbrev crowded : Tables ℕ
crowded = record tables {
  grants =
      record grant_row {
        grant = record (grant_row.grant) { id = 6; token_hash = (base_job 6).credential_hash };
      }
      ∷ grant_row
      ∷ [];
}

authorize_browser_grant-issue_example :
    authorize_browser_grant flat_digest settings crowded 2000 5 low_token ≡ ok authz
unfolding is_over policy_for_job is_empty find
authorize_browser_grant-issue_example =
    authorize_browser_grant-issue flat_digest no_text settings tables after crowded 1000 2000
      low_bytes 5 4 low_token issued job parent service_policy issued_after refl refl refl refl refl
      (omega arith) refl refl refl

issue-bound_example : length (list_active_for_job 4 1000 after.grants) ≤ 2
issue-bound_example =
    issue-bound flat_digest no_text settings tables after 1000 low_bytes 5 4 low_token issued
      (omega arith) issued_after

-- Two active grants, created at 100 and at 200, and a third one at 1,000, under a limit of 2.
abbrev dated : ℕ → ℕ → GrantRow
dated id created = record grant_row {
  grant = record (grant_row.grant) {
    id = id;
    token_hash = (base_job id).credential_hash;
    created_at = created;
  };
}

abbrev full : Tables ℕ
full = record tables { grants = dated 9 200 ∷ dated 8 100 ∷ [] }

abbrev revoked : GrantRow
revoked = record (dated 8 100) { grant = record ((dated 8 100).grant) { revoked_at = some 1000 } }

abbrev refilled : Tables ℕ
refilled = record tables { grants = grant_row ∷ dated 9 200 ∷ revoked ∷ [] }

issued_refilled :
    issue flat_digest no_text settings full 1000 low_bytes 5 4 low_token ≡ ok (issued, refilled)
unfolding issue
issued_refilled = refl

changed : ¬ Memᴰ (dated 8 100) refilled.grants
changed (Memᴰ.head e) = cc (ap (λ row. row.grant.id) e)
changed (Memᴰ.tail (Memᴰ.head e)) = cc (ap (λ row. row.grant.id) e)
changed (Memᴰ.tail (Memᴰ.tail (Memᴰ.head e))) = cc (ap (λ row. row.grant.revoked_at) e)
changed (Memᴰ.tail (Memᴰ.tail (Memᴰ.tail m))) = elim m [ ]

issue-oldest_example : 100 ≤ 200
issue-oldest_example =
    issue-oldest flat_digest no_text settings full refilled 1000 low_bytes 5 4 low_token issued
      (dated 8 100) (dated 9 200) ((omega arith, tt), (tt, tt)) issued_refilled
      (Memᴰ.tail (Memᴰ.head refl)) (Memᴰ.head refl) (omega arith) (unfold is_active_grant in refl)
      changed (Memᴰ.tail (Memᴰ.head refl))
