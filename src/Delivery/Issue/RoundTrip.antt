-- ===== src/Delivery/Issue/RoundTrip.antt =====
-- A grant that was issued opens the artifact.
use fetch_now.Prelude.{
  ℕ, ◌<◌, ◌≡◌, refl, sym, ap, ◌∙◌, subst, inl, inr, Bool, true, false, not, ◌||◌, Option, none,
  some, List, [], ◌∷◌, arith, leb, ◌==◌, is_some, ==→eq, not-false, if-cases, find, length,
  >>=-eq-ok, ok-injective, ok,
}
use fetch_now.Tokens.{generate_token}
use fetch_now.Downloads.Model.{MediaDownloadJob}
use fetch_now.Downloads.Grants.{MediaDeliveryGrant}
use fetch_now.Jobs.Model.{MediaJob}
use fetch_now.Texts.{same_text_refl}
use fetch_now.Delivery.Authorize.Safety.{raise_if-passed, some_or-eq, hash_grant_token-eq}
use fetch_now.Tokens.Hashes.{hash_grant_token, hash_access_token, tokens_match, grant_hashes_match}
use fetch_now.Downloads.Errors.{
  DownloadErrorCode, delivery_disabled, downloads_disabled, download_job_not_found,
  download_expired, download_not_ready, download_storage_unavailable,
}
use fetch_now.Delivery.Issue.{
  IssuedBrowserGrant, insert_grant, evict, asserted_id, grant_expiry, new_grant, grant_access,
  issue,
}
use fetch_now.Delivery.Authorize.{
  DeliverySettings, GrantRow, Tables, AppliedPolicy, some_or, credential, is_ready, is_over,
  is_incomplete, is_empty, assert_ready_pointer, policy_for_job, names, is_stale, job_of, parent_of,
  authorize_browser_grant,
}

-- The row of the grant's id.
abbrev pub grant_of : {Json : Type 0} → Tables Json → ℕ → Option GrantRow
grant_of tables grant_id = find (λ row. row.grant.id == grant_id) tables.grants

pub some-eq : {A : Type 0} {a b : A} → some a ≡ some b → a ≡ b
some-eq h = cc

pub find-holds : {A : Type 0} (p : A → Bool) (xs : List A) (x : A) → find p xs ≡ some x → p x ≡ true
unfolding find
find-holds p [] x h = cc
find-holds p (y ∷ xs) x h = elim (if-cases (p y) _ _ h) [
  | inl (holds, e) ↦ subst (λ z. p z ≡ true) (some-eq e) holds
  | inr (other, e) ↦ find-holds p xs x e
]

insert_grant-eq :
    (job : ℕ) (grant : MediaDeliveryGrant) (rows after : List GrantRow)
    → insert_grant job grant rows ≡ ok after
    → (length grant.token_hash ≡ 32)
      × (after ≡ record { download_job_id = job; grant = grant } ∷ rows)
unfolding insert_grant
insert_grant-eq job grant rows after h =
    let (size, h1) =
      raise_if-passed (not (length grant.token_hash == 32)) DownloadErrorCode.internal_error
        "GRANT_HASH_LENGTH" _ h in
    let (lasts, h2) =
      raise_if-passed (leb grant.expires_at grant.created_at) DownloadErrorCode.internal_error
        "GRANT_TTL_INVALID" _ h1 in
    (
      ==→eq (length grant.token_hash) 32 (not-false (length grant.token_hash == 32) size),
      sym (ok-injective h2),
    )

pub eq_self : (n : ℕ) → (n == n) ≡ true
eq_self n = ground arith

eq_test : (n m : ℕ) → n ≡ m → (n == m) ≡ true
eq_test n m h = ground arith

first_false : (a b c d e f : Bool) → (a || b || c || d || e || f) ≡ false → a ≡ false
first_false a b c d e f h = ground arith

asserted-names : (o : Option ℕ) → not (is_some o) ≡ false → names o (asserted_id o) ≡ true
asserted-names none h = cc
asserted-names (some id) h = eq_self id

complete-names :
    (job : MediaDownloadJob)
    → is_incomplete job ≡ false
    → names job.artifact_id (asserted_id job.artifact_id) ≡ true
unfolding is_incomplete
complete-names job h = asserted-names job.artifact_id (first_false _ _ _ _ _ _ h)

grant_hashes_match_self :
    (digest : List ℕ) → length digest ≡ 32 → grant_hashes_match digest digest ≡ true
unfolding grant_hashes_match
grant_hashes_match_self digest h = rw (eq_test (length digest) 32 h, same_text_refl digest) refl

later_leb : (a b : ℕ) → b < a → leb a b ≡ false
later_leb a b h = ground arith

module _ {Json : Type 0} (sha256 : List ℕ → List ℕ) (uuid_text : ℕ → List ℕ)
    (settings : DeliverySettings) (tables : Tables Json) (now : ℕ) (random : List ℕ)
    (grant_id : ℕ) where
  abbrev pub expiry : MediaDownloadJob → ℕ
  expiry job = grant_expiry settings.media_browser_grant_ttl_seconds job now

  abbrev pub inserted_row : MediaDownloadJob → List ℕ → GrantRow
  inserted_row job digest = record {
    download_job_id = job.id;
    grant = new_grant job grant_id digest now (expiry job);
  }

  abbrev pub tables_after : MediaDownloadJob → List ℕ → Tables Json
  tables_after job digest = record tables {
    grants =
        inserted_row job digest
        ∷ evict settings.media_browser_grant_max_active job.id now tables.grants;
  }

  -- What `grant_access` returned and wrote.
  pub record Written (job : MediaDownloadJob) (issued : IssuedBrowserGrant) (after : Tables Json)
      : Type 0 where
    pub digest : List ℕ
    hashed : hash_grant_token sha256 (generate_token random) ≡ ok digest
    size : length digest ≡ 32
    token : issued.raw_token ≡ generate_token random
    expires : issued.expires_at ≡ expiry job
    pub written : after ≡ tables_after job digest

  grant_access-Written :
      (job : MediaDownloadJob) (issued : IssuedBrowserGrant) (after : Tables Json)
      → grant_access sha256 uuid_text settings tables job now random grant_id ≡ ok (issued, after)
      → Written job issued after
  unfolding grant_access
  grant_access-Written job issued after h =
      let kept = evict settings.media_browser_grant_max_active job.id now tables.grants in
      let (in_time, h1) =
        raise_if-passed (leb (expiry job) now) download_expired "GRANT_TTL_ELAPSED" _ h in
      let (digest, hashed, h2) = >>=-eq-ok (hash_grant_token sha256 (generate_token random)) _ h1 in
      let grant = new_grant job grant_id digest now (expiry job) in
      let (rows, inserted, h3) = >>=-eq-ok (insert_grant job.id grant kept) _ h2 in
      let (size, same_rows) = insert_grant-eq job.id grant kept rows inserted in
      let result = ok-injective h3 in
      record {
        digest = digest;
        hashed = hashed;
        size = size;
        token = ap (λ r. r.0.raw_token) (sym result);
        expires = ap (λ r. r.0.expires_at) (sym result);
        written = ap (λ r. r.1) (sym result) ∙ ap (λ r. record tables { grants = r }) same_rows;
      }

  -- What `issue` had seen before it wrote.
  pub record Checked (id : ℕ) (issued : IssuedBrowserGrant) (after : Tables Json) : Type 0 where
    pub job : MediaDownloadJob
    pub of_job : job_of tables id ≡ some job
    browser : settings.media_browser_delivery_enabled ≡ true
    is_ready_now : is_ready job ≡ true
    complete : is_incomplete job ≡ false
    pub wrote : Written job issued after

  pub issue-Checked :
      (id : ℕ) (access : List ℕ) (issued : IssuedBrowserGrant) (after : Tables Json)
      → issue sha256 uuid_text settings tables now random grant_id id access ≡ ok (issued, after)
      → Checked id issued after
  unfolding issue
  issue-Checked id access issued after h =
      let (secret, hashed, h1) = >>=-eq-ok (credential (hash_access_token sha256 access)) _ h in
      let (browser, h2) =
        raise_if-passed (not settings.media_browser_delivery_enabled) delivery_disabled
          "BROWSER_DELIVERY_DISABLED" _ h1 in
      let (downloads, h3) =
        raise_if-passed (not settings.media_downloads_enabled) downloads_disabled
          "DOWNLOADS_DISABLED" _ h2 in
      let (job, of_job, h4) =
        >>=-eq-ok (some_or (job_of tables id) download_job_not_found "MISSING") _ h3 in
      let (parent, of_parent, h5) =
        >>=-eq-ok (some_or (parent_of tables job) download_job_not_found "UNAUTHORIZED") _ h4 in
      let (owner, h6) =
        raise_if-passed (not (tokens_match parent.credential_hash secret)) download_job_not_found
          "UNAUTHORIZED" _ h5 in
      let (in_time, h7) =
        raise_if-passed (is_over parent job now) download_expired "TTL_ELAPSED" _ h6 in
      let (is_ready_now, h8) =
        raise_if-passed (not (is_ready job)) download_not_ready "NOT_READY" _ h7 in
      let (complete, h9) =
        raise_if-passed (is_incomplete job) download_storage_unavailable "READY_POINTER_INCOMPLETE"
          _ h8 in
      record {
        job = job;
        of_job = some_or-eq (job_of tables id) download_job_not_found "MISSING" job of_job;
        browser = not-false settings.media_browser_delivery_enabled browser;
        is_ready_now = not-false (is_ready job) is_ready_now;
        complete = complete;
        wrote = grant_access-Written job issued after h9;
      }

  inserted_row-found :
      (job : MediaDownloadJob) (digest : List ℕ)
      → grant_of (tables_after job digest) grant_id ≡ some (inserted_row job digest)
  unfolding find
  inserted_row-found job digest = rw (eq_self grant_id) refl

  -- The request with the token of the row that was inserted, step by step, in tables where that row
  -- is found.
  inserted_row-opens :
      (present : Tables Json) (job : MediaDownloadJob) (parent : MediaJob Json) (digest : List ℕ)
      (later : ℕ) (applied : AppliedPolicy)
      → settings.media_delivery_enabled ≡ true
      → settings.media_browser_delivery_enabled ≡ true
      → hash_grant_token sha256 (generate_token random) ≡ ok digest
      → length digest ≡ 32
      → grant_of present grant_id ≡ some (inserted_row job digest)
      → job_of present job.id ≡ some job
      → parent_of present job ≡ some parent
      → later < expiry job
      → is_over parent job later ≡ false
      → is_ready job ≡ true
      → is_incomplete job ≡ false
      → is_empty job.artifact_bytes ≡ false
      → policy_for_job job.selected_format_snapshot.policy_part ≡ ok applied
      → authorize_browser_grant sha256 settings present later grant_id (generate_token random)
        ≡ ok (record { job = job; now = later; applied = applied })
  unfolding authorize_browser_grant assert_ready_pointer is_stale
  inserted_row-opens present job parent digest later applied enabled browser hashed size of_grant
        of_job of_parent time in_time is_ready_now complete filled chosen =
      let (raw, is_token, parsed, also, made) =
        hash_grant_token-eq sha256 (generate_token random) digest hashed in
      rw
        (
          hashed,
          parsed,
          enabled,
          browser,
          of_grant,
          grant_hashes_match_self digest size,
          later_leb (expiry job) later time,
          of_job,
          of_parent,
          in_time,
          is_ready_now,
          complete,
          filled,
          complete-names job complete,
          eq_self job.fence_token,
          chosen,
        )
        refl

-- A grant that `issue` returns opens the artifact as long as its row and the job's stay: take any
-- tables in which the grant's id is found with the row that `issue` left (so the grant was not
-- revoked, by a later issue for example), the job is found with the row for which it was issued, and
-- the job's parent is found. Where delivery is enabled, at any time before the grant expires at which
-- neither the job nor its parent is over, `authorize_browser_grant` with the grant's token returns that
-- job. The job's file is not empty and its policy can be read.
pub authorize_browser_grant-issue :
    {Json : Type 0} (sha256 : List ℕ → List ℕ) (uuid_text : ℕ → List ℕ)
    (settings : DeliverySettings) (tables after present : Tables Json) (now later : ℕ)
    (random : List ℕ) (grant_id id : ℕ) (access : List ℕ) (issued : IssuedBrowserGrant)
    (job : MediaDownloadJob) (parent : MediaJob Json) (applied : AppliedPolicy)
    → issue sha256 uuid_text settings tables now random grant_id id access ≡ ok (issued, after)
    → settings.media_delivery_enabled ≡ true
    → job_of tables id ≡ some job
    → grant_of present grant_id ≡ grant_of after grant_id
    → job_of present id ≡ some job
    → parent_of present job ≡ some parent
    → later < issued.expires_at
    → is_over parent job later ≡ false
    → is_empty job.artifact_bytes ≡ false
    → policy_for_job job.selected_format_snapshot.policy_part ≡ ok applied
    → authorize_browser_grant sha256 settings present later grant_id issued.raw_token
      ≡ ok (record { job = job; now = later; applied = applied })
authorize_browser_grant-issue sha256 uuid_text settings tables after present now later random
      grant_id id access issued job parent applied h enabled was_job kept of_job of_parent time
      in_time filled chosen =
    let seen =
      issue-Checked sha256 uuid_text settings tables now random grant_id id access issued after h in
    let same_job = some-eq (sym was_job ∙ seen.of_job) in
    let found = find-holds (λ j. j.id == id) tables.download_jobs job was_job in
    let same_id = ==→eq job.id id found in
    let same =
      subst (λ j. Written sha256 uuid_text settings tables now random grant_id j issued after)
        (sym same_job) seen.wrote in
    let row = inserted_row sha256 uuid_text settings tables now random grant_id job same.digest in
    let of_grant : grant_of present grant_id ≡ some row =
      kept
      ∙ ap (λ t. grant_of t grant_id) same.written
      ∙ inserted_row-found sha256 uuid_text settings tables now random grant_id job same.digest in
    subst
      (λ s.
        authorize_browser_grant sha256 settings present later grant_id s
        ≡ ok (record { job = job; now = later; applied = applied }))
      (sym same.token)
      (inserted_row-opens sha256 uuid_text settings tables now random grant_id present job parent
        same.digest later applied enabled seen.browser same.hashed same.size of_grant
        (ap (job_of present) same_id ∙ of_job) of_parent (subst (λ e. later < e) same.expires time)
        in_time (subst (λ j. is_ready j ≡ true) (sym same_job) seen.is_ready_now)
        (subst (λ j. is_incomplete j ≡ false) (sym same_job) seen.complete) filled chosen)
