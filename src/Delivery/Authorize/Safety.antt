-- ===== src/Delivery/Authorize/Safety.antt =====
-- What an authorized request has shown.
use fetch_now.Prelude.{
  ℕ, ◌<◌, String, ◌≡◌, refl, sym, ap, ◌∙◌, subst, inl, inr, Bool, true, false, not, ◌||◌, Option,
  none, some, List, ◌++◌, arith, leb, ◌==◌, is_some, ==→eq, and_true, or_false, not-false, if-cases,
  find, length, Result, ◌>>◌, >>=-eq-ok, >>-eq-ok, ok-injective, ok, err,
}
use fetch_now.Payments.Signature.{same_text}
use fetch_now.Jobs.Model.{MediaJob}
use fetch_now.Downloads.Errors.{
  DownloadError, DownloadErrorCode, delivery_disabled, download_job_not_found, download_expired,
  download_not_ready,
}
use fetch_now.Downloads.Model.{MediaDownloadJob}
use fetch_now.Downloads.Grants.{MediaDeliveryGrant}
use fetch_now.Tokens.{TokenFault, parse_token}
use fetch_now.Tokens.Canonical.{IsTokenOf, parse_token_iff}
use fetch_now.Tokens.Hashes.{
  grant_fault, grant_reason, grant_domain, digest_or, parse_grant_token, hash_grant_token,
  grant_hashes_match,
}
use fetch_now.Texts.{same_text-eq}
use fetch_now.Delivery.Authorize.{
  DeliverySettings, GrantRow, Tables, DeliveryAuthorization, raise_if, some_or, is_ready, is_over,
  assert_ready_pointer, policy_for_job, names, is_stale, job_of, parent_of, authorize_browser_grant,
}

pub raise_if-passed :
    {B : Type 0} (b : Bool) (code : DownloadErrorCode) (reason : String)
    (rest : Result DownloadError B) {r : B}
    → (raise_if b code reason >> rest) ≡ ok r
    → (b ≡ false) × (rest ≡ ok r)
raise_if-passed true code reason rest h = cc
raise_if-passed false code reason rest h = (refl, h)

pub some_or-eq :
    {A : Type 0} (o : Option A) (code : DownloadErrorCode) (reason : String) (a : A)
    → some_or o code reason ≡ ok a
    → o ≡ some a
some_or-eq none code reason a h = cc
some_or-eq (some b) code reason a h = ap (λ x. some x) (ok-injective h)

grant_fault-eq :
    (r : Result TokenFault (List ℕ)) (raw : List ℕ) → grant_fault r ≡ ok raw → r ≡ ok raw
unfolding grant_reason
grant_fault-eq (ok a) raw h = ap (λ x. ok x) (ok-injective h)
grant_fault-eq (err e) raw h = cc

pub digest_or-eq :
    {E : Type 0} (e : E) (digest result : List ℕ)
    → digest_or e digest ≡ ok result
    → (length digest ≡ 32) × (digest ≡ result)
digest_or-eq e digest result h = elim (if-cases (length digest == 32) _ _ h) [
  | inl (size, same) ↦ (==→eq (length digest) 32 size, ok-injective same)
  | inr (other, bad) ↦ cc
]

pub hash_grant_token-eq :
    (sha256 : List ℕ → List ℕ) (token digest : List ℕ)
    → hash_grant_token sha256 token ≡ ok digest
    → (raw : List ℕ) × IsTokenOf raw token
      × (parse_grant_token token ≡ ok raw)
      × (length digest ≡ 32)
      × (digest ≡ sha256 (grant_domain ++ raw))
unfolding hash_grant_token parse_grant_token
hash_grant_token-eq sha256 token digest h =
    let (raw, parsed, rest) = >>=-eq-ok (grant_fault (parse_token token)) _ h in
    let (size, same) = digest_or-eq _ (sha256 (grant_domain ++ raw)) digest rest in
    (
      raw,
      (parse_token_iff token raw).0 (grant_fault-eq (parse_token token) raw parsed),
      parsed,
      subst (λ d. length d ≡ 32) same size,
      sym same,
    )

-- What the row of a grant, its job and the time say of a token that opens the artifact of the job.
pub record IsGranted {Json : Type 0} (sha256 : List ℕ → List ℕ) (tables : Tables Json)
    (now grant_id : ℕ) (token : List ℕ) (job : MediaDownloadJob) : Type 0 where
  pub row : GrantRow
  pub raw : List ℕ
  pub found : find (λ r. r.grant.id == grant_id) tables.grants ≡ some row
  pub is_token : IsTokenOf raw token
  pub secret : row.grant.token_hash ≡ sha256 (grant_domain ++ raw)
  pub not_revoked : row.grant.revoked_at ≡ none
  pub not_expired : now < row.grant.expires_at
  pub its_job : job_of tables row.download_job_id ≡ some job
  pub not_over : now < job.expires_at
  pub is_ready_now : is_ready job ≡ true
  pub artifact : job.artifact_id ≡ some row.grant.artifact_id
  pub lease : job.fence_token ≡ row.grant.fence_token

matched : (left right : List ℕ) → grant_hashes_match left right ≡ true → left ≡ right
unfolding grant_hashes_match
matched left right h = same_text-eq left right (and_true _ (same_text left right) h).1

alive :
    (revoked : Option ℕ) (expires now : ℕ)
    → (is_some revoked || leb expires now) ≡ false
    → (revoked ≡ none) × (now < expires)
alive none expires now h = (refl, ground arith)
alive (some t) expires now h = cc

not_over-time :
    {Json : Type 0} (parent : MediaJob Json) (job : MediaDownloadJob) (now : ℕ)
    → is_over parent job now ≡ false
    → now < job.expires_at
unfolding is_over
not_over-time parent job now h =
    let last = (or_false _ (leb job.expires_at now) h).1 in ground arith

names-eq : (o : Option ℕ) (id : ℕ) → names o id ≡ true → o ≡ some id
names-eq none id h = cc
names-eq (some artifact) id h = ap (λ x. some x) (==→eq artifact id h)

fresh :
    (job : MediaDownloadJob) (grant : MediaDeliveryGrant)
    → is_stale job grant ≡ false
    → (job.artifact_id ≡ some grant.artifact_id) × (job.fence_token ≡ grant.fence_token)
unfolding is_stale
fresh job grant h =
    let (same_artifact, same_lease) =
      or_false (not (names job.artifact_id grant.artifact_id))
        (not (job.fence_token == grant.fence_token)) h in
    (
      names-eq job.artifact_id grant.artifact_id
          (not-false (names job.artifact_id grant.artifact_id) same_artifact),
      ==→eq job.fence_token grant.fence_token
          (not-false (job.fence_token == grant.fence_token) same_lease),
    )

-- A token opens an artifact only if it is the token of 32 bytes whose domain-separated digest the
-- grant stores, the grant is neither revoked nor expired, and its job is ready, not expired, and
-- holds the artifact under the fence token for which the grant was issued.
pub authorize_browser_grant-IsGranted :
    {Json : Type 0} (sha256 : List ℕ → List ℕ) (settings : DeliverySettings) (tables : Tables Json)
    (now grant_id : ℕ) (token : List ℕ) (authz : DeliveryAuthorization)
    → authorize_browser_grant sha256 settings tables now grant_id token ≡ ok authz
    → IsGranted sha256 tables now grant_id token authz.job
unfolding authorize_browser_grant
authorize_browser_grant-IsGranted sha256 settings tables now grant_id token authz h =
    let (first, parsed, h1) = >>=-eq-ok (parse_grant_token token) _ h in
    let (digest, hashed, h2) = >>=-eq-ok (hash_grant_token sha256 token) _ h1 in
    let (raw, is_token, again, size, made) = hash_grant_token-eq sha256 token digest hashed in
    let (enabled, h3) =
      raise_if-passed (not settings.media_delivery_enabled) delivery_disabled "DELIVERY_DISABLED" _
        h2 in
    let (browser, h4) =
      raise_if-passed (not settings.media_browser_delivery_enabled) delivery_disabled
        "BROWSER_DELIVERY_DISABLED" _ h3 in
    let (row, found, h5) =
      >>=-eq-ok
        (some_or (find (λ r. r.grant.id == grant_id) tables.grants) download_job_not_found
          "GRANT_UNAUTHORIZED")
        _ h4 in
    let (secret, h6) =
      raise_if-passed (not (grant_hashes_match row.grant.token_hash digest)) download_job_not_found
        "GRANT_UNAUTHORIZED" _ h5 in
    let (usable, h7) =
      raise_if-passed (is_some row.grant.revoked_at || leb row.grant.expires_at now)
        download_expired "GRANT_EXPIRED" _ h6 in
    let (job, of_job, h8) =
      >>=-eq-ok
        (some_or (job_of tables row.download_job_id) download_job_not_found "GRANT_JOB_MISSING") _
        h7 in
    let (parent, of_parent, h9) =
      >>=-eq-ok (some_or (parent_of tables job) download_job_not_found "GRANT_PARENT_MISSING") _
        h8 in
    let (in_time, h10) =
      raise_if-passed (is_over parent job now) download_expired "TTL_ELAPSED" _ h9 in
    let (is_ready_now, h11) =
      raise_if-passed (not (is_ready job)) download_not_ready "NOT_READY" _ h10 in
    let h12 = >>-eq-ok (assert_ready_pointer job) _ h11 in
    let (current, h13) =
      raise_if-passed (is_stale job row.grant) download_job_not_found "GRANT_ARTIFACT_MISMATCH" _
        h12 in
    let (applied, chosen, same) =
      >>=-eq-ok (policy_for_job job.selected_format_snapshot.policy_part) _ h13 in
    let (not_revoked, not_expired) = alive row.grant.revoked_at row.grant.expires_at now usable in
    let (artifact, lease) = fresh job row.grant current in
    subst (λ a. IsGranted sha256 tables now grant_id token a.job) (ok-injective same)
      (record {
        row = row;
        raw = raw;
        found =
            some_or-eq (find (λ r. r.grant.id == grant_id) tables.grants) download_job_not_found
              "GRANT_UNAUTHORIZED" row found;
        is_token = is_token;
        secret =
            matched row.grant.token_hash digest
              (not-false (grant_hashes_match row.grant.token_hash digest) secret)
            ∙ made;
        not_revoked = not_revoked;
        not_expired = not_expired;
        its_job =
            some_or-eq (job_of tables row.download_job_id) download_job_not_found
              "GRANT_JOB_MISSING" job of_job;
        not_over = not_over-time parent job now in_time;
        is_ready_now = not-false (is_ready job) is_ready_now;
        artifact = artifact;
        lease = lease;
      })
