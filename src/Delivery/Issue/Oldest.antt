-- ===== src/Delivery/Issue/Oldest.antt =====
-- Which grants an issue revokes (backend/src/fetchnow/downloads/grant_service.py).
use fetch_now.Prelude.{
  ℕ, ◌+◌, ◌-◌, ◌≤◌, ◌≡◌, ◌≢◌, refl, sym, ap, ◌∙◌, subst, inl, inr, Bool, true, List, ◌∷◌, Memᴰ,
  ◌==◌, ==→eq, Bool-cases, length, take, keep, any, ok, All, All-Memᴰ, All-keep, All-take,
  All-order_by, UniqueIds, UniqueIds-eq, sorted-order_by, take-before, Memᴰ-order_by, Memᴰ-keep,
  Memᴰ-update_where, update_where-cases, any-found, arith,
}
use fetch_now.Downloads.Grants.{is_active_grant}
use fetch_now.Delivery.Authorize.{DeliverySettings, GrantRow, Tables}
use fetch_now.Delivery.Issue.{
  IssuedBrowserGrant, list_active_for_job, revoke_row, revoke_grants, evict, issue,
}
use fetch_now.Delivery.Issue.RoundTrip.{issue-Checked, find-holds}
use fetch_now.Delivery.Issue.Bound.{any-Memᴰ, revoked-inactive, is_active_of}

abbrev pub row_id : GrantRow → ℕ
row_id row = row.grant.id

-- The rows with the id of a doomed one.
abbrev is_doomed : List GrantRow → GrantRow → Bool
is_doomed doomed row = any (λ d. d.grant.id == row.grant.id) doomed

-- A row that is changed was created no later than an active one that stays.
evict-oldest :
    (max_active job now : ℕ) (rows : List GrantRow) (d r : GrantRow)
    → UniqueIds row_id rows
    → Memᴰ d rows
    → Memᴰ r rows
    → is_active_of job now r ≡ true
    → ¬ Memᴰ d (evict max_active job now rows)
    → Memᴰ r (evict max_active job now rows)
    → d.grant.created_at ≤ r.grant.created_at
unfolding evict revoke_grants list_active_for_job
evict-oldest max_active job now rows d r u m k live gone stays =
    let active = list_active_for_job job now rows in
    let n = length active + 1 - max_active in
    let doomed = take n active in
    let stored : All (λ row. Memᴰ row rows) doomed =
      All-take _ n active
        (All-order_by _ _ _ (All-keep _ (is_active_of job now) rows (λ x p e. p))) in
    let hit : is_doomed doomed d ≡ true = elim (Bool-cases (is_doomed doomed d)) [
      | inl e ↦ e
      | inr e ↦ absurd (gone (Memᴰ-update_where (is_doomed doomed) (revoke_row now) rows m e))
    ] in
    let (x, among, same) = any-found (λ e. e.grant.id == d.grant.id) doomed hit in
    let is_d : x ≡ d =
      UniqueIds-eq row_id rows u (All-Memᴰ _ doomed among stored) m
        (==→eq x.grant.id d.grant.id same) in
    let kept : ¬ Memᴰ r doomed = (λ q.
      elim (update_where-cases (is_doomed doomed) (revoke_row now) rows stays) [
        | inl (p, miss) ↦ let doom = any-Memᴰ r doomed q in cc
        | inr (y, made) ↦
            let dead = ap (λ row. is_active_grant now row.grant) made ∙ revoked-inactive now y in
            ground (arith, dead)
      ]) in
    take-before (λ x y. x.grant.created_at ≤ y.grant.created_at) n active
      (sorted-order_by (λ (row : GrantRow). row.grant.created_at)
        (keep (is_active_of job now) rows))
      (subst (λ y. Memᴰ y doomed) is_d among) (Memᴰ-order_by _ _ (Memᴰ-keep _ rows k live)) kept

-- The oldest grants are revoked: a grant whose row an issue changed was created no later than any
-- active grant of the issue's job whose row stays as it was. The ids of the grants are unique before
-- the issue, and the new grant does not have the id of the one that stays.
pub issue-oldest :
    {Json : Type 0} (sha256 : List ℕ → List ℕ) (uuid_text : ℕ → List ℕ)
    (settings : DeliverySettings) (tables after : Tables Json) (now : ℕ) (random : List ℕ)
    (grant_id id : ℕ) (access : List ℕ) (issued : IssuedBrowserGrant) (d r : GrantRow)
    → UniqueIds row_id tables.grants
    → issue sha256 uuid_text settings tables now random grant_id id access ≡ ok (issued, after)
    → Memᴰ d tables.grants
    → Memᴰ r tables.grants
    → r.grant.id ≢ grant_id
    → is_active_of id now r ≡ true
    → ¬ Memᴰ d after.grants
    → Memᴰ r after.grants
    → d.grant.created_at ≤ r.grant.created_at
issue-oldest sha256 uuid_text settings tables after now random grant_id id access issued d r u done
      m k other live gone stays =
    let seen =
      issue-Checked sha256 uuid_text settings tables now random grant_id id access issued after
        done in
    let same_id =
      ==→eq seen.job.id id
        (find-holds (λ j. j.id == id) tables.download_jobs seen.job seen.of_job) in
    let written = ap (λ t. t.grants) seen.wrote.written in
    evict-oldest settings.media_browser_grant_max_active seen.job.id now tables.grants d r u m k
      (subst (λ i. is_active_of i now r ≡ true) (sym same_id) live)
      (λ q. gone (subst (Memᴰ d) (sym written) (Memᴰ.tail q)))
      (old_row (subst (Memᴰ r) written stays) refl)
  where
    old_row :
        {first : GrantRow} {rest : List GrantRow}
        → Memᴰ r (first ∷ rest)
        → first.grant.id ≡ grant_id
        → Memᴰ r rest
    old_row (Memᴰ.head e) same = absurd (other (ap row_id e ∙ same))
    old_row (Memᴰ.tail q) same = q
