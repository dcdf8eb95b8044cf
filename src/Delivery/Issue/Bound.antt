-- ===== src/Delivery/Issue/Bound.antt =====
-- A job never has more active grants than the setting allows.
use fetch_now.Prelude.{
  ℕ, zero, suc, ◌+◌, ◌-◌, ◌≤◌, ◌<◌, ◌≡◌, refl, sym, ◌∙◌, subst, inl, inr, Bool, true, false, not,
  ◌&&◌, List, [], ◌∷◌, Memᴰ, arith, leb, ◌==◌, Bool-cases, ==→eq, if-holds, update_where,
  insert_sorted, order_by, length, take, keep, any, ok, All, All-of_Memᴰ,
}
use fetch_now.Delivery.Issue.RoundTrip.{issue-Checked, find-holds, eq_self, inserted_row}
use fetch_now.Delivery.Issue.{
  IssuedBrowserGrant, list_active_for_job, revoke_row, revoke_grants, evict, issue,
}
use fetch_now.Delivery.Authorize.{DeliverySettings, GrantRow, Tables}
use fetch_now.Downloads.Grants.{is_active_grant, revoke_grant}

abbrev bit : Bool → ℕ
bit true = 1
bit false = 0

bit-bound : (b : Bool) → bit b ≤ 1
bit-bound true = omega arith
bit-bound false = omega arith

module _ {A : Type 0} where
  -- How many rows pass a test.
  abbrev count : (A → Bool) → List A → ℕ
  count p [] = 0
  count p (x ∷ xs) = bit (p x) + count p xs

  length-keep : (p : A → Bool) (xs : List A) → length (keep p xs) ≡ count p xs
  length-keep p [] = refl
  length-keep p (x ∷ xs) =
      let rest = length-keep p xs in
      elim (Bool-cases (p x)) [ inl e ↦ rw (e) (omega arith) | inr e ↦ rw (e) (omega arith) ]

  count-insert_sorted :
      (p : A → Bool) (before : A → A → Bool) (x : A) (ys : List A)
      → count p (insert_sorted before x ys) ≡ bit (p x) + count p ys
  unfolding insert_sorted
  count-insert_sorted p before x [] = refl
  count-insert_sorted p before x (y ∷ ys) =
      let rest = count-insert_sorted p before x ys in
      if-holds (λ r. count p r ≡ bit (p x) + (bit (p y) + count p ys)) (before x y) (λ first. refl)
        (λ later. omega arith)

  count-order_by :
      (p : A → Bool) (before : A → A → Bool) (xs : List A)
      → count p (order_by before xs) ≡ count p xs
  unfolding order_by
  count-order_by p before [] = refl
  count-order_by p before (x ∷ xs) =
      let rest = count-order_by p before xs in
      let first = count-insert_sorted p before x (order_by before xs) in omega arith

  -- Rows that an update makes fail the test are counted no more.
  count-update_where :
      (p q : A → Bool) (f : A → A)
      → ((x : A) → p (f x) ≡ false)
      → (xs : List A) → count p (update_where q f xs) ≡ count (λ x. p x && not (q x)) xs
  unfolding update_where
  count-update_where p q f gone [] = refl
  count-update_where p q f gone (x ∷ xs) =
      let rest = count-update_where p q f gone xs in
      elim (Bool-cases (q x)) [
        | inl e ↦ rw (e, gone x) (dropped (p x) rest)
        | inr e ↦ rw (e) (stayed (p x) rest)
      ]
    where
      dropped : (b : Bool) {m n : ℕ} → m ≡ n → 0 + m ≡ bit (b && false) + n
      dropped true h = omega arith
      dropped false h = omega arith

      stayed : (b : Bool) {m n : ℕ} → m ≡ n → bit b + m ≡ bit (b && true) + n
      stayed true h = omega arith
      stayed false h = omega arith

  count-keep : (p q : A → Bool) (xs : List A) → count (λ x. p x && q x) xs ≡ count q (keep p xs)
  count-keep p q [] = refl
  count-keep p q (x ∷ xs) =
      let rest = count-keep p q xs in
      elim (Bool-cases (p x)) [ inl e ↦ rw (e) (omega arith) | inr e ↦ rw (e) (omega arith) ]

  -- A test that fails on the first `n` rows.
  count-after :
      (p : A → Bool) (n : ℕ) (xs : List A)
      → All (λ x. p x ≡ false) (take n xs)
      → count p xs ≤ length xs - n
  count-after p n [] h = omega arith
  count-after p zero (x ∷ xs) h =
      let rest = count-after p zero xs tt in let one = bit-bound (p x) in omega arith
  count-after p (suc n) (x ∷ xs) h = let rest = count-after p n xs h.1 in rw (h.0) (omega arith)

  count-all : (xs : List A) → count (λ x. true) xs ≡ length xs
  count-all [] = refl
  count-all (x ∷ xs) = let rest = count-all xs in omega arith

  length-order_by : (before : A → A → Bool) (xs : List A) → length (order_by before xs) ≡ length xs
  length-order_by before xs =
      let sorted = count-all (order_by before xs) in
      let all = count-all xs in let same = count-order_by (λ x. true) before xs in omega arith

pub any-Memᴰ :
    (d : GrantRow) (rows : List GrantRow)
    → Memᴰ d rows
    → any (λ e. e.grant.id == d.grant.id) rows ≡ true
any-Memᴰ d [] m = elim m [ ]
any-Memᴰ d (e ∷ rows) (Memᴰ.head same) =
    rw (subst (λ x. (x.grant.id == d.grant.id) ≡ true) same (eq_self d.grant.id)) refl
any-Memᴰ d (e ∷ rows) (Memᴰ.tail m) =
    if-holds (λ b. b ≡ true) (e.grant.id == d.grant.id) (λ found. refl) (λ other. any-Memᴰ d rows m)

pub revoked-inactive :
    (now : ℕ) (row : GrantRow) → is_active_grant now (revoke_row now row).grant ≡ false
unfolding is_active_grant revoke_row revoke_grant
revoked-inactive now row = refl

abbrev pub is_active_of : ℕ → ℕ → GrantRow → Bool
is_active_of job now row = (row.download_job_id == job) && is_active_grant now row.grant

abbrev not_in : List GrantRow → GrantRow → Bool
not_in doomed row = not (any (λ d. d.grant.id == row.grant.id) doomed)

negated : (b : Bool) → b ≡ true → not b ≡ false
negated b h = rw (h) refl

length-list_active_for_job :
    (job now : ℕ) (rows : List GrantRow)
    → length (list_active_for_job job now rows) ≡ count (is_active_of job now) rows
unfolding list_active_for_job
length-list_active_for_job job now rows =
    length-order_by _ (keep (is_active_of job now) rows) ∙ length-keep (is_active_of job now) rows

inactive : (a b : Bool) → b ≡ false → (a && b) ≡ false
inactive a b h = ground arith

-- The active grants that are left are those after the ones that were revoked.
active_left :
    (job now k : ℕ) (rows : List GrantRow)
    → count
        (is_active_of job now)
        (revoke_grants (take k (list_active_for_job job now rows)) now rows)
      ≤ length (list_active_for_job job now rows) - k
unfolding revoke_grants list_active_for_job
active_left job now k rows =
    let active = list_active_for_job job now rows in
    let doomed = take k active in
    let after =
      count-update_where (is_active_of job now)
        (λ row. any (λ d. d.grant.id == row.grant.id) doomed) (revoke_row now)
        (λ row. inactive (row.download_job_id == job) _ (revoked-inactive now row)) rows in
    let kept = count-keep (is_active_of job now) (not_in doomed) rows in
    let sorted =
      count-order_by (not_in doomed) (λ a b. leb a.grant.created_at b.grant.created_at)
        (keep (is_active_of job now) rows) in
    let first = count-after (not_in doomed) k active (
      All-of_Memᴰ (λ row. not_in doomed row ≡ false) doomed
        (λ row m.
          negated (any (λ d. d.grant.id == row.grant.id) doomed) (any-Memᴰ row doomed m))) in
    subst (λ n. n ≤ length active - k) (sym (after ∙ kept ∙ sym sorted)) first

evict-bound :
    (max_active job now : ℕ) (rows : List GrantRow)
    → 1 ≤ max_active
    → count (is_active_of job now) (evict max_active job now rows) < max_active
unfolding evict
evict-bound max_active job now rows h =
    let active = list_active_for_job job now rows in
    let left = active_left job now (length active + 1 - max_active) rows in omega arith

-- After a grant is issued, its job has at most as many active grants as the setting allows, where
-- the setting is at least 1.
pub issue-bound :
    {Json : Type 0} (sha256 : List ℕ → List ℕ) (uuid_text : ℕ → List ℕ)
    (settings : DeliverySettings) (tables after : Tables Json) (now : ℕ) (random : List ℕ)
    (grant_id id : ℕ) (access : List ℕ) (issued : IssuedBrowserGrant)
    → 1 ≤ settings.media_browser_grant_max_active
    → issue sha256 uuid_text settings tables now random grant_id id access ≡ ok (issued, after)
    → length (list_active_for_job id now after.grants) ≤ settings.media_browser_grant_max_active
issue-bound sha256 uuid_text settings tables after now random grant_id id access issued h done =
    let seen =
      issue-Checked sha256 uuid_text settings tables now random grant_id id access issued after
        done in
    let wrote = seen.wrote in
    let rows = evict settings.media_browser_grant_max_active seen.job.id now tables.grants in
    let same_id =
      ==→eq seen.job.id id
        (find-holds (λ j. j.id == id) tables.download_jobs seen.job seen.of_job) in
    let row =
      inserted_row sha256 uuid_text settings tables now random grant_id seen.job wrote.digest in
    let left =
      evict-bound settings.media_browser_grant_max_active seen.job.id now tables.grants h in
    let one = bit-bound (is_active_of seen.job.id now row) in
    subst
      (λ t. length (list_active_for_job id now t.grants) ≤ settings.media_browser_grant_max_active)
      (sym wrote.written)
      (subst
        (λ i.
          length (list_active_for_job i now (row ∷ rows)) ≤ settings.media_browser_grant_max_active)
        same_id (let size = length-list_active_for_job seen.job.id now (row ∷ rows) in omega arith))
