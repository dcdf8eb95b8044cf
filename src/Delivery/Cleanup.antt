-- ===== src/Delivery/Cleanup.antt =====
-- The cleanup of browser grants: `delete_expired_batch`
-- (backend/src/fetchnow/downloads/grant_repository.py), and the Set-Cookie header of
-- `BrowserGrantService` (backend/src/fetchnow/downloads/grant_service.py).
use fetch_now.Prelude.{
  ℕ, ◌-◌, ◌≡◌, refl, Bool, true, not, ◌&&◌, ◌||◌, List, [], ◌∷◌, ◌++◌, map, Memᴰ, ltb, leb, ◌==◌,
  is_some, and_true, insert_sorted, order_by, codes, length, take, keep, any, Result, ◌>>◌, ok, All,
  All-take, All-keep, All-order_by,
}
use fetch_now.Payments.Amount.{print}
use fetch_now.Downloads.Errors.{DownloadError, DownloadErrorCode}
use fetch_now.Delivery.Authorize.{GrantRow, raise_if}
use fetch_now.Delivery.Issue.{content_path_for_grant}
use fetch_now.Delivery.Cookie.{cookie_name}

-- A grant that is expired or revoked.
unfoldable pub is_spent : ℕ → GrantRow → Bool
is_spent now row = leb row.grant.expires_at now || is_some row.grant.revoked_at

abbrev pub expires_before : GrantRow → GrantRow → Bool
expires_before a b = leb a.grant.expires_at b.grant.expires_at

-- The ids that the locking SELECT finds; `locked` holds the rows that it passes over.
unfoldable pub spent_ids : (GrantRow → Bool) → ℕ → ℕ → List GrantRow → List ℕ
unfolding is_spent insert_sorted order_by
spent_ids locked now limit rows =
    map (λ row. row.grant.id)
      (take limit
        (order_by expires_before (keep (λ row. is_spent now row && not (locked row)) rows)))

-- The number of rows deleted, and the rows that are left.
unfoldable pub delete_expired_batch :
    (GrantRow → Bool) → (now limit : ℕ) → List GrantRow → Result DownloadError (ℕ × List GrantRow)
unfolding spent_ids
delete_expired_batch locked now limit rows =
    let ids = spent_ids locked now limit rows in
    let left = keep (λ row. not (any (λ id. id == row.grant.id) ids)) rows in
    do
      raise_if (ltb limit 1 || ltb 256 limit) DownloadErrorCode.internal_error "GRANT_CLEANUP_LIMIT"
      ok (length rows - length left, left)

-- An id that the cleanup deletes is that of a row which is expired or revoked.
pub spent_ids-IsSpent :
    (locked : GrantRow → Bool) (now limit : ℕ) (rows : List GrantRow)
    → All
        (λ id. (row : GrantRow) × Memᴰ row rows × (row.grant.id ≡ id) × (is_spent now row ≡ true))
        (spent_ids locked now limit rows)
unfolding spent_ids
spent_ids-IsSpent locked now limit rows =
    let P : GrantRow → Type 0 = λ row. Memᴰ row rows × (is_spent now row ≡ true) in
    let p : GrantRow → Bool = λ row. is_spent now row && not (locked row) in
    let found = All-take P limit (order_by expires_before (keep p rows)) (
      All-order_by P expires_before (keep p rows) (
        All-keep P p rows
          (λ row m h. (m, (and_true (is_spent now row) (not (locked row)) h).0)))) in
    ids_of (take limit (order_by expires_before (keep p rows))) found
  where
    ids_of :
        (chosen : List GrantRow)
        → All (λ row. Memᴰ row rows × (is_spent now row ≡ true)) chosen
        → All
            (λ id.
              (row : GrantRow) × Memᴰ row rows × (row.grant.id ≡ id) × (is_spent now row ≡ true))
            (map (λ row. row.grant.id) chosen)
    ids_of [] h = tt
    ids_of (row ∷ chosen) h = ((row, h.0.0, refl, h.0.1), ids_of chosen h.1)

-- `set_cookie_header` for the text of the grant's UUID.
unfoldable pub set_cookie_header : (uuid raw_token : List ℕ) (cookie_max_age : ℕ) → List ℕ
unfolding content_path_for_grant print
set_cookie_header uuid raw_token cookie_max_age =
    cookie_name
    ++ (b'=' ∷ raw_token
        ++ (codes "; Path="
            ++ (content_path_for_grant uuid
                ++ (codes "; Max-Age="
                    ++ (print cookie_max_age ++ codes "; HttpOnly; Secure; SameSite=Strict")))))
