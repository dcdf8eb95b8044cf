-- ===== src/Downloads/Grants.antt =====
-- Browser grants for a download (backend/src/fetchnow/downloads/grant_models.py and
-- downloads/grant_repository.py).
use fetch_now.Prelude.{
  ℕ, Bool, not, ◌&&◌, Option, some, List, ltb, leb, if◌then◌else◌, is_some, update_where,
}

-- One row of `media_delivery_grants`.
pub record MediaDeliveryGrant : Type 0 where
  pub id : ℕ
  pub token_hash : List ℕ
  pub artifact_id : ℕ
  pub fence_token : ℕ
  pub created_at : ℕ
  pub expires_at : ℕ
  pub revoked_at : Option ℕ

-- The rows that `list_active_for_job` selects among those of the job.
unfoldable pub is_active_grant : ℕ → MediaDeliveryGrant → Bool
is_active_grant now g = not (is_some g.revoked_at) && ltb now g.expires_at

unfoldable pub revoke_grant : ℕ → MediaDeliveryGrant → MediaDeliveryGrant
revoke_grant now g = record g {
  revoked_at = some (if leb g.created_at now then now else g.created_at);
}

-- `_revoke_active_grants_locked`
unfoldable pub revoke_active_grants : ℕ → List MediaDeliveryGrant → List MediaDeliveryGrant
unfolding is_active_grant revoke_grant update_where
revoke_active_grants now grants = update_where (is_active_grant now) (revoke_grant now) grants
