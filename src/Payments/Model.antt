-- ===== src/Payments/Model.antt =====
-- Payment orders and Premium entitlements: payments/states.py, payments/models.py,
-- payments/errors.py and premium/models.py (backend/src/fetchnow/).
use fetch_now.Prelude.{
  ℕ, String, Bool, true, false, not, ◌&&◌, ◌||◌, Option, some, List, [], ◌∷◌, str_eq, ltb, leb,
  ◌==◌, if◌then◌else◌, is_some, codes, length, any, Result, ok, err,
}

pub data PaymentOrderState : Type 0 where
  created pending paid expired : PaymentOrderState

abbrev pub same_state : PaymentOrderState → PaymentOrderState → Bool
same_state created created = true
same_state pending pending = true
same_state paid paid = true
same_state expired expired = true
same_state _ _ = false

-- What the payment code raises. A ValueError stands for an illegal transition, and an
-- IntegrityError for a CHECK constraint.
pub data PaymentError : Type 0 where
  payments_disabled invalid_callback payment_invariant idempotency_conflict : PaymentError
  entitlement_invariant value_error integrity : PaymentError

-- `_ALLOWED`
abbrev pub allowed : PaymentOrderState → List PaymentOrderState
allowed created = pending ∷ expired ∷ []
allowed pending = paid ∷ expired ∷ []
allowed paid = []
allowed expired = []

-- The stored text is always a state, by ck_payment_orders_status.
unfoldable pub assert_payment_transition :
    PaymentOrderState → PaymentOrderState → Result PaymentError (Unit {0})
assert_payment_transition source target =
    if any (same_state target) (allowed source) then ok tt else err value_error

-- One row; times are microseconds.
pub record PaymentOrder : Type 0 where
  pub id : ℕ
  pub public_id : ℕ
  pub anonymous_client_id : ℕ
  pub provider : String
  pub provider_invoice_id : ℕ
  pub product_code : String
  pub amount_minor : ℕ
  pub currency : String
  pub entitlement_duration_seconds : ℕ
  pub status : PaymentOrderState
  pub is_test : Bool
  pub receipt_json : String
  pub creation_idempotency_hash : List ℕ
  pub created_at : ℕ
  pub updated_at : ℕ
  pub pending_at : Option ℕ
  pub paid_at : Option ℕ
  pub provider_callback_at : Option ℕ
  pub expires_at : ℕ
  pub provider_operation_key : Option String

abbrev pub not_before : Option ℕ → Option ℕ → Bool
not_before (some t) (some start) = leb start t
not_before _ _ = false

-- ck_payment_orders_lifecycle
unfoldable pub lifecycle_check : PaymentOrder → Bool
lifecycle_check o =
    same_state o.status created
      && not (is_some o.pending_at)
      && not (is_some o.paid_at)
      && not (is_some o.provider_callback_at)
    || same_state o.status pending
      && is_some o.pending_at
      && not (is_some o.paid_at)
      && not (is_some o.provider_callback_at)
    || same_state o.status paid
      && not_before o.paid_at o.pending_at
      && not_before o.provider_callback_at o.pending_at
    || same_state o.status expired
      && not (is_some o.paid_at)
      && not (is_some o.provider_callback_at)

-- The constraints on the columns that no method changes.
unfoldable pub snapshot_check : PaymentOrder → Bool
snapshot_check o =
    str_eq o.provider "robokassa"
    && ltb 0 o.provider_invoice_id
    && ltb 0 o.amount_minor
    && str_eq o.currency "RUB"
    && (o.entitlement_duration_seconds == 86400)
    && o.is_test
    && (length o.creation_idempotency_hash == 32)
    && leb 2 (length (codes o.receipt_json))
    && leb (length (codes o.receipt_json)) 4096
    && ltb o.created_at o.expires_at

unfoldable pub order_check : PaymentOrder → Bool
unfolding snapshot_check lifecycle_check
order_check o = snapshot_check o && lifecycle_check o

pub record PremiumEntitlement : Type 0 where
  pub id : ℕ
  pub public_id : ℕ
  pub anonymous_client_id : ℕ
  pub source_payment_order_id : ℕ
  pub product_code : String
  pub starts_at : ℕ
  pub expires_at : ℕ
  pub created_at : ℕ
