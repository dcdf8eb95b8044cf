-- ===== src/Payments/Orders.antt =====
-- The methods of `PaymentOrderRepository` (backend/src/fetchnow/payments/repository.py) on one order,
-- and the order of a checkout (backend/src/fetchnow/payments/service.py).
use fetch_now.Prelude.{
  ℕ, ◌+◌, ◌*◌, String, Bool, true, false, not, ◌&&◌, Option, none, some, List, [], ◌∷◌, str_eq, leb,
  ◌==◌, if◌then◌else◌, length, any, Result, ◌>>=◌, ◌>>◌, ok, err,
}
use fetch_now.Payments.Model.{
  created, pending, paid, expired, same_state, PaymentError, payment_invariant,
  idempotency_conflict, integrity, assert_payment_transition, PaymentOrder, order_check,
}

-- The flush of a changed row.
abbrev pub flush_order : PaymentOrder → Result PaymentError PaymentOrder
flush_order o = if order_check o then ok o else err integrity

-- The fields of `PaymentProduct` that an order keeps.
pub record PaymentProduct : Type 0 where
  pub code : String
  pub amount_minor : ℕ
  pub currency : String
  pub entitlement_duration_seconds : ℕ

-- What the database and `uuid4` choose for a new row.
pub record Fresh : Type 0 where
  pub id : ℕ
  pub public_id : ℕ
  pub invoice : ℕ

unfoldable pub new_order : Fresh → ℕ → List ℕ → PaymentProduct → String → ℕ → ℕ → PaymentOrder
new_order fresh client hash product receipt now ttl = record {
  id = fresh.id;
  public_id = fresh.public_id;
  anonymous_client_id = client;
  provider = "robokassa";
  provider_invoice_id = fresh.invoice;
  product_code = product.code;
  amount_minor = product.amount_minor;
  currency = product.currency;
  entitlement_duration_seconds = product.entitlement_duration_seconds;
  status = created;
  is_test = true;
  receipt_json = receipt;
  creation_idempotency_hash = hash;
  created_at = now;
  updated_at = now;
  pending_at = none;
  paid_at = none;
  provider_callback_at = none;
  expires_at = now + ttl * 1_000_000;
  provider_operation_key = none;
}

-- `_immutable_matches`
unfoldable pub immutable_matches : PaymentOrder → PaymentProduct → String → Bool
immutable_matches o product receipt =
    str_eq o.provider "robokassa"
    && str_eq o.product_code product.code
    && (o.amount_minor == product.amount_minor)
    && str_eq o.currency product.currency
    && (o.entitlement_duration_seconds == product.entitlement_duration_seconds)
    && o.is_test
    && str_eq o.receipt_json receipt

-- `existing` is the row with the client's idempotency hash, which a new row would clash with; the
-- other unique columns are fresh.
unfoldable pub create_or_get :
    Fresh
    → ℕ
    → List ℕ
    → PaymentProduct
    → String
    → ℕ
    → ℕ
    → Option PaymentOrder
    → Result PaymentError (PaymentOrder × Bool)
create_or_get fresh client hash product receipt now ttl existing =
    if not (length hash == 32) then err payment_invariant else elim existing [
      | none ↦
          if order_check (new_order fresh client hash product receipt now ttl)
          then ok (new_order fresh client hash product receipt now ttl, true)
          else err payment_invariant
      | some o ↦
          if immutable_matches o product receipt then ok (o, false) else err idempotency_conflict
    ]

unfoldable pub mark_pending : ℕ → PaymentOrder → Result PaymentError PaymentOrder
unfolding assert_payment_transition
mark_pending now o = if same_state o.status pending then ok o else do
  assert_payment_transition o.status pending
  flush_order (record o { status = pending; pending_at = some now; updated_at = now })

-- The end of `create_order`.
unfoldable pub open_order : ℕ → PaymentOrder → Result PaymentError PaymentOrder
unfolding mark_pending
open_order now o =
    if same_state o.status created
    then mark_pending now o
    else if not (same_state o.status pending)
    then err payment_invariant
    else ok o

unfoldable pub paid_row : ℕ → PaymentOrder → PaymentOrder
paid_row now o = record o {
  status = paid;
  paid_at = some now;
  provider_callback_at = some now;
  updated_at = now;
}

unfoldable pub mark_paid : ℕ → PaymentOrder → Result PaymentError (Bool × PaymentOrder)
mark_paid now o = if same_state o.status paid then ok (false, o) else do
  assert_payment_transition o.status paid
  done ← flush_order (paid_row now o)
  ok (true, done)

-- The rows that `expire_unpaid` changes.
unfoldable pub unpaid : ℕ → PaymentOrder → Bool
unpaid now o = any (same_state o.status) (created ∷ pending ∷ []) && leb o.expires_at now

unfoldable pub expire_order : ℕ → PaymentOrder → PaymentOrder
unfolding unpaid
expire_order now o = if unpaid now o then record o { status = expired; updated_at = now } else o
