-- ===== src/Payments/Callback.antt =====
-- A callback of the provider (backend/src/fetchnow/payments/service.py) and the entitlement that a
-- paid order gives (backend/src/fetchnow/premium/repository.py).
pub mod Once
pub mod Delivery
use fetch_now.Prelude.{
  ◌>>=◌, ◌>>◌, ℕ, ◌+◌, ◌-◌, ◌*◌, ◌/◌, Bool, true, false, not, ◌&&◌, ◌||◌, Option, none, some, List,
  [], ◌∷◌, str_eq, ◌==◌, if◌then◌else◌, any, Result, ok, err,
}
use fetch_now.Payments.Model.{
  pending, paid, same_state, PaymentError, payments_disabled, invalid_callback,
  entitlement_invariant, PaymentOrder, PremiumEntitlement,
}
use fetch_now.Payments.Amount.{parse_callback_out_sum}
use fetch_now.Payments.Signature.{callback_signature_base, signature_matches}
use fetch_now.Payments.Orders.{mark_paid}

-- An order and its entitlement: the table has at most one per order.
pub record Purchase : Type 0 where
  pub order : PaymentOrder
  pub entitlement : Option PremiumEntitlement

unfoldable pub new_entitlement : ℕ → ℕ → ℕ → ℕ → PaymentOrder → PremiumEntitlement
new_entitlement id public_id now starts_at o = record {
  id = id;
  public_id = public_id;
  anonymous_client_id = o.anonymous_client_id;
  source_payment_order_id = o.id;
  product_code = o.product_code;
  starts_at = starts_at;
  expires_at = starts_at + o.entitlement_duration_seconds * 1_000_000;
  created_at = now;
}

-- The entitlement of an order that was paid at the time given, where there may be one already.
abbrev pub grant_from :
    ℕ
    → ℕ
    → ℕ
    → Purchase
    → Option ℕ
    → Option PremiumEntitlement
    → Result PaymentError (Purchase × Bool)
grant_from id public_id now p none held = err entitlement_invariant
grant_from id public_id now p (some starts_at) (some e) = ok (p, false)
grant_from id public_id now p (some starts_at) none =
    ok (record p { entitlement = some (new_entitlement id public_id now starts_at p.order) }, true)

abbrev pub not_payable : PaymentOrder → Bool
not_payable o = not (same_state o.status paid) || (o.entitlement_duration_seconds == 0)

-- `ensure_for_paid_order`: the purchase, and whether the entitlement is new. The new UUIDs collide with
-- none in the table.
unfoldable pub ensure_for_paid_order : ℕ → ℕ → ℕ → Purchase → Result PaymentError (Purchase × Bool)
ensure_for_paid_order id public_id now p =
    if not_payable p.order
    then err entitlement_invariant
    else grant_from id public_id now p p.order.paid_at p.entitlement

-- `_validate_callback_snapshot`
unfoldable pub valid_snapshot : PaymentOrder → Bool
valid_snapshot o =
    str_eq o.provider "robokassa"
    && str_eq o.product_code "premium_24h"
    && str_eq o.currency "RUB"
    && o.is_test
    && (o.entitlement_duration_seconds == 86400)
    && any (same_state o.status) (pending ∷ paid ∷ [])

abbrev pub require : Bool → PaymentError → Result PaymentError (Unit {0})
require true e = ok tt
require false e = err e

-- The amount of a callback is that of the order.
unfoldable pub check_callback : List ℕ → PaymentOrder → Result PaymentError (Unit {0})
unfolding valid_snapshot
check_callback raw o = do
  amount ← parse_callback_out_sum raw
  require (amount == o.amount_minor) invalid_callback
  require (valid_snapshot o) invalid_callback

-- What the provider sends.
pub record Message : Type 0 where
  pub raw_out_sum : List ℕ
  pub inv_id : ℕ
  pub supplied_signature : List ℕ

-- What the database and `uuid4` choose: the order that the unlocked SELECT reads, the clock when the
-- order is marked and when the entitlement is made, and the ids of a new entitlement.
pub record Chosen : Type 0 where
  pub snapshot : PaymentOrder
  pub paid_now : ℕ
  pub granted_now : ℕ
  pub id : ℕ
  pub public_id : ℕ

-- `hex_sha256` is the hexadecimal SHA-256 digest of a text, and `test_mode` tells whether the
-- provider is configured for tests.
module _ (hex_sha256 : List ℕ → List ℕ) (password : List ℕ) (test_mode : Bool) where
  -- `sign_callback`
  unfoldable pub sign_callback : List ℕ → ℕ → List ℕ
  sign_callback raw inv_id = hex_sha256 (callback_signature_base raw inv_id password)

  -- The tests before the row is locked.
  unfoldable pub authentic : Message → Result PaymentError (Unit {0})
  unfolding sign_callback
  authentic m =
      require (signature_matches m.supplied_signature (sign_callback m.raw_out_sum m.inv_id))
        invalid_callback

  -- The order is paid and entitles its client; whether this callback has paid it.
  unfoldable pub settle_callback : Chosen → Purchase → Result PaymentError (Bool × Purchase)
  settle_callback chosen p = do
    (transitioned, order) ← mark_paid chosen.paid_now p.order
    (granted, new) ←
        ensure_for_paid_order chosen.id chosen.public_id chosen.granted_now
          (record p { order = order })
    ok (transitioned, granted)

  -- `accept_callback`, for an invoice that has an order; `mark_paid` leaves the order paid.
  unfoldable pub accept_callback :
      Chosen → Message → Purchase → Result PaymentError (Bool × Purchase)
  unfolding check_callback authentic settle_callback
  accept_callback chosen m p = do
    require test_mode payments_disabled
    require (chosen.snapshot.provider_invoice_id == m.inv_id) invalid_callback
    authentic m
    check_callback m.raw_out_sum chosen.snapshot
    require (p.order.provider_invoice_id == m.inv_id) invalid_callback
    check_callback m.raw_out_sum p.order
    settle_callback chosen p
