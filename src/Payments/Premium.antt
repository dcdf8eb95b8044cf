-- ===== src/Payments/Premium.antt =====
-- Who has Premium (backend/src/fetchnow/premium/repository.py and premium/policy.py), and the
-- reconciliation of paid orders without an entitlement (backend/src/fetchnow/premium/reconcile.py).
pub mod Latest
pub mod Reconciled
use fetch_now.Prelude.{
  ◌>>=◌, ◌>>◌, ℕ, suc, ◌-◌, ◌/◌, String, Bool, true, false, not, ◌&&◌, Option, none, some, List, [],
  ◌∷◌, map, ltb, leb, ◌==◌, is_some, insert_sorted, order_by, for_each, latest, flush, length, keep,
  Result, ok,
}
use fetch_now.Payments.Model.{paid, same_state, PaymentError, PaymentOrder, PremiumEntitlement}
use fetch_now.Payments.Callback.{Purchase, ensure_for_paid_order}

-- The window of an entitlement of the client contains the time.
unfoldable pub is_active_for : ℕ → ℕ → PremiumEntitlement → Bool
is_active_for client now e =
    (e.anonymous_client_id == client) && leb e.starts_at now && ltb now e.expires_at

abbrev pub first : {A : Type 0} → List A → Option A
first [] = none
first (x ∷ xs) = some x

abbrev pub ends_later : PremiumEntitlement → PremiumEntitlement → Bool
ends_later a b = leb b.expires_at a.expires_at

unfoldable pub get_active_for_client : ℕ → ℕ → List PremiumEntitlement → Option PremiumEntitlement
unfolding is_active_for insert_sorted order_by
get_active_for_client client now rows =
    first (order_by ends_later (keep (is_active_for client now) rows))

pub record PremiumCapability : Type 0 where
  pub is_premium : Bool
  pub premium_expires_at : Option ℕ
  pub product_code : Option String

unfoldable pub capability_from_entitlement : Option PremiumEntitlement → PremiumCapability
capability_from_entitlement none = record {
  is_premium = false;
  premium_expires_at = none;
  product_code = none;
}
capability_from_entitlement (some e) = record {
  is_premium = true;
  premium_expires_at = some e.expires_at;
  product_code = some e.product_code;
}

-- An order that is paid, without an entitlement.
unfoldable pub is_unserved : Purchase → Bool
is_unserved p = same_state p.order.status paid && not (is_some p.entitlement)

abbrev pub or_zero : Option ℕ → ℕ
or_zero none = 0
or_zero (some t) = t

abbrev pub paid_before : Purchase → Purchase → Bool
paid_before a b = leb (or_zero a.order.paid_at) (or_zero b.order.paid_at)

pub record PremiumReconcileResult : Type 0 where
  pub scanned : ℕ
  pub created : ℕ
  pub reused : ℕ

abbrev pub count_new : List (Purchase × Bool) → ℕ
count_new [] = 0
count_new ((p, true) ∷ rest) = suc (count_new rest)
count_new ((p, false) ∷ rest) = count_new rest

abbrev pub order_id : Purchase → ℕ
order_id p = p.order.id

-- `reconcile_paid_orders_without_entitlement` over the table of the orders with their entitlements;
-- `uuids` gives the two ids that are generated for an order's entitlement.
unfoldable pub reconcile :
    (uuids : PaymentOrder → ℕ × ℕ) (now : ℕ)
    → List Purchase
    → Result PaymentError (List Purchase × PremiumReconcileResult)
unfolding is_unserved insert_sorted order_by for_each ensure_for_paid_order latest flush
reconcile uuids now table =
    let rows = order_by paid_before (keep is_unserved table) in
    do
      served ← for_each (λ p. ensure_for_paid_order (uuids p.order).0 (uuids p.order).1 now p) rows
      ok (
        flush order_id (map (λ s. s.0) served) table,
        record {
          scanned = length rows;
          created = count_new served;
          reused = length rows - count_new served;
        },
      )
