-- ===== src/Examples/Premium.antt =====
-- Premium (backend/src/fetchnow/premium/).
use fetch_now.Prelude.{ℕ, ◌+◌, ◌≡◌, refl, true, none, some, List, [], ◌∷◌, keep, ok}
use fetch_now.Payments.Model.{PaymentOrder, order_check}
use fetch_now.Payments.Callback.{Purchase}
use fetch_now.Payments.Premium.{
  is_unserved, PremiumReconcileResult, reconcile, capability_from_entitlement,
  get_active_for_client,
}
use fetch_now.Payments.Premium.Reconciled.{reconcile-serves}
use fetch_now.Examples.Payments.{purchase_7, paid_order_7, bought_7, entitlement_7}

abbrev new_uuids : PaymentOrder → ℕ × ℕ
new_uuids o = (100 + o.id, 200 + o.id)

-- Two paid orders, the first without its entitlement, and one that is not paid.
abbrev table : List Purchase
table =
    record { order = paid_order_7; entitlement = none }
    ∷ record bought_7 { order = record paid_order_7 { id = 8; paid_at = some 15 } }
    ∷ record purchase_7 { order = record purchase_7.order { id = 9 } }
    ∷ []

reconcile-serves_example :
    (after : List Purchase) × (result : PremiumReconcileResult) × (reconcile new_uuids 50 table
      ≡ ok (after, result))
    × (keep is_unserved after ≡ [])
unfolding order_check
reconcile-serves_example = reconcile-serves new_uuids 50 table (refl, (refl, (refl, tt)))

active_window :
    capability_from_entitlement (
      get_active_for_client 3 1000
        (entitlement_7 ∷ record entitlement_7 { expires_at = 2000 } ∷ []))
    ≡ record {
      is_premium = true;
      premium_expires_at = some 86_400_000_020;
      product_code = some "premium_24h";
    }
unfolding capability_from_entitlement get_active_for_client
active_window = refl
