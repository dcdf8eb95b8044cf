-- ===== src/Examples/Payments.antt =====
-- Payments (backend/src/fetchnow/payments/).
use fetch_now.Prelude.{
  ℕ, zero, suc, ◌≡◌, refl, ◌⊎◌, inl, true, false, none, some, List, [], ◌∷◌, arith, codes, ok,
}
use fetch_now.Payments.Model.{
  assert_payment_transition, pending, paid, PaymentOrder, PremiumEntitlement, order_check,
}
use fetch_now.Payments.Amount.{format_out_sum, parse_callback_out_sum}
use fetch_now.Payments.Amount.RoundTrip.{parse_callback_out_sum-format_out_sum}
use fetch_now.Payments.Signature.{signature_matches}
use fetch_now.Payments.Orders.{mark_paid, paid_row}
use fetch_now.Payments.Callback.{
  ensure_for_paid_order, new_entitlement, Purchase, Message, Chosen, accept_callback,
}
use fetch_now.Payments.Callback.Once.{IsSettled, is_paid}
use fetch_now.Payments.Callback.Delivery.{Accepted, accept_callback-Accepted}
use fetch_now.Payments.History.{Call, open_again, expire, callback, history, history-IsSettled}

-- A digest of 64 zeros.
abbrev zeros : ℕ → List ℕ
zeros zero = []
zeros (suc n) = b'0' ∷ zeros n

abbrev flat_digest : List ℕ → List ℕ
flat_digest s = zeros 64

abbrev pub order_7 : PaymentOrder
order_7 = record {
  id = 1;
  public_id = 2;
  anonymous_client_id = 3;
  provider = "robokassa";
  provider_invoice_id = 7;
  product_code = "premium_24h";
  amount_minor = 29900;
  currency = "RUB";
  entitlement_duration_seconds = 86400;
  status = pending;
  is_test = true;
  receipt_json = "{}";
  creation_idempotency_hash = zeros 32;
  created_at = 10;
  updated_at = 11;
  pending_at = some 11;
  paid_at = none;
  provider_callback_at = none;
  expires_at = 1000;
  provider_operation_key = none;
}

abbrev pub purchase_7 : Purchase
purchase_7 = record { order = order_7; entitlement = none }

purchase_7-IsSettled : IsSettled purchase_7
unfolding order_check
purchase_7-IsSettled = record { checks = refl; pairs = inl (refl, refl) }

abbrev message_7 : Message
message_7 = record { raw_out_sum = codes "299.00"; inv_id = 7; supplied_signature = zeros 64 }

abbrev chosen_7 : Chosen
chosen_7 = record { snapshot = order_7; paid_now = 20; granted_now = 21; id = 4; public_id = 5 }

abbrev pub paid_order_7 : PaymentOrder
paid_order_7 = record order_7 {
  status = paid;
  paid_at = some 20;
  provider_callback_at = some 20;
  updated_at = 20;
}

abbrev pub entitlement_7 : PremiumEntitlement
entitlement_7 = record {
  id = 4;
  public_id = 5;
  anonymous_client_id = 3;
  source_payment_order_id = 1;
  product_code = "premium_24h";
  starts_at = 20;
  expires_at = 86_400_000_020;
  created_at = 21;
}

abbrev pub bought_7 : Purchase
bought_7 = record { order = paid_order_7; entitlement = some entitlement_7 }

accepted :
    accept_callback flat_digest (codes "secret") true chosen_7 message_7 purchase_7
    ≡ ok (true, bought_7)
unfolding accept_callback signature_matches parse_callback_out_sum mark_paid
    assert_payment_transition order_check paid_row ensure_for_paid_order new_entitlement
accepted = refl

accept_callback-Accepted_example :
    Accepted flat_digest (codes "secret") message_7 purchase_7 true bought_7
accept_callback-Accepted_example =
    accept_callback-Accepted flat_digest (codes "secret") chosen_7 message_7 purchase_7
      purchase_7-IsSettled accepted

abbrev payment_calls : List Call
payment_calls = callback chosen_7 message_7 ∷ open_again 30 ∷ expire 2000 ∷ []

history-IsSettled_example :
    IsSettled (history flat_digest (codes "secret") payment_calls bought_7)
    × ((is_paid bought_7 ≡ false)
        ⊎ (history flat_digest (codes "secret") payment_calls bought_7 ≡ bought_7))
history-IsSettled_example =
    history-IsSettled flat_digest (codes "secret") payment_calls bought_7
      (accept_callback-Accepted flat_digest (codes "secret") chosen_7 message_7 purchase_7
        purchase_7-IsSettled accepted).settled

parse_callback_out_sum-format_out_sum_example :
    (text : List ℕ) × (format_out_sum 29900 ≡ ok text) × (parse_callback_out_sum text ≡ ok 29900)
parse_callback_out_sum-format_out_sum_example =
    parse_callback_out_sum-format_out_sum 29900 (omega arith) (omega arith)

-- A tiny fraction is lost in the rounding to 28 digits.
sub_kopeck : parse_callback_out_sum (codes "299.000000000000000000000000000001") ≡ ok 29900
unfolding parse_callback_out_sum
sub_kopeck = refl
