-- ===== src/Payments/Callback/Once.antt =====
-- An order is paid once and gives one entitlement.
use fetch_now.Prelude.{
  ap₂, ℕ, ◌+◌, ◌≡◌, refl, sym, ap, ◌∙◌, subst, ◌⊎◌, inl, inr, Bool, true, false, none, some, List,
  arith, if-cases, >>=-eq-ok, >>-eq-ok, ok-injective, ok,
}
use fetch_now.Payments.Model.{
  pending, assert_payment_transition, paid, same_state, PaymentOrder, snapshot_check, order_check,
  PremiumEntitlement,
}
use fetch_now.Payments.Orders.{flush_order, paid_row, mark_paid}
use fetch_now.Payments.Callback.{
  grant_from, not_payable, Purchase, new_entitlement, ensure_for_paid_order, Chosen,
  settle_callback,
}

-- The entitlement of a paid order: it begins when the order was paid and lasts 24 hours.
pub record Grants (o : PaymentOrder) (e : PremiumEntitlement) : Type 0 where
  pub starts : o.paid_at ≡ some e.starts_at
  pub ends : e.expires_at ≡ e.starts_at + 86_400_000_000
  pub client : e.anonymous_client_id ≡ o.anonymous_client_id
  pub source : e.source_payment_order_id ≡ o.id

abbrev pub is_paid : Purchase → Bool
is_paid p = same_state p.order.status paid

-- The row meets its CHECK constraints, and there is an entitlement exactly when the order is paid.
pub record IsSettled (p : Purchase) : Type 0 where
  pub checks : order_check p.order ≡ true
  pub pairs :
      ((is_paid p ≡ false) × (p.entitlement ≡ none))
      ⊎ ((is_paid p ≡ true)
          × (e : PremiumEntitlement) × (p.entitlement ≡ some e)
          × Grants p.order e)

one_day : (o : PaymentOrder) → order_check o ≡ true → o.entitlement_duration_seconds ≡ 86400
unfolding order_check snapshot_check
one_day o h = ground arith

payable :
    (o : PaymentOrder)
    → same_state o.status paid ≡ true
    → o.entitlement_duration_seconds ≡ 86400
    → not_payable o ≡ false
payable o done day = rw (done, day) refl

mark_paid-paid :
    (now : ℕ) (o : PaymentOrder) → same_state o.status paid ≡ true → mark_paid now o ≡ ok (false, o)
unfolding mark_paid
mark_paid-paid now o done = rw (done)

ensure_for_paid_order-held :
    (id public_id now : ℕ) (p : Purchase)
    → IsSettled p
    → is_paid p ≡ true
    → ensure_for_paid_order id public_id now p ≡ ok (p, false)
unfolding ensure_for_paid_order
ensure_for_paid_order-held id public_id now p h done = elim h.pairs [
  | inl (other, e) ↦ cc
  | inr (same, e, held, grants) ↦
      rw (payable p.order done (one_day p.order h.checks))
        (ap₂ (λ a b. grant_from id public_id now p a b) grants.starts held)
]

-- The first callback pays the order.
mark_paid-pending :
    (now : ℕ) (o : PaymentOrder) {b : Bool} {k : PaymentOrder}
    → same_state o.status pending ≡ true
    → mark_paid now o ≡ ok (b, k)
    → (b ≡ true) × (k ≡ paid_row now o) × (order_check (paid_row now o) ≡ true)
unfolding mark_paid
mark_paid-pending now o {b} {k} waits e = elim (if-cases (same_state o.status paid) _ _ e) [
  | inl (c, e1) ↦ ground arith
  | inr (c, e1) ↦
      let e2 = >>-eq-ok (assert_payment_transition o.status paid) _ e1 in
      let (done, flushed, e3) = >>=-eq-ok (flush_order (paid_row now o)) _ e2 in
      elim (if-cases (order_check (paid_row now o)) _ _ flushed) [
        | inl (valid, e4) ↦ (
          sym (ap (λ (r : Bool × PaymentOrder). r.0) (ok-injective e3)),
          sym (ap (λ (r : Bool × PaymentOrder). r.1) (ok-injective e3)) ∙ sym (ok-injective e4),
          valid,
        )
        | inr (valid, e4) ↦ cc
      ]
]

no_entitlement :
    (p : Purchase) → IsSettled p → same_state p.order.status pending ≡ true → p.entitlement ≡ none
no_entitlement p h waits = elim h.pairs [
  | inl (other, e) ↦ e
  | inr (done, e, held, grants) ↦ ground arith
]

-- The purchase after the first callback.
bought : Chosen → Purchase → Purchase
bought chosen p = record {
  order = paid_row chosen.paid_now p.order;
  entitlement = some (
      new_entitlement chosen.id chosen.public_id chosen.granted_now chosen.paid_now
        (paid_row chosen.paid_now p.order));
}

bought-IsSettled :
    (chosen : Chosen) (p : Purchase)
    → IsSettled p
    → order_check (paid_row chosen.paid_now p.order) ≡ true
    → IsSettled (bought chosen p)
unfolding bought paid_row new_entitlement
bought-IsSettled chosen p h valid = record {
  checks = valid;
  pairs = inr (
    refl,
    new_entitlement chosen.id chosen.public_id chosen.granted_now chosen.paid_now
        (paid_row chosen.paid_now p.order),
    refl,
    record {
      starts = refl;
      ends = rw (one_day p.order h.checks) refl;
      client = refl;
      source = refl;
    },
  );
}

granted_bought :
    (chosen : Chosen) (p : Purchase) {g : Purchase × Bool}
    → order_check (paid_row chosen.paid_now p.order) ≡ true
    → p.entitlement ≡ none
    → ensure_for_paid_order chosen.id chosen.public_id chosen.granted_now
        (record p { order = paid_row chosen.paid_now p.order })
      ≡ ok g
    → g.0 ≡ bought chosen p
unfolding ensure_for_paid_order bought paid_row
granted_bought chosen p {g} valid empty e =
    let o = paid_row chosen.paid_now p.order in
    let given : ensure_for_paid_order chosen.id chosen.public_id chosen.granted_now
          (record p { order = o })
        ≡ ok (bought chosen p, true) =
      rw (payable o refl (one_day o valid)) (
        ap
          (λ held.
            grant_from chosen.id chosen.public_id chosen.granted_now (record p { order = o })
              (some chosen.paid_now) held)
          empty) in
    sym (ap (λ (r : Purchase × Bool). r.0) (ok-injective (sym given ∙ e)))

module _ (hex_sha256 : List ℕ → List ℕ) (password : List ℕ) (test_mode : Bool) where
  -- A callback for an order that is paid changes nothing.
  pub settle_callback-paid :
      (chosen : Chosen) (p : Purchase)
      → IsSettled p
      → is_paid p ≡ true
      → settle_callback hex_sha256 password test_mode chosen p ≡ ok (false, p)
  unfolding settle_callback
  settle_callback-paid chosen p h done =
      rw
        (
          mark_paid-paid chosen.paid_now p.order done,
          ensure_for_paid_order-held chosen.id chosen.public_id chosen.granted_now p h done,
        )
        refl

  -- A callback for a pending order pays it and gives the entitlement.
  pub settle_callback-pending :
      (chosen : Chosen) (p : Purchase) {b : Bool} {q : Purchase}
      → IsSettled p
      → same_state p.order.status pending ≡ true
      → settle_callback hex_sha256 password test_mode chosen p ≡ ok (b, q)
      → (b ≡ true) × IsSettled q × (is_paid q ≡ true)
  unfolding settle_callback
  settle_callback-pending chosen p {b} {q} h waits e =
      let (r, marked, e1) = >>=-eq-ok (mark_paid chosen.paid_now p.order) _ e in
      let (first, row, valid) = mark_paid-pending chosen.paid_now p.order waits marked in
      let empty = no_entitlement p h waits in
      let (granted, given, e2) =
        >>=-eq-ok
          (ensure_for_paid_order chosen.id chosen.public_id chosen.granted_now
            (record p { order = r.1 }))
          _ e1 in
      let same : granted.0 ≡ bought chosen p = granted_bought chosen p valid empty (
        subst
          (λ o.
            ensure_for_paid_order chosen.id chosen.public_id chosen.granted_now
              (record p { order = o })
            ≡ ok granted)
          row given) in
      let now = sym same ∙ ap (λ (x : Bool × Purchase). x.1) (ok-injective e2) in
      (
        sym (ap (λ (x : Bool × Purchase). x.0) (ok-injective e2)) ∙ first,
        subst IsSettled now (bought-IsSettled chosen p h valid),
        subst (λ x. is_paid x ≡ true) now (unfold bought in unfold paid_row in refl),
      )
