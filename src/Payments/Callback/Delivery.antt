-- ===== src/Payments/Callback/Delivery.antt =====
-- What an accepted callback means, and what a repeated one does.
use fetch_now.Prelude.{
  ℕ, ◌≡◌, refl, sym, ap, ◌∙◌, subst, ◌⊎◌, inl, inr, Bool, true, false, List, arith, ◌==◌, ==→eq,
  Result, ◌>>◌, >>=-eq-ok, ok-injective, ok, err,
}
use fetch_now.Payments.Model.{
  pending, paid, same_state, PaymentError, invalid_callback, PaymentOrder,
}
use fetch_now.Payments.Amount.{parse_callback_out_sum}
use fetch_now.Payments.Signature.{signature_matches}
use fetch_now.Payments.Callback.{
  Purchase, valid_snapshot, require, check_callback, Message, Chosen, sign_callback, authentic,
  settle_callback, accept_callback,
}
use fetch_now.Payments.Callback.Once.{
  IsSettled, is_paid, settle_callback-paid, settle_callback-pending,
}

require-eq-ok :
    {A : Type 0} (b : Bool) (e : PaymentError) (rest : Result PaymentError A) {r : A}
    → (require b e >> rest) ≡ ok r
    → (b ≡ true) × (rest ≡ ok r)
require-eq-ok true e rest h = (refl, h)
require-eq-ok false e rest h = cc

require-true : (b : Bool) (e : PaymentError) → require b e ≡ ok tt → b ≡ true
require-true true e h = refl
require-true false e h = cc

checked :
    {A : Type 0} (check : Result PaymentError (Unit {0})) (rest : Result PaymentError A) {r : A}
    → (check >> rest) ≡ ok r
    → (check ≡ ok tt) × (rest ≡ ok r)
checked (ok u) rest h = (refl, h)
checked (err e) rest h = cc

check_callback-eq-ok :
    (raw : List ℕ) (o : PaymentOrder)
    → check_callback raw o ≡ ok tt
    → (parse_callback_out_sum raw ≡ ok o.amount_minor) × (valid_snapshot o ≡ true)
unfolding check_callback
check_callback-eq-ok raw o h =
    let (amount, parsed, h1) = >>=-eq-ok (parse_callback_out_sum raw) _ h in
    let (same, h2) = require-eq-ok (amount == o.amount_minor) invalid_callback _ h1 in
    (
      subst (λ n. parse_callback_out_sum raw ≡ ok n) (==→eq amount o.amount_minor same) parsed,
      require-true (valid_snapshot o) invalid_callback h2,
    )

valid_snapshot-status :
    (o : PaymentOrder)
    → valid_snapshot o ≡ true
    → (same_state o.status pending ≡ true) ⊎ (same_state o.status paid ≡ true)
unfolding valid_snapshot
valid_snapshot-status o h = ground arith

paid-pending :
    (o : PaymentOrder) → same_state o.status paid ≡ true → false ≡ same_state o.status pending
paid-pending o h = ground arith

pending-paid :
    (o : PaymentOrder) → same_state o.status pending ≡ true → same_state o.status paid ≡ false
pending-paid o h = ground arith

-- What an accepted callback has shown and done.
pub record Accepted (digest : List ℕ → List ℕ) (password : List ℕ) (m : Message) (p : Purchase)
    (b : Bool) (q : Purchase) : Type 0 where
  pub signed :
      signature_matches m.supplied_signature
        (sign_callback digest password true m.raw_out_sum m.inv_id)
      ≡ true
  pub invoice : p.order.provider_invoice_id ≡ m.inv_id
  pub amount : parse_callback_out_sum m.raw_out_sum ≡ ok p.order.amount_minor
  pub first : b ≡ same_state p.order.status pending
  pub bought : is_paid q ≡ true
  pub settled : IsSettled q
  pub repeated : (is_paid p ≡ false) ⊎ (q ≡ p)

module _ (digest : List ℕ → List ℕ) (password : List ℕ) where
  IsSettled-callback :
      (chosen : Chosen) (p : Purchase) {b : Bool} {q : Purchase}
      → IsSettled p
      → valid_snapshot p.order ≡ true
      → settle_callback digest password true chosen p ≡ ok (b, q)
      → (b ≡ same_state p.order.status pending)
        × (is_paid q ≡ true)
        × IsSettled q
        × ((is_paid p ≡ false) ⊎ (q ≡ p))
  IsSettled-callback chosen p {b} {q} h valid e = elim (valid_snapshot-status p.order valid) [
    | inl waits ↦
        let (first, sound, done) =
          settle_callback-pending digest password true chosen p h waits e in
        (first ∙ sym waits, done, sound, inl (pending-paid p.order waits))
    | inr done ↦
        let same =
          ok-injective (sym (settle_callback-paid digest password true chosen p h done) ∙ e) in
        let now : p ≡ q = ap (λ (r : Bool × Purchase). r.1) same in
        (
          sym (ap (λ (r : Bool × Purchase). r.0) same) ∙ paid-pending p.order done,
          subst (λ x. is_paid x ≡ true) now done,
          subst IsSettled now h,
          inr (sym now),
        )
  ]

  -- Take an order that meets its CHECK constraints and has an entitlement exactly when it is paid, and
  -- a callback that `accept_callback` takes for it without raising. Then the signature in the message
  -- is that of its amount and invoice under the second password, the invoice is the order's, and the
  -- amount is the order's amount. Afterwards the order is paid and has its one entitlement, which
  -- begins when it was paid and lasts 24 hours; the result tells whether the order was pending
  -- before; and where it was paid already, nothing has changed.
  pub accept_callback-Accepted :
      (chosen : Chosen) (m : Message) (p : Purchase) {b : Bool} {q : Purchase}
      → IsSettled p
      → accept_callback digest password true chosen m p ≡ ok (b, q)
      → Accepted digest password m p b q
  unfolding accept_callback authentic
  accept_callback-Accepted chosen m p {b} {q} h e =
      let (named, e1) =
        require-eq-ok (chosen.snapshot.provider_invoice_id == m.inv_id) invalid_callback _ e in
      let (signed, e2) =
        require-eq-ok
          (signature_matches m.supplied_signature
            (sign_callback digest password true m.raw_out_sum m.inv_id))
          invalid_callback _ e1 in
      let (seen, e3) = checked (check_callback m.raw_out_sum chosen.snapshot) _ e2 in
      let (invoice, e4) =
        require-eq-ok (p.order.provider_invoice_id == m.inv_id) invalid_callback _ e3 in
      let (locked, e5) = checked (check_callback m.raw_out_sum p.order) _ e4 in
      let (amount, valid) = check_callback-eq-ok m.raw_out_sum p.order locked in
      let (first, bought, settled, repeated) = IsSettled-callback chosen p h valid e5 in
      record {
        signed = signed;
        invoice = ==→eq _ _ invoice;
        amount = amount;
        first = first;
        bought = bought;
        settled = settled;
        repeated = repeated;
      }
