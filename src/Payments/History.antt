-- ===== src/Payments/History.antt =====
-- Calls on one order, in any order and with any clocks: a checkout that opens it again, the expiry of
-- unpaid orders, and callbacks.
use fetch_now.Prelude.{
  ℕ, ◌≡◌, refl, ap, ◌∙◌, subst, ◌⊎◌, inl, inr, Bool, true, false, not, some, List, [], ◌∷◌, arith,
  Bool-cases, and_true, if-holds, if-cases, Result, >>-eq-ok, ok-injective, ok, err,
}
use fetch_now.Payments.Model.{
  created, pending, paid, expired, same_state, PaymentError, PaymentOrder, snapshot_check,
  lifecycle_check, order_check, assert_payment_transition,
}
use fetch_now.Payments.Orders.{mark_pending, open_order, unpaid, expire_order}
use fetch_now.Payments.Callback.{Purchase, Message, Chosen, accept_callback}
use fetch_now.Payments.Callback.Once.{IsSettled, is_paid}
use fetch_now.Payments.Callback.Delivery.{Accepted, accept_callback-Accepted}

pub data Call : Type 0 where
  open_again : (now : ℕ) → Call
  expire : (now : ℕ) → Call
  callback : (chosen : Chosen) (message : Message) → Call

abbrev kept : Result PaymentError (Bool × Purchase) → Purchase → Purchase
kept (ok r) p = r.1
kept (err e) p = p

abbrev opened : Result PaymentError PaymentOrder → Purchase → Purchase
opened (ok o) p = record p { order = o }
opened (err e) p = p

module _ (digest : List ℕ → List ℕ) (password : List ℕ) where
  -- The purchase after the transaction of one call: a call that raises is rolled back.
  unfoldable pub transact : Call → Purchase → Purchase
  transact (open_again now) p = opened (open_order now p.order) p
  transact (expire now) p = record p { order = expire_order now p.order }
  transact (callback chosen m) p = kept (accept_callback digest password true chosen m p) p

  unfoldable pub history : List Call → Purchase → Purchase
  unfolding transact
  history [] p = p
  history (c ∷ cs) p = history cs (transact c p)

-- A row that stays unpaid keeps the purchase settled.
unpaid-IsSettled :
    (p : Purchase) (o : PaymentOrder)
    → IsSettled p
    → is_paid p ≡ false
    → order_check o ≡ true
    → same_state o.status paid ≡ false
    → IsSettled (record p { order = o })
unpaid-IsSettled p o h owed valid other = elim h.pairs [
  | inl (x, e) ↦ record { checks = valid; pairs = inl (other, e) }
  | inr (done, e, held, grants) ↦ ground (arith, done, owed)
]

created-paid :
    (o : PaymentOrder) → same_state o.status created ≡ true → same_state o.status paid ≡ false
created-paid o h = ground arith

paid-created :
    (o : PaymentOrder) → same_state o.status paid ≡ true → same_state o.status created ≡ false
paid-created o h = ground arith

paid-pending :
    (o : PaymentOrder) → same_state o.status paid ≡ true → same_state o.status pending ≡ false
paid-pending o h = ground arith

-- Two steps that change no paid purchase.
both :
    (p q r : Purchase)
    → (is_paid p ≡ false) ⊎ (q ≡ p)
    → (is_paid q ≡ false) ⊎ (r ≡ q)
    → (is_paid p ≡ false) ⊎ (r ≡ p)
both p q r (inl owed) second = inl owed
both p q r (inr same) (inl owed) = inl (subst (λ x. is_paid x ≡ false) same owed)
both p q r (inr same) (inr still) = inr (still ∙ same)

-- What `open_order` returns: the row as it was, or a pending one.
open_order-eq-ok :
    (now : ℕ) (o : PaymentOrder) {k : PaymentOrder}
    → open_order now o ≡ ok k
    → (o ≡ k)
      ⊎ (same_state o.status paid ≡ false)
        × (order_check k ≡ true)
        × (same_state k.status paid ≡ false)
unfolding open_order mark_pending
open_order-eq-ok now o {k} e = elim (if-cases (same_state o.status created) _ _ e) [
  | inl (c, e1) ↦ elim (if-cases (same_state o.status pending) _ _ e1) [
    | inl (d, e2) ↦ inl (ok-injective e2)
    | inr (d, e2) ↦
        let e3 = >>-eq-ok (assert_payment_transition o.status pending) _ e2 in
        let row = record o { status = pending; pending_at = some now; updated_at = now } in
        elim (if-cases (order_check row) _ _ e3) [
          | inl (valid, e4) ↦
              let same = ok-injective e4 in
              inr (
                created-paid o c,
                subst (λ r. order_check r ≡ true) same valid,
                subst (λ r. same_state r.status paid ≡ false) same refl,
              )
          | inr (valid, e4) ↦ cc
        ]
  ]
  | inr (c, e1) ↦ elim (if-cases (not (same_state o.status pending)) _ _ e1) [
    | inl (d, e2) ↦ cc
    | inr (d, e2) ↦ inl (ok-injective e2)
  ]
]

opened-IsSettled :
    (p : Purchase) (r : Result PaymentError PaymentOrder)
    → IsSettled p
    → ((k : PaymentOrder)
        → r ≡ ok k
        → (p.order ≡ k)
          ⊎ (is_paid p ≡ false) × (order_check k ≡ true) × (same_state k.status paid ≡ false))
    → IsSettled (opened r p)
opened-IsSettled p (err e) h back = h
opened-IsSettled p (ok k) h back = elim (back k refl) [
  | inl same ↦ subst (λ o. IsSettled (record p { order = o })) same h
  | inr (owed, valid, other) ↦ unpaid-IsSettled p k h owed valid other
]

expired-lifecycle_check :
    (now : ℕ) (o : PaymentOrder)
    → unpaid now o ≡ true
    → lifecycle_check o ≡ true
    → lifecycle_check (record o { status = expired; updated_at = now }) ≡ true
unfolding unpaid lifecycle_check
expired-lifecycle_check now o u h = ground arith

expired-order_check :
    (now : ℕ) (o : PaymentOrder)
    → unpaid now o ≡ true
    → order_check o ≡ true
    → order_check (record o { status = expired; updated_at = now }) ≡ true
unfolding order_check snapshot_check
expired-order_check now o u h =
    let (snapshot, life) = and_true (snapshot_check o) (lifecycle_check o) h in
    rw (snapshot, expired-lifecycle_check now o u life) refl

unpaid-paid : (now : ℕ) (o : PaymentOrder) → unpaid now o ≡ true → same_state o.status paid ≡ false
unfolding unpaid
unpaid-paid now o u = ground arith

expired-IsSettled :
    (now : ℕ) (p : Purchase)
    → IsSettled p
    → IsSettled (record p { order = expire_order now p.order })
unfolding expire_order
expired-IsSettled now p h =
    if-holds (λ (o : PaymentOrder). IsSettled (record p { order = o })) (unpaid now p.order)
      (λ u.
        unpaid-IsSettled p _ h (unpaid-paid now p.order u)
          (expired-order_check now p.order u h.checks) refl)
      (λ u. h)

opened-paid : (now : ℕ) (p : Purchase) → is_paid p ≡ true → opened (open_order now p.order) p ≡ p
unfolding open_order
opened-paid now p done = rw (paid-created p.order done, paid-pending p.order done)

expired-paid : (now : ℕ) (p : Purchase) → is_paid p ≡ true → expire_order now p.order ≡ p.order
unfolding expire_order unpaid
expired-paid now p done = rw (paid-created p.order done, paid-pending p.order done)

module _ (digest : List ℕ → List ℕ) (password : List ℕ) where
  kept-Accepted :
      (m : Message) (p : Purchase) (r : Result PaymentError (Bool × Purchase))
      → IsSettled p
      → ((b : Bool) (q : Purchase) → r ≡ ok (b, q) → Accepted digest password m p b q)
      → IsSettled (kept r p) × ((is_paid p ≡ false) ⊎ (kept r p ≡ p))
  kept-Accepted m p (err e) h back = (h, inr refl)
  kept-Accepted m p (ok (b, q)) h back = let a = back b q refl in (a.settled, a.repeated)

  transact-IsSettled :
      (c : Call) (p : Purchase)
      → IsSettled p
      → IsSettled (transact digest password c p)
        × ((is_paid p ≡ false) ⊎ (transact digest password c p ≡ p))
  unfolding transact
  transact-IsSettled (open_again now) p h = (
    opened-IsSettled p _ h (λ k e. open_order-eq-ok now p.order e),
    elim (Bool-cases (is_paid p)) [ inl done ↦ inr (opened-paid now p done) | inr owed ↦ inl owed ],
  )
  transact-IsSettled (expire now) p h = (
    expired-IsSettled now p h,
    elim (Bool-cases (is_paid p)) [
      | inl done ↦ inr (ap (λ o. record p { order = o }) (expired-paid now p done))
      | inr owed ↦ inl owed
    ],
  )
  transact-IsSettled (callback chosen m) p h =
      kept-Accepted m p _ h (λ b q e. accept_callback-Accepted digest password chosen m p h e)

  -- Any sequence of checkouts, expiries and callbacks, genuine or not, keeps the CHECK constraints of
  -- the order and the pairing with its entitlement: there is one exactly when the order is paid, it
  -- belongs to the order's client, begins when the order was paid and lasts 24 hours. And once the
  -- order is paid, no call changes the order or its entitlement any more.
  pub history-IsSettled :
      (cs : List Call) (p : Purchase)
      → IsSettled p
      → IsSettled (history digest password cs p)
        × ((is_paid p ≡ false) ⊎ (history digest password cs p ≡ p))
  unfolding history
  history-IsSettled [] p h = (h, inr refl)
  history-IsSettled (c ∷ cs) p h =
      let (sound, same) = transact-IsSettled c p h in
      let (later, still) = history-IsSettled cs (transact digest password c p) sound in
      (later, both p (transact digest password c p) _ same still)
