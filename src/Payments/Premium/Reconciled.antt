-- ===== src/Payments/Premium/Reconciled.antt =====
-- After a reconciliation every paid order has its entitlement.
use fetch_now.Prelude.{
  ap₂, ℕ, ◌-◌, ◌≡◌, refl, ap, ◌∙◌, subst, ◌⊎◌, inl, inr, Bool, true, false, not, ◌&&◌, ◌||◌, Option,
  none, some, List, [], ◌∷◌, map, Memᴰ, Forall₂, arith, str_eq, ltb, leb, ◌==◌, if◌then◌else◌,
  Bool-cases, is_some, and_true, if-holds, if-cases, insert_sorted, order_by, for_each, latest,
  flush, codes, length, keep, any, Result, ok, All, All-Memᴰ, All-of_Memᴰ, All-keep, All-order_by,
}
use fetch_now.Payments.Model.{
  PaymentOrderState, created, pending, expired, paid, same_state, PaymentError, PaymentOrder,
  PremiumEntitlement, order_check, snapshot_check, lifecycle_check, not_before,
}
use fetch_now.Payments.Callback.{Purchase, ensure_for_paid_order, grant_from, not_payable}
use fetch_now.Payments.Premium.{
  is_unserved, paid_before, count_new, order_id, PremiumReconcileResult, reconcile,
}

abbrev has_entitlement : Purchase → Bool
has_entitlement p = is_some p.entitlement

-- What the entitlement of one order changes.
IsServed : Purchase → Purchase × Bool → Type 0
IsServed p s = (s.0.order ≡ p.order) × (has_entitlement s.0 ≡ true)

fifth :
    (a b c d e f g h i j : Bool)
    → (a && b && c && d && e && f && g && h && i && j) ≡ true
    → e ≡ true
fifth a b c d e f g h i j k = ground arith

a_day : (n : ℕ) → (n == 86400) ≡ true → (n == 0) ≡ false
a_day n h = ground arith

third_case :
    (s : PaymentOrderState) (a b c d e f g h i j : Bool)
    → same_state s paid ≡ true
    → (same_state s created && a && b && c
        || same_state s pending && d && e && f
        || same_state s paid && g && h
        || same_state s expired && i && j)
      ≡ true
    → g ≡ true
third_case created a b c d e f g h i j k l = cc
third_case pending a b c d e f g h i j k l = cc
third_case paid a b c d e f g h i j k l = ground arith
third_case expired a b c d e f g h i j k l = cc

dated_after : (t start : Option ℕ) → not_before t start ≡ true → is_some t ≡ true
dated_after (some t) (some start) h = refl
dated_after (some t) none h = cc
dated_after none start h = cc

payable_if :
    (paid_now free : Bool) → paid_now ≡ true → free ≡ false → (not paid_now || free) ≡ false
payable_if paid_now free h k = rw (h, k) refl

given :
    (o : PaymentOrder)
    → order_check o ≡ true
    → same_state o.status paid ≡ true
    → (not_payable o ≡ false) × (is_some o.paid_at ≡ true)
unfolding order_check snapshot_check lifecycle_check
given o h k =
    let both = and_true (snapshot_check o) (lifecycle_check o) h in
    let day =
      fifth (str_eq o.provider "robokassa") (ltb 0 o.provider_invoice_id) (ltb 0 o.amount_minor)
        (str_eq o.currency "RUB") (o.entitlement_duration_seconds == 86400) o.is_test
        (length o.creation_idempotency_hash == 32) (leb 2 (length (codes o.receipt_json)))
        (leb (length (codes o.receipt_json)) 4096) (ltb o.created_at o.expires_at) both.0 in
    (
      payable_if (same_state o.status paid) (o.entitlement_duration_seconds == 0) k
          (a_day o.entitlement_duration_seconds day),
      dated_after o.paid_at o.pending_at (
          third_case o.status (not (is_some o.pending_at)) (not (is_some o.paid_at))
            (not (is_some o.provider_callback_at)) (is_some o.pending_at) (not (is_some o.paid_at))
            (not (is_some o.provider_callback_at)) (not_before o.paid_at o.pending_at)
            (not_before o.provider_callback_at o.pending_at) (not (is_some o.paid_at))
            (not (is_some o.provider_callback_at)) k both.1),
    )

granted :
    (id public_id now : ℕ) (p : Purchase) (paid_at : Option ℕ) (held : Option PremiumEntitlement)
    → p.entitlement ≡ held
    → is_some paid_at ≡ true
    → (s : Purchase × Bool) × (grant_from id public_id now p paid_at held ≡ ok s) × IsServed p s
unfolding IsServed
granted id public_id now p none held e h = cc
granted id public_id now p (some t) (some x) e h = ((p, false), refl, (refl, ap is_some e))
granted id public_id now p (some t) none e h = (_, refl, (refl, refl))

ensured :
    (id public_id now : ℕ) (p : Purchase)
    → order_check p.order ≡ true
    → is_unserved p ≡ true
    → (s : Purchase × Bool) × (ensure_for_paid_order id public_id now p ≡ ok s) × IsServed p s
unfolding ensure_for_paid_order is_unserved
ensured id public_id now p h u =
    let (payable, dated) = given p.order h (and_true (same_state p.order.status paid) _ u).0 in
    rw (payable) (granted id public_id now p p.order.paid_at p.entitlement refl dated)

-- The loop serves every row.
serve_all :
    (body : Purchase → Result PaymentError (Purchase × Bool)) (rows : List Purchase)
    → All (λ p. (s : Purchase × Bool) × (body p ≡ ok s) × IsServed p s) rows
    → (served : List (Purchase × Bool)) × (for_each body rows ≡ ok served)
      × Forall₂ IsServed rows served
unfolding for_each
serve_all body [] h = ([], refl, Forall₂.nil)
serve_all body (p ∷ rows) (one, rest) =
    let (s, e, is) = one in
    let (served, f, are) = serve_all body rows rest in
    (s ∷ served, rw (e, f) refl, Forall₂.cons is are)

abbrev same_id : ℕ → Purchase → Bool
same_id id p = order_id p == id

any-served :
    (id : ℕ) {rows : List Purchase} {served : List (Purchase × Bool)}
    → Forall₂ IsServed rows served
    → any (same_id id) (map (λ s. s.0) served) ≡ any (same_id id) rows
unfolding IsServed
any-served id Forall₂.nil = refl
any-served id (Forall₂.cons {a = p} {b = s} is rest) =
    ap₂ (λ o b. if o == id then true else b) (ap (λ o. o.id) is.0) (any-served id rest)

All-served :
    {rows : List Purchase} {served : List (Purchase × Bool)}
    → Forall₂ IsServed rows served
    → All (λ p. has_entitlement p ≡ true) (map (λ s. s.0) served)
unfolding IsServed
All-served Forall₂.nil = tt
All-served (Forall₂.cons is rest) = (is.1, All-served rest)

any-insert_sorted :
    (q : Purchase → Bool) (p : Purchase) (rows : List Purchase)
    → any q (insert_sorted paid_before p rows) ≡ any q (p ∷ rows)
unfolding insert_sorted
any-insert_sorted q p [] = refl
any-insert_sorted q p (r ∷ rows) =
    if-holds (λ t. any q t ≡ any q (p ∷ r ∷ rows)) (paid_before p r) (λ before. refl)
      (λ after.
        ap (λ b. if q r then true else b) (any-insert_sorted q p rows)
        ∙ swap (q r) (q p) (any q rows))
  where
    swap :
        (a b c : Bool)
        → (if a then true else if b then true else c) ≡ (if b then true else if a then true else c)
    swap a b c = ground arith

any-order_by :
    (q : Purchase → Bool) (rows : List Purchase) → any q (order_by paid_before rows) ≡ any q rows
unfolding order_by
any-order_by q [] = refl
any-order_by q (p ∷ rows) =
    any-insert_sorted q p (order_by paid_before rows)
    ∙ ap (λ b. if q p then true else b) (any-order_by q rows)

any-keep :
    (p : Purchase) (table : List Purchase)
    → Memᴰ p table
    → is_unserved p ≡ true
    → any (same_id (order_id p)) (keep is_unserved table) ≡ true
any-keep p [] m h = elim m [ ]
any-keep p (r ∷ table) (Memᴰ.head e) h =
    subst
      (λ q.
        any (same_id (order_id p))
          (if is_unserved q then q ∷ keep is_unserved table else keep is_unserved table)
        ≡ true)
      e (rw (h) (self (order_id p) (any (same_id (order_id p)) (keep is_unserved table))))
  where
    self : (n : ℕ) (b : Bool) → (if n == n then true else b) ≡ true
    self n b = ground arith
any-keep p (r ∷ table) (Memᴰ.tail m) h =
    if-holds (λ (t : List Purchase). any (same_id (order_id p)) t ≡ true) (is_unserved r)
      (λ unserved. behind (order_id r == order_id p) (any-keep p table m h))
      (λ served. any-keep p table m h)
  where
    behind : (a : Bool) {b : Bool} → b ≡ true → (if a then true else b) ≡ true
    behind true h = refl
    behind false h = h

entitled-served : (p : Purchase) → has_entitlement p ≡ true → is_unserved p ≡ false
unfolding is_unserved
entitled-served p h = rw (h) (nothing (same_state p.order.status paid))
  where
    nothing : (b : Bool) → (b && false) ≡ false
    nothing b = ground arith

-- The version of a row after the flush.
latest-served :
    (changed : List Purchase) (r : Purchase)
    → All (λ p. has_entitlement p ≡ true) changed
    → (is_unserved r ≡ false) ⊎ (any (same_id (order_id r)) changed ≡ true)
    → is_unserved (latest order_id changed r) ≡ false
unfolding latest
latest-served [] r h (inl served) = served
latest-served [] r h (inr never) = cc
latest-served (c ∷ changed) r h (inl served) =
    if-holds (λ p. is_unserved p ≡ false) (order_id c == order_id r) (λ hit. entitled-served c h.0)
      (λ miss. latest-served changed r h.1 (inl served))
latest-served (c ∷ changed) r h (inr found) =
    elim (if-cases (order_id c == order_id r) true (any (same_id (order_id r)) changed) found) [
      | inl (hit, e) ↦ rw (hit) (entitled-served c h.0)
      | inr (miss, e) ↦ rw (miss) (latest-served changed r h.1 (inr e))
    ]

none_unserved :
    (changed table : List Purchase)
    → All (λ r. is_unserved (latest order_id changed r) ≡ false) table
    → keep is_unserved (flush order_id changed table) ≡ []
unfolding flush
none_unserved changed [] h = refl
none_unserved changed (r ∷ table) h = rw (h.0) (none_unserved changed table h.1)

-- Where all orders satisfy the constraints of their table, a reconciliation returns, and after it no
-- paid order is without an entitlement, so a second one finds nothing to do.
pub reconcile-serves :
    (uuids : PaymentOrder → ℕ × ℕ) (now : ℕ) (table : List Purchase)
    → All (λ p. order_check p.order ≡ true) table
    → (after : List Purchase) × (result : PremiumReconcileResult) × (reconcile uuids now table
        ≡ ok (after, result))
      × (keep is_unserved after ≡ [])
unfolding reconcile
reconcile-serves uuids now table h =
    let body : Purchase → Result PaymentError (Purchase × Bool) =
      λ p. ensure_for_paid_order (uuids p.order).0 (uuids p.order).1 now p in
    let waiting = keep is_unserved table in
    let rows = order_by paid_before waiting in
    let Fine : Purchase → Type 0 = λ p. (s : Purchase × Bool) × (body p ≡ ok s) × IsServed p s in
    let fine = All-order_by Fine paid_before waiting (
      All-keep Fine is_unserved table (λ p m u.
        ensured (uuids p.order).0 (uuids p.order).1 now p
          (All-Memᴰ (λ q. order_check q.order ≡ true) table m h) u)) in
    let (served, e, are) = serve_all body rows fine in
    let changed = map (λ s. s.0) served in
    (
      flush order_id changed table,
      record {
        scanned = length rows;
        created = count_new served;
        reused = length rows - count_new served;
      },
      rw (e) refl,
      none_unserved changed table (
          All-of_Memᴰ (λ r. is_unserved (latest order_id changed r) ≡ false) table
            (λ r m. latest-served changed r (All-served are) (elim (Bool-cases (is_unserved r)) [
              | inl u ↦ inr (
                  any-served (order_id r) are
                  ∙ any-order_by (same_id (order_id r)) waiting
                  ∙ any-keep r table m u)
              | inr s ↦ inl s
            ]))),
    )
