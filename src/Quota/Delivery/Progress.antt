-- ===== src/Quota/Delivery/Progress.antt =====
-- What a checkpoint adds to the bytes witnessed.
use fetch_now.Prelude.{
  ok-injective, >>=-eq-ok, ap₂, ℕ, ◌≤◌, max, ◌≡◌, refl, sym, ap, ◌∙◌, subst, ◌≢◌, inl, inr, false,
  ◌&&◌, ◌||◌, some, List, [], ◌∷◌, Memᴰ, arith, ltb, leb, ◌==◌, leb→le, Bool-cases, latest, flush,
  ok, All, All-Memᴰ, All-weaken, UniqueIds,
}
use fetch_now.Quota.Model.{guard-eq-ok, DeliveryRange}
use fetch_now.Quota.Ranges.{AccountingResult, consume_if_complete}
use fetch_now.Quota.Delivery.{Ledger, range_id, find_range, lock_context, advance_row, checkpoint}
use fetch_now.Quota.Delivery.Coverage.{served, serves, served-cons}

latest_other : (c r : DeliveryRange) → r.id ≢ c.id → latest range_id (c ∷ []) r ≡ r
unfolding latest
latest_other c r h = ground arith

latest_same : (c r : DeliveryRange) → r.id ≡ c.id → latest range_id (c ∷ []) r ≡ c
unfolding latest
latest_same c r h = ground arith

flush_other :
    (c : DeliveryRange) (rows : List DeliveryRange)
    → All (λ r. r.id ≢ c.id) rows
    → flush range_id (c ∷ []) rows ≡ rows
unfolding flush
flush_other c [] h = refl
flush_other c (r ∷ rows) h = ap₂ ◌∷◌ (latest_other c r h.0) (flush_other c rows h.1)

-- A row is replaced by a version that has served at least as much.
abbrev Replaces : DeliveryRange → DeliveryRange → Type 0
Replaces r c =
    (c.id ≡ r.id)
    × (c.request_start ≡ r.request_start)
    × (r.served_end_exclusive ≤ c.served_end_exclusive)

served-replaced :
    (b : ℕ) (q c : DeliveryRange) (rows : List DeliveryRange)
    → Replaces q c
    → served b (c ∷ rows) ≡ (served b (q ∷ rows) || serves b c)
served-replaced b q c rows g = rw (served-cons b c rows, served-cons b q rows) (ground arith)

served-flush :
    (b : ℕ) (r c : DeliveryRange) (rows : List DeliveryRange)
    → UniqueIds range_id rows
    → Memᴰ r rows
    → Replaces r c
    → served b (flush range_id (c ∷ []) rows) ≡ (served b rows || serves b c)
unfolding flush
served-flush b r c [] u m g = elim m [ ]
served-flush b r c (q ∷ rows) u (Memᴰ.head e) g =
    let h : Replaces q c = subst (λ x. Replaces x c) e g in
    let rest : flush range_id (c ∷ []) rows ≡ rows =
      flush_other c rows (All-weaken _ _ rows u.0 (λ y d p. d (p ∙ h.0))) in
    ap₂ (λ x xs. served b (x ∷ xs)) (latest_same c q (sym h.0)) rest ∙ served-replaced b q c rows h
served-flush b r c (q ∷ rows) u (Memᴰ.tail m) g =
    let apart : r.id ≢ q.id = All-Memᴰ (λ y. y.id ≢ q.id) rows m u.0 in
    ap (λ x. served b (x ∷ flush range_id (c ∷ []) rows))
      (latest_other c q (λ p. apart (sym (p ∙ g.0))))
    ∙ ground (
      arith,
      served-cons b q rows,
      served-cons b q (flush range_id (c ∷ []) rows),
      served-flush b r c rows u.1 m g,
    )

find_range-Memᴰ :
    (id : ℕ) (rows : List DeliveryRange) {r : DeliveryRange}
    → find_range id rows ≡ some r
    → Memᴰ r rows
unfolding find_range
find_range-Memᴰ id [] h = cc
find_range-Memᴰ id (q ∷ rows) h = elim (Bool-cases (q.id == id)) [
  | inl e ↦ Memᴰ.head (ground arith)
  | inr e ↦ Memᴰ.tail (find_range-Memᴰ id rows (ground arith))
]

-- A checkpoint that succeeds keeps every byte that was witnessed, and adds exactly the bytes from
-- the attempt's start up to the end observed, or up to the end that it had reached before if that
-- is further; it never goes past the end of the attempt's request. Ids of ranges are unique.
pub served-checkpoint :
    (attempt_id observed now : ℕ) (l : Ledger) {attempt : DeliveryRange} {result : AccountingResult}
    {l' : Ledger}
    → UniqueIds range_id l.ranges
    → find_range attempt_id l.ranges ≡ some attempt
    → checkpoint attempt_id observed now l ≡ ok (result, l')
    → (max observed attempt.served_end_exclusive ≤ attempt.request_end_exclusive)
      × ((b : ℕ)
          → served b l'.ranges ≡ (
              served b l.ranges
              || leb attempt.request_start b && ltb b (max observed attempt.served_end_exclusive)))
unfolding checkpoint advance_row
served-checkpoint attempt_id observed now l {attempt} {result} {l'} u f h =
    let (context, locked, h1) = >>=-eq-ok (lock_context attempt false l) _ (rw f at h) in
    let (low, h2) = guard-eq-ok _ _ _ h1 in
    let (settled, spent, h3) = >>=-eq-ok (consume_if_complete context.0 _ _ now) _ h2 in
    let (checked, h4) = guard-eq-ok _ _ _ h3 in
    let reached = max observed attempt.served_end_exclusive in
    let row = advance_row reached now attempt in
    let same : l'.ranges ≡ flush range_id (row ∷ []) l.ranges =
      ap (λ (p : AccountingResult × Ledger). p.1.ranges) (sym (ok-injective h4)) in
    (
      leb→le _ _ low,
      λ b.
          ap (served b) same
          ∙ served-flush b attempt row l.ranges u (find_range-Memᴰ attempt_id l.ranges f)
              (refl, refl, omega arith),
    )
