-- ===== src/Quota/Delivery/Checks.antt =====
-- The rows that `_compact_closed` inserts meet the CHECK constraints of the table
-- (backend/src/fetchnow/quota/delivery.py, backend/src/fetchnow/quota/models.py).
use fetch_now.Prelude.{
  ℕ, suc, ◌-◌, ◌≤◌, ◌<◌, ◌≡◌, refl, sym, ◌∙◌, inl, inr, Bool, true, false, not, ◌||◌, ◌==◌, List,
  [], ◌∷◌, arith, Bool-cases, if-holds, keep, All, All-order_by, All-keep, All-Memᴰ,
}
use fetch_now.Quota.Model.{DeliveryRange, range_check, is_active}
use fetch_now.Quota.Intervals.Union.{Interval, covered, IsSeparated, normalize_intervals_lem}
use fetch_now.Quota.Ranges.{
  lock_ranges, served_intervals, closed_intervals, live_at, close_row, close_stale, fragments,
  breaks_check,
}
use fetch_now.Quota.Delivery.Coverage.{
  served, serves, served-nil, served-cons, covered-closed_intervals,
}

-- A row of a file of `size` bytes that was not begun after `now`, and has served bytes of it only.
pub record Fits (size now : ℕ) (r : DeliveryRange) : Type 0 where
  pub bytes : r.artifact_bytes ≡ size
  pub begun : r.started_at ≤ now
  pub within : r.served_end_exclusive ≤ size

served-within :
    (b size now : ℕ) (rows : List DeliveryRange)
    → All (Fits size now) rows
    → served b rows ≡ true
    → b < size
served-within b size now [] h e = absurd (ground (arith, served-nil b))
served-within b size now (r ∷ rows) h e = elim (Bool-cases (serves b r)) [
  | inl d ↦ let w = h.0.within in ground (arith, d)
  | inr d ↦ served-within b size now rows h.1 (ground (arith, d, e, served-cons b r rows))
]

-- The bytes of the first member, and those of the rest, are among the bytes of the list.
covered-within :
    (size : ℕ) (xs : List Interval)
    → IsSeparated xs
    → ((b : ℕ) → covered b xs ≡ true → b < size)
    → All (λ i. (i.0 < i.1) × (i.1 ≤ size)) xs
unfolding covered
covered-within size [] shape h = tt
covered-within size ((s, e) ∷ xs) shape h =
    let last : e - 1 < size = h (e - 1) (let pos = shape.0 in ground arith) in
    (
      (shape.0, let pos = shape.0 in omega arith),
      covered-within size xs shape.2 (λ b c. h b (ground (arith, c))),
    )

fragments-check :
    (fresh : ℕ → ℕ) (now size : ℕ) (template : DeliveryRange) (union : List Interval)
    → Fits size now template
    → All (λ i. (i.0 < i.1) × (i.1 ≤ size)) union
    → breaks_check (fragments fresh now template union) ≡ false
unfolding fragments range_check
fragments-check fresh now size template [] fit h = refl
fragments-check fresh now size template ((s, e) ∷ union) fit h =
    let rest = fragments-check (λ k. fresh (suc k)) now size template union fit h.1 in
    let low = h.0.0 in
    let high = h.0.1 in let bytes = fit.bytes in let begun = fit.begun in ground arith

-- Where the closed rows fit, the rows that replace them break no CHECK.
pub fragments-closed_intervals :
    (fresh : ℕ → ℕ) (now size : ℕ) (template : DeliveryRange) (shut : List DeliveryRange)
    → Fits size now template
    → All (Fits size now) shut
    → breaks_check (fragments fresh now template (closed_intervals shut)) ≡ false
unfolding closed_intervals
fragments-closed_intervals fresh now size template shut fit h =
    fragments-check fresh now size template _ fit (
      covered-within size _ (normalize_intervals_lem (served_intervals shut)).0
        (λ b c. served-within b size now shut h (sym (covered-closed_intervals b shut) ∙ c)))

pub Fits-close_stale :
    (size now : ℕ) (chosen : DeliveryRange → Bool) (rows : List DeliveryRange)
    → All (Fits size now) rows
    → All (Fits size now) (close_stale chosen now rows)
unfolding close_stale close_row
Fits-close_stale size now chosen [] h = tt
Fits-close_stale size now chosen (r ∷ rows) h =
    let rest = Fits-close_stale size now chosen rows h.1 in
    if-holds (All (Fits size now))
      (not (chosen r) || not (is_active r.state) || live_at r.lease_expires_at now)
      (λ c. (h.0, rest))
      (λ c.
        if-holds (All (Fits size now)) (r.served_end_exclusive == r.request_start) (λ d. rest)
          (λ d. (record { bytes = h.0.bytes; begun = h.0.begun; within = h.0.within }, rest)))

pub Fits-lock_ranges :
    (size now : ℕ) (rows : List DeliveryRange)
    → All (Fits size now) rows
    → All (Fits size now) (lock_ranges rows)
unfolding lock_ranges
Fits-lock_ranges size now rows h = All-order_by _ _ rows h

pub Fits-keep :
    (size now : ℕ) (p : DeliveryRange → Bool) (rows : List DeliveryRange)
    → All (Fits size now) rows
    → All (Fits size now) (keep p rows)
Fits-keep size now p rows h = All-keep _ p rows (λ r m e. All-Memᴰ (Fits size now) rows m h)
