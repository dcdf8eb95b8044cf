-- ===== src/Quota/Delivery/Coverage.antt =====
-- The bytes that the ranges of an entry witness, through every helper that rewrites the ranges.
use fetch_now.Prelude.{
  ℕ, suc, ◌≡◌, refl, sym, ap, ◌∙◌, Bool, false, ◌&&◌, ◌||◌, List, [], ◌∷◌, ◌++◌, arith, ltb, leb,
  insert_sorted, order_by, keep, ok, ok-injective, if-cases, inl, inr, length,
}
use fetch_now.Quota.Model.{DeliveryRange}
use fetch_now.Quota.Intervals.Union.{Interval, covered, normalize_intervals_lem}
use fetch_now.Quota.Ranges.{
  range_before, lock_ranges, served_intervals, closed_intervals, close_row, close_stale, fragments,
  compact_closed, replaced, is_closed, is_open, breaks_check, same_shape, max_closed_fragments,
}

-- Whether some range has served the byte.
unfoldable pub served : ℕ → List DeliveryRange → Bool
served b rows = covered b (served_intervals rows)

pub served-nil : (b : ℕ) → served b [] ≡ false
unfolding served covered served_intervals
served-nil b = refl

abbrev pub serves : ℕ → DeliveryRange → Bool
serves b r = leb r.request_start b && ltb b r.served_end_exclusive

pub served-cons :
    (b : ℕ) (r : DeliveryRange) (rows : List DeliveryRange)
    → served b (r ∷ rows) ≡ (serves b r || served b rows)
unfolding served covered served_intervals
served-cons b r rows = ground arith

pub served-append :
    (b : ℕ) (xs ys : List DeliveryRange) → served b (xs ++ ys) ≡ (served b xs || served b ys)
served-append b [] ys = rw served-nil
served-append b (x ∷ xs) ys =
    ground (arith, served-cons b x xs, served-cons b x (xs ++ ys), served-append b xs ys)

served-insert :
    (b : ℕ) (r : DeliveryRange) (rows : List DeliveryRange)
    → served b (insert_sorted range_before r rows) ≡ served b (r ∷ rows)
unfolding insert_sorted
served-insert b r [] = refl
served-insert b r (q ∷ rows) = ground (
  arith,
  served-insert b r rows,
  served-cons b r (q ∷ rows),
  served-cons b r rows,
  served-cons b q rows,
  served-cons b q (insert_sorted range_before r rows),
)

pub served-lock_ranges :
    (b : ℕ) (rows : List DeliveryRange) → served b (lock_ranges rows) ≡ served b rows
unfolding lock_ranges order_by
served-lock_ranges b [] = refl
served-lock_ranges b (r ∷ rows) =
    served-insert b r (lock_ranges rows)
    ∙ served-cons b r (lock_ranges rows)
    ∙ ap (λ c. serves b r || c) (served-lock_ranges b rows)
    ∙ sym (served-cons b r rows)

-- Closing stale attempts, whichever rows are chosen, keeps the bytes that the ranges witness.
pub served-close_stale :
    (b : ℕ) (chosen : DeliveryRange → Bool) (now : ℕ) (rows : List DeliveryRange)
    → served b (close_stale chosen now rows) ≡ served b rows
unfolding close_stale
served-close_stale b chosen now [] = refl
served-close_stale b chosen now (r ∷ rows) = ground (
  arith,
  served-close_stale b chosen now rows,
  served-cons b r rows,
  served-cons b r (close_stale chosen now rows),
  served-cons b (close_row now r.served_end_exclusive r) (close_stale chosen now rows),
)

served-split :
    (b : ℕ) (rows : List DeliveryRange)
    → (served b (keep is_open rows) || served b (keep is_closed rows)) ≡ served b rows
served-split b [] = rw served-nil
served-split b (r ∷ rows) = ground (
  arith,
  served-split b rows,
  served-cons b r rows,
  served-cons b r (keep is_open rows),
  served-cons b r (keep is_closed rows),
)

served-fragments :
    (b : ℕ) (fresh : ℕ → ℕ) (now : ℕ) (template : DeliveryRange) (union : List Interval)
    → served b (fragments fresh now template union) ≡ covered b union
unfolding fragments covered
served-fragments b fresh now template [] = served-nil b
served-fragments b fresh now template ((start, end) ∷ union) =
    served-cons b _ (fragments (λ k. fresh (suc k)) now template union)
    ∙ ap (λ c. leb start b && ltb b end || c)
        (served-fragments b (λ k. fresh (suc k)) now template union)

pub covered-closed_intervals :
    (b : ℕ) (rows : List DeliveryRange) → covered b (closed_intervals rows) ≡ served b rows
unfolding closed_intervals served
covered-closed_intervals b rows = (normalize_intervals_lem (served_intervals rows)).1 b

served-replaced :
    (b : ℕ) (fresh : ℕ → ℕ) (now : ℕ) (shut rows : List DeliveryRange) {rows' : List DeliveryRange}
    → shut ≡ keep is_closed rows
    → replaced fresh now shut (closed_intervals shut) rows ≡ ok rows'
    → served b rows' ≡ served b rows
unfolding replaced
served-replaced b fresh now [] rows e h = ap (served b) (sym (ok-injective h))
served-replaced b fresh now (template ∷ shut) rows {rows'} e h =
    let new = fragments fresh now template (closed_intervals (template ∷ shut)) in
    let kept : rows' ≡ keep is_open rows ++ new = elim (if-cases (breaks_check new) _ _ h) [
      | inl (c, h1) ↦ cc
      | inr (c, h1) ↦ sym (ok-injective h1)
    ] in
    ap (served b) kept
    ∙ served-append b (keep is_open rows) _
    ∙ ap (λ c. served b (keep is_open rows) || c)
        (served-fragments b fresh now template _
          ∙ covered-closed_intervals b (template ∷ shut)
          ∙ ap (served b) e)
    ∙ served-split b rows

-- Compacting the closed rows, where it does not raise, keeps the bytes that the ranges witness.
pub served-compact_closed :
    (b : ℕ) (fresh : ℕ → ℕ) (now : ℕ) (rows : List DeliveryRange) {rows' : List DeliveryRange}
    → compact_closed fresh now rows ≡ ok rows'
    → served b rows' ≡ served b rows
unfolding compact_closed
served-compact_closed b fresh now rows h =
    elim (if-cases (ltb max_closed_fragments (length (closed_intervals (keep is_closed rows)))) _ _
      h) [
        | inl (c, h1) ↦ cc
        | inr (c, h1) ↦
            elim (if-cases
              (same_shape (keep is_closed rows) (closed_intervals (keep is_closed rows))) _ _ h1) [
                | inl (d, h2) ↦ ap (served b) (sym (ok-injective h2))
                | inr (d, h2) ↦ served-replaced b fresh now (keep is_closed rows) rows refl h2
              ]
      ]
