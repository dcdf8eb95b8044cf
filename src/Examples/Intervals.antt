-- ===== src/Examples/Intervals.antt =====
-- Unions of intervals (backend/src/fetchnow/quota/delivery.py).
use fetch_now.Prelude.{
  insert_sorted, ℕ, ◌≤◌, ◌≡◌, refl, ◌↔◌, List, [], ◌∷◌, arith, ltb, length, All,
}
use fetch_now.Quota.Intervals.Union.{
  Interval, IsSeparated, covered, normalize_intervals, normalize_intervals_lem,
}
use fetch_now.Quota.Intervals.Canonical.{
  SameBytes, normalize_intervals-eq_iff, normalize_intervals-full_iff,
}
use fetch_now.Quota.Intervals.Growth.{Growing, Grows, at_first, at_last, normalize_intervals-grown}

abbrev scattered : List Interval
scattered = (20, 30) ∷ (0, 5) ∷ (4, 8) ∷ (9, 9) ∷ (8, 10) ∷ (25, 27) ∷ []

abbrev plain : List Interval
plain = (0, 10) ∷ (20, 30) ∷ []

normalized : normalize_intervals scattered ≡ plain
unfolding normalize_intervals insert_sorted
normalized = refl

normalize_intervals_lem_example :
    IsSeparated (normalize_intervals scattered)
    × ((b : ℕ) → covered b (normalize_intervals scattered) ≡ covered b scattered)
normalize_intervals_lem_example = normalize_intervals_lem scattered

normalize_intervals-eq_iff_example :
    (normalize_intervals scattered ≡ normalize_intervals plain) ↔ SameBytes scattered plain
normalize_intervals-eq_iff_example = normalize_intervals-eq_iff scattered plain

abbrev pieces : List Interval
pieces = (5, 10) ∷ (0, 5) ∷ []

normalize_intervals-full_iff_example :
    (normalize_intervals pieces ≡ (0, 10) ∷ []) ↔ ((b : ℕ) → covered b pieces ≡ ltb b 10)
normalize_intervals-full_iff_example = normalize_intervals-full_iff pieces 10 (omega arith)

abbrev streams : List Growing
streams =
    record { start = 0; before = 1; after = 10 }
    ∷ record { start = 10; before = 11; after = 12 }
    ∷ record { start = 40; before = 41; after = 41 }
    ∷ []

streams-Grows : All Grows streams
streams-Grows =
    ((omega arith, omega arith), ((omega arith, omega arith), ((omega arith, omega arith), tt)))

normalize_intervals-grown_example :
    length (normalize_intervals (at_last streams)) ≤ length (normalize_intervals (at_first streams))
normalize_intervals-grown_example = normalize_intervals-grown streams streams-Grows
