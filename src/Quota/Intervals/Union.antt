-- ===== src/Quota/Intervals/Union.antt =====
-- The function, its output's shape, and the bytes that it covers.
use fetch_now.Prelude.{
  ℕ, ◌≤◌, ◌<◌, max, ◌≡◌, refl, ap, ◌∙◌, inl, inr, Bool, false, ◌&&◌, ◌||◌, List, [], ◌∷◌, arith,
  ltb, leb, ◌==◌, if◌then◌else◌, ltb→lt, Bool-cases, insert_sorted, order_by, keep, All, All-keep,
}

abbrev pub Interval : Type 0
Interval = ℕ × ℕ

-- Python's order of pairs.
unfoldable pub pair_before : Interval → Interval → Bool
pair_before (s, e) (s', e') = ltb s s' || (s == s') && leb e e'

-- The loop over the sorted intervals; `s` and `e` are `merged[-1]`.
unfoldable pub merge_from : ℕ → ℕ → List Interval → List Interval
merge_from s e [] = (s, e) ∷ []
merge_from s e ((s', e') ∷ rest) =
    let apart = (s, e) ∷ merge_from s' e' rest in
    let joined = merge_from s (max e e') rest in if ltb e s' then apart else joined

unfoldable pub merge_sorted : List Interval → List Interval
unfolding merge_from
merge_sorted [] = []
merge_sorted ((s, e) ∷ rest) = merge_from s e rest

unfoldable pub normalize_intervals : List Interval → List Interval
unfolding merge_sorted pair_before order_by
normalize_intervals intervals =
    merge_sorted (order_by pair_before (keep (λ i. ltb i.0 i.1) intervals))

-- Whether some interval holds the byte.
unfoldable pub covered : ℕ → List Interval → Bool
covered b [] = false
covered b ((s, e) ∷ rest) = leb s b && ltb b e || covered b rest

-- Sorted by start, from `lo` on, with no empty member.
abbrev SortedFrom : ℕ → List Interval → Type 0
SortedFrom lo [] = Unit
SortedFrom lo ((s, e) ∷ rest) = (lo ≤ s) × (s < e) × SortedFrom s rest

-- The list begins behind `e`, with a gap.
abbrev pub Beyond : ℕ → List Interval → Type 0
Beyond e [] = Unit
Beyond e ((s, _) ∷ rest) = e < s

-- Sorted, no empty member, and a gap between each two.
abbrev pub IsSeparated : List Interval → Type 0
IsSeparated [] = Unit
IsSeparated ((s, e) ∷ rest) = (s < e) × Beyond e rest × IsSeparated rest

SortedFrom-weaken : {lo hi : ℕ} (xs : List Interval) → lo ≤ hi → SortedFrom hi xs → SortedFrom lo xs
SortedFrom-weaken [] h r = tt
SortedFrom-weaken (_ ∷ _) h r = (omega arith, r.1, r.2)

insert-SortedFrom :
    (lo s e : ℕ) (xs : List Interval)
    → lo ≤ s
    → s < e
    → SortedFrom lo xs
    → SortedFrom lo (insert_sorted pair_before (s, e) xs)
unfolding insert_sorted pair_before
insert-SortedFrom lo s e [] h k r = (h, k, tt)
insert-SortedFrom lo s e ((s', e') ∷ xs) h k r = ground (arith, insert-SortedFrom s' s e xs)

SortedFrom-order_by :
    (xs : List Interval) → All (λ i. i.0 < i.1) xs → SortedFrom 0 (order_by pair_before xs)
unfolding order_by
SortedFrom-order_by [] h = tt
SortedFrom-order_by ((s, e) ∷ xs) h =
    insert-SortedFrom 0 s e (order_by pair_before xs) (omega arith) h.0 (SortedFrom-order_by xs h.1)

Beyond-merge_from : (lo s e : ℕ) (xs : List Interval) → lo < s → Beyond lo (merge_from s e xs)
unfolding merge_from
Beyond-merge_from lo s e [] h = h
Beyond-merge_from lo s e ((s', e') ∷ xs) h = ground (arith, Beyond-merge_from lo s (max e e') xs h)

merge_from-IsSeparated :
    (s e : ℕ) (xs : List Interval) → s < e → SortedFrom s xs → IsSeparated (merge_from s e xs)
unfolding merge_from
merge_from-IsSeparated s e [] h r = (h, tt, tt)
merge_from-IsSeparated s e ((s', e') ∷ xs) h r = elim (Bool-cases (ltb e s')) [
  | inl apart ↦
      rw apart (
        h,
        Beyond-merge_from e s' e' xs (ltb→lt e s' apart),
        merge_from-IsSeparated s' e' xs r.1 r.2,
      )
  | inr joined ↦
      rw joined
        (merge_from-IsSeparated s (max e e') xs (omega arith) (SortedFrom-weaken xs r.0 r.2))
]

covered-insert :
    (b : ℕ) (i : Interval) (xs : List Interval)
    → covered b (insert_sorted pair_before i xs) ≡ covered b (i ∷ xs)
unfolding insert_sorted covered
covered-insert b i [] = refl
covered-insert b i (j ∷ xs) = ground (arith, covered-insert b i xs)

covered-order_by : (b : ℕ) (xs : List Interval) → covered b (order_by pair_before xs) ≡ covered b xs
unfolding order_by covered
covered-order_by b [] = refl
covered-order_by b (i ∷ xs) =
    covered-insert b i (order_by pair_before xs)
    ∙ ap (λ c. leb i.0 b && ltb b i.1 || c) (covered-order_by b xs)

covered-keep : (b : ℕ) (xs : List Interval) → covered b (keep (λ i. ltb i.0 i.1) xs) ≡ covered b xs
unfolding covered
covered-keep b [] = refl
covered-keep b ((s, e) ∷ xs) = ground (arith, covered-keep b xs)

joined_head :
    (b s e s' e' : ℕ) (xs : List Interval)
    → s < e
    → s ≤ s'
    → s' < e'
    → ltb e s' ≡ false
    → covered b ((s, max e e') ∷ xs) ≡ covered b ((s, e) ∷ (s', e') ∷ xs)
unfolding covered
joined_head b s e s' e' xs h k l joined = ground arith

covered-merge_from :
    (b s e : ℕ) (xs : List Interval)
    → s < e
    → SortedFrom s xs
    → covered b (merge_from s e xs) ≡ covered b ((s, e) ∷ xs)
unfolding covered merge_from
covered-merge_from b s e [] h r = refl
covered-merge_from b s e ((s', e') ∷ xs) h r = elim (Bool-cases (ltb e s')) [
  | inl apart ↦ rw apart (ap (λ c. leb s b && ltb b e || c) (covered-merge_from b s' e' xs r.1 r.2))
  | inr joined ↦ rw joined (
      covered-merge_from b s (max e e') xs (omega arith) (SortedFrom-weaken xs r.0 r.2)
      ∙ joined_head b s e s' e' xs h r.0 r.1 joined)
]

merge_sorted-laws :
    (xs : List Interval)
    → SortedFrom 0 xs
    → IsSeparated (merge_sorted xs) × ((b : ℕ) → covered b (merge_sorted xs) ≡ covered b xs)
unfolding merge_sorted
merge_sorted-laws [] h = (tt, λ b. refl)
merge_sorted-laws ((s, e) ∷ xs) h =
    (merge_from-IsSeparated s e xs h.1 h.2, λ b. covered-merge_from b s e xs h.1 h.2)

-- `normalize_intervals` covers exactly the bytes of its input, whatever the input; its output is
-- sorted, has no empty member, and has a gap between each two members.
pub normalize_intervals_lem :
    (xs : List Interval)
    → IsSeparated (normalize_intervals xs)
      × ((b : ℕ) → covered b (normalize_intervals xs) ≡ covered b xs)
unfolding normalize_intervals
normalize_intervals_lem xs =
    let kept = keep (λ (i : Interval). ltb i.0 i.1) xs in
    let valid = All-keep (λ i. i.0 < i.1) (λ i. ltb i.0 i.1) xs (λ i m e. ltb→lt i.0 i.1 e) in
    let (shape, same) = merge_sorted-laws _ (SortedFrom-order_by kept valid) in
    (shape, λ b. same b ∙ covered-order_by b kept ∙ covered-keep b xs)
