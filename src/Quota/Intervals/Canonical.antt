-- ===== src/Quota/Intervals/Canonical.antt =====
-- A separated list is determined by the bytes that it covers.
use mathlib.Core.Path.{ap₂}
use fetch_now.Prelude.{
  ap, ◌∙◌, ltb, ◌↔◌, ℕ, ◌≤◌, ◌<◌, ◌≡◌, refl, sym, inl, inr, true, false, List, [], ◌∷◌, arith,
  Bool-cases,
}
use fetch_now.Quota.Intervals.Union.{
  normalize_intervals_lem, normalize_intervals, Interval, covered, Beyond, IsSeparated,
}

-- What a separated list behind `e` covers lies behind `e`.
pub covered-Beyond :
    (e b : ℕ) (xs : List Interval) → Beyond e xs → IsSeparated xs → covered b xs ≡ true → e < b
unfolding covered
covered-Beyond e b [] h k c = cc
covered-Beyond e b ((s, e') ∷ xs) h k c = ground (arith, covered-Beyond e' b xs k.1 k.2)

pub not_covered :
    (e b : ℕ) (xs : List Interval) → Beyond e xs → IsSeparated xs → b ≤ e → covered b xs ≡ false
not_covered e b xs h k le = elim (Bool-cases (covered b xs)) [
  | inl c ↦ absurd (omega (arith, covered-Beyond e b xs h k c))
  | inr c ↦ c
]

-- The first byte of the first member is covered, and nothing before it is.
pub covered_before :
    (b s e : ℕ) (xs : List Interval)
    → IsSeparated ((s, e) ∷ xs)
    → b < s
    → covered b ((s, e) ∷ xs) ≡ false
unfolding covered
covered_before b s e xs h k = rw (not_covered e b xs h.1 h.2 (omega arith)) (ground arith)

pub covered_in : (b s e : ℕ) (xs : List Interval) → s ≤ b → b < e → covered b ((s, e) ∷ xs) ≡ true
unfolding covered
covered_in b s e xs h k = ground arith

covered_end :
    (s e : ℕ) (xs : List Interval) → IsSeparated ((s, e) ∷ xs) → covered e ((s, e) ∷ xs) ≡ false
unfolding covered
covered_end s e xs h = rw (not_covered e e xs h.1 h.2 (omega arith)) (ground arith)

-- Two lists that cover the same bytes.
abbrev pub SameBytes : List Interval → List Interval → Type 0
SameBytes xs ys = (b : ℕ) → covered b xs ≡ covered b ys

same_start :
    (s e s' e' : ℕ) (xs ys : List Interval)
    → IsSeparated ((s, e) ∷ xs)
    → IsSeparated ((s', e') ∷ ys)
    → SameBytes ((s, e) ∷ xs) ((s', e') ∷ ys)
    → s' ≤ s
same_start s e s' e' xs ys h k same =
    ground (arith, same s, covered_in s s e xs, covered_before s s' e' ys k)

same_end :
    (s e e' : ℕ) (xs ys : List Interval)
    → IsSeparated ((s, e) ∷ xs)
    → IsSeparated ((s, e') ∷ ys)
    → SameBytes ((s, e) ∷ xs) ((s, e') ∷ ys)
    → e' ≤ e
same_end s e e' xs ys h k same = ground (arith, same e, covered_in e s e' ys, covered_end s e xs h)

same_head :
    (s e s' e' : ℕ) (xs ys : List Interval)
    → IsSeparated ((s, e) ∷ xs)
    → IsSeparated ((s', e') ∷ ys)
    → SameBytes ((s, e) ∷ xs) ((s', e') ∷ ys)
    → (s ≡ s') × (e ≡ e')
same_head s e s' e' xs ys h k same =
    let back = λ (b : ℕ). sym (same b) in
    let p : s ≡ s' =
      omega (arith, same_start s e s' e' xs ys h k same, same_start s' e' s e ys xs k h back) in
    (
      p,
      omega (
        arith,
        same_end s' e e' xs ys (rw p at h) k (λ b. rw p at (same b)),
        same_end s' e' e ys xs k (rw p at h) (λ b. rw p at (back b)),
      ),
    )

same_tails :
    (s e s' e' : ℕ) (xs ys : List Interval)
    → s ≡ s'
    → e ≡ e'
    → IsSeparated ((s, e) ∷ xs)
    → IsSeparated ((s', e') ∷ ys)
    → SameBytes ((s, e) ∷ xs) ((s', e') ∷ ys)
    → SameBytes xs ys
unfolding covered
same_tails s e s' e' xs ys p q h k same b =
    ground (arith, same b, covered-Beyond e b xs h.1 h.2, covered-Beyond e' b ys k.1 k.2)

pub covered-nil : (b : ℕ) → covered b [] ≡ false
unfolding covered
covered-nil b = refl

-- Separated lists that cover the same bytes are equal.
pub IsSeparated-eq :
    (xs ys : List Interval) → IsSeparated xs → IsSeparated ys → SameBytes xs ys → xs ≡ ys
IsSeparated-eq [] [] h k same = refl
IsSeparated-eq [] ((s, e) ∷ ys) h k same =
    cc (same s, covered_in s s e ys (omega arith) k.0, covered-nil s)
IsSeparated-eq ((s, e) ∷ xs) [] h k same =
    cc (same s, covered_in s s e xs (omega arith) h.0, covered-nil s)
IsSeparated-eq ((s, e) ∷ xs) ((s', e') ∷ ys) h k same =
    let (p, q) = same_head s e s' e' xs ys h k same in
    let tails = same_tails s e s' e' xs ys p q h k same in
    ap₂ ◌∷◌ (λ i. (p i, q i)) (IsSeparated-eq xs ys h.2 k.2 tails)

-- Two inputs have the same union exactly when they cover the same bytes.
pub normalize_intervals-eq_iff :
    (xs ys : List Interval) → (normalize_intervals xs ≡ normalize_intervals ys) ↔ SameBytes xs ys
normalize_intervals-eq_iff xs ys =
    let (shape, same) = normalize_intervals_lem xs in
    let (shape', same') = normalize_intervals_lem ys in
    (
      λ e b. sym (same b) ∙ ap (covered b) e ∙ same' b,
      λ h. IsSeparated-eq _ _ shape shape' (λ b. same b ∙ h b ∙ sym (same' b)),
    )

-- The union is the one interval [0, size), not empty, exactly when the bytes below `size` are
-- covered and no other byte is.
pub normalize_intervals-full_iff :
    (xs : List Interval) (size : ℕ)
    → 0 < size
    → (normalize_intervals xs ≡ (0, size) ∷ []) ↔ ((b : ℕ) → covered b xs ≡ ltb b size)
normalize_intervals-full_iff xs size h =
    let (shape, same) = normalize_intervals_lem xs in
    (
      λ e b. sym (same b) ∙ ap (covered b) e ∙ one b,
      λ full.
          IsSeparated-eq _ ((0, size) ∷ []) shape (h, tt, tt) (λ b. same b ∙ full b ∙ sym (one b)),
    )
  where
    one : (b : ℕ) → covered b ((0, size) ∷ []) ≡ ltb b size
    one b = unfold covered in ground arith
