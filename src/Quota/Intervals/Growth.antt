-- ===== src/Quota/Intervals/Growth.antt =====
-- The number of fragments when intervals grow at their ends.
use fetch_now.Prelude.{
  ◌∙◌, sym, ℕ, zero, suc, ◌≤◌, ◌<◌, ◌≡◌, refl, ap, ◌⊎◌, inl, inr, Bool, true, false, List, [], ◌∷◌,
  Memᴰ, arith, Bool-cases, length, All,
}
use fetch_now.Quota.Intervals.Union.{
  Interval, covered, Beyond, IsSeparated, normalize_intervals, normalize_intervals_lem,
}
use fetch_now.Quota.Intervals.Canonical.{covered-Beyond, covered_in, covered_before, covered-nil}

-- Strictly increasing, from `lo` on.
abbrev Rising : ℕ → List ℕ → Type 0
Rising lo [] = Unit
Rising lo (x ∷ xs) = (lo ≤ x) × Rising (suc x) xs

Rising-from : (lo : ℕ) (xs : List ℕ) {x : ℕ} → Rising lo xs → Memᴰ x xs → lo ≤ x
Rising-from lo [] h m = elim m [ ]
Rising-from lo (y ∷ ys) h (Memᴰ.head e) = omega arith
Rising-from lo (y ∷ ys) h (Memᴰ.tail m) = omega (arith, Rising-from (suc y) ys h.1 m)

head_or_tail : {x y : ℕ} {ys : List ℕ} → Memᴰ x (y ∷ ys) → (x ≡ y) ⊎ Memᴰ x ys
head_or_tail (Memᴰ.head e) = inl e
head_or_tail (Memᴰ.tail m) = inr m

-- A rising list inside another is no longer.
Rising-length :
    (lo lo' : ℕ) (xs ys : List ℕ)
    → Rising lo xs
    → Rising lo' ys
    → ((x : ℕ) → Memᴰ x xs → Memᴰ x ys)
    → length xs ≤ length ys
Rising-length lo lo' [] ys h k sub = omega arith
Rising-length lo lo' (x ∷ xs) [] h k sub = elim (sub x (Memᴰ.head refl)) [ ]
Rising-length lo lo' (x ∷ xs) (y ∷ ys) h k sub = omega (
  arith,
  Rising-length (suc x) (suc y) xs ys h.1 k.1
      (λ z m. later z (Rising-from (suc x) xs h.1 m) (head_or_tail (sub z (Memᴰ.tail m)))),
)
  where
    at_least : (x ≡ y) ⊎ Memᴰ x ys → y ≤ x
    at_least (inl e) = omega arith
    at_least (inr m) = omega (arith, Rising-from (suc y) ys k.1 m)

    later : (z : ℕ) → x < z → (z ≡ y) ⊎ Memᴰ z ys → Memᴰ z ys
    later z l (inl e) = absurd (omega (arith, at_least (head_or_tail (sub x (Memᴰ.head refl)))))
    later z l (inr m) = m

starts : List Interval → List ℕ
starts [] = []
starts ((s, e) ∷ xs) = s ∷ starts xs

length-starts : (xs : List Interval) → length (starts xs) ≡ length xs
unfolding starts
length-starts [] = refl
length-starts ((s, e) ∷ xs) = ap suc (length-starts xs)

closer : (s f : ℕ) (xs : List Interval) → s ≤ f → Beyond f xs → Beyond s xs
closer s f [] h b = tt
closer s f ((r, g) ∷ xs) h b = omega arith

Rising-starts :
    (e : ℕ) (xs : List Interval) → Beyond e xs → IsSeparated xs → Rising (suc e) (starts xs)
unfolding starts
Rising-starts e [] h k = tt
Rising-starts e ((s, f) ∷ xs) h k = (h, Rising-starts s xs (closer s f xs (omega arith) k.1) k.2)

Rising-starts_all : (xs : List Interval) → IsSeparated xs → Rising 0 (starts xs)
unfolding starts
Rising-starts_all [] k = tt
Rising-starts_all ((s, f) ∷ xs) k =
    (omega arith, Rising-starts s xs (closer s f xs (omega arith) k.1) k.2)

-- Whether the byte before is covered; there is none before byte 0.
prior : ℕ → List Interval → Bool
prior zero xs = false
prior (suc b) xs = covered b xs

-- A byte begins a fragment: it is covered, and the byte before it is not.
abbrev Begins : ℕ → List Interval → Type 0
Begins b xs = (covered b xs ≡ true) × (prior b xs ≡ false)

covered-cons :
    (b s e : ℕ) (xs : List Interval)
    → covered b ((s, e) ∷ xs) ≡ true
    → (s ≤ b) × (b < e) ⊎ (covered b xs ≡ true)
unfolding covered
covered-cons b s e xs h = ground arith

covered-tail :
    (b s e : ℕ) (xs : List Interval) → covered b xs ≡ true → covered b ((s, e) ∷ xs) ≡ true
unfolding covered
covered-tail b s e xs h = ground arith

-- In the first member, only its first byte begins a fragment.
begins_first :
    (b s e : ℕ) (xs : List Interval) → s ≤ b → b < e → prior b ((s, e) ∷ xs) ≡ false → b ≡ s
unfolding prior
begins_first zero s e xs h k p = omega arith
begins_first (suc b) s e xs h k p = ground (arith, covered_in b s e xs)

prior-tail : (b s e : ℕ) (xs : List Interval) → prior b ((s, e) ∷ xs) ≡ false → prior b xs ≡ false
unfolding prior
prior-tail zero s e xs p = refl
prior-tail (suc b) s e xs p = elim (Bool-cases (covered b xs)) [
  | inl c ↦ cc (covered-tail b s e xs c)
  | inr c ↦ c
]

prior-first :
    (s e : ℕ) (xs : List Interval) → IsSeparated ((s, e) ∷ xs) → prior s ((s, e) ∷ xs) ≡ false
unfolding prior
prior-first zero e xs h = refl
prior-first (suc s) e xs h = covered_before s (suc s) e xs h (omega arith)

prior-later :
    (b s e : ℕ) (xs : List Interval) → e < b → prior b xs ≡ false → prior b ((s, e) ∷ xs) ≡ false
unfolding prior covered
prior-later zero s e xs h p = absurd (omega arith)
prior-later (suc b) s e xs h p = rw p (ground arith)

Begins-starts : (b : ℕ) (xs : List Interval) → IsSeparated xs → Begins b xs → Memᴰ b (starts xs)
unfolding starts
Begins-starts b [] h k = cc (covered-nil b)
Begins-starts b ((s, e) ∷ xs) h k = elim (covered-cons b s e xs k.0) [
  | inl (low, high) ↦ Memᴰ.head (begins_first b s e xs low high k.1)
  | inr c ↦ Memᴰ.tail (Begins-starts b xs h.2 (c, prior-tail b s e xs k.1))
]

starts-Begins : (b : ℕ) (xs : List Interval) → IsSeparated xs → Memᴰ b (starts xs) → Begins b xs
unfolding starts
starts-Begins b [] h m = elim m [ ]
starts-Begins b ((s, e) ∷ xs) h (Memᴰ.head p) =
    rw p (covered_in s s e xs (omega arith) h.0, prior-first s e xs h)
starts-Begins b ((s, e) ∷ xs) h (Memᴰ.tail m) =
    let (c, p) = starts-Begins b xs h.2 m in
    (covered-tail b s e xs c, prior-later b s e xs (covered-Beyond e b xs h.1 h.2 c) p)

-- If every fragment of `ys` begins where one of `xs` begins, `ys` has no more fragments.
fragments-le :
    (xs ys : List Interval)
    → IsSeparated xs
    → IsSeparated ys
    → ((b : ℕ) → Begins b ys → Begins b xs)
    → length ys ≤ length xs
fragments-le xs ys h k sub = omega (
  arith,
  length-starts xs,
  length-starts ys,
  Rising-length 0 0 (starts ys) (starts xs) (Rising-starts_all ys k) (Rising-starts_all xs h)
      (λ b m. Begins-starts b xs h (sub b (starts-Begins b ys k m))),
)

-- An interval whose end moves: its start, its end before and its end after.
pub record Growing : Type 0 where
  pub start : ℕ
  pub before : ℕ
  pub after : ℕ

abbrev pub Grows : Growing → Type 0
Grows g = (g.start < g.before) × (g.before ≤ g.after)

abbrev pub at_first : List Growing → List Interval
at_first [] = []
at_first (g ∷ gs) = (g.start, g.before) ∷ at_first gs

abbrev pub at_last : List Growing → List Interval
at_last [] = []
at_last (g ∷ gs) = (g.start, g.after) ∷ at_last gs

covered-grown :
    (b : ℕ) (gs : List Growing)
    → All Grows gs
    → covered b (at_first gs) ≡ true
    → covered b (at_last gs) ≡ true
unfolding covered
covered-grown b [] h c = c
covered-grown b (g ∷ gs) h c = ground (arith, covered-grown b gs h.1)

-- Where growth adds a byte, the byte before it is covered too: no new fragment begins.
Begins-before :
    (b : ℕ) (gs : List Growing)
    → All Grows gs
    → Begins b (at_last gs)
    → covered b (at_first gs) ≡ true
Begins-before b [] h k = k.0
Begins-before b (g ∷ gs) h k = elim (covered-cons b g.start g.after (at_last gs) k.0) [
  | inl (low, high) ↦
      let e : b ≡ g.start = begins_first b g.start g.after (at_last gs) low high k.1 in
      covered_in b g.start g.before (at_first gs) low (omega arith)
  | inr c ↦
      covered-tail b g.start g.before (at_first gs)
        (Begins-before b gs h.1 (c, prior-tail b g.start g.after (at_last gs) k.1))
]

prior-grown :
    (b : ℕ) (gs : List Growing)
    → All Grows gs
    → prior b (at_last gs) ≡ false
    → prior b (at_first gs) ≡ false
unfolding prior
prior-grown zero gs h p = refl
prior-grown (suc b) gs h p = elim (Bool-cases (covered b (at_first gs))) [
  | inl c ↦ cc (covered-grown b gs h c)
  | inr c ↦ c
]

prior-same :
    (b : ℕ) (xs ys : List Interval)
    → ((c : ℕ) → covered c xs ≡ covered c ys)
    → prior b xs ≡ prior b ys
unfolding prior
prior-same zero xs ys h = refl
prior-same (suc b) xs ys h = h b

-- The fragments of a set of intervals are at most as many after the ends of intervals have moved
-- up as they were before; every interval has a byte before and after.
pub normalize_intervals-grown :
    (gs : List Growing)
    → All Grows gs
    → length (normalize_intervals (at_last gs)) ≤ length (normalize_intervals (at_first gs))
normalize_intervals-grown gs h =
    let (shape, same) = normalize_intervals_lem (at_first gs) in
    let (shape', same') = normalize_intervals_lem (at_last gs) in
    fragments-le _ _ shape shape' λ b (c, p).
      let last : Begins b (at_last gs) = (sym (same' b) ∙ c, sym (prior-same b _ _ same') ∙ p) in
      (same b ∙ Begins-before b gs h last, prior-same b _ _ same ∙ prior-grown b gs h last.1)
