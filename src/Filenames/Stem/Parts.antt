-- ===== src/Filenames/Stem/Parts.antt =====
-- What a text loses by trimming and cutting: the characters that are left are among its own, and
-- they are no more.
use fetch_now.Prelude.{
  ℕ, zero, suc, ◌+◌, ◌-◌, ◌≤◌, ◌≡◌, refl, Bool, true, List, [], ◌∷◌, ◌++◌, reverse, arith, leb,
  leb→le, and_true, if-holds, length, take, keep,
}
use mathlib.Core.List.{reverse_aux}
use fetch_now.Delivery.RangeParse.{all_of}
use fetch_now.Filenames.Utf8.{encode, encode_char}
use fetch_now.Filenames.Utf8.RoundTrip.{fitting}
use fetch_now.Filenames.Stem.{is_space_or_dot, lstrip_dots, rstrip_dots}

abbrev pub total : (ℕ → ℕ) → List ℕ → ℕ
total w [] = 0
total w (c ∷ s) = w c + total w s

pub record Part (s t : List ℕ) : Type 0 where
  pub keeps : (p : ℕ → Bool) → all_of p t ≡ true → all_of p s ≡ true
  pub shrinks : (w : ℕ → ℕ) → total w s ≤ total w t

pub Part-refl : (s : List ℕ) → Part s s
Part-refl s = record { keeps = λ p h. h; shrinks = λ w. omega arith }

pub Part-trans : {s t u : List ℕ} → Part s t → Part t u → Part s u
Part-trans a b = record {
  keeps = λ p h. a.keeps p (b.keeps p h);
  shrinks = λ w. let first = a.shrinks w in let second = b.shrinks w in omega arith;
}

Part-nil : (s : List ℕ) → Part [] s
Part-nil s = record { keeps = λ p h. refl; shrinks = λ w. omega arith }

Part-same : (c : ℕ) {s t : List ℕ} → Part s t → Part (c ∷ s) (c ∷ t)
Part-same c {s} {t} a = record {
  keeps = λ p h. let both = and_true (p c) (all_of p t) h in rw (both.0, a.keeps p both.1) refl;
  shrinks = λ w. let rest = a.shrinks w in omega arith;
}

Part-skip : (c : ℕ) {s t : List ℕ} → Part s t → Part s (c ∷ t)
Part-skip c {s} {t} a = record {
  keeps = λ p h. a.keeps p (and_true (p c) (all_of p t) h).1;
  shrinks = λ w. let rest = a.shrinks w in omega arith;
}

all_of-reverse_aux :
    (p : ℕ → Bool) (s r : List ℕ)
    → all_of p s ≡ true
    → all_of p r ≡ true
    → all_of p (reverse_aux s r) ≡ true
all_of-reverse_aux p [] r h k = k
all_of-reverse_aux p (c ∷ s) r h k =
    let both = and_true (p c) (all_of p s) h in
    all_of-reverse_aux p s (c ∷ r) both.1 (rw (both.0, k) refl)

total-reverse_aux : (w : ℕ → ℕ) (s r : List ℕ) → total w (reverse_aux s r) ≡ total w s + total w r
total-reverse_aux w [] r = omega arith
total-reverse_aux w (c ∷ s) r = let rest = total-reverse_aux w s (c ∷ r) in omega arith

reverse-Part : (s : List ℕ) → Part (reverse s) s
reverse-Part s = record {
  keeps = λ p h. all_of-reverse_aux p s [] h refl;
  shrinks = λ w. let same = total-reverse_aux w s [] in omega arith;
}

pub lstrip_dots-Part : (s : List ℕ) → Part (lstrip_dots s) s
unfolding lstrip_dots
lstrip_dots-Part [] = Part-nil []
lstrip_dots-Part (c ∷ s) =
    if-holds (λ r. Part r (c ∷ s)) (is_space_or_dot c) (λ trimmed. Part-skip c (lstrip_dots-Part s))
      (λ kept. Part-refl (c ∷ s))

pub rstrip_dots-Part : (s : List ℕ) → Part (rstrip_dots s) s
unfolding rstrip_dots
rstrip_dots-Part s =
    Part-trans (reverse-Part (lstrip_dots (reverse s)))
      (Part-trans (lstrip_dots-Part (reverse s)) (reverse-Part s))

pub take-Part : (n : ℕ) (s : List ℕ) → Part (take n s) s
take-Part zero s = Part-nil s
take-Part (suc n) [] = Part-nil []
take-Part (suc n) (c ∷ s) = Part-same c (take-Part n s)

pub keep-Part : (p : ℕ → Bool) (s : List ℕ) → Part (keep p s) s
keep-Part p [] = Part-nil []
keep-Part p (c ∷ s) =
    if-holds (λ r. Part r (c ∷ s)) (p c) (λ kept. Part-same c (keep-Part p s))
      (λ dropped. Part-skip c (keep-Part p s))

pub fitting-Part : (n : ℕ) (s : List ℕ) → Part (fitting n s) s
fitting-Part n [] = Part-nil []
fitting-Part n (c ∷ s) =
    if-holds (λ r. Part r (c ∷ s)) (leb (length (encode_char c)) n)
      (λ fits. Part-same c (fitting-Part (n - length (encode_char c)) s)) (λ full. Part-nil (c ∷ s))

abbrev pub char_bytes : ℕ → ℕ
char_bytes c = length (encode_char c)

pub length-total : (s : List ℕ) → length s ≡ total (λ c. 1) s
length-total [] = refl
length-total (c ∷ s) = let rest = length-total s in omega arith

length-append : (a b : List ℕ) → length (a ++ b) ≡ length a + length b
length-append [] b = omega arith
length-append (x ∷ a) b = let rest = length-append a b in omega arith

pub length-encode-total : (s : List ℕ) → length (encode s) ≡ total char_bytes s
unfolding encode
length-encode-total [] = refl
length-encode-total (c ∷ s) =
    let rest = length-encode-total s in
    let both = length-append (encode_char c) (encode s) in omega arith

pub total-take : (n : ℕ) (s : List ℕ) → total (λ c. 1) (take n s) ≤ n
total-take zero s = omega arith
total-take (suc n) [] = omega arith
total-take (suc n) (c ∷ s) = let rest = total-take n s in omega arith

pub total-fitting : (n : ℕ) (s : List ℕ) → total char_bytes (fitting n s) ≤ n
total-fitting n [] = omega arith
total-fitting n (c ∷ s) =
    if-holds (λ r. total char_bytes r ≤ n) (leb (char_bytes c) n)
      (λ fits.
        let room = leb→le (char_bytes c) n fits in
        let rest = total-fitting (n - char_bytes c) s in omega arith)
      (λ full. omega arith)
