-- ===== src/Filenames/Stem/Bounds.antt =====
-- A sanitized stem is short and holds no character that a header or a file system could misread.
use fetch_now.Prelude.{
  ℕ, ◌≤◌, ◌≡◌, refl, subst, inl, inr, Bool, true, false, not, ◌&&◌, ◌||◌, some, List, [], ◌∷◌,
  arith, ltb, leb, Bool-cases, and_true, if-holds, if-cases, length, take, keep,
}
use fetch_now.Delivery.RangeParse.{all_of}
use fetch_now.Filenames.Utf8.{encode}
use fetch_now.Filenames.Utf8.Reads.{scalar, scalars}
use fetch_now.Filenames.Utf8.RoundTrip.{fitting, decode_ignore-take}
use fetch_now.Filenames.Stem.{
  lstrip_dots, rstrip_dots, UnicodeData, is_bidi, is_forbidden, is_control, is_nameless,
  is_reserved, before_dot, limit_chars, limit_bytes, clean, collapse, collapsed_text, accept_stem,
  sanitize_stem,
}
use fetch_now.Filenames.Stem.Parts.{
  total, Part, Part-refl, Part-trans, lstrip_dots-Part, rstrip_dots-Part, take-Part, fitting-Part,
  char_bytes, length-total, length-encode-total, total-take, total-fitting,
}

abbrev pub code_point : ℕ → Bool
code_point c = ltb c 0x110000

abbrev pub is_surrogate : ℕ → Bool
is_surrogate c = leb 0xd800 c && leb c 0xdfff

-- What the code relies on: surrogates are of category Cs, and normalization makes code points.
pub record IsUnicode (unicode : UnicodeData) : Type 0 where
  pub surrogates : (c : ℕ) → is_surrogate c ≡ true → unicode.is_other c ≡ true
  pub in_range :
      (s : List ℕ) → all_of code_point s ≡ true → all_of code_point (unicode.normalize s) ≡ true

abbrev pub allowed : ℕ → Bool
allowed c = scalar c && not (is_bidi c) && not (is_forbidden c)

abbrev pub safe : ℕ → Bool
safe c = allowed c && not (is_control c)

pub record IsSafeStem (s : List ℕ) : Type 0 where
  pub named : is_nameless s ≡ false
  pub few_chars : length s ≤ 80
  pub few_bytes : length (encode s) ≤ 180
  pub all_safe : all_of safe s ≡ true

all_of-keep :
    (p q : ℕ → Bool) (s : List ℕ) → all_of p s ≡ true → all_of (λ c. p c && q c) (keep q s) ≡ true
all_of-keep p q [] h = refl
all_of-keep p q (c ∷ s) h =
    let both = and_true (p c) (all_of p s) h in
    if-holds (λ r. all_of (λ d. p d && q d) r ≡ true) (q c)
      (λ kept. rw (both.0, kept, all_of-keep p q s both.1) refl)
      (λ dropped. all_of-keep p q s both.1)

pub safe-scalars : (s : List ℕ) → all_of safe s ≡ true → scalars s ≡ true
safe-scalars [] h = refl
safe-scalars (c ∷ s) h =
    let both = and_true (safe c) (all_of safe s) h in
    rw
      (
        (and_true (scalar c) _ (and_true _ _ (and_true (allowed c) _ both.0).0).0).0,
        safe-scalars s both.1,
      )
      refl

some-injective : {a b : List ℕ} → some a ≡ some b → a ≡ b
some-injective h = cc

limit_chars-Part : (s : List ℕ) → Part (limit_chars s) s
unfolding limit_chars
limit_chars-Part s =
    if-holds (λ r. Part r s) (ltb 80 (length s))
      (λ long. Part-trans (rstrip_dots-Part (take 80 s)) (take-Part 80 s)) (λ short. Part-refl s)

length-limit_chars : (s : List ℕ) → total (λ c. 1) (limit_chars s) ≤ 80
unfolding limit_chars
length-limit_chars s =
    if-holds (λ r. total (λ c. 1) r ≤ 80) (ltb 80 (length s))
      (λ long.
        let trimmed = (rstrip_dots-Part (take 80 s)).shrinks (λ c. 1) in
        let cut = total-take 80 s in omega arith)
      (λ short. let same = length-total s in ground arith)

-- What a text is after the limit on its bytes.
record Limited (s r : List ℕ) : Type 0 where
  part : Part r s
  bytes : total char_bytes r ≤ 180

limit_bytes-Limited : (s : List ℕ) → scalars s ≡ true → Limited s (limit_bytes s)
unfolding limit_bytes
limit_bytes-Limited s h =
    if-holds (Limited s) (ltb 180 (length (encode s)))
      (λ long. rw (decode_ignore-take s 180 h) (record {
        part = Part-trans (rstrip_dots-Part (fitting 180 s)) (fitting-Part 180 s);
        bytes =
            let trimmed = (rstrip_dots-Part (fitting 180 s)).shrinks char_bytes in
            let cut = total-fitting 180 s in omega arith;
      }))
      (λ short. record {
        part = Part-refl s;
        bytes = let same = length-encode-total s in ground arith;
      })

all_three : (a b d : Bool) → a ≡ true → (b || d) ≡ false → (a && not b && not d) ≡ true
all_three a b d h k = ground arith

scalar_of : (c : ℕ) → code_point c ≡ true → is_surrogate c ≡ false → scalar c ≡ true
scalar_of c h k = ground arith

module _ (unicode : UnicodeData) where
  not_surrogate : IsUnicode unicode → (c : ℕ) → unicode.is_other c ≡ false → is_surrogate c ≡ false
  not_surrogate facts c assigned = elim (Bool-cases (is_surrogate c)) [
    | inl e ↦ ground (arith, facts.surrogates c e)
    | inr e ↦ e
  ]

  allowed-char :
      IsUnicode unicode
      → (c : ℕ) → code_point c ≡ true
      → (is_bidi c || is_forbidden c) ≡ false
      → unicode.is_other c ≡ false
      → allowed c ≡ true
  allowed-char facts c below good assigned =
      all_three (scalar c) (is_bidi c) (is_forbidden c)
        (scalar_of c below (not_surrogate facts c assigned)) good

  all_of-clean :
      IsUnicode unicode
      → (s : List ℕ) → all_of code_point s ≡ true
      → all_of allowed (clean unicode s) ≡ true
  unfolding clean
  all_of-clean facts [] h = refl
  all_of-clean facts (c ∷ s) h =
      let both = and_true (code_point c) (all_of code_point s) h in
      let rest = all_of-clean facts s both.1 in
      if-holds (λ r. all_of allowed r ≡ true) (is_bidi c || is_forbidden c) (λ bad. rest)
        (λ good.
          if-holds (λ r. all_of allowed r ≡ true) (unicode.is_other c) (λ other. rest)
            (λ assigned.
              if-holds (λ r. all_of allowed r ≡ true) (unicode.is_white c) (λ white. rest)
                (λ plain. rw (allowed-char facts c both.0 good assigned, rest) refl)))

  all_of-collapse :
      (p : ℕ → Bool)
      → p b' ' ≡ true
      → (after_white : Bool) (s : List ℕ) → all_of p s ≡ true
      → all_of p (collapse unicode after_white s) ≡ true
  unfolding collapse
  all_of-collapse p space after_white [] h = refl
  all_of-collapse p space after_white (c ∷ s) h =
      let both = and_true (p c) (all_of p s) h in
      let rest = all_of-collapse p space (unicode.is_white c) s both.1 in
      if-holds (λ r. all_of p r ≡ true) (unicode.is_white c)
        (λ white.
          if-holds (λ r. all_of p r ≡ true) after_white (λ again. rest)
            (λ first. rw (space, rest) refl))
        (λ plain. rw (both.0, rest) refl)

  collapsed_text-safe :
      IsUnicode unicode
      → (raw : List ℕ) → all_of code_point raw ≡ true
      → all_of safe (collapsed_text unicode raw) ≡ true
  unfolding collapsed_text
  collapsed_text-safe facts raw h =
      let cleaned = clean unicode (unicode.normalize raw) in
      let spaced = collapse unicode false cleaned in
      let left = lstrip_dots spaced in
      let fine = all_of-clean facts (unicode.normalize raw) (facts.in_range raw h) in
      let one_space = all_of-collapse allowed refl false cleaned fine in
      let trimmed = (lstrip_dots-Part spaced).keeps allowed one_space in
      all_of-keep allowed (λ c. not (is_control c)) (rstrip_dots left)
        ((rstrip_dots-Part left).keeps allowed trimmed)

  accept_stem-eq :
      (s r : List ℕ) → accept_stem unicode s ≡ some r → (is_nameless s ≡ false) × (s ≡ r)
  unfolding accept_stem
  accept_stem-eq s r h = elim (if-cases (is_nameless s) _ _ h) [
    | inl (nameless, e) ↦ cc
    | inr (named, e) ↦ elim (if-cases (is_reserved (unicode.upper s)) _ _ e) [
      | inl (reserved, f) ↦ cc
      | inr (free, f) ↦ (named, some-injective f)
    ]
  ]

  limited-IsSafeStem :
      (s r : List ℕ)
      → all_of safe s ≡ true
      → accept_stem unicode (limit_bytes (limit_chars s)) ≡ some r
      → IsSafeStem r
  limited-IsSafeStem s r h accepted =
      let chars = limit_chars-Part s in
      let few = length-limit_chars s in
      let fine = chars.keeps safe h in
      let limited = limit_bytes-Limited (limit_chars s) (safe-scalars (limit_chars s) fine) in
      let fewer = limited.part.shrinks (λ c. 1) in
      let parts = accept_stem-eq (limit_bytes (limit_chars s)) r accepted in
      let count = length-total (limit_bytes (limit_chars s)) in
      let bytes = length-encode-total (limit_bytes (limit_chars s)) in
      let within = limited.bytes in
      subst IsSafeStem parts.1 (record {
        named = parts.0;
        few_chars = omega arith;
        few_bytes = omega arith;
        all_safe = limited.part.keeps safe fine;
      })

-- A stem that `_sanitize_stem` returns for a text of code points has a name of at most 80 characters
-- and 180 bytes of UTF-8, and holds no surrogate, no bidirectional control, no control character and
-- none of `\\ / : * ? " < > |`.
pub sanitize_stem-IsSafeStem :
    (unicode : UnicodeData)
    → IsUnicode unicode
    → (raw stem : List ℕ) → all_of code_point raw ≡ true
    → sanitize_stem unicode (some raw) ≡ some stem
    → IsSafeStem stem
unfolding sanitize_stem
sanitize_stem-IsSafeStem unicode facts raw stem h returned =
    elim (if-cases (is_nameless (collapsed_text unicode raw)) _ _ returned) [
      | inl (nameless, e) ↦ cc
      | inr (named, e) ↦
          elim (if-cases (is_reserved (unicode.upper (before_dot (collapsed_text unicode raw)))) _ _
            e) [
              | inl (reserved, f) ↦ cc
              | inr (free, f) ↦
                  limited-IsSafeStem unicode (collapsed_text unicode raw) stem
                    (collapsed_text-safe unicode facts raw h) f
            ]
    ]
