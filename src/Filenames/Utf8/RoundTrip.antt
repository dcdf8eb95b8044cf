-- ===== src/Filenames/Utf8/RoundTrip.antt =====
-- Decoding what was encoded gives the text back, and decoding what was cut gives a part of it.
use fetch_now.Prelude.{
  ℕ, zero, suc, ◌-◌, ◌≤◌, ◌<◌, ◌≡◌, refl, ap, ◌∙◌, true, Option, none, some, List, [], ◌∷◌, ◌++◌,
  arith, leb, if◌then◌else◌, leb→le, and_true, if-holds, length, take,
}
use fetch_now.Filenames.Utf8.{
  found_or, lead, next, more, State, idle, encode_char, encode, emit, proceed, resume, prepend,
  decode_from, decode, decode_ignore_from, decode_ignore,
}
use fetch_now.Filenames.Utf8.Reads.{scalar, scalars, Reads, last, longer, encode_char-Reads}

decode_from-byte :
    (state : State) (b : ℕ) (s : List ℕ)
    → decode_from state (b ∷ s) ≡ proceed (next state b) (λ after. decode_from after s)
unfolding decode_from
decode_from-byte idle b s = refl
decode_from-byte (more left low high value) b s = refl

decode_from-Reads :
    {state : State} {bytes : List ℕ} {c : ℕ} (s : List ℕ)
    → Reads state bytes c
    → decode_from state (bytes ++ s) ≡ emit (some c) (decode_from idle s)
unfolding proceed emit
decode_from-Reads s (last {state} {b} e) =
    decode_from-byte state b s ∙ ap (λ r. proceed r (λ after. decode_from after s)) e
decode_from-Reads s (longer {state} {b} {s = rest} e d) =
    decode_from-byte state b (rest ++ s)
    ∙ ap (λ r. proceed r (λ after. decode_from after (rest ++ s))) e
    ∙ decode_from-Reads s d

-- A text of Unicode scalar values is read back from its UTF-8 bytes.
pub decode-encode : (s : List ℕ) → scalars s ≡ true → decode (encode s) ≡ some s
unfolding decode encode decode_from emit
decode-encode [] h = refl
decode-encode (c ∷ s) h =
    let both = and_true (scalar c) (scalars s) h in
    decode_from-Reads (encode s) (encode_char-Reads c both.0)
    ∙ ap (emit (some c)) (decode-encode s both.1)

resume-found :
    (state : State) (b : ℕ) (found : Option ℕ × State)
    → next state b ≡ some found
    → resume state b ≡ found
unfolding resume found_or
resume-found state b found e = ap (λ r. found_or r (found_or (lead b) (none, idle))) e

decode_ignore_from-Reads :
    {state : State} {bytes : List ℕ} {c : ℕ} (s : List ℕ)
    → Reads state bytes c
    → decode_ignore_from state (bytes ++ s) ≡ c ∷ decode_ignore_from idle s
unfolding decode_ignore_from prepend
decode_ignore_from-Reads {c} s (last {state} {b} e) =
    ap (λ r. prepend r.0 (decode_ignore_from r.1 s)) (resume-found state b (some c, idle) e)
decode_ignore_from-Reads s (longer {state} {after} {b} {s = rest} e d) =
    ap (λ r. prepend r.0 (decode_ignore_from r.1 (rest ++ s)))
      (resume-found state b (none, after) e)
    ∙ decode_ignore_from-Reads s d

-- A cut in the middle of a character leaves nothing of it.
decode_ignore_from-cut :
    {state : State} {bytes : List ℕ} {c : ℕ} (n : ℕ)
    → Reads state bytes c
    → n < length bytes
    → decode_ignore_from state (take n bytes) ≡ []
unfolding decode_ignore_from prepend
decode_ignore_from-cut zero d h = refl
decode_ignore_from-cut (suc n) (last e) h = ground arith
decode_ignore_from-cut (suc n) (longer {state} {after} {b} {s = rest} e d) h =
    ap (λ r. prepend r.0 (decode_ignore_from r.1 (take n rest)))
      (resume-found state b (none, after) e)
    ∙ decode_ignore_from-cut n d (omega arith)

-- The longest part of a text that fits in `n` bytes.
abbrev pub fitting : ℕ → List ℕ → List ℕ
fitting n [] = []
fitting n (c ∷ s) =
    let rest = fitting (n - length (encode_char c)) s in
    if leb (length (encode_char c)) n then c ∷ rest else []

fewer : (n k : ℕ) → n - k ≡ suc n - suc k
fewer n k = omega arith

take-whole : (a b : List ℕ) (n : ℕ) → length a ≤ n → take n (a ++ b) ≡ a ++ take (n - length a) b
take-whole [] b n h = ap (λ k. take k b) (omega arith)
take-whole (x ∷ a) b zero h = ground arith
take-whole (x ∷ a) b (suc n) h =
    ap (◌∷◌ x) (take-whole a b n (omega arith) ∙ ap (λ k. a ++ take k b) (fewer n (length a)))

take-part : (a b : List ℕ) (n : ℕ) → n < length a → take n (a ++ b) ≡ take n a
take-part [] b n h = ground arith
take-part (x ∷ a) b zero h = refl
take-part (x ∷ a) b (suc n) h = ap (◌∷◌ x) (take-part a b n (omega arith))

take-nil : (n : ℕ) → take {A = ℕ} n [] ≡ []
take-nil zero = refl
take-nil (suc n) = refl

-- What the decoder that drops errors makes of an encoded text cut after `n` bytes.
pub decode_ignore-take :
    (s : List ℕ) (n : ℕ) → scalars s ≡ true → decode_ignore (take n (encode s)) ≡ fitting n s
unfolding decode_ignore encode
decode_ignore-take [] n h = ap (decode_ignore_from idle) (take-nil n)
decode_ignore-take (c ∷ s) n h =
    let both = and_true (scalar c) (scalars s) h in
    let d = encode_char-Reads c both.0 in
    if-holds (λ r. decode_ignore_from idle (take n (encode_char c ++ encode s)) ≡ r)
      (leb (length (encode_char c)) n)
      (λ whole.
        ap (decode_ignore_from idle) (take-whole (encode_char c) (encode s) n (leb→le _ _ whole))
        ∙ decode_ignore_from-Reads _ d
        ∙ ap (◌∷◌ c) (decode_ignore-take s (n - length (encode_char c)) both.1))
      (λ part.
        ap (decode_ignore_from idle) (take-part (encode_char c) (encode s) n (ground arith))
        ∙ decode_ignore_from-cut n d (ground arith))
