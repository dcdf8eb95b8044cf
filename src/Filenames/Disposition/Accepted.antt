-- ===== src/Filenames/Disposition/Accepted.antt =====
-- The names for which the Content-Disposition header is built.
use fetch_now.Prelude.{
  ℕ, ◌≡◌, refl, inl, inr, Bool, true, false, not, ◌&&◌, List, [], ◌∷◌, arith, Bool-cases, and_true,
  any, ok,
}
use fetch_now.Delivery.RangeParse.{all_of}
use fetch_now.Filenames.Utf8.Reads.{scalar, scalars}
use fetch_now.Filenames.Disposition.{
  breaks_quotes, token_char, is_ascii_token, ascii_filename_parameter, is_line_break, header_text,
  content_disposition_header,
}
use fetch_now.Filenames.Disposition.Safety.{printable, header_text-printable}

token_char-breaks : (c : ℕ) → token_char c ≡ true → breaks_quotes c ≡ false
unfolding token_char
token_char-breaks c h = ground arith

printable-break : (c : ℕ) → printable c ≡ true → is_line_break c ≡ false
unfolding is_line_break
printable-break c h = ground arith

token-any : (s : List ℕ) → all_of token_char s ≡ true → any breaks_quotes s ≡ false
unfolding token_char
token-any [] h = refl
token-any (c ∷ s) h =
    let both = and_true (token_char c) (all_of token_char s) h in
    rw (token_char-breaks c both.0, token-any s both.1) refl

printable-any : (s : List ℕ) → all_of printable s ≡ true → any is_line_break s ≡ false
printable-any [] h = refl
printable-any (c ∷ s) h =
    let both = and_true (printable c) (all_of printable s) h in
    rw (printable-break c both.0, printable-any s both.1) refl

-- A name that the header accepts.
abbrev pub fine : ℕ → Bool
fine c = scalar c && not (is_line_break c)

fine-break : (c : ℕ) → fine c ≡ true → is_line_break c ≡ false
fine-break c h = ground arith

fine-scalars : (s : List ℕ) → all_of fine s ≡ true → scalars s ≡ true
fine-scalars [] h = refl
fine-scalars (c ∷ s) h =
    let both = and_true (fine c) (all_of fine s) h in
    rw ((and_true (scalar c) _ both.0).0, fine-scalars s both.1) refl

fine-any : (s : List ℕ) → all_of fine s ≡ true → any is_line_break s ≡ false
fine-any [] h = refl
fine-any (c ∷ s) h =
    let both = and_true (fine c) (all_of fine s) h in
    rw (fine-break c both.0, fine-any s both.1) refl

ascii_filename_parameter-cases :
    (name fallback : List ℕ)
    → is_ascii_token fallback ≡ true
    → (ascii : List ℕ) × (ascii_filename_parameter name fallback ≡ ok ascii)
      × (all_of token_char ascii ≡ true)
unfolding ascii_filename_parameter is_ascii_token
ascii_filename_parameter-cases name fallback h = elim (Bool-cases (is_ascii_token name)) [
  | inl token ↦ (name, rw (token) refl, (and_true _ (all_of token_char name) token).1)
  | inr other ↦ (fallback, rw (other, h) refl, (and_true _ (all_of token_char fallback) h).1)
]

pub content_disposition_header-fine :
    (name fallback : List ℕ)
    → all_of fine name ≡ true
    → is_ascii_token fallback ≡ true
    → (ascii : List ℕ) × (content_disposition_header name fallback ≡ ok (header_text ascii name))
unfolding content_disposition_header
content_disposition_header-fine name fallback h token =
    let (ascii, chosen, chars) = ascii_filename_parameter-cases name fallback token in
    let shown = header_text-printable ascii name chars (fine-scalars name h) in
    (
      ascii,
      rw
          (
            chosen,
            token-any ascii chars,
            fine-any name h,
            printable-any (header_text ascii name) shown,
          )
          refl,
    )
