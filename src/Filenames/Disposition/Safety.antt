-- ===== src/Filenames/Disposition/Safety.antt =====
-- The Content-Disposition header holds printable ASCII characters only, whatever the name is.
use fetch_now.Prelude.{
  ◌++◌, ℕ, ◌/◌, ◌%◌, ◌<◌, ◌≡◌, refl, sym, subst, inl, inr, Bool, true, not, ◌&&◌, List, [], ◌∷◌,
  arith, ltb, leb, ltb→lt, Bool-cases, and_true, not-false, if-holds, if-cases, codes, any,
  >>=-eq-ok, >>-eq-ok, ok-injective, ok,
}
use fetch_now.Delivery.RangeParse.{all_of}
use fetch_now.Filenames.Utf8.{encode}
use fetch_now.Filenames.Utf8.Reads.{scalars}
use fetch_now.Filenames.Rfc8187.{
  is_attr_char, hex_digit, encode_byte, escape, encode_rfc8187, charset_prefix,
}
use fetch_now.Filenames.Rfc8187.RoundTrip.{encode-bytes}
use fetch_now.Texts.{is_byte, all_of-append}
use fetch_now.Filenames.Disposition.{
  unsafe_ascii_filename, unsafe_unicode_filename, header_injection, raise_if, breaks_quotes,
  token_char, is_ascii_token, ascii_filename_parameter, is_line_break, header_text,
  content_disposition_header,
}

abbrev pub printable : ℕ → Bool
printable c = leb 32 c && leb c 126

hex_digit-printable : (n : ℕ) → n < 16 → printable (hex_digit n) ≡ true
unfolding hex_digit
hex_digit-printable n h = elim (Bool-cases (ltb n 10)) [
  | inl e ↦ rw (e) (ground arith)
  | inr e ↦ rw (e) (ground arith)
]

attr-printable : (c : ℕ) → is_attr_char c ≡ true → printable c ≡ true
unfolding is_attr_char
attr-printable c h = ground arith

encode_byte-printable : (b : ℕ) → b < 256 → all_of printable (encode_byte b) ≡ true
unfolding encode_byte
encode_byte-printable b h =
    if-holds (λ e. all_of printable e ≡ true) (is_attr_char b)
      (λ attr. rw (attr-printable b attr) refl)
      (λ other.
        rw (hex_digit-printable (b / 16) (omega arith), hex_digit-printable (b % 16) (omega arith))
          refl)

escape-printable : (s : List ℕ) → all_of is_byte s ≡ true → all_of printable (escape s) ≡ true
unfolding escape
escape-printable [] h = refl
escape-printable (b ∷ s) h =
    let both = and_true (is_byte b) (all_of is_byte s) h in
    all_of-append printable (encode_byte b) (escape s)
      (encode_byte-printable b (ltb→lt b 256 both.0)) (escape-printable s both.1)

token_char-printable : (c : ℕ) → token_char c ≡ true → printable c ≡ true
unfolding token_char
token_char-printable c h = ground arith

token-printable : (s : List ℕ) → all_of token_char s ≡ true → all_of printable s ≡ true
unfolding token_char
token-printable [] h = refl
token-printable (c ∷ s) h =
    let both = and_true (token_char c) (all_of token_char s) h in
    rw (token_char-printable c both.0, token-printable s both.1) refl

is_ascii_token-chars : (s : List ℕ) → is_ascii_token s ≡ true → all_of token_char s ≡ true
unfolding is_ascii_token
is_ascii_token-chars s h = (and_true _ (all_of token_char s) h).1

ascii_filename_parameter-token :
    (name fallback ascii : List ℕ)
    → ascii_filename_parameter name fallback ≡ ok ascii
    → all_of token_char ascii ≡ true
unfolding ascii_filename_parameter
ascii_filename_parameter-token name fallback ascii h = elim (if-cases (is_ascii_token name) _ _ h) [
  | inl (token, e) ↦
      subst (λ s. all_of token_char s ≡ true) (ok-injective e) (is_ascii_token-chars name token)
  | inr (other, e) ↦ elim (if-cases (not (is_ascii_token fallback)) _ _ e) [
    | inl (bad, f) ↦ cc
    | inr (token, f) ↦
        subst (λ s. all_of token_char s ≡ true) (ok-injective f)
          (is_ascii_token-chars fallback (not-false (is_ascii_token fallback) token))
  ]
]

pub header_text-printable :
    (ascii name : List ℕ)
    → all_of token_char ascii ≡ true
    → scalars name ≡ true
    → all_of printable (header_text ascii name) ≡ true
unfolding header_text encode_rfc8187
header_text-printable ascii name h k =
    let value = escape (encode name) in
    all_of-append printable ascii (codes "\"; filename*=" ++ charset_prefix ++ value)
      (token-printable ascii h) (escape-printable (encode name) (encode-bytes name k))

-- A Content-Disposition header that is built for a name of Unicode scalar values holds printable
-- ASCII characters only, so no line break and no null character, and it is the text of the name and
-- of an ASCII name without quotes and backslashes.
pub content_disposition_header-IsHeader :
    (filename fallback header : List ℕ)
    → scalars filename ≡ true
    → content_disposition_header filename fallback ≡ ok header
    → (all_of printable header ≡ true)
      × (ascii : List ℕ) × (all_of token_char ascii ≡ true)
      × (header ≡ header_text ascii filename)
unfolding content_disposition_header
content_disposition_header-IsHeader filename fallback header h built =
    let (ascii, chosen, rest) = >>=-eq-ok (ascii_filename_parameter filename fallback) _ built in
    let token = ascii_filename_parameter-token filename fallback ascii chosen in
    let same = ok-injective (
      >>-eq-ok (raise_if (any is_line_break (header_text ascii filename)) header_injection) _ (
        >>-eq-ok (raise_if (any is_line_break filename) unsafe_unicode_filename) _
          (>>-eq-ok (raise_if (any breaks_quotes ascii) unsafe_ascii_filename) _ rest))) in
    (
      subst (λ s. all_of printable s ≡ true) same (header_text-printable ascii filename token h),
      ascii,
      token,
      sym same,
    )
