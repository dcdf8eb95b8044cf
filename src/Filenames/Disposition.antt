-- ===== src/Filenames/Disposition.antt =====
-- `ascii_filename_parameter` and `content_disposition_header`
-- (backend/src/fetchnow/downloads/filename.py). The names hold Unicode scalar values: `encode` raises
-- a UnicodeEncodeError for any other.
pub mod Safety
pub mod Accepted
pub mod Suggested
use fetch_now.Prelude.{
  ◌>>=◌, ◌>>◌, ℕ, ◌+◌, ◌-◌, ◌*◌, ◌/◌, Bool, true, false, not, ◌&&◌, ◌||◌, List, ◌++◌, ltb, leb,
  ◌==◌, if◌then◌else◌, codes, length, any, Result, ok, err,
}
use fetch_now.Delivery.RangeParse.{all_of}
use fetch_now.Filenames.Rfc8187.{encode_rfc8187}

-- The ValueErrors of the module.
pub data HeaderError : Type 0 where
  unsafe_ascii_fallback unsafe_ascii_filename unsafe_unicode_filename header_injection : HeaderError

abbrev pub raise_if : Bool → HeaderError → Result HeaderError (Unit {0})
raise_if true e = err e
raise_if false e = ok tt

-- A character that `"\\\r\n` names: quote, backslash, carriage return or line feed.
unfoldable pub breaks_quotes : ℕ → Bool
breaks_quotes c = c == b'"' || c == 0x5c || c == 13 || c == 10

unfoldable pub token_char : ℕ → Bool
unfolding breaks_quotes
token_char c = leb 32 c && leb c 126 && not (breaks_quotes c)

-- `_is_ascii_token`
unfoldable pub is_ascii_token : List ℕ → Bool
unfolding token_char
is_ascii_token value =
    not (length value == 0 || not (all_of (λ c. ltb c 128) value)) && all_of token_char value

unfoldable pub ascii_filename_parameter : List ℕ → List ℕ → Result HeaderError (List ℕ)
unfolding is_ascii_token
ascii_filename_parameter name fallback =
    if is_ascii_token name
    then ok name
    else if not (is_ascii_token fallback)
    then err unsafe_ascii_fallback
    else ok fallback

-- Carriage return, line feed or the null character.
unfoldable pub is_line_break : ℕ → Bool
is_line_break c = c == 13 || c == 10 || c == 0

unfoldable pub header_text : List ℕ → List ℕ → List ℕ
unfolding encode_rfc8187
header_text ascii_name filename =
    codes "attachment; filename=\""
    ++ (ascii_name ++ (codes "\"; filename*=" ++ encode_rfc8187 filename))

unfoldable pub content_disposition_header : List ℕ → List ℕ → Result HeaderError (List ℕ)
unfolding ascii_filename_parameter breaks_quotes is_line_break header_text
content_disposition_header filename ascii_fallback = do
  ascii_name ← ascii_filename_parameter filename ascii_fallback
  raise_if (any breaks_quotes ascii_name) unsafe_ascii_filename
  raise_if (any is_line_break filename) unsafe_unicode_filename
  raise_if (any is_line_break (header_text ascii_name filename)) header_injection
  ok (header_text ascii_name filename)
