-- ===== src/Delivery/Cookie.antt =====
-- The grant token in a Cookie header (backend/src/fetchnow/delivery/cookie_parse.py). The header is
-- the list of its code points, which the server decodes from Latin-1.
pub mod Unique
use fetch_now.Prelude.{
  ◌>>=◌, ◌>>◌, ℕ, ◌-◌, ◌/◌, String, Bool, true, false, not, ◌||◌, Option, none, some, List, [], ◌∷◌,
  reverse, ltb, ◌==◌, if◌then◌else◌, codes, has_code, length, Result, ok, err,
}
use fetch_now.Delivery.RangeParse.{strip}
use fetch_now.Payments.Signature.{same_text}
use fetch_now.Downloads.Errors.{
  DownloadError, download_error, DownloadErrorCode, download_job_not_found,
}

-- The reasons of a `CookieParseError`.
pub data CookieFault : Type 0 where
  cookie_missing cookie_header_too_long cookie_header_control : CookieFault
  cookie_duplicate cookie_value_length cookie_value_quoted : CookieFault

abbrev pub raise_if : Bool → CookieFault → Result CookieFault (Unit {0})
raise_if true e = err e
raise_if false e = ok tt

-- COOKIE_NAME
abbrev pub cookie_name : List ℕ
cookie_name = codes "__Secure-fetchnow_delivery"

abbrev pub onto_first : ℕ → List (List ℕ) → List (List ℕ)
onto_first c [] = (c ∷ []) ∷ []
onto_first c (s ∷ rest) = (c ∷ s) ∷ rest

-- `s.split(sep)`
unfoldable pub split_all : ℕ → List ℕ → List (List ℕ)
split_all sep [] = [] ∷ []
split_all sep (c ∷ s) =
    let rest = split_all sep s in if c == sep then [] ∷ rest else onto_first c rest

abbrev pub onto_head : ℕ → Option (List ℕ × List ℕ) → Option (List ℕ × List ℕ)
onto_head c none = none
onto_head c (some (a, b)) = some (c ∷ a, b)

-- `s.split(sep, 1)`, with none where `sep` is not in `s`.
unfoldable pub split_first : ℕ → List ℕ → Option (List ℕ × List ℕ)
split_first sep [] = none
split_first sep (c ∷ s) =
    let rest = split_first sep s in if c == sep then some ([], s) else onto_head c rest

abbrev pub value_if_named : Option (List ℕ × List ℕ) → Option (List ℕ)
value_if_named none = none
value_if_named (some (name, value)) =
    if same_text (strip name) cookie_name then some (strip value) else none

-- The value in a part of the header, where the loop does not pass over the part.
unfoldable pub grant_value : List ℕ → Option (List ℕ)
unfolding strip split_first
grant_value part = value_if_named (split_first b'=' (strip part))

abbrev pub starts_quoted : List ℕ → Bool
starts_quoted [] = false
starts_quoted (c ∷ s) = c == b'"'

unfoldable pub ends_quoted : List ℕ → Bool
ends_quoted s = starts_quoted (reverse s)

-- What the body of the loop does with a value and with what was found before it.
unfoldable pub consider : Option (List ℕ) → Option (List ℕ) → Result CookieFault (Option (List ℕ))
unfolding ends_quoted
consider found none = ok found
consider (some earlier) (some value) = err cookie_duplicate
consider none (some value) = do
  raise_if (length value == 0 || ltb 43 (length value)) cookie_value_length
  raise_if (starts_quoted value || ends_quoted value) cookie_value_quoted
  ok (some value)

-- The loop of `_extract` over the parts of the header.
unfoldable pub scan : Option (List ℕ) → List (List ℕ) → Result CookieFault (Option (List ℕ))
unfolding grant_value consider
scan found [] = ok found
scan found (part ∷ parts) = do after ← consider found (grant_value part); scan after parts

abbrev pub found_or_missing : Option (List ℕ) → Result CookieFault (List ℕ)
found_or_missing none = err cookie_missing
found_or_missing (some value) = ok value

-- A carriage return, line feed or null character.
unfoldable pub has_control : List ℕ → Bool
has_control header = has_code 13 header || has_code 10 header || has_code 0 header

-- `_extract`; `cookie_header` is none where the request has no Cookie header.
unfoldable pub extract : Option (List ℕ) → Result CookieFault (List ℕ)
unfolding has_control split_all scan
extract none = err cookie_missing
extract (some header) = do
  raise_if (ltb 4096 (length header)) cookie_header_too_long
  raise_if (has_control header) cookie_header_control
  found ← scan none (split_all b';' header)
  found_or_missing found

unfoldable pub cookie_reason : CookieFault → String
cookie_reason cookie_missing = "COOKIE_MISSING"
cookie_reason cookie_header_too_long = "COOKIE_HEADER_TOO_LONG"
cookie_reason cookie_header_control = "COOKIE_HEADER_CONTROL"
cookie_reason cookie_duplicate = "COOKIE_DUPLICATE"
cookie_reason cookie_value_length = "COOKIE_VALUE_LENGTH"
cookie_reason cookie_value_quoted = "COOKIE_VALUE_QUOTED"

abbrev pub cookie_fault : {A : Type 0} → Result CookieFault A → Result DownloadError A
cookie_fault (ok a) = ok a
cookie_fault (err e) = err (download_error download_job_not_found (cookie_reason e))

unfoldable pub extract_delivery_grant_token : Option (List ℕ) → Result DownloadError (List ℕ)
unfolding extract cookie_reason
extract_delivery_grant_token cookie_header = cookie_fault (extract cookie_header)
