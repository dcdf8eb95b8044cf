-- ===== src/Tokens.antt =====
-- The tokens of clients: `parse_access_token` (backend/src/fetchnow/jobs/credentials.py) and
-- `parse_grant_token` (backend/src/fetchnow/downloads/browser_grant_tokens.py), with the base64url
-- codec of Python's library on which both stand. A token is the list of its code points.
pub mod Canonical
pub mod Hashes
use fetch_now.Prelude.{
  ◌>>=◌, ◌>>◌, ℕ, ◌+◌, ◌-◌, ◌*◌, ◌/◌, ◌%◌, Bool, true, false, not, ◌&&◌, ◌||◌, Option, none, some,
  List, [], ◌∷◌, ltb, leb, ◌==◌, if◌then◌else◌, codes, length, Result, ok, err,
}
use fetch_now.Delivery.RangeParse.{all_of}
use fetch_now.Payments.Signature.{same_text}

-- The character of six bits.
unfoldable pub symbol : ℕ → ℕ
symbol n =
    if ltb n 26
    then b'A' + n
    else if ltb n 52
    then b'a' + (n - 26)
    else if ltb n 62
    then b'0' + (n - 52)
    else if n == 62
    then b'-'
    else b'_'

-- The class `[A-Za-z0-9_-]`
unfoldable pub is_symbol : ℕ → Bool
is_symbol c =
    leb b'A' c && leb c b'Z'
    || leb b'a' c && leb c b'z'
    || leb b'0' c && leb c b'9'
    || c == b'_'
    || c == b'-'

unfoldable pub six_bits : ℕ → ℕ
six_bits c =
    if leb b'a' c
    then c - b'a' + 26
    else if c == b'_'
    then 63
    else if leb b'A' c
    then c - b'A'
    else if leb b'0' c
    then c - b'0' + 52
    else 62

-- `base64.urlsafe_b64encode(raw).decode("ascii").rstrip("=")`
unfoldable pub base64 : List ℕ → List ℕ
unfolding symbol
base64 [] = []
base64 (a ∷ []) = symbol (a / 4) ∷ symbol (a % 4 * 16) ∷ []
base64 (a ∷ b ∷ []) = symbol (a / 4) ∷ symbol (a % 4 * 16 + b / 16) ∷ symbol (b % 16 * 4) ∷ []
base64 (a ∷ b ∷ c ∷ s) =
    symbol (a / 4)
    ∷ symbol (a % 4 * 16 + b / 16)
    ∷ symbol (b % 16 * 4 + c / 64)
    ∷ symbol (c % 64)
    ∷ base64 s

-- The bytes of four characters.
abbrev pub three_bytes : ℕ → ℕ → ℕ → ℕ → List ℕ → List ℕ
three_bytes w x y z rest = (w * 4 + x / 16) ∷ (x % 16 * 16 + y / 4) ∷ (y % 4 * 64 + z) ∷ rest

unfoldable pub prefixed : (List ℕ → List ℕ) → Option (List ℕ) → Option (List ℕ)
prefixed f none = none
prefixed f (some s) = some (f s)

-- `base64.urlsafe_b64decode(token + "=")` of a token of the alphabet's characters; none where the
-- padding is wrong. The bits that the last byte does not use are dropped.
unfoldable pub base64_decode : List ℕ → Option (List ℕ)
unfolding six_bits prefixed
base64_decode [] = none
base64_decode (w ∷ []) = none
base64_decode (w ∷ x ∷ []) = none
base64_decode (w ∷ x ∷ y ∷ []) =
    some ((six_bits w * 4 + six_bits x / 16) ∷ (six_bits x % 16 * 16 + six_bits y / 4) ∷ [])
base64_decode (w ∷ x ∷ y ∷ z ∷ s) =
    prefixed (three_bytes (six_bits w) (six_bits x) (six_bits y) (six_bits z)) (base64_decode s)

-- Why a token is refused; the codes of the two modules are `internal_reason`s.
pub data TokenFault : Type 0 where
  token_shape token_decode token_length token_noncanonical : TokenFault

abbrev pub raise_if : Bool → TokenFault → Result TokenFault (Unit {0})
raise_if true e = err e
raise_if false e = ok tt

abbrev pub decoded_or : TokenFault → Option (List ℕ) → Result TokenFault (List ℕ)
decoded_or e none = err e
decoded_or e (some raw) = ok raw

-- The body that `parse_access_token` and `parse_grant_token` have in common.
unfoldable pub parse_token : List ℕ → Result TokenFault (List ℕ)
unfolding is_symbol base64 base64_decode
parse_token token = do
  raise_if (not ((length token == 43) && all_of is_symbol token)) token_shape
  raw ← decoded_or token_decode (base64_decode token)
  raise_if (not (length raw == 32)) token_length
  raise_if (not (same_text (base64 raw) token)) token_noncanonical
  ok raw

-- `generate_access_token` and `generate_grant_token`: the token of the bytes that the system's
-- random generator gives.
unfoldable pub generate_token : List ℕ → List ℕ
unfolding base64
generate_token random = base64 random
