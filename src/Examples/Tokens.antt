-- ===== src/Examples/Tokens.antt =====
-- Tokens and the Cookie header (backend/src/fetchnow/jobs/credentials.py and
-- backend/src/fetchnow/delivery/cookie_parse.py).
use fetch_now.Prelude.{
  ℕ, zero, suc, ◌≡◌, refl, ◌↔◌, true, some, List, [], ◌∷◌, ◌++◌, codes, ok, err,
}
use fetch_now.Tokens.{token_shape, parse_token}
use fetch_now.Tokens.Canonical.{IsTokenOf, parse_token_iff}
use fetch_now.Delivery.Cookie.{cookie_duplicate, split_all, extract}
use fetch_now.Delivery.Cookie.Unique.{acceptable, grant_values, fits, extract_iff}

abbrev repeated : ℕ → ℕ → List ℕ
repeated c zero = []
repeated c (suc n) = c ∷ repeated c n

abbrev pub low_bytes : List ℕ
low_bytes = repeated 0 32

abbrev pub low_token : List ℕ
low_token = repeated b'A' 43

parse_token_iff_example : (parse_token low_token ≡ ok low_bytes) ↔ IsTokenOf low_bytes low_token
parse_token_iff_example = parse_token_iff low_token low_bytes

low_token-accepted : parse_token low_token ≡ ok low_bytes
unfolding parse_token
low_token-accepted = refl

padded_token : parse_token (repeated b'A' 42 ++ b'=' ∷ []) ≡ err token_shape
unfolding parse_token
padded_token = refl

abbrev cookie : List ℕ
cookie = codes "theme=dark; __Secure-fetchnow_delivery=abc"

extract_iff_example : (extract (some cookie) ≡ ok (codes "abc")) ↔ (
    (acceptable cookie ≡ true)
    × (grant_values (split_all b';' cookie) ≡ codes "abc" ∷ [])
    × (fits (codes "abc") ≡ true))
extract_iff_example = extract_iff cookie (codes "abc")

one_cookie : extract (some cookie) ≡ ok (codes "abc")
unfolding extract
one_cookie = refl

two_cookies :
    extract (some (cookie ++ codes ";__Secure-fetchnow_delivery=abc")) ≡ err cookie_duplicate
unfolding extract
two_cookies = refl
