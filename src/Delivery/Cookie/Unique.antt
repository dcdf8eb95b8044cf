-- ===== src/Delivery/Cookie/Unique.antt =====
-- Exactly one cookie of the grant's name is accepted.
use fetch_now.Prelude.{
  ap₂, ℕ, ◌≡◌, refl, sym, ap, ◌∙◌, subst, ◌↔◌, Bool, true, false, not, ◌&&◌, ◌||◌, Option, none,
  some, List, [], ◌∷◌, arith, ltb, ◌==◌, length, Result, ◌>>=◌, ◌>>◌, >>=-eq-ok, ok-injective, ok,
}
use fetch_now.Delivery.Cookie.{
  CookieFault, cookie_header_too_long, cookie_header_control, cookie_value_length,
  cookie_value_quoted, raise_if, split_all, grant_value, starts_quoted, ends_quoted, consider, scan,
  found_or_missing, has_control, extract,
}

abbrev pub onto : Option (List ℕ) → List (List ℕ) → List (List ℕ)
onto none values = values
onto (some value) values = value ∷ values

-- The values of all cookies of the grant's name, in their order.
abbrev pub grant_values : List (List ℕ) → List (List ℕ)
grant_values [] = []
grant_values (part ∷ parts) = onto (grant_value part) (grant_values parts)

-- A value of one to 43 characters that no quote opens or closes.
abbrev pub fits : List ℕ → Bool
fits value =
    not (length value == 0 || ltb 43 (length value))
    && not (starts_quoted value || ends_quoted value)

-- What is left of the values after one was found.
abbrev Rest : Option (List ℕ) → List (List ℕ) → Option (List ℕ) → Type 0
Rest (some value) values result = (values ≡ []) × (result ≡ some value)
Rest none [] result = result ≡ none
Rest none (value ∷ values) result = (fits value ≡ true) × (values ≡ []) × (result ≡ some value)

passed :
    {B : Type 0} (b : Bool) (e : CookieFault) (rest : Result CookieFault B) {r : B}
    → (raise_if b e >> rest) ≡ ok r
    → (b ≡ false) × (rest ≡ ok r)
passed true e rest h = cc
passed false e rest h = (refl, h)

both_not : (a b : Bool) → a ≡ false → b ≡ false → (not a && not b) ≡ true
both_not a b h k = ground arith

some-eq : {a b : List ℕ} → some a ≡ some b → a ≡ b
some-eq h = cc

two_false : (a b : Bool) → (not a && not b) ≡ true → (a ≡ false) × (b ≡ false)
two_false a b h = ground arith

fits-parts :
    (value : List ℕ)
    → fits value ≡ true
    → ((length value == 0 || ltb 43 (length value)) ≡ false)
      × ((starts_quoted value || ends_quoted value) ≡ false)
fits-parts value h = two_false _ _ h

consider-fits :
    (value : List ℕ) (after : Option (List ℕ))
    → consider none (some value) ≡ ok after
    → (fits value ≡ true) × (after ≡ some value)
unfolding consider
consider-fits value after h =
    let (size, h1) = passed (length value == 0 || ltb 43 (length value)) cookie_value_length _ h in
    let (bare, h2) = passed (starts_quoted value || ends_quoted value) cookie_value_quoted _ h1 in
    (both_not _ _ size bare, sym (ok-injective h2))

fits-consider : (value : List ℕ) → fits value ≡ true → consider none (some value) ≡ ok (some value)
unfolding consider
fits-consider value h = let (size, bare) = fits-parts value h in rw (size, bare) refl

consider-Rest :
    (found value : Option (List ℕ)) (parts : List (List ℕ)) (result : Option (List ℕ))
    → ((f : Option (List ℕ)) → scan f parts ≡ ok result → Rest f (grant_values parts) result)
    → (consider found value >>= λ after. scan after parts) ≡ ok result
    → Rest found (onto value (grant_values parts)) result
unfolding consider
consider-Rest none none parts result ih h = ih none h
consider-Rest (some found) none parts result ih h = ih (some found) h
consider-Rest (some found) (some value) parts result ih h = cc
consider-Rest none (some value) parts result ih h =
    let (after, considered, rest) = >>=-eq-ok (consider none (some value)) _ h in
    let (fine, same) = consider-fits value after considered in
    let left = ih (some value) (subst (λ a. scan a parts ≡ ok result) same rest) in
    (fine, left.0, left.1)

scan-Rest :
    (found : Option (List ℕ)) (parts : List (List ℕ)) (result : Option (List ℕ))
    → scan found parts ≡ ok result
    → Rest found (grant_values parts) result
unfolding scan
scan-Rest none [] result h = sym (ok-injective h)
scan-Rest (some value) [] result h = (refl, sym (ok-injective h))
scan-Rest found (part ∷ parts) result h =
    consider-Rest found (grant_value part) parts result (λ f. scan-Rest f parts result) h

Rest-consider :
    (found value : Option (List ℕ)) (parts : List (List ℕ)) (result : Option (List ℕ))
    → ((f : Option (List ℕ)) → Rest f (grant_values parts) result → scan f parts ≡ ok result)
    → Rest found (onto value (grant_values parts)) result
    → (consider found value >>= λ after. scan after parts) ≡ ok result
unfolding consider
Rest-consider none none parts result ih h = ih none h
Rest-consider (some found) none parts result ih h = ih (some found) h
Rest-consider (some found) (some value) parts result ih h = cc
Rest-consider none (some value) parts result ih h =
    ap (λ c. c >>= λ after. scan after parts) (fits-consider value h.0) ∙ ih (some value) (h.1, h.2)

Rest-scan :
    (found : Option (List ℕ)) (parts : List (List ℕ)) (result : Option (List ℕ))
    → Rest found (grant_values parts) result
    → scan found parts ≡ ok result
unfolding scan
Rest-scan none [] result h = ap (λ r. ok r) (sym h)
Rest-scan (some value) [] result h = ap (λ r. ok r) (sym h.1)
Rest-scan found (part ∷ parts) result h =
    Rest-consider found (grant_value part) parts result (λ f. Rest-scan f parts result) h

-- A header that is not refused as a whole: at most 4,096 characters, and no control character that
-- could end it.
abbrev pub acceptable : List ℕ → Bool
acceptable header = not (ltb 4096 (length header)) && not (has_control header)

only_one :
    (values : List (List ℕ)) (token : List ℕ)
    → Rest none values (some token)
    → (values ≡ token ∷ []) × (fits token ≡ true)
only_one [] token h = cc
only_one (value ∷ values) token (fine, alone, same) =
    let e = some-eq same in (ap₂ ◌∷◌ (sym e) alone, subst (λ v. fits v ≡ true) (sym e) fine)

found-eq :
    (found : Option (List ℕ)) (token : List ℕ)
    → found_or_missing found ≡ ok token
    → found ≡ some token
found-eq none token h = cc
found-eq (some value) token h = ap (λ v. some v) (ok-injective h)

IsTheCookie : List ℕ → List ℕ → Type 0
IsTheCookie header token =
    (acceptable header ≡ true)
    × (grant_values (split_all b';' header) ≡ token ∷ [])
    × (fits token ≡ true)

extract-only : (header token : List ℕ) → extract (some header) ≡ ok token → IsTheCookie header token
unfolding extract IsTheCookie
extract-only header token h =
    let (short, h1) = passed (ltb 4096 (length header)) cookie_header_too_long _ h in
    let (clean, h2) = passed (has_control header) cookie_header_control _ h1 in
    let (found, scanned, h3) = >>=-eq-ok (scan none (split_all b';' header)) _ h2 in
    let rest =
      subst (λ f. Rest none (grant_values (split_all b';' header)) f) (found-eq found token h3)
        (scan-Rest none (split_all b';' header) found scanned) in
    let (one, fine) = only_one (grant_values (split_all b';' header)) token rest in
    (both_not _ _ short clean, one, fine)

only-extract : (header token : List ℕ) → IsTheCookie header token → extract (some header) ≡ ok token
unfolding extract IsTheCookie
only-extract header token (fine, one, fitting) =
    let (short, clean) = two_false (ltb 4096 (length header)) (has_control header) fine in
    let scanned =
      Rest-scan none (split_all b';' header) (some token)
        (subst (λ values. Rest none values (some token)) (sym one) (fitting, refl, refl)) in
    rw (short, clean, scanned) refl

-- A Cookie header yields a token exactly if it is of acceptable length without control characters,
-- the token is the only value of a cookie with the grant's name, and it has one to 43 characters that
-- no quote opens or closes: with two such cookies, even equal ones, no token is chosen.
pub extract_iff :
    (header token : List ℕ)
    → (extract (some header) ≡ ok token) ↔ (
        (acceptable header ≡ true)
        × (grant_values (split_all b';' header) ≡ token ∷ [])
        × (fits token ≡ true))
unfolding IsTheCookie
extract_iff header token = (extract-only header token, only-extract header token)
