-- ===== src/Tokens/Canonical.antt =====
-- A token is accepted exactly if it is the one that its 32 bytes are written as.
use fetch_now.Texts.{is_byte, same_text-eq, same_text_refl}
use fetch_now.Prelude.{
  ℕ, zero, suc, ◌+◌, ◌*◌, ◌/◌, ◌%◌, ◌<◌, ◌≡◌, refl, sym, ap, subst, ◌↔◌, inl, inr, Bool, true,
  false, Option, none, some, List, [], ◌∷◌, arith, ltb, ◌==◌, ltb→lt, Bool-cases, ==→eq, and_true,
  not-false, length, Result, ◌>>◌, >>=-eq-ok, ok-injective, ok,
}
use fetch_now.Tokens.{
  all_of, symbol, is_symbol, six_bits, base64, base64_decode, three_bytes, prefixed, TokenFault,
  token_shape, token_decode, token_length, token_noncanonical, raise_if, decoded_or, parse_token,
  generate_token,
}

symbol-cases : (n : ℕ) → n < 64 → (is_symbol (symbol n) ≡ true) × (six_bits (symbol n) ≡ n)
unfolding symbol is_symbol six_bits
symbol-cases n h = elim (Bool-cases (ltb n 26)) [
  | inl e ↦ rw (e) (ground arith)
  | inr e ↦ elim (Bool-cases (ltb n 52)) [
    | inl f ↦ rw (e, f) (ground arith)
    | inr f ↦ elim (Bool-cases (ltb n 62)) [
      | inl g ↦ rw (e, f, g) (ground arith)
      | inr g ↦ elim (Bool-cases (n == 62)) [
        | inl i ↦ rw (e, f, g, i) (ground arith)
        | inr i ↦ rw (e, f, g, i) (ground arith)
      ]
    ]
  ]
]

six_bits-bound : (c : ℕ) → is_symbol c ≡ true → six_bits c < 64
unfolding is_symbol six_bits
six_bits-bound c h = ground arith

-- Three bytes are read back from their four characters.
three_bytes-back :
    (a b c : ℕ) (s : List ℕ)
    → a < 256
    → b < 256
    → c < 256
    → three_bytes (a / 4) (a % 4 * 16 + b / 16) (b % 16 * 4 + c / 64) (c % 64) s ≡ a ∷ b ∷ c ∷ s
three_bytes-back a b c s h k l = grind arith

-- The bytes that a token stands for, and the length and the alphabet of the token.
record Written (k : ℕ) (s : List ℕ) : Type 0 where
  back : base64_decode (base64 s) ≡ some s
  size : length (base64 s) ≡ 4 * k + 3
  letters : all_of is_symbol (base64 s) ≡ true

two_bytes-back :
    (a b : ℕ)
    → a < 256
    → b < 256
    → ◌≡◌ {A = List ℕ}
        ((a / 4 * 4 + (a % 4 * 16 + b / 16) / 16)
          ∷ ((a % 4 * 16 + b / 16) % 16 * 16 + b % 16 * 4 / 4)
          ∷ [])
        (a ∷ b ∷ [])
two_bytes-back a b h k = grind arith

base64-Written : (k : ℕ) (s : List ℕ) → length s ≡ 3 * k + 2 → all_of is_byte s ≡ true → Written k s
unfolding base64 base64_decode prefixed
base64-Written zero (a ∷ b ∷ []) e h =
    let first = ltb→lt a 256 (and_true (is_byte a) _ h).0 in
    let second = ltb→lt b 256 (and_true (is_byte b) _ (and_true (is_byte a) _ h).1).0 in
    let w = symbol-cases (a / 4) (omega arith) in
    let x = symbol-cases (a % 4 * 16 + b / 16) (omega arith) in
    let y = symbol-cases (b % 16 * 4) (omega arith) in
    record {
      back = rw (w.1, x.1, y.1) (ap (λ r. some r) (two_bytes-back a b first second));
      size = refl;
      letters = rw (w.0, x.0, y.0) refl;
    }
base64-Written (suc k) (a ∷ b ∷ c ∷ s) e h =
    let first = ltb→lt a 256 (and_true (is_byte a) _ h).0 in
    let more = (and_true (is_byte a) _ h).1 in
    let second = ltb→lt b 256 (and_true (is_byte b) _ more).0 in
    let third = ltb→lt c 256 (and_true (is_byte c) _ (and_true (is_byte b) _ more).1).0 in
    let rest =
      base64-Written k s (omega arith) (and_true (is_byte c) _ (and_true (is_byte b) _ more).1).1 in
    let w = symbol-cases (a / 4) (omega arith) in
    let x = symbol-cases (a % 4 * 16 + b / 16) (omega arith) in
    let y = symbol-cases (b % 16 * 4 + c / 64) (omega arith) in
    let z = symbol-cases (c % 64) (omega arith) in
    record {
      back =
          rw (w.1, x.1, y.1, z.1, rest.back)
            (ap (λ r. some r) (three_bytes-back a b c s first second third));
      size = let n = rest.size in omega arith;
      letters = rw (w.0, x.0, y.0, z.0, rest.letters) refl;
    }
base64-Written k [] e h = ground arith
base64-Written k (a ∷ []) e h = ground arith
base64-Written (suc k) (a ∷ b ∷ []) e h = ground arith
base64-Written zero (a ∷ b ∷ c ∷ s) e h = ground arith

-- The decoder makes bytes.
Bytes : Option (List ℕ) → Type 0
Bytes none = Unit
Bytes (some s) = all_of is_byte s ≡ true

byte_of : (n : ℕ) → n < 256 → is_byte n ≡ true
byte_of n h = ground arith

prefixed-Bytes :
    (w x y z : ℕ) (rest : Option (List ℕ))
    → w < 64
    → x < 64
    → y < 64
    → z < 64
    → Bytes rest
    → Bytes (prefixed (three_bytes w x y z) rest)
unfolding prefixed Bytes
prefixed-Bytes w x y z none a b c d h = tt
prefixed-Bytes w x y z (some s) a b c d h =
    rw
      (
        byte_of (w * 4 + x / 16) (omega arith),
        byte_of (x % 16 * 16 + y / 4) (omega arith),
        byte_of (y % 4 * 64 + z) (omega arith),
        h,
      )
      refl

base64_decode-Bytes : (s : List ℕ) → all_of is_symbol s ≡ true → Bytes (base64_decode s)
unfolding base64_decode Bytes
base64_decode-Bytes [] h = tt
base64_decode-Bytes (w ∷ []) h = tt
base64_decode-Bytes (w ∷ x ∷ []) h = tt
base64_decode-Bytes (w ∷ x ∷ y ∷ []) h =
    let (a, more) = and_true (is_symbol w) _ h in
    let (b, last) = and_true (is_symbol x) _ more in
    let (c, none_left) = and_true (is_symbol y) _ last in
    let p = six_bits-bound w a in
    let q = six_bits-bound x b in
    let r = six_bits-bound y c in
    rw
      (
        byte_of (six_bits w * 4 + six_bits x / 16) (omega arith),
        byte_of (six_bits x % 16 * 16 + six_bits y / 4) (omega arith),
      )
      refl
base64_decode-Bytes (w ∷ x ∷ y ∷ z ∷ s) h =
    let (a, more) = and_true (is_symbol w) _ h in
    let (b, more_still) = and_true (is_symbol x) _ more in
    let (c, last) = and_true (is_symbol y) _ more_still in
    let (d, rest) = and_true (is_symbol z) _ last in
    prefixed-Bytes (six_bits w) (six_bits x) (six_bits y) (six_bits z) (base64_decode s)
      (six_bits-bound w a) (six_bits-bound x b) (six_bits-bound y c) (six_bits-bound z d)
      (base64_decode-Bytes s rest)

eq_test : (n m : ℕ) → n ≡ m → (n == m) ≡ true
eq_test n m h = ground arith

raised : (b : Bool) (e : TokenFault) → raise_if b e ≡ ok tt → b ≡ false
raised true e h = cc
raised false e h = refl

decoded_or-eq :
    (e : TokenFault) (o : Option (List ℕ)) (raw : List ℕ) → decoded_or e o ≡ ok raw → o ≡ some raw
decoded_or-eq e none raw h = cc
decoded_or-eq e (some s) raw h = ap (λ r. some r) (ok-injective h)

check-passed :
    {B : Type 0} (b : Bool) (e : TokenFault) (rest : Result TokenFault B) {r : B}
    → (raise_if b e >> rest) ≡ ok r
    → (b ≡ false) × (rest ≡ ok r)
check-passed true e rest h = cc
check-passed false e rest h = (refl, h)

-- A token is the one of `raw`: 32 bytes, and the token is how they are written.
pub IsTokenOf : List ℕ → List ℕ → Type 0
IsTokenOf raw token = (length raw ≡ 32) × (all_of is_byte raw ≡ true) × (token ≡ generate_token raw)

parsed-IsTokenOf : (token raw : List ℕ) → parse_token token ≡ ok raw → IsTokenOf raw token
unfolding parse_token generate_token IsTokenOf Bytes
parsed-IsTokenOf token raw h =
    let (shape, first) = check-passed _ token_shape _ h in
    let letters = (and_true (length token == 43) _ (not-false _ shape)).1 in
    let (bytes, decoded, second) =
      >>=-eq-ok (decoded_or token_decode (base64_decode token)) _ first in
    let (size, third) = check-passed _ token_length _ second in
    let (canonical, same) = check-passed _ token_noncanonical _ third in
    let made =
      subst Bytes (decoded_or-eq token_decode (base64_decode token) bytes decoded)
        (base64_decode-Bytes token letters) in
    subst (λ r. (length r ≡ 32) × (all_of is_byte r ≡ true) × (token ≡ base64 r))
      (ok-injective same)
      (
        ==→eq (length bytes) 32 (not-false _ size),
        made,
        sym (same_text-eq (base64 bytes) token (not-false _ canonical)),
      )

IsTokenOf-parsed : (token raw : List ℕ) → IsTokenOf raw token → parse_token token ≡ ok raw
unfolding parse_token generate_token IsTokenOf
IsTokenOf-parsed token raw (size, bytes, written) =
    let w = base64-Written 10 raw size bytes in
    subst (λ s. parse_token s ≡ ok raw) (sym written)
      (rw
        (
          eq_test (length (base64 raw)) 43 w.size,
          w.letters,
          w.back,
          eq_test (length raw) 32 size,
          same_text_refl (base64 raw),
        )
        refl)

-- A token is accepted, with the bytes `raw`, exactly if `raw` has 32 bytes and the token is the one
-- that is generated from them. So no two tokens stand for the same bytes.
pub parse_token_iff : (token raw : List ℕ) → (parse_token token ≡ ok raw) ↔ IsTokenOf raw token
parse_token_iff token raw = (parsed-IsTokenOf token raw, IsTokenOf-parsed token raw)
