-- ===== src/Filenames/Rfc8187/RoundTrip.antt =====
-- `decode_rfc8187` gives back the name that `encode_rfc8187` encodes.
use fetch_now.Prelude.{
  ap₂, ℕ, zero, suc, ◌+◌, ◌*◌, ◌/◌, ◌%◌, ◌≤◌, ◌<◌, ◌≡◌, refl, ap, ◌∙◌, inl, inr, true, false, some,
  List, [], ◌∷◌, ◌++◌, map, arith, ltb, ◌==◌, ltb→lt, Bool-cases, and_true, if-holds, length, pos,
  ok,
}
use fetch_now.Filenames.Utf8.{encode, encode_char}
use fetch_now.Filenames.Utf8.Reads.{scalar, scalars}
use fetch_now.Filenames.Utf8.RoundTrip.{decode-encode}
use fetch_now.Delivery.RangeParse.{starts_with, all_of}
use fetch_now.Texts.{is_byte, all_of-append}
use fetch_now.Filenames.Rfc8187.{
  decode_bytes, followed_by, encode_byte, hex_digit, escape, encode_rfc8187, is_attr_char,
  charset_prefix, read_pieces, decode_pieces, decode_rfc8187, to_bytes, pieces, piece, hex_piece,
  int_16, hex_value, continue_with, add_piece,
}
use fetch_now.Payments.Signature.{is_hex}

is_hex-hex_digit : (n : ℕ) → n < 16 → is_hex (hex_digit n) ≡ true
unfolding hex_digit
is_hex-hex_digit n h = elim (Bool-cases (ltb n 10)) [
  | inl e ↦ rw (e) (ground arith)
  | inr e ↦ rw (e) (ground arith)
]

hex_value-hex_digit : (n : ℕ) → n < 16 → hex_value (hex_digit n) ≡ n
unfolding hex_digit hex_value
hex_value-hex_digit n h = elim (Bool-cases (ltb n 10)) [
  | inl e ↦ rw (e) (ground arith)
  | inr e ↦ rw (e) (ground arith)
]

int_16-digits :
    (a b : ℕ)
    → is_hex a ≡ true
    → is_hex b ≡ true
    → int_16 a b ≡ some (pos (hex_value a * 16 + hex_value b))
unfolding int_16
int_16-digits a b h k = rw (h, k) refl

digits_of : (b : ℕ) → b / 16 * 16 + b % 16 ≡ b
digits_of b = omega arith

int_16-hex_digit :
    (b : ℕ) → b < 256 → int_16 (hex_digit (b / 16)) (hex_digit (b % 16)) ≡ some (pos b)
int_16-hex_digit b h =
    int_16-digits _ _ (is_hex-hex_digit (b / 16) (omega arith))
      (is_hex-hex_digit (b % 16) (omega arith))
    ∙ ap₂ (λ x y. some (pos (x * 16 + y))) (hex_value-hex_digit (b / 16) (omega arith))
        (hex_value-hex_digit (b % 16) (omega arith))
    ∙ ap (λ z. some (pos z)) (digits_of b)

encode_char-bytes : (c : ℕ) → scalar c ≡ true → all_of is_byte (encode_char c) ≡ true
unfolding encode_char
encode_char-bytes c h = ground arith

pub encode-bytes : (s : List ℕ) → scalars s ≡ true → all_of is_byte (encode s) ≡ true
unfolding encode
encode-bytes [] h = refl
encode-bytes (c ∷ s) h =
    let both = and_true (scalar c) (scalars s) h in
    all_of-append is_byte (encode_char c) (encode s) (encode_char-bytes c both.0)
      (encode-bytes s both.1)

attr-not_percent : (c : ℕ) → is_attr_char c ≡ true → (c == b'%') ≡ false
unfolding is_attr_char
attr-not_percent c h = ground arith

piece-attr : (c : ℕ) (s : List ℕ) → is_attr_char c ≡ true → piece c s ≡ some (pos c, s)
unfolding piece
piece-attr c s h = rw (attr-not_percent c h, h) refl

hex_piece-digits :
    (b : ℕ) (s : List ℕ)
    → b < 256
    → hex_piece (hex_digit (b / 16) ∷ hex_digit (b % 16) ∷ s) ≡ some (pos b, s)
unfolding hex_piece followed_by
hex_piece-digits b s h = ap (λ z. followed_by z s) (int_16-hex_digit b h)

-- One round of the loop reads what one byte was encoded to.
read_pieces-encode_byte :
    (fuel b : ℕ) (s : List ℕ)
    → b < 256
    → read_pieces (suc fuel) (encode_byte b ++ s) ≡ add_piece (pos b) (read_pieces fuel s)
unfolding read_pieces encode_byte continue_with piece
read_pieces-encode_byte fuel b s h =
    if-holds (λ e. read_pieces (suc fuel) (e ++ s) ≡ add_piece (pos b) (read_pieces fuel s))
      (is_attr_char b) (λ attr. ap (λ r. continue_with r (read_pieces fuel)) (piece-attr b s attr))
      (λ other. ap (λ r. continue_with r (read_pieces fuel)) (hex_piece-digits b s h))

read_pieces-escape :
    (fuel : ℕ) (s : List ℕ)
    → all_of is_byte s ≡ true
    → length s ≤ fuel
    → read_pieces fuel (escape s) ≡ pieces (map pos s)
unfolding escape add_piece read_pieces
read_pieces-escape fuel [] h le = refl
read_pieces-escape zero (b ∷ s) h le = ground arith
read_pieces-escape (suc fuel) (b ∷ s) h le =
    let both = and_true (is_byte b) (all_of is_byte s) h in
    read_pieces-encode_byte fuel b (escape s) (ltb→lt b 256 both.0)
    ∙ ap (add_piece (pos b)) (read_pieces-escape fuel s both.1 (omega arith))

to_bytes-bytes : (s : List ℕ) → all_of is_byte s ≡ true → to_bytes (map pos s) ≡ some s
unfolding to_bytes
to_bytes-bytes [] h = refl
to_bytes-bytes (b ∷ s) h =
    let both = and_true (is_byte b) (all_of is_byte s) h in
    rw (to_bytes-bytes s both.1, both.0) refl

length-longer : (a b : List ℕ) → 0 < length a → 0 < length (a ++ b)
length-longer [] b h = omega arith
length-longer (x ∷ a) b h = omega arith

not_empty : (n : ℕ) → (suc n == 0) ≡ false
not_empty n = ground arith

length-escape : (s : List ℕ) → length s ≤ length (escape s)
unfolding escape encode_byte
length-escape [] = omega arith
length-escape (b ∷ s) =
    let rest = length-escape s in
    if-holds (λ e. suc (length s) ≤ length (e ++ escape s)) (is_attr_char b) (λ attr. omega arith)
      (λ other. omega arith)

length-encode_char : (c : ℕ) → 0 < length (encode_char c)
unfolding encode_char
length-encode_char c = ground arith

length-encode : (name : List ℕ) → 0 < length name → 0 < length (encode name)
unfolding encode
length-encode [] h = omega arith
length-encode (c ∷ s) h = length-longer (encode_char c) (encode s) (length-encode_char c)

decode_rfc8187-body :
    (e : List ℕ)
    → 0 < length e
    → decode_rfc8187 (charset_prefix ++ e) ≡ decode_pieces (read_pieces (length e) e)
unfolding decode_rfc8187 starts_with
decode_rfc8187-body [] h = ground arith
decode_rfc8187-body (c ∷ e) h = rw (not_empty (length e)) refl

-- The value that `encode_rfc8187` makes of a name of Unicode scalar values that is not empty is
-- accepted by `decode_rfc8187`, which returns the name.
pub decode_rfc8187-encode_rfc8187 :
    (name : List ℕ)
    → scalars name ≡ true
    → 0 < length name
    → decode_rfc8187 (encode_rfc8187 name) ≡ ok (some name)
unfolding encode_rfc8187 decode_pieces decode_bytes
decode_rfc8187-encode_rfc8187 name h some_left =
    let bytes = encode name in
    let fits = encode-bytes name h in
    let longer = length-escape bytes in
    let given = length-encode name some_left in
    decode_rfc8187-body (escape bytes) (omega arith)
    ∙ ap decode_pieces (read_pieces-escape (length (escape bytes)) bytes fits longer)
    ∙ ap decode_bytes (to_bytes-bytes bytes fits)
    ∙ ap (λ r. ok r) (decode-encode name h)
