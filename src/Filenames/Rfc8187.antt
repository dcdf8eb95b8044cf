-- ===== src/Filenames/Rfc8187.antt =====
-- The extended parameter value of RFC 8187: `encode_rfc8187` and `decode_rfc8187`
-- (backend/src/fetchnow/downloads/filename.py). The decoder's input is a header's text, decoded from
-- Latin-1: its code points are below 256.
pub mod RoundTrip
pub mod Termination
use fetch_now.Prelude.{
  ℕ, zero, suc, ◌+◌, ◌-◌, ◌*◌, ◌/◌, ◌%◌, ◌^◌, Bool, not, ◌&&◌, ◌||◌, Option, none, some, List, [],
  ◌∷◌, ◌++◌, ltb, leb, ◌==◌, if◌then◌else◌, codes, has_code, length, drop_first, ℤ, negate, pos,
  negsuc, Result, ok, err,
}
use fetch_now.Delivery.RangeParse.{starts_with, is_space, all_of}
use fetch_now.Payments.Signature.{is_hex}
use fetch_now.Filenames.Utf8.{encode, decode}

-- `_ATTR_CHAR`
unfoldable pub is_attr_char : ℕ → Bool
is_attr_char c =
    leb b'A' c && leb c b'Z'
    || leb b'a' c && leb c b'z'
    || leb b'0' c && leb c b'9'
    || has_code c (codes "!#$&+-.^_`|~")

unfoldable pub hex_digit : ℕ → ℕ
hex_digit n = if ltb n 10 then b'0' + n else b'A' + (n - 10)

unfoldable pub encode_byte : ℕ → List ℕ
unfolding is_attr_char hex_digit
encode_byte b =
    if is_attr_char b then b ∷ [] else b'%' ∷ hex_digit (b / 16) ∷ hex_digit (b % 16) ∷ []

unfoldable pub escape : List ℕ → List ℕ
unfolding encode_byte
escape [] = []
escape (b ∷ s) = encode_byte b ++ escape s

abbrev pub charset_prefix : List ℕ
charset_prefix = codes "UTF-8''"

unfoldable pub encode_rfc8187 : List ℕ → List ℕ
unfolding escape
encode_rfc8187 value = charset_prefix ++ escape (encode value)

unfoldable pub hex_value : ℕ → ℕ
hex_value c = if leb c b'9' then c - b'0' else if leb c b'F' then c - b'A' + 10 else c - b'a' + 10

-- White space that `int` skips at the sides of a text with an ASCII digit.
unfoldable pub is_int_space : ℕ → Bool
is_int_space c = leb 9 c && leb c 13 || c == b' ' || c == 0x85 || c == 0xa0

-- `int(s, 16)` of the two characters `a` and `b`: besides two digits it reads one digit with a sign
-- or with white space at a side. none where it raises a ValueError.
unfoldable pub int_16 : ℕ → ℕ → Option ℤ
unfolding hex_value is_int_space
int_16 a b =
    if is_hex b
    then if is_hex a
      then some (pos (hex_value a * 16 + hex_value b))
      else if a == b'+' || is_int_space a
      then some (pos (hex_value b))
      else if a == b'-'
      then some (negate (hex_value b))
      else none
    else if is_hex a && is_int_space b
    then some (pos (hex_value a))
    else none

unfoldable pub followed_by : Option ℤ → List ℕ → Option (ℤ × List ℕ)
followed_by none s = none
followed_by (some z) s = some (z, s)

-- The piece at the head of the text and what follows it; none where the loop returns None.
unfoldable pub hex_piece : List ℕ → Option (ℤ × List ℕ)
unfolding int_16 followed_by
hex_piece (a ∷ b ∷ s) = followed_by (int_16 a b) s
hex_piece _ = none

unfoldable pub piece : ℕ → List ℕ → Option (ℤ × List ℕ)
unfolding hex_piece is_attr_char
piece c s = if c == b'%' then hex_piece s else if is_attr_char c then some (pos c, s) else none

pub data Pieces : Type 0 where
  -- The loop returned None.
  refused : Pieces
  pieces : List ℤ → Pieces
  out_of_fuel : Pieces

unfoldable pub add_piece : ℤ → Pieces → Pieces
add_piece z (pieces zs) = pieces (z ∷ zs)
add_piece z other = other

unfoldable pub continue_with : Option (ℤ × List ℕ) → (List ℕ → Pieces) → Pieces
unfolding add_piece
continue_with none rest = refused
continue_with (some (z, s)) rest = add_piece z (rest s)

-- The loop of `decode_rfc8187`; the list is what is left of `raw` from `i` on.
unfoldable pub read_pieces : ℕ → List ℕ → Pieces
unfolding piece continue_with
read_pieces fuel [] = pieces []
read_pieces zero (c ∷ s) = out_of_fuel
read_pieces (suc fuel) (c ∷ s) = continue_with (piece c s) (read_pieces fuel)

pub data DecodeError : Type 0 where
  -- `bytes` raises a ValueError, which is no UnicodeDecodeError.
  value_error : DecodeError
  no_fuel : DecodeError

-- `bytes(pieces)`
unfoldable pub to_bytes : List ℤ → Option (List ℕ)
to_bytes [] = some []
to_bytes (negsuc n ∷ zs) = none
to_bytes (pos n ∷ zs) = elim (to_bytes zs) [
  | none ↦ none
  | some s ↦ if ltb n 256 then some (n ∷ s) else none
]

-- `bytes(pieces).decode("utf-8")`, with None for a UnicodeDecodeError.
unfoldable pub decode_bytes : Option (List ℕ) → Result DecodeError (Option (List ℕ))
decode_bytes none = err value_error
decode_bytes (some s) = ok (decode s)

unfoldable pub decode_pieces : Pieces → Result DecodeError (Option (List ℕ))
unfolding to_bytes decode_bytes
decode_pieces refused = ok none
decode_pieces out_of_fuel = err no_fuel
decode_pieces (pieces zs) = decode_bytes (to_bytes zs)

unfoldable pub decode_rfc8187 : List ℕ → Result DecodeError (Option (List ℕ))
unfolding read_pieces decode_pieces starts_with
decode_rfc8187 value =
    let raw = drop_first 7 value in
    if not (starts_with charset_prefix value) || length raw == 0
    then ok none
    else decode_pieces (read_pieces (length raw) raw)
