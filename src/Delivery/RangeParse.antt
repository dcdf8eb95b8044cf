-- ===== src/Delivery/RangeParse.antt =====
-- `parse_single_byte_range` (backend/src/fetchnow/delivery/range_parse.py). A header is the list of
-- its code points, which the server decodes from Latin-1: they are below 256.
pub mod Bounds
use fetch_now.Prelude.{
  ℕ, ◌+◌, ◌-◌, ◌*◌, min, Bool, true, false, not, ◌&&◌, ◌||◌, Option, none, some, List, [], ◌∷◌, map,
  reverse, ltb, leb, ◌==◌, if◌then◌else◌, codes, has_code, length, drop_first, Result, ◌>>=◌, ◌>>◌,
  ok, err,
}

pub record ByteRange : Type 0 where
  pub start : ℕ
  pub stop : ℕ
  pub total : ℕ

pub data RangeError : Type 0 where
  header_too_long multiple unit malformed empty_target : RangeError
  suffix_malformed suffix_leading_zero start_malformed end_malformed empty : RangeError
  -- `int` raises a ValueError that the function does not catch.
  value_error : RangeError

pub data Parsed : Type 0 where
  absent : Parsed
  unsatisfiable : ℕ → Parsed
  range : ByteRange → Parsed

-- `str.isspace` below 256.
unfoldable pub is_space : ℕ → Bool
is_space c = leb 9 c && leb c 13 || leb 28 c && leb c 32 || c == 0x85 || c == 0xa0

unfoldable pub strip_left : List ℕ → List ℕ
unfolding is_space
strip_left [] = []
strip_left (c ∷ s) = let rest = strip_left s in if is_space c then rest else c ∷ s

unfoldable pub strip : List ℕ → List ℕ
unfolding strip_left
strip s = reverse (strip_left (reverse (strip_left s)))

-- `str.lower` below 256.
unfoldable pub lower : ℕ → ℕ
lower c =
    if leb b'A' c && leb c b'Z' || leb 0xc0 c && leb c 0xde && not (c == 0xd7) then c + 32 else c

unfoldable pub starts_with : List ℕ → List ℕ → Bool
starts_with [] s = true
starts_with (p ∷ ps) [] = false
starts_with (p ∷ ps) (c ∷ s) = p == c && starts_with ps s

-- A decimal digit, which `int` reads.
unfoldable pub is_decimal : ℕ → Bool
is_decimal c = leb b'0' c && leb c b'9'

-- `str.isdigit` below 256: the superscripts ¹ ² ³ are digits too.
unfoldable pub is_digit : ℕ → Bool
unfolding is_decimal
is_digit c = is_decimal c || c == 0xb2 || c == 0xb3 || c == 0xb9

abbrev pub all_of : (ℕ → Bool) → List ℕ → Bool
all_of p [] = true
all_of p (c ∷ s) = p c && all_of p s

-- `s.isdigit()`, which is false for the empty text.
unfoldable pub isdigit : List ℕ → Bool
unfolding is_digit
isdigit [] = false
isdigit (c ∷ s) = all_of is_digit (c ∷ s)

unfoldable pub digits_value : ℕ → List ℕ → ℕ
digits_value n [] = n
digits_value n (c ∷ s) = digits_value (n * 10 + (c - b'0')) s

-- `int(s)` of a text of digits.
unfoldable pub to_int : List ℕ → Result RangeError ℕ
unfolding is_decimal digits_value
to_int s = if all_of is_decimal s then ok (digits_value 0 s) else err value_error

-- `s.split("-", 1)`: the parts before and after the first dash, if there is one.
unfoldable pub split_dash : List ℕ → Option (List ℕ × List ℕ)
split_dash [] = none
split_dash (c ∷ s) =
    let rest = split_dash s in
    if c == b'-' then some ([], s) else elim rest [ none ↦ none | some (a, b) ↦ some (c ∷ a, b) ]

abbrev pub bytes_unit : List ℕ
bytes_unit = codes "bytes="

abbrev pub raise_if : Bool → RangeError → Result RangeError (Unit {0})
raise_if true e = err e
raise_if false e = ok tt

-- A suffix range: the last bytes of the artifact.
unfoldable pub parse_suffix : List ℕ → ℕ → Result RangeError Parsed
parse_suffix digits size = do
  raise_if (not (isdigit digits)) suffix_malformed
  raise_if (ltb 1 (length digits) && starts_with (codes "0") digits) suffix_leading_zero
  suffix ← to_int digits
  let start = if ltb size suffix then 0 else size - suffix
  ok (
      if suffix == 0
      then unsatisfiable size
      else range (record { start = start; stop = size; total = size }))

-- `start-` and `start-end`.
unfoldable pub parse_pair : List ℕ → List ℕ → ℕ → Result RangeError Parsed
parse_pair start_s end_s size = do
  raise_if (not (isdigit start_s)) start_malformed
  start ← to_int start_s
  if leb size start then ok (unsatisfiable size) else elim end_s [
    | [] ↦ ok (range (record { start = start; stop = size; total = size }))
    | c ∷ s ↦ do
      raise_if (not (isdigit (c ∷ s))) end_malformed
      end_inclusive ← to_int (c ∷ s)
      raise_if (ltb end_inclusive start) empty
      ok (range (record { start = start; stop = min (end_inclusive + 1) size; total = size }))
  ]

unfoldable pub parse_spec : List ℕ → ℕ → Result RangeError Parsed
parse_spec spec size =
    if starts_with (codes "-") spec
    then parse_suffix (drop_first 1 spec) size
    else elim (split_dash spec) [
      | none ↦ err malformed
      | some (start_s, end_s) ↦ parse_pair start_s end_s size
    ]

-- `header` is `none` where the request has no Range header.
unfoldable pub parse_single_byte_range : Option (List ℕ) → ℕ → Result RangeError Parsed
parse_single_byte_range none size = ok absent
parse_single_byte_range (some header) size =
    let raw = strip header in
    let spec = drop_first 6 raw in
    if length raw == 0 then ok absent else do
      raise_if (ltb 128 (length raw)) header_too_long
      raise_if (has_code b',' raw) multiple
      raise_if (not (starts_with bytes_unit (map lower raw))) unit
      raise_if (length spec == 0 || has_code b'=' spec || has_code b' ' spec) malformed
      raise_if (size == 0) empty_target
      parse_spec spec size
