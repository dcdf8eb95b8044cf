-- ===== src/Payments/Amount.antt =====
-- The texts of amounts (backend/src/fetchnow/payments/robokassa.py). A text is the list of its code
-- points.
pub mod RoundTrip
use fetch_now.Prelude.{
  ℕ, zero, suc, ◌+◌, ◌-◌, ◌*◌, ◌/◌, ◌%◌, ◌^◌, Bool, false, not, ◌&&◌, ◌||◌, Option, none, some,
  List, [], ◌∷◌, ◌++◌, ltb, leb, ◌==◌, if◌then◌else◌, length, Result, ok, err,
}
use fetch_now.Delivery.RangeParse.{is_decimal, all_of, digits_value}
use fetch_now.Payments.Model.{PaymentError, invalid_callback, value_error}

-- `str(n)`, with fuel `n` and the digits that follow.
abbrev pub print_before : ℕ → ℕ → List ℕ → List ℕ
print_before zero n rest = (b'0' + n % 10) ∷ rest
print_before (suc fuel) n rest =
    let more = print_before fuel (n / 10) ((b'0' + n % 10) ∷ rest) in
    if ltb n 10 then (b'0' + n) ∷ rest else more

unfoldable pub print : ℕ → List ℕ
print n = print_before n n []

unfoldable pub format_out_sum : ℕ → Result PaymentError (List ℕ)
unfolding print
format_out_sum amount =
    if amount == 0
    then err value_error
    else ok
        (print (amount / 100) ++ (b'.' ∷ (b'0' + amount % 100 / 10) ∷ (b'0' + amount % 10) ∷ []))

-- The parts before and after the first point.
unfoldable pub split_point : List ℕ → List ℕ × Option (List ℕ)
split_point [] = ([], none)
split_point (c ∷ s) =
    let (whole, part) = split_point s in if c == b'.' then ([], some s) else (c ∷ whole, part)

-- `0|[1-9][0-9]*`
unfoldable pub whole_digits : List ℕ → Bool
unfolding is_decimal
whole_digits [] = false
whole_digits (c ∷ s) =
    (c == b'0') && (length s == 0) || leb b'1' c && leb c b'9' && all_of is_decimal s

unfoldable pub some_digits : List ℕ → Bool
unfolding is_decimal
some_digits s = leb 1 (length s) && all_of is_decimal s

abbrev pub match_parts : List ℕ × Option (List ℕ) → Option (List ℕ × ℕ)
match_parts (whole, none) = if whole_digits whole then some (whole, 0) else none
match_parts (whole, some part) =
    if whole_digits whole && some_digits part then some (whole ++ part, length part) else none

-- The digits of a text that `_OUT_SUM` matches, and how many of them follow the point.
unfoldable pub match_out_sum : List ℕ → Option (List ℕ × ℕ)
unfolding split_point whole_digits some_digits
match_out_sum raw = match_parts (split_point raw)

-- Division of `n` by `d`, rounded to the nearest and to even.
abbrev pub half_even : ℕ → ℕ → ℕ
half_even n d =
    let q = n / d in
    let r = n % d in if ltb (2 * r) d then q else if ltb d (2 * r) then q + 1 else q + q % 2

-- A product in the default context, which keeps 28 digits: `dropped` counts the digits that are
-- rounded off, at most `fuel` of them.
unfoldable pub round_28 : ℕ → ℕ → ℕ → ℕ
round_28 zero dropped n = n
round_28 (suc fuel) dropped n =
    let rest = round_28 fuel (dropped + 1) n in
    if ltb n (10 ^ (28 + dropped)) then half_even n (10 ^ dropped) * 10 ^ dropped else rest

-- The number that the digits write, times 100, in the decimal context. The text has at most 64
-- characters, so the product has at most 66 digits.
unfoldable pub scaled_amount : List ℕ → ℕ
unfolding digits_value round_28
scaled_amount digits = round_28 66 0 (digits_value 0 digits * 100)

abbrev pub whole_amount : ℕ → ℕ → Result PaymentError ℕ
whole_amount scaled places =
    if not (scaled % 10 ^ places == 0) || (scaled == 0)
    then err invalid_callback
    else if ltb 9223372036854775807 (scaled / 10 ^ places)
    then err invalid_callback
    else ok (scaled / 10 ^ places)

abbrev pub read_amount : Option (List ℕ × ℕ) → Result PaymentError ℕ
read_amount none = err invalid_callback
read_amount (some (digits, places)) = whole_amount (scaled_amount digits) places

unfoldable pub parse_callback_out_sum : List ℕ → Result PaymentError ℕ
unfolding match_out_sum scaled_amount
parse_callback_out_sum raw =
    if ltb 64 (length raw) then err invalid_callback else read_amount (match_out_sum raw)
