-- ===== src/Payments/Amount/RoundTrip.antt =====
-- The amount that a payment form prints is the amount that a callback with it reports.
use fetch_now.Prelude.{
  ℕ, zero, suc, ◌+◌, ◌-◌, ◌*◌, ◌/◌, ◌%◌, ◌^◌, ◌≤◌, ◌<◌, ◌≡◌, refl, ap, ◌∙◌, inl, inr, true, false,
  ◌&&◌, ◌||◌, some, List, [], ◌∷◌, ◌++◌, arith, ltb, leb, ◌==◌, ltb→lt, Bool-cases, and_true,
  length, ok,
}
use fetch_now.Delivery.RangeParse.{is_decimal, all_of, digits_value}
use fetch_now.Payments.Amount.{
  match_parts, scaled_amount, whole_amount, read_amount, parse_callback_out_sum, whole_digits,
  format_out_sum, some_digits, print, match_out_sum, print_before, split_point, half_even, round_28,
}

-- A text that stands for `n` in front of the digits `rest`, without a leading zero.
record Printed (n : ℕ) (rest text : List ℕ) : Type 0 where
  first : ℕ
  tail : List ℕ
  shape : text ≡ first ∷ tail
  lead : (leb b'1' first && leb first b'9') ≡ true
  digits : all_of is_decimal tail ≡ true
  total : digits_value 0 text ≡ digits_value n rest

digit_shown : (n : ℕ) → is_decimal (b'0' + n % 10) ≡ true
unfolding is_decimal
digit_shown n = ground arith

none_left : (n : ℕ) → n ≤ 0 → 0 < n → ⊥
none_left n a b = omega arith

ltb_of : (n m : ℕ) → n < m → ltb n m ≡ true
ltb_of n m h = ground arith

lead_shown : (n : ℕ) → 0 < n → n < 10 → (leb b'1' (b'0' + n) && leb (b'0' + n) b'9') ≡ true
lead_shown n a b = ground arith

one_digit : (n : ℕ) → 0 * 10 + (b'0' + n - b'0') ≡ n
one_digit n = omega arith

next_digit : (n : ℕ) → n / 10 * 10 + (b'0' + n % 10 - b'0') ≡ n
next_digit n = omega arith

not_small : (n : ℕ) → ltb n 10 ≡ false → 10 ≤ n
not_small n h = ground arith

print_before-Printed :
    (fuel n : ℕ) (rest : List ℕ)
    → n ≤ fuel
    → 0 < n
    → all_of is_decimal rest ≡ true
    → Printed n rest (print_before fuel n rest)
unfolding digits_value
print_before-Printed zero n rest le some_left h = elim (none_left n le some_left) [ ]
print_before-Printed (suc fuel) n rest le some_left h = elim (Bool-cases (ltb n 10)) [
  | inl e ↦ rw (e) (record {
    first = b'0' + n;
    tail = rest;
    shape = refl;
    lead = lead_shown n some_left (ltb→lt n 10 e);
    digits = h;
    total = ap (λ z. digits_value z rest) (one_digit n);
  })
  | inr e ↦
      let large = not_small n e in
      let more =
        print_before-Printed fuel (n / 10) ((b'0' + n % 10) ∷ rest) (omega arith) (omega arith)
          (rw (digit_shown n) h) in
      rw (e) (record {
        first = more.first;
        tail = more.tail;
        shape = more.shape;
        lead = more.lead;
        digits = more.digits;
        total = more.total ∙ ap (λ z. digits_value z rest) (next_digit n);
      })
]

digits_value-append :
    (z : ℕ) (a b : List ℕ) → digits_value z (a ++ b) ≡ digits_value (digits_value z a) b
unfolding digits_value
digits_value-append z [] b = refl
digits_value-append z (c ∷ a) b = digits_value-append (z * 10 + (c - b'0')) a b

no_point : (c : ℕ) → is_decimal c ≡ true → (c == b'.') ≡ false
unfolding is_decimal
no_point c h = ground arith

split_point-append :
    (text part : List ℕ)
    → all_of is_decimal text ≡ true
    → split_point (text ++ (b'.' ∷ part)) ≡ (text, some part)
unfolding split_point
split_point-append [] part h = refl
split_point-append (c ∷ text) part h =
    rw
      (
        no_point c (and_true (is_decimal c) (all_of is_decimal text) h).0,
        split_point-append text part (and_true (is_decimal c) (all_of is_decimal text) h).1,
      )
      refl

half_even-1 : (n : ℕ) → half_even n 1 * 1 ≡ n
half_even-1 n = ground arith

round_28-small : (fuel n : ℕ) → n < 10 ^ 28 → round_28 (suc fuel) 0 n ≡ n
unfolding round_28
round_28-small fuel n h = rw (ltb_of n (10 ^ 28) h) (half_even-1 n)

-- How long a text is: `tens k` is the least number with k + 1 digits.
abbrev tens : ℕ → ℕ
tens zero = 1
tens (suc k) = 10 * tens k

length-print_before :
    (fuel k n : ℕ) (rest : List ℕ)
    → n ≤ fuel
    → n < tens (suc k)
    → length (print_before fuel n rest) ≤ suc k + length rest
length-print_before zero k n rest le h = omega arith
length-print_before (suc fuel) zero n rest le h = rw (ltb_of n 10 (omega arith)) (omega arith)
length-print_before (suc fuel) (suc k) n rest le h = elim (Bool-cases (ltb n 10)) [
  | inl e ↦ rw (e) (omega arith)
  | inr e ↦
      let large = not_small n e in
      let shorter =
        length-print_before fuel k (n / 10) ((b'0' + n % 10) ∷ rest) (omega arith) (omega arith) in
      rw (e) (omega arith)
]

last_digits : ℕ → List ℕ
last_digits n = (b'0' + n % 100 / 10) ∷ (b'0' + n % 10) ∷ []

-- A text of the whole part `w` of an amount.
record IsWhole (w : ℕ) (text : List ℕ) : Type 0 where
  decimal : all_of is_decimal text ≡ true
  whole : whole_digits text ≡ true
  total : digits_value 0 text ≡ w
  short : length text ≤ 17

decimal_of : (c : ℕ) → (leb b'1' c && leb c b'9') ≡ true → is_decimal c ≡ true
unfolding is_decimal
decimal_of c h = ground arith

all_decimal :
    (c : ℕ) (s : List ℕ)
    → (leb b'1' c && leb c b'9') ≡ true
    → all_of is_decimal s ≡ true
    → all_of is_decimal (c ∷ s) ≡ true
unfolding is_decimal
all_decimal c s lead h = rw (decimal_of c lead, h) refl

lead_whole :
    (c : ℕ) (s : List ℕ)
    → (leb b'1' c && leb c b'9') ≡ true
    → ((c == b'0') && (length s == 0) || leb b'1' c && leb c b'9' && true) ≡ true
lead_whole c s lead = ground arith

Printed-IsWhole : (w : ℕ) (text : List ℕ) → Printed w [] text → length text ≤ 17 → IsWhole w text
unfolding whole_digits is_decimal digits_value
Printed-IsWhole w text p short = record {
  decimal = rw (p.shape) (all_decimal p.first p.tail p.lead p.digits);
  whole = rw (p.shape, p.digits) (lead_whole p.first p.tail p.lead);
  total = p.total;
  short = short;
}

print-IsWhole : (w : ℕ) → w < tens 17 → IsWhole w (print w)
unfolding print is_decimal whole_digits digits_value
print-IsWhole zero h = record { decimal = refl; whole = refl; total = refl; short = omega arith }
print-IsWhole (suc w) h =
    Printed-IsWhole (suc w) (print_before (suc w) (suc w) [])
      (print_before-Printed (suc w) (suc w) [] (omega arith) (omega arith) refl)
      (length-print_before (suc w) 16 (suc w) [] (omega arith) h)

length-append : (a b : List ℕ) → length (a ++ b) ≡ length a + length b
length-append [] b = omega arith
length-append (c ∷ a) b = let same = length-append a b in omega arith

tens_shown : (n : ℕ) → is_decimal (b'0' + n % 100 / 10) ≡ true
unfolding is_decimal
tens_shown n = ground arith

some_digits-last : (n : ℕ) → some_digits (last_digits n) ≡ true
unfolding some_digits last_digits
some_digits-last n = rw (tens_shown n, digit_shown n) refl

match_out_sum-printed :
    (n : ℕ) (text : List ℕ)
    → IsWhole (n / 100) text
    → match_out_sum (text ++ (b'.' ∷ last_digits n)) ≡ some (text ++ last_digits n, 2)
unfolding match_out_sum
match_out_sum-printed n text w =
    ap match_parts (split_point-append text (last_digits n) w.decimal)
    ∙ rw (w.whole, some_digits-last n) (unfold last_digits in refl)

digits_value-printed :
    (n : ℕ) (text : List ℕ) → IsWhole (n / 100) text → digits_value 0 (text ++ last_digits n) ≡ n
unfolding digits_value last_digits
digits_value-printed n text w =
    digits_value-append 0 text (last_digits n) ∙ rw (w.total) (omega arith)

not_zero : (n : ℕ) → 0 < n → (n == 0) ≡ false
not_zero n h = ground arith

short_enough :
    (n : ℕ) (text : List ℕ)
    → length text ≤ 17
    → ltb 64 (length (text ++ (b'.' ∷ last_digits n))) ≡ false
unfolding last_digits
short_enough n text h = let size = length-append text (b'.' ∷ last_digits n) in ground arith

scaled_amount-printed :
    (n : ℕ) (text : List ℕ)
    → n ≤ 9223372036854775807
    → IsWhole (n / 100) text
    → scaled_amount (text ++ last_digits n) ≡ n * 100
unfolding scaled_amount
scaled_amount-printed n text le w =
    ap (λ z. round_28 66 0 (z * 100)) (digits_value-printed n text w)
    ∙ round_28-small 65 (n * 100) (omega arith)

whole_amount-scaled : (n : ℕ) → 0 < n → n ≤ 9223372036854775807 → whole_amount (n * 100) 2 ≡ ok n
whole_amount-scaled n positive le = ground arith

-- An amount from 1 to 9223372036854775807, the bound of the column `amount_minor`, has a text, and
-- the callback with exactly this text reports this amount: parsing undoes printing, and neither
-- raises. The rounding to 28 digits of the decimal product plays no part.
pub parse_callback_out_sum-format_out_sum :
    (n : ℕ)
    → 0 < n
    → n ≤ 9223372036854775807
    → (text : List ℕ) × (format_out_sum n ≡ ok text) × (parse_callback_out_sum text ≡ ok n)
unfolding format_out_sum parse_callback_out_sum
parse_callback_out_sum-format_out_sum n positive le =
    let w = print-IsWhole (n / 100) (omega arith) in
    let size = length-append (print (n / 100)) (b'.' ∷ last_digits n) in
    (
      print (n / 100) ++ (b'.' ∷ last_digits n),
      rw (not_zero n positive) (unfold last_digits in refl),
      rw (short_enough n (print (n / 100)) w.short) (
          ap read_amount (match_out_sum-printed n (print (n / 100)) w)
          ∙ ap (λ z. whole_amount z 2) (scaled_amount-printed n (print (n / 100)) le w)
          ∙ whole_amount-scaled n positive le),
    )
