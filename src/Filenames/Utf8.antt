-- ===== src/Filenames/Utf8.antt =====
-- UTF-8 as Python's `str.encode("utf-8")` and `bytes.decode("utf-8")` define it. A text is the list
-- of its code points, a byte string the list of its bytes.
pub mod Reads
pub mod RoundTrip
use fetch_now.Prelude.{
  ℕ, zero, suc, ◌+◌, ◌-◌, ◌*◌, ◌/◌, ◌%◌, ◌&&◌, Option, none, some, List, [], ◌∷◌, ◌++◌, ltb, leb,
  ◌==◌, if◌then◌else◌,
}

unfoldable pub encode_char : ℕ → List ℕ
encode_char c =
    if ltb c 0x80
    then c ∷ []
    else if ltb c 0x800
    then (0xc0 + c / 64) ∷ (0x80 + c % 64) ∷ []
    else if ltb c 0x10000
    then (0xe0 + c / 64 / 64) ∷ (0x80 + c / 64 % 64) ∷ (0x80 + c % 64) ∷ []
    else (0xf0 + c / 64 / 64 / 64)
      ∷ (0x80 + c / 64 / 64 % 64)
      ∷ (0x80 + c / 64 % 64)
      ∷ (0x80 + c % 64)
      ∷ []

-- `encode` raises a UnicodeEncodeError for a surrogate.
unfoldable pub encode : List ℕ → List ℕ
unfolding encode_char
encode [] = []
encode (c ∷ s) = encode_char c ++ encode s

-- What the decoder waits for: the first byte of a character, or, after this next byte, `left` more
-- continuation bytes; the next byte lies between `low` and `high`, and `value` holds the bits read.
pub data State : Type 0 where
  idle : State
  more : (left low high value : ℕ) → State

-- The first byte of a character. Overlong forms, surrogates and code points above 0x10ffff are
-- refused here and by the bounds of the second byte.
unfoldable pub lead : ℕ → Option (Option ℕ × State)
lead b =
    if ltb b 0x80
    then some (some b, idle)
    else if ltb b 0xc2
    then none
    else if ltb b 0xe0
    then some (none, more 0 0x80 0xbf (b - 0xc0))
    else if b == 0xe0
    then some (none, more 1 0xa0 0xbf (b - 0xe0))
    else if b == 0xed
    then some (none, more 1 0x80 0x9f (b - 0xe0))
    else if ltb b 0xf0
    then some (none, more 1 0x80 0xbf (b - 0xe0))
    else if b == 0xf0
    then some (none, more 2 0x90 0xbf (b - 0xf0))
    else if ltb b 0xf4
    then some (none, more 2 0x80 0xbf (b - 0xf0))
    else if b == 0xf4
    then some (none, more 2 0x80 0x8f (b - 0xf0))
    else none

unfoldable pub continued : ℕ → ℕ → Option ℕ × State
continued zero value = (some value, idle)
continued (suc left) value = (none, more left 0x80 0xbf value)

unfoldable pub next : State → ℕ → Option (Option ℕ × State)
unfolding lead continued
next idle b = lead b
next (more left low high value) b =
    if leb low b && leb b high then some (continued left (value * 64 + (b - 0x80))) else none

unfoldable pub emit : Option ℕ → Option (List ℕ) → Option (List ℕ)
emit none rest = rest
emit (some c) none = none
emit (some c) (some s) = some (c ∷ s)

unfoldable pub proceed : Option (Option ℕ × State) → (State → Option (List ℕ)) → Option (List ℕ)
unfolding emit
proceed none rest = none
proceed (some (found, after)) rest = emit found (rest after)

unfoldable pub decode_from : State → List ℕ → Option (List ℕ)
unfolding next proceed
decode_from idle [] = some []
decode_from (more left low high value) [] = none
decode_from state (b ∷ s) = proceed (next state b) (λ after. decode_from after s)

-- `bytes(s).decode("utf-8")`: none where it raises a UnicodeDecodeError.
unfoldable pub decode : List ℕ → Option (List ℕ)
unfolding decode_from
decode s = decode_from idle s

-- The decoder of `errors="ignore"`: it drops what it cannot read, and reads the byte that ends an
-- incomplete character as the first byte of another.
unfoldable pub found_or : Option (Option ℕ × State) → Option ℕ × State → Option ℕ × State
found_or none other = other
found_or (some found) other = found

unfoldable pub resume : State → ℕ → Option ℕ × State
unfolding next lead found_or
resume state b = found_or (next state b) (found_or (lead b) (none, idle))

unfoldable pub prepend : Option ℕ → List ℕ → List ℕ
prepend none s = s
prepend (some c) s = c ∷ s

unfoldable pub decode_ignore_from : State → List ℕ → List ℕ
unfolding resume prepend
decode_ignore_from state [] = []
decode_ignore_from state (b ∷ s) =
    let found = resume state b in prepend found.0 (decode_ignore_from found.1 s)

-- `s.decode("utf-8", errors="ignore")`
unfoldable pub decode_ignore : List ℕ → List ℕ
unfolding decode_ignore_from
decode_ignore s = decode_ignore_from idle s
