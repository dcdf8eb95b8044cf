-- ===== src/Filenames/Utf8/Reads.antt =====
-- The decoder reads the bytes of a character one by one.
use fetch_now.Prelude.{
  ℕ, suc, ◌+◌, ◌-◌, ◌*◌, ◌/◌, ◌%◌, ◌≤◌, ◌<◌, ◌≡◌, refl, ap, ◌∙◌, ◌⊎◌, inl, inr, Bool, true, false,
  ◌&&◌, ◌||◌, none, some, List, [], ◌∷◌, arith, ltb, leb, ◌==◌, Bool-cases, if-holds,
}
use fetch_now.Filenames.Utf8.{State, idle, more, encode_char, lead, continued, next}

-- A Unicode scalar value: a code point that is not a surrogate.
abbrev pub scalar : ℕ → Bool
scalar c = ltb c 0xd800 || ltb 0xdfff c && ltb c 0x110000

abbrev pub scalars : List ℕ → Bool
scalars [] = true
scalars (c ∷ s) = scalar c && scalars s

lead-1 : (c : ℕ) → ltb c 0x80 ≡ true → lead c ≡ some (some c, idle)
unfolding lead
lead-1 c h = rw (h) refl

lead-2 :
    (c : ℕ)
    → ltb c 0x80 ≡ false
    → ltb c 0x800 ≡ true
    → lead (0xc0 + c / 64) ≡ some (none, more 0 0x80 0xbf (c / 64))
unfolding lead
lead-2 c low high = grind arith

below : (b n : ℕ) → ltb b n ≡ false → n ≤ b
below b n h = ground arith

-- What a first byte leaves to read: `left` bytes, the next of them `second`.
record Leads (b left value second : ℕ) : Type 0 where
  low : ℕ
  high : ℕ
  waits : lead b ≡ some (none, more left low high value)
  fits : (leb low second && leb second high) ≡ true

Leads-3 :
    (q : ℕ)
    → 32 ≤ q
    → q < 1024
    → (q < 864) ⊎ (895 < q)
    → Leads (0xe0 + q / 64) 1 (q / 64) (0x80 + q % 64)
unfolding lead
Leads-3 q a b gap = elim (Bool-cases (q / 64 == 0)) [
  | inl e ↦ record { low = 0xa0; high = 0xbf; waits = grind arith; fits = ground arith }
  | inr e ↦ elim (Bool-cases (q / 64 == 13)) [
    | inl f ↦ record { low = 0x80; high = 0x9f; waits = grind arith; fits = ground arith }
    | inr f ↦ record { low = 0x80; high = 0xbf; waits = grind arith; fits = ground arith }
  ]
]

Leads-4 : (q : ℕ) → 16 ≤ q → q < 272 → Leads (0xf0 + q / 64) 2 (q / 64) (0x80 + q % 64)
unfolding lead
Leads-4 q a b = elim (Bool-cases (q / 64 == 0)) [
  | inl e ↦ record { low = 0x90; high = 0xbf; waits = grind arith; fits = ground arith }
  | inr e ↦ elim (Bool-cases (q / 64 == 4)) [
    | inl f ↦ record { low = 0x80; high = 0x8f; waits = grind arith; fits = ground arith }
    | inr f ↦ record { low = 0x80; high = 0xbf; waits = grind arith; fits = ground arith }
  ]
]

next-continued :
    (left low high value b : ℕ)
    → (leb low b && leb b high) ≡ true
    → next (more left low high value) b ≡ some (continued left (value * 64 + (b - 0x80)))
unfolding next
next-continued left low high value b h = rw (h) refl

last_six : (c : ℕ) → c / 64 * 64 + (0x80 + c % 64 - 0x80) ≡ c
last_six c = omega arith

six_fits : (c : ℕ) → (leb 0x80 (0x80 + c % 64) && leb (0x80 + c % 64) 0xbf) ≡ true
six_fits c = ground arith

-- From a state the bytes are those of one character, and the last of them completes it.
pub data Reads : State → List ℕ → ℕ → Type 0 where
  last : {state : State} {b c : ℕ} → next state b ≡ some (some c, idle) → Reads state (b ∷ []) c
  longer :
      {state after : State} {b c : ℕ} {s : List ℕ}
      → next state b ≡ some (none, after)
      → Reads after s c
      → Reads state (b ∷ s) c

last_byte :
    (low high c : ℕ)
    → (leb low (0x80 + c % 64) && leb (0x80 + c % 64) high) ≡ true
    → Reads (more 0 low high (c / 64)) ((0x80 + c % 64) ∷ []) c
unfolding continued
last_byte low high c h = last (
    next-continued 0 low high (c / 64) (0x80 + c % 64) h
    ∙ ap (λ z. some (some z, idle)) (last_six c))

middle_byte :
    (left low high c d : ℕ) (s : List ℕ)
    → (leb low (0x80 + c % 64) && leb (0x80 + c % 64) high) ≡ true
    → Reads (more left 0x80 0xbf c) s d
    → Reads (more (suc left) low high (c / 64)) ((0x80 + c % 64) ∷ s) d
unfolding continued
middle_byte left low high c d s h rest =
    longer
      (next-continued (suc left) low high (c / 64) (0x80 + c % 64) h
        ∙ ap (λ z. some (none, more left 0x80 0xbf z)) (last_six c))
      rest

first_byte :
    (b left value second d : ℕ) (s : List ℕ) (l : Leads b left value second)
    → Reads (more left l.low l.high value) s d
    → Reads idle (b ∷ s) d
unfolding next
first_byte b left value second d s l rest = longer l.waits rest

not_surrogate : (c : ℕ) → scalar c ≡ true → (c / 64 < 864) ⊎ (895 < c / 64)
not_surrogate c h = elim (Bool-cases (ltb c 0xd800)) [
  | inl e ↦ inl (ground arith)
  | inr e ↦ inr (ground arith)
]

scalar-bound : (c : ℕ) → scalar c ≡ true → c < 0x110000
scalar-bound c h = ground arith

Reads-2 :
    (c : ℕ)
    → ltb c 0x80 ≡ false
    → ltb c 0x800 ≡ true
    → Reads idle ((0xc0 + c / 64) ∷ (0x80 + c % 64) ∷ []) c
Reads-2 c low high =
    first_byte (0xc0 + c / 64) 0 (c / 64) (0x80 + c % 64) c _
      (record { low = 0x80; high = 0xbf; waits = lead-2 c low high; fits = six_fits c })
      (last_byte 0x80 0xbf c (six_fits c))

Reads-3 :
    (c : ℕ)
    → scalar c ≡ true
    → ltb c 0x800 ≡ false
    → ltb c 0x10000 ≡ true
    → Reads idle ((0xe0 + c / 64 / 64) ∷ (0x80 + c / 64 % 64) ∷ (0x80 + c % 64) ∷ []) c
Reads-3 c h low high =
    let l = Leads-3 (c / 64) (ground arith) (ground arith) (not_surrogate c h) in
    first_byte (0xe0 + c / 64 / 64) 1 (c / 64 / 64) (0x80 + c / 64 % 64) c _ l
      (middle_byte 0 l.low l.high (c / 64) c _ l.fits (last_byte 0x80 0xbf c (six_fits c)))

Reads-4 :
    (c : ℕ)
    → scalar c ≡ true
    → ltb c 0x10000 ≡ false
    → Reads idle
        ((0xf0 + c / 64 / 64 / 64)
          ∷ (0x80 + c / 64 / 64 % 64)
          ∷ (0x80 + c / 64 % 64)
          ∷ (0x80 + c % 64)
          ∷ [])
        c
Reads-4 c h low =
    let bound = scalar-bound c h in
    let l = Leads-4 (c / 64 / 64) (ground arith) (omega arith) in
    first_byte (0xf0 + c / 64 / 64 / 64) 2 (c / 64 / 64 / 64) (0x80 + c / 64 / 64 % 64) c _ l (
      middle_byte 1 l.low l.high (c / 64 / 64) c _ l.fits (
        middle_byte 0 0x80 0xbf (c / 64) c _ (six_fits (c / 64))
          (last_byte 0x80 0xbf c (six_fits c))))

pub encode_char-Reads : (c : ℕ) → scalar c ≡ true → Reads idle (encode_char c) c
unfolding encode_char next
encode_char-Reads c h =
    if-holds (λ e. Reads idle e c) (ltb c 0x80) (λ one. last (lead-1 c one))
      (λ wide.
        if-holds (λ e. Reads idle e c) (ltb c 0x800) (λ two. Reads-2 c wide two)
          (λ wider.
            if-holds (λ e. Reads idle e c) (ltb c 0x10000) (λ three. Reads-3 c h wider three)
              (λ four. Reads-4 c h four)))
