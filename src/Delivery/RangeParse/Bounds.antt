-- ===== src/Delivery/RangeParse/Bounds.antt =====
-- What a successful parse returns lies in the artifact, and which headers raise a ValueError.
use fetch_now.Prelude.{
  ℕ, ◌≤◌, ◌<◌, ◌≡◌, refl, subst, inl, inr, Bool, true, false, not, ◌||◌, Option, none, some, List,
  [], ◌∷◌, map, arith, ltb, ◌==◌, Bool-cases, Option-cases, codes, has_code, length, drop_first,
  Result, ◌>>=◌, ok-injective, ok,
}
use fetch_now.Delivery.RangeParse.{
  RangeError, header_too_long, multiple, unit, malformed, empty_target, bytes_unit, lower, Parsed,
  absent, unsatisfiable, range, split_dash, raise_if, parse_suffix, parse_pair, parse_spec,
  parse_single_byte_range, strip, starts_with,
}

-- A nonempty part of an artifact of `size` bytes.
abbrev pub Within : ℕ → Parsed → Type 0
Within size absent = Unit
Within size (unsatisfiable total) = total ≡ size
Within size (range r) = (r.start < r.stop) × (r.stop ≤ size) × (r.total ≡ size)

suffix-Within :
    (digits : List ℕ) (size : ℕ) {p : Parsed}
    → 0 < size
    → parse_suffix digits size ≡ ok p
    → Within size p
unfolding parse_suffix
suffix-Within digits size {p} h e = ground arith

pair-Within :
    (start_s end_s : List ℕ) (size : ℕ) {p : Parsed}
    → parse_pair start_s end_s size ≡ ok p
    → Within size p
unfolding parse_pair
pair-Within start_s [] size {p} e = ground arith
pair-Within start_s (c ∷ s) size {p} e = ground arith

spec-Within :
    (spec : List ℕ) (size : ℕ) {p : Parsed} → 0 < size → parse_spec spec size ≡ ok p → Within size p
unfolding parse_spec
spec-Within spec size {p} h e = elim (Bool-cases (starts_with (codes "-") spec)) [
  | inl d ↦ suffix-Within (drop_first 1 spec) size h (rw d at e)
  | inr d ↦ elim (Option-cases (split_dash spec)) [
    | inl m ↦ cc (rw (d, m) at e)
    | inr ((start_s, end_s), m) ↦ pair-Within start_s end_s size (rw (d, m) at e)
  ]
]

raise_if-eq-ok :
    {A : Type 0} (b : Bool) (e : RangeError) (k : Result RangeError A) {a : A}
    → (raise_if b e >>= λ _. k) ≡ ok a
    → (b ≡ false) × (k ≡ ok a)
raise_if-eq-ok true e k h = cc
raise_if-eq-ok false e k h = (refl, h)

positive : (n : ℕ) → (n == 0) ≡ false → 0 < n
positive n h = ground arith

-- What the parse of any header returns is: no range; or "unsatisfiable" with the size of the
-- artifact; or a range that is not empty, ends within the artifact, and carries its size.
pub parse_single_byte_range-Within :
    (header : Option (List ℕ)) (size : ℕ) {p : Parsed}
    → parse_single_byte_range header size ≡ ok p
    → Within size p
unfolding parse_single_byte_range
parse_single_byte_range-Within none size {p} e = subst (Within size) (ok-injective e) tt
parse_single_byte_range-Within (some header) size {p} e =
    let raw = strip header in
    let spec = drop_first 6 raw in
    let bad_spec = length spec == 0 || has_code b'=' spec || has_code b' ' spec in
    let foreign = not (starts_with bytes_unit (map lower raw)) in
    elim (Bool-cases (length raw == 0)) [
      | inl d ↦ subst (Within size) (ok-injective (rw d at e)) tt
      | inr d ↦
          let (a, e1) = raise_if-eq-ok (ltb 128 (length raw)) header_too_long _ (rw d at e) in
          let (b, e2) = raise_if-eq-ok (has_code b',' raw) multiple _ e1 in
          let (c, e3) = raise_if-eq-ok foreign unit _ e2 in
          let (f, e4) = raise_if-eq-ok bad_spec malformed _ e3 in
          let (g, e5) = raise_if-eq-ok (size == 0) empty_target _ e4 in
          spec-Within spec size (positive size g) e5
    ]
