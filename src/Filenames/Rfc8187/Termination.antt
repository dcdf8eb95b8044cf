-- ===== src/Filenames/Rfc8187/Termination.antt =====
-- The loop of `decode_rfc8187` ends.
use fetch_now.Prelude.{
  ℕ, zero, suc, ◌≤◌, refl, ◌≢◌, not, ◌||◌, Option, none, some, List, [], ◌∷◌, arith, ◌==◌, if-holds,
  length, drop_first, ℤ, err,
}
use fetch_now.Delivery.RangeParse.{starts_with}
use fetch_now.Filenames.Rfc8187.{
  decode_bytes, int_16, followed_by, hex_piece, is_attr_char, piece, Pieces, refused, pieces,
  out_of_fuel, add_piece, continue_with, read_pieces, no_fuel, to_bytes, decode_pieces,
  decode_rfc8187, charset_prefix,
}

-- A round leaves at most `n` characters.
Leaves : ℕ → Option (ℤ × List ℕ) → Type 0
Leaves n none = Unit
Leaves n (some (z, s)) = length s ≤ n

followed_by-Leaves : (n : ℕ) (z : Option ℤ) (s : List ℕ) → length s ≤ n → Leaves n (followed_by z s)
unfolding followed_by Leaves
followed_by-Leaves n none s h = tt
followed_by-Leaves n (some z) s h = h

hex_piece-Leaves : (s : List ℕ) → Leaves (length s) (hex_piece s)
unfolding hex_piece Leaves
hex_piece-Leaves [] = tt
hex_piece-Leaves (a ∷ []) = tt
hex_piece-Leaves (a ∷ b ∷ s) = followed_by-Leaves _ (int_16 a b) s (omega arith)

piece-Leaves : (c : ℕ) (s : List ℕ) → Leaves (length s) (piece c s)
unfolding piece Leaves
piece-Leaves c s =
    if-holds (Leaves (length s)) (c == b'%') (λ escape. hex_piece-Leaves s)
      (λ other. if-holds (Leaves (length s)) (is_attr_char c) (λ attr. omega arith) (λ refusal. tt))

Ends : Pieces → Type 0
Ends result = result ≢ out_of_fuel

add_piece-Ends : (z : ℤ) (rest : Pieces) → Ends rest → Ends (add_piece z rest)
unfolding add_piece Ends
add_piece-Ends z refused h = h
add_piece-Ends z (pieces zs) h = λ e. cc
add_piece-Ends z out_of_fuel h = h

continue_with-Ends :
    (n : ℕ) (head : Option (ℤ × List ℕ)) (rest : List ℕ → Pieces)
    → Leaves n head
    → ((s : List ℕ) → length s ≤ n → Ends (rest s))
    → Ends (continue_with head rest)
unfolding continue_with Leaves Ends
continue_with-Ends n none rest h k = λ e. cc
continue_with-Ends n (some (z, s)) rest h k = add_piece-Ends z (rest s) (k s h)

read_pieces-Ends : (fuel : ℕ) (s : List ℕ) → length s ≤ fuel → Ends (read_pieces fuel s)
unfolding read_pieces Ends
read_pieces-Ends fuel [] h = λ e. cc
read_pieces-Ends zero (c ∷ s) h = ground arith
read_pieces-Ends (suc fuel) (c ∷ s) h =
    continue_with-Ends (length s) (piece c s) (read_pieces fuel) (piece-Leaves c s)
      (λ rest shorter. read_pieces-Ends fuel rest (omega arith))

decode_bytes-ne : (o : Option (List ℕ)) → decode_bytes o ≢ err no_fuel
unfolding decode_bytes
decode_bytes-ne none = λ e. cc
decode_bytes-ne (some s) = λ e. cc

decode_pieces-ne : (p : Pieces) → Ends p → decode_pieces p ≢ err no_fuel
unfolding decode_pieces Ends
decode_pieces-ne refused h = λ e. cc
decode_pieces-ne (pieces zs) h = decode_bytes-ne (to_bytes zs)
decode_pieces-ne out_of_fuel h = λ e. h refl

-- The loop of `decode_rfc8187` ends for every input within as many rounds as the input has
-- characters: the fuel that the function is given does not run out.
pub decode_rfc8187-ends : (value : List ℕ) → decode_rfc8187 value ≢ err no_fuel
unfolding decode_rfc8187
decode_rfc8187-ends value =
    let raw = drop_first 7 value in
    if-holds (λ r. r ≢ err no_fuel) (not (starts_with charset_prefix value) || length raw == 0)
      (λ empty e. cc) (λ body. decode_pieces-ne _ (read_pieces-Ends (length raw) raw (omega arith)))
