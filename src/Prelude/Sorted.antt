-- ===== src/Prelude/Sorted.antt =====
-- What sorting, cutting and searching keep of a list.
use Prim.Native.Nat.{ℕ, zero, suc, ◌≤◌}
use mathlib.Core.Path.{◌≡◌}
use mathlib.Core.Logic.{inl, inr}
use mathlib.Core.Bool.{Bool, false}
use mathlib.Core.Option.{none}
use mathlib.Core.List.{List, [], ◌∷◌}
use native.Mathlib.Omega.{arith}
use fetch_now.Prelude.Tests.{if-holds, if-cases, Bool-cases, leb, leb→le}
use fetch_now.Prelude.Lists.{take, length}
use fetch_now.Prelude.Table.{insert_sorted, order_by, find}
use fetch_now.Prelude.Rows.{All, All-take, All-insert_sorted, All-order_by, All-weaken, Distinct}

-- Sorting keeps rows apart where telling apart is symmetric.
Distinct-insert :
    {A : Type 0} (D : A → A → Type 0) (before : A → A → Bool)
    → ((x y : A) → D x y → D y x)
    → (x : A) (ys : List A) → All (D x) ys
    → Distinct D ys
    → Distinct D (insert_sorted before x ys)
unfolding insert_sorted
Distinct-insert D before flip x [] h k = (tt, tt)
Distinct-insert D before flip x (y ∷ ys) h k =
    if-holds (Distinct D) (before x y) (λ first. (h, k))
      (λ later. (
        All-insert_sorted (D y) before x ys (flip x y h.0) k.0,
        Distinct-insert D before flip x ys h.1 k.1,
      ))

pub Distinct-order_by :
    {A : Type 0} (D : A → A → Type 0) (before : A → A → Bool)
    → ((x y : A) → D x y → D y x)
    → (xs : List A) → Distinct D xs
    → Distinct D (order_by before xs)
unfolding order_by
Distinct-order_by D before flip [] h = tt
Distinct-order_by D before flip (x ∷ xs) h =
    Distinct-insert D before flip x (order_by before xs) (All-order_by (D x) before xs h.0)
      (Distinct-order_by D before flip xs h.1)

pub Distinct-take :
    {A : Type 0} (D : A → A → Type 0) (n : ℕ) (xs : List A) → Distinct D xs → Distinct D (take n xs)
Distinct-take D zero xs h = tt
Distinct-take D (suc n) [] h = tt
Distinct-take D (suc n) (x ∷ xs) h = (All-take (D x) n xs h.0, Distinct-take D n xs h.1)

pub length-take : {A : Type 0} (n : ℕ) (xs : List A) → length (take n xs) ≤ n
length-take zero xs = omega arith
length-take (suc n) [] = omega arith
length-take (suc n) (x ∷ xs) = let rest = length-take n xs in omega arith

pub find-none :
    {A : Type 0} (p : A → Bool) (xs : List A) → find p xs ≡ none → All (λ x. p x ≡ false) xs
unfolding find
find-none p [] h = tt
find-none p (x ∷ xs) h = elim (if-cases (p x) _ _ h) [
  | inl (hit, e) ↦ cc
  | inr (miss, e) ↦ (miss, find-none p xs e)
]

-- A list sorted by a key: each element's key is at most that of every later one.
module _ {A : Type 0} (key : A → ℕ) where
  sorted-insert :
      (x : A) (ys : List A)
      → Distinct (λ a b. key a ≤ key b) ys
      → Distinct (λ a b. key a ≤ key b) (insert_sorted (λ a b. leb (key a) (key b)) x ys)
  unfolding insert_sorted
  sorted-insert x [] h = (tt, tt)
  sorted-insert x (y ∷ ys) h = elim (Bool-cases (leb (key x) (key y))) [
    | inl e ↦
        let low = leb→le (key x) (key y) e in
        rw (e) ((low, All-weaken _ _ ys h.0 (λ z le. omega arith)), h)
    | inr e ↦
        let high : key y ≤ key x = ground arith in
        rw (e) (
          All-insert_sorted (λ z. key y ≤ key z) (λ a b. leb (key a) (key b)) x ys high h.0,
          sorted-insert x ys h.1,
        )
  ]

  pub sorted-order_by :
      (xs : List A) → Distinct (λ a b. key a ≤ key b) (order_by (λ a b. leb (key a) (key b)) xs)
  unfolding order_by
  sorted-order_by [] = tt
  sorted-order_by (x ∷ xs) =
      sorted-insert x (order_by (λ a b. leb (key a) (key b)) xs) (sorted-order_by xs)
