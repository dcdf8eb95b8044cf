-- ===== src/Prelude/Table.antt =====
-- Tables of rows with a numeric primary key, as one transaction reads and writes them.
use Prim.Native.Nat.{ℕ, suc}
use mathlib.Core.Bool.{Bool}
use mathlib.Core.Option.{Option, none, some}
use mathlib.Core.List.{List, [], ◌∷◌, map}
use fetch_now.Prelude.Tests.{if◌then◌else◌, ◌==◌}
use fetch_now.Prelude.Outcome.{Result, ok, ◌>>=◌}

module _ {A : Type 0} where
  -- `UPDATE ... SET f WHERE p`
  unfoldable pub update_where : (A → Bool) → (A → A) → List A → List A
  update_where p f [] = []
  update_where p f (x ∷ xs) = (if p x then f x else x) ∷ update_where p f xs

  -- The rowcount of such an UPDATE.
  unfoldable pub count_where : (A → Bool) → List A → ℕ
  count_where p [] = 0
  count_where p (x ∷ xs) = if p x then suc (count_where p xs) else count_where p xs

  -- The first row that satisfies the test.
  unfoldable pub find : (A → Bool) → List A → Option A
  find p [] = none
  find p (x ∷ xs) = let rest = find p xs in if p x then some x else rest

  -- `ORDER BY` for the order that `before` tests: insertion sort.
  unfoldable pub insert_sorted : (A → A → Bool) → A → List A → List A
  insert_sorted before x [] = x ∷ []
  insert_sorted before x (y ∷ ys) =
      let rest = insert_sorted before x ys in if before x y then x ∷ y ∷ ys else y ∷ rest

  unfoldable pub order_by : (A → A → Bool) → List A → List A
  order_by before [] = []
  order_by before (x ∷ xs) = insert_sorted before x (order_by before xs)

module _ {E A B : Type 0} where
  -- A `for` loop whose body may raise; it collects the bodies' results.
  unfoldable pub for_each : (A → Result E B) → List A → Result E (List B)
  for_each body [] = ok []
  for_each body (x ∷ xs) = do y ← body x; ys ← for_each body xs; ok (y ∷ ys)

module _ {A : Type 0} (id_of : A → ℕ) where
  -- The version of a row after the session has flushed the rows that it changed.
  unfoldable pub latest : List A → A → A
  latest [] r = r
  latest (c ∷ cs) r = if id_of c == id_of r then c else latest cs r

  -- `session.flush()`: an UPDATE by primary key for each changed row.
  unfoldable pub flush : List A → List A → List A
  unfolding latest
  flush changed t = map (latest changed) t
