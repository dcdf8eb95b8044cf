-- ===== src/Prelude/Members.antt =====
-- Membership through sorting, cutting, selecting and conditional updates.
use Prim.Native.Nat.{ℕ, zero, suc}
use mathlib.Core.Path.{◌≡◌, refl, sym, subst}
use mathlib.Core.Logic.{◌⊎◌, inl, inr}
use mathlib.Core.Bool.{Bool, true, false}
use mathlib.Core.List.{List, [], ◌∷◌, Memᴰ}
use fetch_now.Prelude.Tests.{if-holds, if-cases, Bool-cases}
use fetch_now.Prelude.Lists.{take, keep, any}
use fetch_now.Prelude.Table.{insert_sorted, order_by, update_where}
use fetch_now.Prelude.Rows.{All-Memᴰ, Distinct}

module _ {A : Type 0} where
  -- An element that is cut off comes after all that are taken.
  pub take-before :
      (D : A → A → Type 0) (n : ℕ) (xs : List A) {x y : A}
      → Distinct D xs
      → Memᴰ x (take n xs)
      → Memᴰ y xs
      → ¬ Memᴰ y (take n xs)
      → D x y
  take-before D zero xs h m k out = elim m [ ]
  take-before D (suc n) [] h m k out = elim m [ ]
  take-before D (suc n) (z ∷ xs) h m (Memᴰ.head e) out = absurd (out (Memᴰ.head e))
  take-before D (suc n) (z ∷ xs) {x} {y} h (Memᴰ.head e) (Memᴰ.tail k) out =
      subst (λ w. D w y) (sym e) (All-Memᴰ (D z) xs k h.0)
  take-before D (suc n) (z ∷ xs) h (Memᴰ.tail m) (Memᴰ.tail k) out =
      take-before D n xs h.1 m k (λ q. out (Memᴰ.tail q))

  Memᴰ-insert_sorted :
      (before : A → A → Bool) (x : A) (ys : List A) {z : A}
      → Memᴰ z (x ∷ ys)
      → Memᴰ z (insert_sorted before x ys)
  unfolding insert_sorted
  Memᴰ-insert_sorted before x [] m = m
  Memᴰ-insert_sorted before x (y ∷ ys) {z} (Memᴰ.head e) =
      let rest = Memᴰ-insert_sorted before x ys (Memᴰ.head e) in
      if-holds (Memᴰ z) (before x y) (λ first. Memᴰ.head e) (λ later. Memᴰ.tail rest)
  Memᴰ-insert_sorted before x (y ∷ ys) {z} (Memᴰ.tail (Memᴰ.head e)) =
      if-holds (Memᴰ z) (before x y) (λ first. Memᴰ.tail (Memᴰ.head e)) (λ later. Memᴰ.head e)
  Memᴰ-insert_sorted before x (y ∷ ys) {z} (Memᴰ.tail (Memᴰ.tail k)) =
      let rest = Memᴰ-insert_sorted before x ys (Memᴰ.tail k) in
      if-holds (Memᴰ z) (before x y) (λ first. Memᴰ.tail (Memᴰ.tail k)) (λ later. Memᴰ.tail rest)

  pub Memᴰ-order_by :
      (before : A → A → Bool) (xs : List A) {z : A} → Memᴰ z xs → Memᴰ z (order_by before xs)
  unfolding order_by
  Memᴰ-order_by before [] m = elim m [ ]
  Memᴰ-order_by before (x ∷ xs) (Memᴰ.head e) = Memᴰ-insert_sorted before x _ (Memᴰ.head e)
  Memᴰ-order_by before (x ∷ xs) (Memᴰ.tail m) =
      Memᴰ-insert_sorted before x _ (Memᴰ.tail (Memᴰ-order_by before xs m))

  pub Memᴰ-keep : (p : A → Bool) (xs : List A) {z : A} → Memᴰ z xs → p z ≡ true → Memᴰ z (keep p xs)
  Memᴰ-keep p [] m h = elim m [ ]
  Memᴰ-keep p (x ∷ xs) {z} (Memᴰ.head e) h =
      let hit : p x ≡ true = subst (λ w. p w ≡ true) e h in rw (hit) (Memᴰ.head e)
  Memᴰ-keep p (x ∷ xs) {z} (Memᴰ.tail m) h =
      if-holds (Memᴰ z) (p x) (λ c. Memᴰ.tail (Memᴰ-keep p xs m h)) (λ c. Memᴰ-keep p xs m h)

  -- A row that a conditional UPDATE does not address stays.
  pub Memᴰ-update_where :
      (q : A → Bool) (f : A → A) (xs : List A) {z : A}
      → Memᴰ z xs
      → q z ≡ false
      → Memᴰ z (update_where q f xs)
  unfolding update_where
  Memᴰ-update_where q f [] m h = elim m [ ]
  Memᴰ-update_where q f (x ∷ xs) (Memᴰ.head e) h =
      let miss : q x ≡ false = subst (λ w. q w ≡ false) e h in rw (miss) (Memᴰ.head e)
  Memᴰ-update_where q f (x ∷ xs) (Memᴰ.tail m) h = Memᴰ.tail (Memᴰ-update_where q f xs m h)

  -- A row after a conditional UPDATE was not addressed, or is a changed row.
  pub update_where-cases :
      (q : A → Bool) (f : A → A) (xs : List A) {z : A}
      → Memᴰ z (update_where q f xs)
      → Memᴰ z xs × (q z ≡ false) ⊎ (x : A) × (z ≡ f x)
  unfolding update_where
  update_where-cases q f [] m = elim m [ ]
  update_where-cases q f (x ∷ xs) {z} (Memᴰ.head e) = elim (Bool-cases (q x)) [
    | inl hit ↦ inr (x, rw hit at e)
    | inr miss ↦
        let same : z ≡ x = rw miss at e in
        inl (Memᴰ.head same, subst (λ w. q w ≡ false) (sym same) miss)
  ]
  update_where-cases q f (x ∷ xs) (Memᴰ.tail m) = elim (update_where-cases q f xs m) [
    | inl (k, miss) ↦ inl (Memᴰ.tail k, miss)
    | inr made ↦ inr made
  ]

  pub any-found :
      (p : A → Bool) (xs : List A) → any p xs ≡ true → (x : A) × Memᴰ x xs × (p x ≡ true)
  any-found p [] h = cc
  any-found p (x ∷ xs) h = elim (if-cases (p x) _ _ h) [
    | inl (hit, e) ↦ (x, Memᴰ.head refl, hit)
    | inr (miss, e) ↦ let (y, m, hit) = any-found p xs e in (y, Memᴰ.tail m, hit)
  ]
