-- ===== src/Prelude/Rows.antt =====
-- Predicates on the rows of a table, and relations between two versions of it.
use Prim.Native.Nat.{ℕ, zero, suc}
use mathlib.Core.Path.{◌≡◌, refl, sym, ap, ◌∙◌, subst}
use mathlib.Core.Logic.{◌≢◌, ◌⊎◌, inl, inr}
use mathlib.Core.Bool.{Bool, true, false}
use mathlib.Core.List.{List, [], ◌∷◌, ◌++◌, map, Memᴰ, Forall₂}
use native.Mathlib.Omega.{arith}
use fetch_now.Prelude.Tests.{◌==◌, Bool-cases, ==→eq}
use fetch_now.Prelude.Lists.{keep, take, any}
use fetch_now.Prelude.Table.{update_where, insert_sorted, order_by, latest, flush}

module _ {ℓ} {A : Type ℓ} where
  abbrev pub All {κ} : (A → Type κ) → List A → Type κ
  All P [] = Unit
  All P (x ∷ xs) = P x × All P xs

  pub All-Memᴰ {κ} : (P : A → Type κ) (xs : List A) {x : A} → Memᴰ x xs → All P xs → P x
  All-Memᴰ P [] m h = elim m [ ]
  All-Memᴰ P (y ∷ ys) (Memᴰ.head e) h = subst P (sym e) h.0
  All-Memᴰ P (y ∷ ys) (Memᴰ.tail m) h = All-Memᴰ P ys m h.1

  pub All-of_Memᴰ {κ} : (P : A → Type κ) (xs : List A) → ((x : A) → Memᴰ x xs → P x) → All P xs
  All-of_Memᴰ P [] h = tt
  All-of_Memᴰ P (x ∷ xs) h = (h x (Memᴰ.head refl), All-of_Memᴰ P xs (λ y m. h y (Memᴰ.tail m)))

  pub any-eq-false : (p : A → Bool) (xs : List A) → any p xs ≡ false → All (λ x. p x ≡ false) xs
  any-eq-false p [] h = tt
  any-eq-false p (x ∷ xs) h = elim (Bool-cases (p x)) [
    | inl e ↦ cc (rw e at h)
    | inr e ↦ (e, any-eq-false p xs (rw e at h))
  ]

  pub All-append {κ} : (P : A → Type κ) (xs ys : List A) → All P xs → All P ys → All P (xs ++ ys)
  All-append P [] ys h k = k
  All-append P (x ∷ xs) ys h k = (h.0, All-append P xs ys h.1 k)

  pub All-weaken {κ μ} :
      (P : A → Type κ) (Q : A → Type μ) (xs : List A) → All P xs → ((x : A) → P x → Q x) → All Q xs
  All-weaken P Q [] h f = tt
  All-weaken P Q (x ∷ xs) h f = (f x h.0, All-weaken P Q xs h.1 f)

  pub All-take {κ} : (P : A → Type κ) (n : ℕ) (xs : List A) → All P xs → All P (take n xs)
  All-take P zero xs h = tt
  All-take P (suc n) [] h = tt
  All-take P (suc n) (x ∷ xs) h = (h.0, All-take P n xs h.1)

  -- A row that passes the test, kept in front.
  pub All-keep {κ} :
      (P : A → Type κ) (p : A → Bool) (xs : List A)
      → ((x : A) → Memᴰ x xs → p x ≡ true → P x)
      → All P (keep p xs)
  All-keep P p [] h = tt
  All-keep P p (x ∷ xs) h =
      let rest = All-keep P p xs (λ y m. h y (Memᴰ.tail m)) in
      elim (Bool-cases (p x)) [ inl e ↦ rw e (h x (Memᴰ.head refl) e, rest) | inr e ↦ rw e rest ]

module _ {A : Type 0} where
  pub All-insert_sorted {κ} :
      (P : A → Type κ) (before : A → A → Bool) (x : A) (ys : List A)
      → P x
      → All P ys
      → All P (insert_sorted before x ys)
  unfolding insert_sorted
  All-insert_sorted P before x [] px h = (px, tt)
  All-insert_sorted P before x (y ∷ ys) px h = elim (Bool-cases (before x y)) [
    | inl e ↦ rw e (px, h)
    | inr e ↦ rw e (h.0, All-insert_sorted P before x ys px h.1)
  ]

  pub All-order_by {κ} :
      (P : A → Type κ) (before : A → A → Bool) (xs : List A) → All P xs → All P (order_by before xs)
  unfolding order_by
  All-order_by P before [] h = tt
  All-order_by P before (x ∷ xs) h =
      All-insert_sorted P before x (order_by before xs) h.0 (All-order_by P before xs h.1)

  -- A conditional UPDATE relates each row to its new version.
  pub Forall₂-update_where {κ} :
      (R : A → A → Type κ) (p : A → Bool) (f : A → A) (xs : List A)
      → ((x : A) → p x ≡ true → R x (f x))
      → ((x : A) → R x x)
      → Forall₂ R xs (update_where p f xs)
  unfolding update_where
  Forall₂-update_where R p f [] hit miss = Forall₂.nil
  Forall₂-update_where R p f (x ∷ xs) hit miss =
      let rest = Forall₂-update_where R p f xs hit miss in
      elim (Bool-cases (p x)) [
        | inl e ↦ rw e (Forall₂.cons (hit x e) rest)
        | inr e ↦ rw e (Forall₂.cons (miss x) rest)
      ]

  pub Forall₂-map {κ} :
      (R : A → A → Type κ) (g : A → A) (xs : List A)
      → ((x : A) → Memᴰ x xs → R x (g x))
      → Forall₂ R xs (map g xs)
  Forall₂-map R g [] h = Forall₂.nil
  Forall₂-map R g (x ∷ xs) h =
      Forall₂.cons (h x (Memᴰ.head refl)) (Forall₂-map R g xs (λ y m. h y (Memᴰ.tail m)))

  pub Forall₂-same {κ} : (R : A → A → Type κ) (xs : List A) → ((x : A) → R x x) → Forall₂ R xs xs
  Forall₂-same R [] h = Forall₂.nil
  Forall₂-same R (x ∷ xs) h = Forall₂.cons (h x) (Forall₂-same R xs h)

  -- A property of the rows that the relation carries over, to `Q` of their new versions.
  pub All-Forall₂ {κ μ ν} :
      {R : A → A → Type κ} (P : A → Type μ) (Q : A → Type ν) {xs ys : List A}
      → ((x y : A) → R x y → P x → Q y)
      → Forall₂ R xs ys
      → All P xs
      → All Q ys
  All-Forall₂ P Q step Forall₂.nil h = tt
  All-Forall₂ P Q step (Forall₂.cons r rest) h = (step _ _ r h.0, All-Forall₂ P Q step rest h.1)

  -- Each row has a new version in the other table.
  pub Memᴰ-Forall₂ {κ} :
      {R : A → A → Type κ} {x : A} {xs ys : List A}
      → Forall₂ R xs ys
      → Memᴰ x xs
      → (y : A) × Memᴰ y ys × R x y
  Memᴰ-Forall₂ Forall₂.nil m = elim m [ ]
  Memᴰ-Forall₂ {R = R} (Forall₂.cons {b = b} r rest) (Memᴰ.head e) =
      (b, Memᴰ.head refl, subst (λ a. R a b) (sym e) r)
  Memᴰ-Forall₂ (Forall₂.cons r rest) (Memᴰ.tail m) =
      let (y, k, q) = Memᴰ-Forall₂ rest m in (y, Memᴰ.tail k, q)

  pub Memᴰ-append_left : {x : A} (xs ys : List A) → Memᴰ x xs → Memᴰ x (xs ++ ys)
  Memᴰ-append_left [] ys m = elim m [ ]
  Memᴰ-append_left (x ∷ xs) ys (Memᴰ.head e) = Memᴰ.head e
  Memᴰ-append_left (x ∷ xs) ys (Memᴰ.tail m) = Memᴰ.tail (Memᴰ-append_left xs ys m)

  -- A UNIQUE constraint: `D` tells two rows apart.
  abbrev pub Distinct {κ} : (A → A → Type κ) → List A → Type κ
  Distinct D [] = Unit
  Distinct D (x ∷ xs) = All (D x) xs × Distinct D xs

  pub Distinct-Forall₂ {κ μ} :
      {R : A → A → Type κ} (D : A → A → Type μ) {xs ys : List A}
      → ((x x' y y' : A) → R x x' → R y y' → D x y → D x' y')
      → Forall₂ R xs ys
      → Distinct D xs
      → Distinct D ys
  Distinct-Forall₂ D step Forall₂.nil h = tt
  Distinct-Forall₂ D step (Forall₂.cons {a = x} {b = x'} r rest) h = (
    All-Forall₂ (D x) (D x') (λ y y' q. step x x' y y' r q) rest h.0,
    Distinct-Forall₂ D step rest h.1,
  )

  pub Distinct-append_one {κ} :
      (D : A → A → Type κ) (xs : List A) (x : A)
      → Distinct D xs
      → All (λ y. D y x) xs
      → Distinct D (xs ++ x ∷ [])
  Distinct-append_one D [] x h k = (tt, tt)
  Distinct-append_one D (y ∷ ys) x h k =
      (All-append (D y) ys (x ∷ []) h.0 (k.0, tt), Distinct-append_one D ys x h.1 k.1)

module _ {A : Type 0} (id_of : A → ℕ) where
  -- PRIMARY KEY
  abbrev pub UniqueIds : List A → Type 0
  UniqueIds = Distinct (λ x y. id_of y ≢ id_of x)

  pub UniqueIds-eq :
      (xs : List A) {x y : A} → UniqueIds xs → Memᴰ x xs → Memᴰ y xs → id_of x ≡ id_of y → x ≡ y
  UniqueIds-eq [] u m k h = elim m [ ]
  UniqueIds-eq (z ∷ zs) u (Memᴰ.head e) (Memᴰ.head d) h = e ∙ sym d
  UniqueIds-eq (z ∷ zs) u (Memᴰ.head e) (Memᴰ.tail m) h =
      absurd (All-Memᴰ (λ y. id_of y ≢ id_of z) zs m u.0 (sym h ∙ ap id_of e))
  UniqueIds-eq (z ∷ zs) u (Memᴰ.tail m) (Memᴰ.head e) h =
      absurd (All-Memᴰ (λ y. id_of y ≢ id_of z) zs m u.0 (h ∙ ap id_of e))
  UniqueIds-eq (z ∷ zs) u (Memᴰ.tail m) (Memᴰ.tail k) h = UniqueIds-eq zs u.1 m k h

  -- A row after the flush of changed rows is unchanged, or the changed version of itself.
  pub latest-cases :
      (f : A → A) (p : A → Bool) (t sel : List A) {r : A}
      → ((x : A) → id_of (f x) ≡ id_of x)
      → UniqueIds t
      → Memᴰ r t
      → All (λ x. Memᴰ x t × (p x ≡ true)) sel
      → (latest id_of (map f sel) r ≡ r) ⊎ (latest id_of (map f sel) r ≡ f r) × (p r ≡ true)
  unfolding latest
  latest-cases f p t [] same u m h = inl refl
  latest-cases f p t (x ∷ sel) {r} same u m h = elim (Bool-cases (id_of (f x) == id_of r)) [
    | inl e ↦
        let eq : x ≡ r = UniqueIds-eq t u h.0.0 m (omega (arith, same x, ==→eq _ _ e)) in
        inr (rw e (ap f eq), subst (λ y. p y ≡ true) eq h.0.1)
    | inr e ↦ rw e (latest-cases f p t sel same u m h.1)
  ]

  pub Forall₂-flush {κ} :
      (R : A → A → Type κ) (f : A → A) (p : A → Bool) (t sel : List A)
      → ((x : A) → id_of (f x) ≡ id_of x)
      → UniqueIds t
      → All (λ x. Memᴰ x t × (p x ≡ true)) sel
      → ((x : A) → p x ≡ true → R x (f x))
      → ((x : A) → R x x)
      → Forall₂ R t (flush id_of (map f sel) t)
  unfolding flush
  Forall₂-flush R f p t sel same u h hit miss = Forall₂-map R (latest id_of (map f sel)) t λ r m.
      elim (latest-cases f p t sel same u m h) [
        | inl e ↦ subst (R r) (sym e) (miss r)
        | inr (e, q) ↦ subst (R r) (sym e) (hit r q)
      ]
