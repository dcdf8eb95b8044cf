-- ===== src/Texts.antt =====
-- Lemmas on the tests of texts that several parts share.
use fetch_now.Prelude.{
  ap₂, ℕ, ◌≡◌, refl, sym, subst, inl, inr, Bool, true, false, not, ◌&&◌, List, [], ◌∷◌, ◌++◌, arith,
  ltb, ◌==◌, if◌then◌else◌, ==→eq, and_true, if-cases, any,
}
use fetch_now.Delivery.RangeParse.{all_of}
use fetch_now.Payments.Signature.{same_text}

abbrev pub is_byte : ℕ → Bool
is_byte b = ltb b 256

pub all_of-append :
    (p : ℕ → Bool) (a b : List ℕ) → all_of p a ≡ true → all_of p b ≡ true → all_of p (a ++ b) ≡ true
all_of-append p [] b h k = k
all_of-append p (x ∷ a) b h k =
    rw ((and_true (p x) (all_of p a) h).0, all_of-append p a b (and_true (p x) (all_of p a) h).1 k)
      refl

pub same_text-eq : (s t : List ℕ) → same_text s t ≡ true → s ≡ t
same_text-eq [] [] h = refl
same_text-eq (a ∷ s) (b ∷ t) h =
    let both = and_true (a == b) (same_text s t) h in
    ap₂ ◌∷◌ (==→eq a b both.0) (same_text-eq s t both.1)
same_text-eq [] (b ∷ t) h = cc
same_text-eq (a ∷ s) [] h = cc

not_any :
    (p : ℕ → Bool) (t : List ℕ) (rest : Bool)
    → (if not (all_of p t) then true else rest) ≡ false
    → (all_of p t ≡ true) × (rest ≡ false)
not_any p t rest h = ground arith

pub any-same_text :
    (p : ℕ → Bool) (s : List ℕ) (list : List (List ℕ))
    → any (same_text s) list ≡ true
    → any (λ t. not (all_of p t)) list ≡ false
    → all_of p s ≡ true
any-same_text p s [] h k = cc
any-same_text p s (t ∷ list) h k = elim (if-cases (same_text s t) true (any (same_text s) list) h) [
  | inl (same, e) ↦
      subst (λ r. all_of p r ≡ true) (sym (same_text-eq s t same))
        (not_any p t (any (λ r. not (all_of p r)) list) k).0
  | inr (other, e) ↦ any-same_text p s list e (not_any p t (any (λ r. not (all_of p r)) list) k).1
]

pub all_of-weaken :
    (p q : ℕ → Bool)
    → ((c : ℕ) → p c ≡ true → q c ≡ true)
    → (s : List ℕ) → all_of p s ≡ true
    → all_of q s ≡ true
all_of-weaken p q weaker [] h = refl
all_of-weaken p q weaker (c ∷ s) h =
    let both = and_true (p c) (all_of p s) h in
    rw (weaker c both.0, all_of-weaken p q weaker s both.1) refl

==-self : (a : ℕ) → ((a == a) && true) ≡ true
==-self a = ground arith

pub same_text_refl : (s : List ℕ) → same_text s s ≡ true
same_text_refl [] = refl
same_text_refl (a ∷ s) = rw (same_text_refl s) (==-self a)
