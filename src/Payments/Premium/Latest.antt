-- ===== src/Payments/Premium/Latest.antt =====
-- Premium lasts as long as the last of the client's windows that are open.
use fetch_now.Prelude.{
  ℕ, ◌≤◌, ◌≡◌, refl, sym, ◌∙◌, subst, ◌⊎◌, inl, inr, Bool, true, false, Option, none, some, List,
  [], ◌∷◌, arith, leb, if◌then◌else◌, leb→le, Bool-cases, is_some, if-holds, insert_sorted,
  order_by, keep, any, All, All-weaken, All-insert_sorted,
}
use fetch_now.Payments.Model.{PremiumEntitlement}
use fetch_now.Payments.Premium.{
  is_active_for, first, ends_later, get_active_for_client, capability_from_entitlement,
}

-- The time is at most the one given, if one is given.
abbrev pub Until : ℕ → Option ℕ → Type 0
Until t none = ⊥
Until t (some end) = t ≤ end

abbrev pub end_of : Option PremiumEntitlement → Option ℕ
end_of none = none
end_of (some e) = some e.expires_at

abbrev IsFirst : List PremiumEntitlement → Type 0
IsFirst rows = All (λ r. Until r.expires_at (end_of (first rows))) rows

IsFirst-insert_sorted :
    (e : PremiumEntitlement) (rows : List PremiumEntitlement)
    → IsFirst rows
    → IsFirst (insert_sorted ends_later e rows)
unfolding insert_sorted
IsFirst-insert_sorted e [] h = (omega arith, tt)
IsFirst-insert_sorted e (f ∷ rows) h =
    if-holds IsFirst (ends_later e f)
      (λ later.
        let bound = leb→le f.expires_at e.expires_at later in
        (
          omega arith,
          (
            bound,
            All-weaken (λ r. r.expires_at ≤ f.expires_at) (λ r. r.expires_at ≤ e.expires_at) rows
                h.1 (λ r k. omega arith),
          ),
        ))
      (λ earlier. (
        omega arith,
        All-insert_sorted (λ r. r.expires_at ≤ f.expires_at) ends_later e rows
            (shorter e.expires_at f.expires_at earlier) h.1,
      ))
  where
    shorter : (a b : ℕ) → leb b a ≡ false → a ≤ b
    shorter a b h = ground arith

IsFirst-order_by : (rows : List PremiumEntitlement) → IsFirst (order_by ends_later rows)
unfolding order_by
IsFirst-order_by [] = tt
IsFirst-order_by (e ∷ rows) =
    IsFirst-insert_sorted e (order_by ends_later rows) (IsFirst-order_by rows)

first-insert_sorted :
    (e : PremiumEntitlement) (rows : List PremiumEntitlement)
    → is_some (first (insert_sorted ends_later e rows)) ≡ true
unfolding insert_sorted
first-insert_sorted e [] = refl
first-insert_sorted e (f ∷ rows) =
    if-holds (λ (r : List PremiumEntitlement). is_some (first r) ≡ true) (ends_later e f)
      (λ later. refl) (λ earlier. refl)

chosen_first :
    (b : Bool) (e : PremiumEntitlement) (rows : List PremiumEntitlement) (found : Bool)
    → is_some (first (order_by ends_later rows)) ≡ found
    → is_some (first (order_by ends_later (if b then e ∷ rows else rows)))
      ≡ (if b then true else found)
unfolding order_by
chosen_first true e rows found h = first-insert_sorted e (order_by ends_later rows)
chosen_first false e rows found h = h

first-keep :
    (p : PremiumEntitlement → Bool) (rows : List PremiumEntitlement)
    → is_some (first (order_by ends_later (keep p rows))) ≡ any p rows
unfolding order_by
first-keep p [] = refl
first-keep p (e ∷ rows) =
    let rest = first-keep p rows in chosen_first (p e) e (keep p rows) (any p rows) rest

is_premium-some :
    (o : Option PremiumEntitlement) → (capability_from_entitlement o).is_premium ≡ is_some o
unfolding capability_from_entitlement
is_premium-some none = refl
is_premium-some (some e) = refl

expires-some :
    (o : Option PremiumEntitlement) → (capability_from_entitlement o).premium_expires_at ≡ end_of o
unfolding capability_from_entitlement
expires-some none = refl
expires-some (some e) = refl

-- Rows that a test keeps, told of all rows.
All-kept :
    (p : PremiumEntitlement → Bool) (Q : PremiumEntitlement → Type 0)
    (rows : List PremiumEntitlement)
    → All Q (keep p rows)
    → All (λ r. (p r ≡ false) ⊎ Q r) rows
All-kept p Q [] h = tt
All-kept p Q (r ∷ rows) h = elim (Bool-cases (p r)) [
  | inl e ↦
      let k = subst (λ b. All Q (if b then r ∷ keep p rows else keep p rows)) e h in
      (inr k.0, All-kept p Q rows k.1)
  | inr e ↦
      let k = subst (λ b. All Q (if b then r ∷ keep p rows else keep p rows)) e h in
      (inl e, All-kept p Q rows k)
]

All-uninserted :
    (Q : PremiumEntitlement → Type 0) (e : PremiumEntitlement) (rows : List PremiumEntitlement)
    → All Q (insert_sorted ends_later e rows)
    → Q e × All Q rows
unfolding insert_sorted
All-uninserted Q e [] h = h
All-uninserted Q e (f ∷ rows) h = elim (Bool-cases (ends_later e f)) [
  | inl b ↦ subst (λ t. All Q (if t then e ∷ f ∷ rows else f ∷ insert_sorted ends_later e rows)) b h
  | inr b ↦
      let k =
        subst (λ t. All Q (if t then e ∷ f ∷ rows else f ∷ insert_sorted ends_later e rows)) b h in
      let rest = All-uninserted Q e rows k.1 in (rest.0, (k.0, rest.1))
]

All-unsorted :
    (Q : PremiumEntitlement → Type 0) (rows : List PremiumEntitlement)
    → All Q (order_by ends_later rows)
    → All Q rows
unfolding order_by
All-unsorted Q [] h = tt
All-unsorted Q (e ∷ rows) h =
    let both = All-uninserted Q e (order_by ends_later rows) h in
    (both.0, All-unsorted Q rows both.1)

-- A client has Premium exactly while the window of one of its entitlements contains the time, and
-- then until no earlier than the end of any of the windows that do.
pub capability_from_entitlement-get_active_for_client :
    (client now : ℕ) (rows : List PremiumEntitlement)
    → ((capability_from_entitlement (get_active_for_client client now rows)).is_premium
        ≡ any (is_active_for client now) rows)
      × All
          (λ r.
            (is_active_for client now r ≡ false)
            ⊎ Until r.expires_at
                (capability_from_entitlement
                  (get_active_for_client client now rows)).premium_expires_at)
          rows
unfolding get_active_for_client
capability_from_entitlement-get_active_for_client client now rows =
    let p = is_active_for client now in
    let chosen = first (order_by ends_later (keep p rows)) in
    (
      is_premium-some chosen ∙ first-keep p rows,
      subst (λ o. All (λ r. (p r ≡ false) ⊎ Until r.expires_at o) rows) (sym (expires-some chosen))
          (All-kept p (λ r. Until r.expires_at (end_of chosen)) rows
            (All-unsorted (λ r. Until r.expires_at (end_of chosen)) (keep p rows)
              (IsFirst-order_by (keep p rows)))),
    )
