-- ===== src/Quota/Admission/Limit.antt =====
-- An admission keeps to the limit, and tells the status of the table that it leaves.
use fetch_now.Prelude.{
  ℕ, ◌+◌, ◌-◌, ◌≤◌, ◌<◌, ◌≡◌, refl, ap, ◌∙◌, subst, inl, inr, Bool, false, none, List, [], ◌∷◌,
  ◌++◌, arith, ltb, leb, if◌then◌else◌, Bool-cases, count_where, >>=-eq-ok, ok-injective, ok,
}
use fetch_now.Quota.Model.{QuotaEntry}
use fetch_now.Quota.Admission.{
  FreeStatus, after_reservation, admit_free, status_locked, is_used, is_held, used, held, new_entry,
  reserve_locked,
}

count_where-append_one :
    (p : QuotaEntry → Bool) (t : List QuotaEntry) (e : QuotaEntry)
    → count_where p (t ++ e ∷ []) ≡ count_where p t + (if p e then 1 else 0)
unfolding count_where
count_where-append_one p [] e = ground arith
count_where-append_one p (x ∷ t) e = ground (arith, count_where-append_one p t e)

used-reserved :
    (fresh client job now expires_at window : ℕ) (t : List QuotaEntry)
    → used client now window (t ++ new_entry fresh client job now expires_at ∷ [])
      ≡ used client now window t
unfolding used is_used new_entry
used-reserved fresh client job now expires_at window t = ground (
  arith,
  count_where-append_one (is_used client now window) t (new_entry fresh client job now expires_at),
)

held-reserved :
    (fresh client job now expires_at : ℕ) (t : List QuotaEntry)
    → now < expires_at
    → held client now (t ++ new_entry fresh client job now expires_at ∷ []) ≡ held client now t + 1
unfolding held is_held new_entry
held-reserved fresh client job now expires_at t h = ground (
  arith,
  count_where-append_one (is_held client now) t (new_entry fresh client job now expires_at),
)

reserve_locked-ok :
    (fresh client job now expires_at : ℕ) (t : List QuotaEntry) {u : List QuotaEntry}
    → reserve_locked fresh client job now expires_at t ≡ ok u
    → (now < expires_at) × (t ++ new_entry fresh client job now expires_at ∷ [] ≡ u)
unfolding reserve_locked
reserve_locked-ok fresh client job now expires_at t h = ground arith

remaining :
    (client now limit window : ℕ) (t : List QuotaEntry)
    → (status_locked client now limit window t).downloads_remaining
      ≡ limit - used client now window t - held client now t
unfolding status_locked
remaining client now limit window t = refl

room :
    (fresh client job expires_at now limit window : ℕ) (t : List QuotaEntry) {status : FreeStatus}
    {u : List QuotaEntry}
    → admit_free fresh client job expires_at now limit window t ≡ ok (status, u)
    → (used client now window t + held client now t < limit)
      × (reserve_locked fresh client job now expires_at t ≡ ok u)
      × (after_reservation (status_locked client now limit window t) ≡ status)
unfolding admit_free
room fresh client job expires_at now limit window t h =
    let before = status_locked client now limit window t in
    elim (Bool-cases (ltb before.downloads_remaining 1)) [
      | inl d ↦ cc (rw d at h)
      | inr d ↦
          let (v, e, g) =
            >>=-eq-ok (reserve_locked fresh client job now expires_at t)
              (λ v. ok (after_reservation before, v)) (rw d at h) in
          let same = ok-injective g in
          (
            ground (arith, d, remaining client now limit window t),
            e ∙ ap ok (ap (λ p. p.1) same),
            ap (λ p. p.0) same,
          )
    ]

same_status :
    (client now limit window : ℕ) (t u : List QuotaEntry)
    → used client now window t + held client now t < limit
    → used client now window u ≡ used client now window t
    → held client now u ≡ held client now t + 1
    → status_locked client now limit window u
      ≡ after_reservation (status_locked client now limit window t)
unfolding status_locked after_reservation
same_status client now limit window t u h e k =
    let spare : leb limit (used client now window t) ≡ false = ground arith in
    rw (e, k, spare)
      (ap
        (λ r. record {
          download_limit = limit;
          downloads_used = used client now window t;
          downloads_reserved = held client now t + 1;
          downloads_remaining = r;
          reset_at = none;
          window = window;
        })
        (omega arith))

-- An admission at the tier "free" that succeeds, on a table of quota entries: after it the downloads
-- used in the window and the reservations held at that time are at most the limit, the table has one
-- entry more, and the status returned is the one that `status_locked` computes from the new table.
pub admit_free_lem :
    (fresh client job expires_at now limit window : ℕ) (t : List QuotaEntry) {status : FreeStatus}
    {u : List QuotaEntry}
    → admit_free fresh client job expires_at now limit window t ≡ ok (status, u)
    → (used client now window u + held client now u ≤ limit)
      × (t ++ new_entry fresh client job now expires_at ∷ [] ≡ u)
      × (status_locked client now limit window u ≡ status)
admit_free_lem fresh client job expires_at now limit window t {status} {u} h =
    let (low, stored, told) = room fresh client job expires_at now limit window t h in
    let (later, same) = reserve_locked-ok fresh client job now expires_at t stored in
    let same_used : used client now window u ≡ used client now window t =
      subst (λ v. used client now window v ≡ used client now window t) same
        (used-reserved fresh client job now expires_at window t) in
    let one_more : held client now u ≡ held client now t + 1 =
      subst (λ v. held client now v ≡ held client now t + 1) same
        (held-reserved fresh client job now expires_at t later) in
    (
      omega (arith, low, same_used, one_more),
      same,
      same_status client now limit window t u low same_used one_more ∙ told,
    )
