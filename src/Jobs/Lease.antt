-- ===== src/Jobs/Lease.antt =====
-- A lease through any transactions (backend/src/fetchnow/jobs/repository.py).
use fetch_now.Prelude.{◌≡◌, ◌∙◌, refl, subst, ◌⊎◌, inl, inr, List, Memᴰ}
use fetch_now.Jobs.States.{inspecting}
use fetch_now.Jobs.Model.{MediaJob}
use fetch_now.Jobs.Repository.{Table}
use fetch_now.Jobs.RowLaws.{Lost, Lost-step, lease-step}
use fetch_now.Jobs.History.{Call, history}
use fetch_now.Jobs.Invariants.{IsConsistent, history-IsConsistent}
use fetch_now.Jobs.RowHistory.{RowReach, here, next, history-RowReach, SameRequest-reach}
use fetch_now.Jobs.Fencing.{LeaseLost, history-LeaseLost}

module _ {Json : Type 0} where
  -- The lease of `j` stands in `k`: the same worker holds it under the same fence token.
  pub record SameLease (j k : MediaJob Json) : Type 0 where
    pub state : k.public_state ≡ inspecting
    pub owner : k.lease_owner ≡ j.lease_owner
    pub fence : k.fence_token ≡ j.fence_token

  lease-reach :
      {j k : MediaJob Json}
      → RowReach j k
      → j.public_state ≡ inspecting
      → SameLease j k ⊎ Lost j.fence_token k
  lease-reach here h = inl (record { state = h; owner = refl; fence = refl })
  lease-reach {k = l} (next r s) h = elim (lease-reach r h) [
    | inl held ↦ elim (lease-step s held.state) [
      | inl (state, owner, fence) ↦
          inl (record { state = state; owner = owner ∙ held.owner; fence = fence ∙ held.fence })
      | inr lost ↦ inr (subst (λ f. Lost f l) held.fence lost)
    ]
    | inr lost ↦ inr (Lost-step s lost)
  ]

  -- Take a consistent table and a job in it that is leased. After any further transactions the job is
  -- there, and either the same worker still holds it under the same fence token, or that lease is over
  -- for good: through all transactions that follow, the token has moved on or the job is not leased.
  pub lease_is_kept_or_over :
      (cs : List (Call Json)) (t : Table Json) (j : MediaJob Json)
      → IsConsistent t
      → Memᴰ j t
      → j.public_state ≡ inspecting
      → (k : MediaJob Json) × Memᴰ k (history cs t)
        × (k.id ≡ j.id)
        × (SameLease j k
            ⊎ ((ds : List (Call Json)) → LeaseLost j.id j.fence_token (history ds (history cs t))))
  lease_is_kept_or_over cs t j c m leased =
      let (k, n, r) = history-RowReach cs t c m in
      let same = (SameRequest-reach r).id in
      (
        k,
        n,
        same,
        elim (lease-reach r leased) [
          | inl held ↦ inl held
          | inr lost ↦ inr (λ ds.
              history-LeaseLost ds (history cs t) (history-IsConsistent cs t c)
                (record { row = k; here = n; named = same; lost = lost }))
        ],
      )
