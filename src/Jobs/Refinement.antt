-- ===== src/Jobs/Refinement.antt =====
-- Each method of the repository moves every row by at most one step of `RowStep`, and raises only
-- where its guards say so.
use fetch_now.Prelude.{
  ℕ, String, ◌≡◌, refl, Bool, true, not, ◌&&◌, [], ◌∷◌, map, any, keep, arith, if◌then◌else◌, ok,
  and_true, All, All-keep, All-weaken, All-order_by, All-take, Memᴰ, Forall₂, Forall₂-update_where,
  Forall₂-flush, UniqueIds, for_each, flush,
}
use fetch_now.Jobs.States.{
  MediaJobState, queued, inspecting, inspected, failed, expired, value, same_state,
  allowed_transitions, assert_transition, member, raw,
}
use fetch_now.Jobs.Model.{MediaJob}
use fetch_now.Jobs.Repository.{Table, id_of, holds_lease, fenced_update}
use fetch_now.Jobs.Worker.{claimable, claim_select, claim_row, move_rows}
use fetch_now.Jobs.Reaper.{lease_expired, exhausted, reclaim_row, due_to_expire, expire_row}
use fetch_now.Jobs.RowStep.{RowStep, idle, claim, reclaim, expire}

-- An edge of the table is not refused.
assert_allowed :
    (from to : MediaJobState)
    → any (same_state to) (allowed_transitions from) ≡ true
    → assert_transition (raw (value from)) (member to) ≡ ok tt
unfolding assert_transition
assert_allowed queued to h = rw h
assert_allowed inspecting to h = rw h
assert_allowed inspected to h = rw h
assert_allowed failed to h = rw h
assert_allowed expired to h = cc

module _ {Json : Type 0} where
  abbrev pub Steps : Table Json → Table Json → Type 0
  Steps = Forall₂ RowStep

  pub fenced_update-Steps :
      (clock job_id : ℕ) (owner : String) (fence : ℕ) (set : MediaJob Json → MediaJob Json)
      (t : Table Json)
      → ((j : MediaJob Json) → holds_lease clock job_id owner fence j ≡ true → RowStep j (set j))
      → Steps t (fenced_update clock job_id owner fence set t).1
  unfolding fenced_update
  fenced_update-Steps clock job_id owner fence set t h =
      Forall₂-update_where RowStep (holds_lease clock job_id owner fence) set t h (λ j. idle)

  move_rows-eq-map :
      (target : MediaJob Json → MediaJobState) (change : MediaJob Json → MediaJob Json)
      (rows : Table Json)
      → All (λ j. any (same_state (target j)) (allowed_transitions j.public_state) ≡ true) rows
      → move_rows target change rows ≡ ok (map change rows)
  unfolding move_rows for_each
  move_rows-eq-map target change [] h = refl
  move_rows-eq-map target change (j ∷ rows) h =
      rw (assert_allowed j.public_state (target j) h.0, move_rows-eq-map target change rows h.1)

  -- The rows that a claim selects may be claimed.
  claim_select-All :
      (clock : ℕ) (locked : ℕ → Bool) (limit : ℕ) (t : Table Json)
      → All (λ j. Memᴰ j t × (claimable clock j ≡ true)) (claim_select clock locked limit t)
  unfolding claim_select
  claim_select-All clock locked limit t =
      All-take _ limit _ (All-order_by _ _ _ (All-keep _ _ t (λ j m e. (m, (and_true _ _ e).0))))

  claim_edge :
      (clock : ℕ) (j : MediaJob Json)
      → claimable clock j ≡ true
      → any (same_state inspecting) (allowed_transitions j.public_state) ≡ true
  unfolding claimable
  claim_edge clock j h = ground arith

  -- The loop of a claim runs to its end.
  pub claim_loop :
      (clock : ℕ) (locked : ℕ → Bool) (worker : String) (lease now limit : ℕ) (t : Table Json)
      → move_rows (λ _. inspecting) (claim_row worker lease now) (claim_select clock locked limit t)
        ≡ ok (map (claim_row worker lease now) (claim_select clock locked limit t))
  claim_loop clock locked worker lease now limit t =
      move_rows-eq-map _ _ _
        (All-weaken _ _ _ (claim_select-All clock locked limit t) (λ j h. claim_edge clock j h.1))

  reclaim_edge :
      (clock : ℕ) (j : MediaJob Json)
      → lease_expired clock j ≡ true
      → any
          (same_state (if exhausted j then failed else queued))
          (allowed_transitions j.public_state)
        ≡ true
  unfolding lease_expired exhausted
  reclaim_edge clock j h = ground arith

  expire_edge :
      (clock : ℕ) (j : MediaJob Json)
      → due_to_expire clock j ≡ true
      → any (same_state expired) (allowed_transitions j.public_state) ≡ true
  unfolding due_to_expire
  expire_edge clock j h = ground arith

  -- The rows that a `FOR UPDATE SKIP LOCKED` select takes.
  pub selected :
      (p : MediaJob Json → Bool) (locked : ℕ → Bool) (t : Table Json)
      → All (λ j. Memᴰ j t × (p j ≡ true)) (keep (λ j. p j && not (locked j.id)) t)
  selected p locked t = All-keep _ _ t (λ j m e. (m, (and_true _ _ e).0))

  pub reclaim_loop :
      (clock : ℕ) (locked : ℕ → Bool) (now : ℕ) (t : Table Json)
      → (let jobs = keep (λ j. lease_expired clock j && not (locked j.id)) t in
          move_rows (λ j. if exhausted j then failed else queued) (reclaim_row now) jobs
          ≡ ok (map (reclaim_row now) jobs))
  reclaim_loop clock locked now t =
      move_rows-eq-map _ _ _ (
        All-weaken _ _ _ (selected (lease_expired clock) locked t)
          (λ j h. reclaim_edge clock j h.1))

  pub expire_loop :
      (clock : ℕ) (locked : ℕ → Bool) (now : ℕ) (t : Table Json)
      → (let jobs = keep (λ j. due_to_expire clock j && not (locked j.id)) t in
          move_rows (λ _. expired) (expire_row now) jobs ≡ ok (map (expire_row now) jobs))
  expire_loop clock locked now t =
      move_rows-eq-map _ _ _ (
        All-weaken _ _ _ (selected (due_to_expire clock) locked t) (λ j h. expire_edge clock j h.1))

  -- Writing back the changed versions of selected rows moves every row by at most one step.
  flush-Steps :
      (change : MediaJob Json → MediaJob Json) (p : MediaJob Json → Bool) (t sel : Table Json)
      → ((j : MediaJob Json) → (change j).id ≡ j.id)
      → UniqueIds id_of t
      → All (λ j. Memᴰ j t × (p j ≡ true)) sel
      → ((j : MediaJob Json) → p j ≡ true → RowStep j (change j))
      → Steps t (flush id_of (map change sel) t)
  flush-Steps change p t sel same u h hit =
      Forall₂-flush id_of RowStep change p t sel same u h hit (λ j. idle)

  pub claim-Steps :
      (clock : ℕ) (locked : ℕ → Bool) (worker : String) (lease now limit : ℕ) (t : Table Json)
      → UniqueIds id_of t
      → Steps t
          (flush id_of (map (claim_row worker lease now) (claim_select clock locked limit t)) t)
  claim-Steps clock locked worker lease now limit t u =
      flush-Steps _ (claimable clock) t _ (λ j. unfold claim_row in refl) u
        (claim_select-All clock locked limit t) (λ j h. claim clock worker lease now h)

  pub reclaim-Steps :
      (clock : ℕ) (locked : ℕ → Bool) (now : ℕ) (t : Table Json)
      → UniqueIds id_of t
      → Steps t (
          flush id_of
            (map (reclaim_row now) (keep (λ j. lease_expired clock j && not (locked j.id)) t))
            t)
  reclaim-Steps clock locked now t u =
      flush-Steps _ (lease_expired clock) t _ (λ j. unfold reclaim_row in refl) u
        (selected (lease_expired clock) locked t) (λ j h. reclaim clock now h)

  pub expire-Steps :
      (clock : ℕ) (locked : ℕ → Bool) (now : ℕ) (t : Table Json)
      → UniqueIds id_of t
      → Steps t (
          flush id_of
            (map (expire_row now) (keep (λ j. due_to_expire clock j && not (locked j.id)) t))
            t)
  expire-Steps clock locked now t u =
      flush-Steps _ (due_to_expire clock) t _ (λ j. unfold expire_row in refl) u
        (selected (due_to_expire clock) locked t) (λ j h. expire clock now h)
