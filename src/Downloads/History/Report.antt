-- ===== src/Downloads/History/Report.antt =====
-- What a report of progress does on every stage.
use fetch_now.Prelude.{
  ℕ, String, ◌≡◌, refl, ◌∙◌, subst, ◌⊎◌, inl, inr, Bool, true, false, [], ◌∷◌, arith, Bool-cases,
  any, Result, ◌>>=◌, ◌>>◌, Result-cases, ok, err,
}
use fetch_now.Downloads.States.{downloading}
use fetch_now.Downloads.Stages
use fetch_now.Downloads.Stages.{
  DownloadProgressStage, StageArg, same_stage, terminal_progress, parse_stage, parse_progress_stage,
  check_stages, assert_progress_transition,
}
use fetch_now.Downloads.Model.{
  is_cancelled_stage, MediaDownloadJob, row_check, stages_of, request_check, lease_state_check,
  result_state_check, progress_state_check, cancel_requested_check, progress_percent_check,
}
use fetch_now.Downloads.Slot.{store, Slot, Fault, download_step}
use fetch_now.Downloads.Worker.{not_cancelled}
use fetch_now.Downloads.Progress.{move_stage, runs_for, set_progress_stage, stage_row}
use fetch_now.Downloads.Moves.Progress.{runs_for-running}
use fetch_now.Downloads.Moves.Laws.{running-eq}
use fetch_now.Downloads.Moves.{running}
use fetch_now.Downloads.Moves.Rows.{Checks-row_check, Checks, row_check-Checks}

checked_stages :
    (a b : DownloadProgressStage)
    → assert_progress_transition (StageArg.raw (Stages.value a)) (StageArg.member b)
      ≡ check_stages a b
unfolding assert_progress_transition parse_progress_stage parse_stage
checked_stages Stages.queued b = refl
checked_stages Stages.inspecting b = refl
checked_stages Stages.downloading_video b = refl
checked_stages Stages.downloading_audio b = refl
checked_stages Stages.muxing b = refl
checked_stages Stages.verifying b = refl
checked_stages Stages.publishing b = refl
checked_stages Stages.ready b = refl
checked_stages Stages.retrying b = refl
checked_stages Stages.failed b = refl
checked_stages Stages.cancelled b = refl
checked_stages Stages.expired b = refl

not_cancelled_stage :
    (target : DownloadProgressStage)
    → any (same_stage target) (stages_of downloading) ≡ true
    → is_cancelled_stage target ≡ false
not_cancelled_stage target h = ground arith

kept_percent :
    (target : DownloadProgressStage) (now : ℕ) (j : MediaDownloadJob)
    → progress_percent_check j ≡ true
    → progress_percent_check (stage_row target now j) ≡ true
unfolding stage_row progress_percent_check
kept_percent target now j h = elim (Bool-cases (same_stage j.progress_stage target)) [
  | inl e ↦ ground arith
  | inr e ↦ rw (e) refl
]

-- A job that runs may take any of its stages.
stage_row-Checks :
    (target : DownloadProgressStage) (now : ℕ) (j : MediaDownloadJob)
    → running j ≡ true
    → not_cancelled j ≡ true
    → any (same_stage target) (stages_of downloading) ≡ true
    → Checks j
    → Checks (stage_row target now j)
unfolding stage_row request_check lease_state_check result_state_check progress_state_check
    cancel_requested_check
stage_row-Checks target now j run kept active h = record {
  request = h.request;
  lease = h.lease;
  result = h.result;
  progress = rw (running-eq j run) active;
  cancel = rw (not_cancelled_stage target active) (ground arith);
  percent = kept_percent target now j h.percent;
}

stage_row-progress :
    (target : DownloadProgressStage) (now : ℕ) (j : MediaDownloadJob)
    → running j ≡ true
    → row_check (stage_row target now j) ≡ true
    → any (same_stage target) (stages_of downloading) ≡ true
unfolding stage_row progress_state_check
stage_row-progress target now j run e =
    subst (λ a. any (same_stage target) (stages_of a) ≡ true) (running-eq j run)
      (row_check-Checks _ e).progress

not_running_stage :
    (target : DownloadProgressStage) (now : ℕ) (j : MediaDownloadJob)
    → running j ≡ true
    → any (same_stage target) (stages_of downloading) ≡ false
    → row_check (stage_row target now j) ≡ false
not_running_stage target now j run other = elim (Bool-cases (row_check (stage_row target now j))) [
  | inl e ↦ let p = stage_row-progress target now j run e in ground arith
  | inr e ↦ e
]

abbrev pub Report : Slot → DownloadProgressStage → ℕ → Result Fault (Bool × Slot) → Type 0
Report s target now r =
    ((any (same_stage target) terminal_progress ≡ true) × (r ≡ ok (false, s)))
    ⊎ ((any (same_stage target) (Stages.queued ∷ Stages.retrying ∷ []) ≡ true)
        × (e : Fault) × (r ≡ err e))
    ⊎ ((any (same_stage target) (stages_of downloading) ≡ true)
        × (r ≡ (do
          download_step (check_stages s.job.progress_stage target)
          ok (true, record s { job = stage_row target now s.job }))))

stage_kinds :
    (target : DownloadProgressStage)
    → (any (same_stage target) terminal_progress ≡ true)
      ⊎ ((any (same_stage target) terminal_progress ≡ false)
          × ((any (same_stage target) (Stages.queued ∷ Stages.retrying ∷ []) ≡ true)
                × (any (same_stage target) (stages_of downloading) ≡ false)
              ⊎ (any (same_stage target) (stages_of downloading) ≡ true)))
stage_kinds target = ground arith

module _ (owner : String) (fence : ℕ) (target : DownloadProgressStage) (now : ℕ) (s : Slot)
    (mine : runs_for owner fence s.job ≡ true)
    (open_stage : any (same_stage target) terminal_progress ≡ false) where
  -- The rest of the method for the owner of a running job.
  moved_stage : move_stage owner fence target now s ≡ (do
    download_step (check_stages s.job.progress_stage target)
    done ← store (stage_row target now s.job) s
    ok (true, done))
  unfolding move_stage
  moved_stage = rw (open_stage, mine, checked_stages s.job.progress_stage target) refl

  stage_refused :
      row_check (stage_row target now s.job) ≡ false
      → (e : Fault) × (move_stage owner fence target now s ≡ err e)
  unfolding store
  stage_refused bad = elim (Result-cases (check_stages s.job.progress_stage target)) [
    | inl (u, e) ↦ (Fault.integrity, moved_stage ∙ rw (e, bad) refl)
    | inr (f, e) ↦ (Fault.download f, moved_stage ∙ rw (e) refl)
  ]

  stage_stored :
      row_check (stage_row target now s.job) ≡ true
      → move_stage owner fence target now s ≡ (do
        download_step (check_stages s.job.progress_stage target)
        ok (true, record s { job = stage_row target now s.job }))
  unfolding store
  stage_stored good = moved_stage ∙ rw (good) refl

-- Take a row that meets its CHECK constraints, of a job that runs under the caller's fence token
-- without a request to stop. `set_progress_stage` with a terminal stage returns False and writes
-- nothing; with the stage `queued` or `retrying` it always raises; with any stage of a running job
-- it raises where the table of stages forbids the change, and else stores the stage (and drops the
-- percentage unless the stage is the same) and returns True.
pub set_progress_stage-Report :
    (owner : String) (fence : ℕ) (target : DownloadProgressStage) (now : ℕ) (s : Slot)
    → row_check s.job ≡ true
    → runs_for owner fence s.job ≡ true
    → Report s target now (set_progress_stage owner fence (StageArg.member target) now s)
unfolding set_progress_stage
set_progress_stage-Report owner fence target now s valid mine =
    let (run, kept) = runs_for-running owner fence s.job mine in
    elim (stage_kinds target) [
      | inl last ↦ inl (last, unfold move_stage in rw (last) refl)
      | inr (next, inl (waits, other)) ↦
          let (e, raised) =
            stage_refused owner fence target now s mine next
              (not_running_stage target now s.job run other) in
          inr (inl (waits, e, raised))
      | inr (next, inr active) ↦ inr (
          inr (
            active,
            stage_stored owner fence target now s mine next (
                Checks-row_check _ (
                  stage_row-Checks target now s.job run kept active
                    (row_check-Checks s.job valid))),
          ))
    ]
