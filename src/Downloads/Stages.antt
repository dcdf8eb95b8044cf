-- ===== src/Downloads/Stages.antt =====
-- The public progress stages of download jobs (backend/src/fetchnow/downloads/progress.py).
pub mod Walks
use fetch_now.Prelude.{
  String, Bool, true, false, not, ◌&&◌, Option, none, some, List, [], ◌∷◌, str_eq, if◌then◌else◌,
  any, Result, ◌>>=◌, ok, err,
}
use fetch_now.Downloads.States.{MediaDownloadJobState}
use fetch_now.Downloads.States
use fetch_now.Downloads.Errors.{DownloadError, download_error, internal_error}

pub data DownloadProgressStage : Type 0 where
  queued inspecting downloading_video downloading_audio muxing verifying : DownloadProgressStage
  publishing retrying ready failed cancelled expired : DownloadProgressStage

-- The member's value.
abbrev pub value : DownloadProgressStage → String
value queued = "queued"
value inspecting = "inspecting"
value downloading_video = "downloading_video"
value downloading_audio = "downloading_audio"
value muxing = "muxing"
value verifying = "verifying"
value publishing = "publishing"
value retrying = "retrying"
value ready = "ready"
value failed = "failed"
value cancelled = "cancelled"
value expired = "expired"

abbrev pub same_stage : DownloadProgressStage → DownloadProgressStage → Bool
same_stage queued queued = true
same_stage inspecting inspecting = true
same_stage downloading_video downloading_video = true
same_stage downloading_audio downloading_audio = true
same_stage muxing muxing = true
same_stage verifying verifying = true
same_stage publishing publishing = true
same_stage retrying retrying = true
same_stage ready ready = true
same_stage failed failed = true
same_stage cancelled cancelled = true
same_stage expired expired = true
same_stage _ _ = false

-- `DownloadProgressStage(raw)`: `none` is the ValueError.
unfoldable pub parse_stage : String → Option DownloadProgressStage
parse_stage raw =
    if str_eq raw "queued"
    then some queued
    else if str_eq raw "inspecting"
    then some inspecting
    else if str_eq raw "downloading_video"
    then some downloading_video
    else if str_eq raw "downloading_audio"
    then some downloading_audio
    else if str_eq raw "muxing"
    then some muxing
    else if str_eq raw "verifying"
    then some verifying
    else if str_eq raw "publishing"
    then some publishing
    else if str_eq raw "retrying"
    then some retrying
    else if str_eq raw "ready"
    then some ready
    else if str_eq raw "failed"
    then some failed
    else if str_eq raw "cancelled"
    then some cancelled
    else if str_eq raw "expired"
    then some expired
    else none

abbrev pub terminal_progress : List DownloadProgressStage
terminal_progress = ready ∷ failed ∷ cancelled ∷ expired ∷ []

abbrev pub allowed_stages : DownloadProgressStage → List DownloadProgressStage
allowed_stages queued = inspecting ∷ downloading_video ∷ cancelled ∷ expired ∷ failed ∷ []
allowed_stages inspecting =
    downloading_video ∷ downloading_audio ∷ retrying ∷ failed ∷ cancelled ∷ expired ∷ []
allowed_stages downloading_video =
    downloading_audio ∷ muxing ∷ verifying ∷ publishing ∷ retrying ∷ failed ∷ cancelled ∷ expired
    ∷ []
allowed_stages downloading_audio =
    muxing ∷ publishing ∷ retrying ∷ failed ∷ cancelled ∷ expired ∷ []
allowed_stages muxing = verifying ∷ retrying ∷ failed ∷ cancelled ∷ expired ∷ []
allowed_stages verifying = publishing ∷ retrying ∷ failed ∷ cancelled ∷ expired ∷ []
allowed_stages publishing = ready ∷ retrying ∷ failed ∷ cancelled ∷ expired ∷ []
allowed_stages retrying = queued ∷ inspecting ∷ failed ∷ cancelled ∷ expired ∷ []
allowed_stages ready = expired ∷ []
allowed_stages failed = expired ∷ []
allowed_stages cancelled = expired ∷ []
allowed_stages expired = []

-- `str | DownloadProgressStage`
pub data StageArg : Type 0 where
  member : DownloadProgressStage → StageArg
  raw : String → StageArg

unfoldable pub parse_progress_stage : StageArg → Result DownloadError DownloadProgressStage
unfolding parse_stage
parse_progress_stage (member stage) = ok stage
parse_progress_stage (raw s) = elim (parse_stage s) [
  | none ↦ err (download_error internal_error "UNKNOWN_PROGRESS_STAGE")
  | some stage ↦ ok stage
]

unfoldable pub is_terminal_progress : StageArg → Result DownloadError Bool
unfolding parse_progress_stage
is_terminal_progress stage = do
  parsed ← parse_progress_stage stage
  ok (any (same_stage parsed) terminal_progress)

-- The test of `assert_progress_transition` on parsed stages.
unfoldable pub check_stages :
    DownloadProgressStage → DownloadProgressStage → Result DownloadError (Unit {0})
check_stages src dst =
    let legal = any (same_stage dst) (allowed_stages src) in
    if same_stage src dst
    then ok tt
    else if any (same_stage src) terminal_progress && not legal
    then err (download_error internal_error "TERMINAL_PROGRESS_IMMUTABLE")
    else if not legal
    then err (download_error internal_error "ILLEGAL_PROGRESS_TRANSITION")
    else ok tt

unfoldable pub assert_progress_transition : StageArg → StageArg → Result DownloadError (Unit {0})
unfolding parse_progress_stage check_stages
assert_progress_transition from_stage to_stage = do
  src ← parse_progress_stage from_stage
  dst ← parse_progress_stage to_stage
  check_stages src dst

abbrev stage_of : MediaDownloadJobState → DownloadProgressStage
stage_of States.queued = queued
stage_of States.downloading = inspecting
stage_of States.ready = ready
stage_of States.failed = failed
stage_of States.cancelled = cancelled
stage_of States.expired = expired

-- An unknown state is shown as failed.
unfoldable pub progress_for_public_state : States.StateArg → DownloadProgressStage
unfolding States.resolve
progress_for_public_state state = elim (States.resolve state) [
  | none ↦ failed
  | some s ↦ stage_of s
]
