-- ===== src/Downloads/States.antt =====
-- The public state machine of download jobs (backend/src/fetchnow/downloads/states.py).
use fetch_now.Prelude.{
  ℕ, String, Bool, true, false, ◌&&◌, Option, none, some, List, [], ◌∷◌, str_eq, if◌then◌else◌,
  is_some, any, Result, ok, err,
}
use fetch_now.Downloads.Errors.{DownloadError, download_error, internal_error}

pub data MediaDownloadJobState : Type 0 where
  queued downloading ready failed cancelled expired : MediaDownloadJobState

-- The member's value.
abbrev pub value : MediaDownloadJobState → String
value queued = "queued"
value downloading = "downloading"
value ready = "ready"
value failed = "failed"
value cancelled = "cancelled"
value expired = "expired"

abbrev pub same_state : MediaDownloadJobState → MediaDownloadJobState → Bool
same_state queued queued = true
same_state downloading downloading = true
same_state ready ready = true
same_state failed failed = true
same_state cancelled cancelled = true
same_state expired expired = true
same_state _ _ = false

-- `MediaDownloadJobState(raw)`: `none` is the ValueError.
unfoldable pub parse_state : String → Option MediaDownloadJobState
parse_state raw =
    if str_eq raw "queued"
    then some queued
    else if str_eq raw "downloading"
    then some downloading
    else if str_eq raw "ready"
    then some ready
    else if str_eq raw "failed"
    then some failed
    else if str_eq raw "cancelled"
    then some cancelled
    else if str_eq raw "expired"
    then some expired
    else none

-- `str(progress_stage or "")`
abbrev or_empty : Option String → String
or_empty none = ""
or_empty (some s) = s

unfoldable pub is_stored_cancelled : String → Option String → Option ℕ → Bool
is_stored_cancelled public_state progress_stage cancel_requested_at =
    str_eq public_state (value expired)
    && str_eq (or_empty progress_stage) "cancelled"
    && is_some cancel_requested_at

-- `none` is the ValueError.
unfoldable pub project_public_state :
    String → Option String → Option ℕ → Option MediaDownloadJobState
unfolding is_stored_cancelled parse_state
project_public_state public_state progress_stage cancel_requested_at =
    if is_stored_cancelled public_state progress_stage cancel_requested_at
    then some cancelled
    else parse_state public_state

-- `MediaDownloadJobState | str`
pub data StateArg : Type 0 where
  member : MediaDownloadJobState → StateArg
  raw : String → StateArg

unfoldable pub resolve : StateArg → Option MediaDownloadJobState
unfolding parse_state
resolve (member s) = some s
resolve (raw s) = parse_state s

abbrev pub allowed_transitions : MediaDownloadJobState → List MediaDownloadJobState
allowed_transitions queued = downloading ∷ cancelled ∷ expired ∷ []
allowed_transitions downloading = queued ∷ ready ∷ failed ∷ cancelled ∷ expired ∷ []
allowed_transitions ready = expired ∷ []
allowed_transitions failed = expired ∷ []
allowed_transitions cancelled = expired ∷ []
allowed_transitions expired = []

unfoldable pub assert_transition : StateArg → StateArg → Result DownloadError (Unit {0})
unfolding resolve
assert_transition from to = elim (resolve from) [
  | none ↦ err (download_error internal_error "UNKNOWN_DOWNLOAD_STATE")
  | some src ↦ elim (resolve to) [
    | none ↦ err (download_error internal_error "UNKNOWN_DOWNLOAD_STATE")
    | some dst ↦
        if any (same_state dst) (allowed_transitions src)
        then ok tt
        else err (download_error internal_error "ILLEGAL_STATE_TRANSITION")
  ]
]

unfoldable pub is_terminal : StateArg → Bool
unfolding resolve
is_terminal state = elim (resolve state) [
  | none ↦ true
  | some s ↦ any (same_state s) (ready ∷ failed ∷ cancelled ∷ expired ∷ [])
]
