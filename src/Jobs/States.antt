-- ===== src/Jobs/States.antt =====
-- The public state machine of media-inspection jobs (backend/src/fetchnow/jobs/states.py).
use fetch_now.Prelude.{
  String, Bool, true, false, Option, none, some, List, [], ◌∷◌, any, str_eq, Result, ok, err,
  if◌then◌else◌,
}

pub data MediaJobState : Type 0 where
  queued inspecting inspected failed expired : MediaJobState

-- The member's value.
abbrev pub value : MediaJobState → String
value queued = "queued"
value inspecting = "inspecting"
value inspected = "inspected"
value failed = "failed"
value expired = "expired"

abbrev pub same_state : MediaJobState → MediaJobState → Bool
same_state queued queued = true
same_state inspecting inspecting = true
same_state inspected inspected = true
same_state failed failed = true
same_state expired expired = true
same_state _ _ = false

-- `MediaJobState(raw)`: `none` is the ValueError.
unfoldable pub parse_state : String → Option MediaJobState
parse_state raw =
    if str_eq raw "queued"
    then some queued
    else if str_eq raw "inspecting"
    then some inspecting
    else if str_eq raw "inspected"
    then some inspected
    else if str_eq raw "failed"
    then some failed
    else if str_eq raw "expired"
    then some expired
    else none

-- `MediaJobState | str`
pub data StateArg : Type 0 where
  member : MediaJobState → StateArg
  raw : String → StateArg

unfoldable pub resolve : StateArg → Option MediaJobState
unfolding parse_state
resolve (member s) = some s
resolve (raw s) = parse_state s

abbrev pub allowed_transitions : MediaJobState → List MediaJobState
allowed_transitions queued = inspecting ∷ expired ∷ []
allowed_transitions inspecting = queued ∷ inspected ∷ failed ∷ expired ∷ []
allowed_transitions inspected = expired ∷ []
allowed_transitions failed = expired ∷ []
allowed_transitions expired = []

pub data JobErrorCode : Type 0 where
  job_not_found job_expired capacity_unavailable idempotency_conflict : JobErrorCode
  invalid_access_token media_inspection_failed duration_too_long : JobErrorCode
  file_too_large internal_error : JobErrorCode

-- A raised `JobError`: its code and its internal reason.
pub data JobError : Type 0 where
  job_error : JobErrorCode → String → JobError

unfoldable pub assert_transition : StateArg → StateArg → Result JobError (Unit {0})
unfolding resolve
assert_transition from to = elim (resolve from) [
  | none ↦ err (job_error internal_error "UNKNOWN_JOB_STATE")
  | some src ↦ elim (resolve to) [
    | none ↦ err (job_error internal_error "UNKNOWN_JOB_STATE")
    | some dst ↦
        if any (same_state dst) (allowed_transitions src)
        then ok tt
        else err (job_error internal_error "ILLEGAL_STATE_TRANSITION")
  ]
]

unfoldable pub is_terminal : StateArg → Bool
unfolding resolve
is_terminal state = elim (resolve state) [
  | none ↦ true
  | some s ↦ any (same_state s) (inspected ∷ failed ∷ expired ∷ [])
]
