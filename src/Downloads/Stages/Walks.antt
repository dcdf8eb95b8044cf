-- ===== src/Downloads/Stages/Walks.antt =====
-- Sequences of accepted stage changes.
use fetch_now.Prelude.{◌≡◌, refl, sym, ◌∙◌, subst, ◌⊎◌, inl, inr, true, arith, any, ok}
use fetch_now.Downloads.States.{MediaDownloadJobState, StateArg, assert_transition, is_terminal}
use fetch_now.Downloads.Stages.{
  progress_for_public_state, DownloadProgressStage, queued, inspecting, downloading_video,
  downloading_audio, muxing, verifying, publishing, retrying, ready, failed, cancelled, expired,
  same_stage, terminal_progress, member, check_stages, assert_progress_transition,
}

-- The stages that a job can have after successive changes that `assert_progress_transition` accepts.
pub data Walk (a : DownloadProgressStage) : DownloadProgressStage → Type 0 where
  here : Walk a a
  change :
      {b c : DownloadProgressStage}
      → Walk a b
      → assert_progress_transition (member b) (member c) ≡ ok tt
      → Walk a c

terminal-step :
    (a b : DownloadProgressStage)
    → any (same_stage a) terminal_progress ≡ true
    → assert_progress_transition (member a) (member b) ≡ ok tt
    → (b ≡ a) ⊎ (b ≡ expired)
unfolding assert_progress_transition check_stages
terminal-step queued b t h = ground arith
terminal-step inspecting b t h = ground arith
terminal-step downloading_video b t h = ground arith
terminal-step downloading_audio b t h = ground arith
terminal-step muxing b t h = ground arith
terminal-step verifying b t h = ground arith
terminal-step publishing b t h = ground arith
terminal-step retrying b t h = ground arith
terminal-step ready b t h = ground arith
terminal-step failed b t h = ground arith
terminal-step cancelled b t h = ground arith
terminal-step expired b t h = ground arith

-- A job that has a terminal stage keeps that stage, unless its stage becomes expired, through every
-- sequence of accepted changes.
pub terminal_stays :
    (a b : DownloadProgressStage)
    → any (same_stage a) terminal_progress ≡ true
    → Walk a b
    → (b ≡ a) ⊎ (b ≡ expired)
terminal_stays a b t here = inl refl
terminal_stays a b t (change {b = m} w h) = elim (terminal_stays a m t w) [
  | inl e ↦
      let t' : any (same_stage m) terminal_progress ≡ true =
        subst (λ x. any (same_stage x) terminal_progress ≡ true) (sym e) t in
      elim (terminal-step m b t' h) [ inl p ↦ inl (p ∙ e) | inr p ↦ inr p ]
  | inr e ↦
      let t' : any (same_stage m) terminal_progress ≡ true =
        subst (λ x. any (same_stage x) terminal_progress ≡ true) (sym e) refl in
      elim (terminal-step m b t' h) [ inl p ↦ inr (p ∙ e) | inr p ↦ inr p ]
]

one :
    (a b : DownloadProgressStage)
    → assert_progress_transition (member a) (member b) ≡ ok tt
    → Walk a b
one a b h = change here h

two :
    (a b c : DownloadProgressStage)
    → assert_progress_transition (member a) (member b) ≡ ok tt
    → assert_progress_transition (member b) (member c) ≡ ok tt
    → Walk a c
two a b c h k = change (one a b h) k

-- Each accepted change of the public state, from the stage that shows the old state.
from_queued :
    (to : MediaDownloadJobState)
    → assert_transition (StateArg.member MediaDownloadJobState.queued) (StateArg.member to) ≡ ok tt
    → Walk queued (progress_for_public_state (StateArg.member to))
unfolding progress_for_public_state assert_transition assert_progress_transition check_stages
from_queued MediaDownloadJobState.queued h = here
from_queued MediaDownloadJobState.downloading h = one queued inspecting refl
from_queued MediaDownloadJobState.ready h = absurd (ground arith)
from_queued MediaDownloadJobState.failed h = absurd (ground arith)
from_queued MediaDownloadJobState.cancelled h = one queued cancelled refl
from_queued MediaDownloadJobState.expired h = one queued expired refl

from_downloading :
    (to : MediaDownloadJobState) → Walk inspecting (progress_for_public_state (StateArg.member to))
unfolding progress_for_public_state assert_progress_transition check_stages
from_downloading MediaDownloadJobState.queued = two inspecting retrying queued refl refl
from_downloading MediaDownloadJobState.downloading = here
from_downloading MediaDownloadJobState.ready =
    change (two inspecting downloading_video publishing refl refl) refl
from_downloading MediaDownloadJobState.failed = one inspecting failed refl
from_downloading MediaDownloadJobState.cancelled = one inspecting cancelled refl
from_downloading MediaDownloadJobState.expired = one inspecting expired refl

from_finished :
    (from to : MediaDownloadJobState)
    → is_terminal (StateArg.member from) ≡ true
    → assert_transition (StateArg.member from) (StateArg.member to) ≡ ok tt
    → to ≡ MediaDownloadJobState.expired
unfolding assert_transition is_terminal
from_finished MediaDownloadJobState.queued to t h = absurd (ground arith)
from_finished MediaDownloadJobState.downloading to t h = absurd (ground arith)
from_finished MediaDownloadJobState.ready to t h = ground arith
from_finished MediaDownloadJobState.failed to t h = ground arith
from_finished MediaDownloadJobState.cancelled to t h = ground arith
from_finished MediaDownloadJobState.expired to t h = ground arith

expires :
    (from to : MediaDownloadJobState)
    → is_terminal (StateArg.member from) ≡ true
    → assert_transition (StateArg.member from) (StateArg.member to) ≡ ok tt
    → Walk (progress_for_public_state (StateArg.member from)) expired
    → Walk
        (progress_for_public_state (StateArg.member from))
        (progress_for_public_state (StateArg.member to))
unfolding progress_for_public_state
expires from to t h w =
    let shown = progress_for_public_state (StateArg.member from) in
    subst (λ s. Walk shown (progress_for_public_state (StateArg.member s)))
      (sym (from_finished from to t h)) w

-- Every change of the public state that the public machine allows can be made in the stages: from the
-- stage that shows the old state a sequence of accepted changes leads to the stage that shows the
-- new one.
pub progress_for_public_state-Walk :
    (from to : MediaDownloadJobState)
    → assert_transition (StateArg.member from) (StateArg.member to) ≡ ok tt
    → Walk
        (progress_for_public_state (StateArg.member from))
        (progress_for_public_state (StateArg.member to))
unfolding progress_for_public_state is_terminal assert_progress_transition check_stages
progress_for_public_state-Walk MediaDownloadJobState.queued to h = from_queued to h
progress_for_public_state-Walk MediaDownloadJobState.downloading to h = from_downloading to
progress_for_public_state-Walk MediaDownloadJobState.ready to h =
    expires MediaDownloadJobState.ready to refl h (one ready expired refl)
progress_for_public_state-Walk MediaDownloadJobState.failed to h =
    expires MediaDownloadJobState.failed to refl h (one failed expired refl)
progress_for_public_state-Walk MediaDownloadJobState.cancelled to h =
    expires MediaDownloadJobState.cancelled to refl h (one cancelled expired refl)
progress_for_public_state-Walk MediaDownloadJobState.expired to h =
    expires MediaDownloadJobState.expired to refl h here
