-- ===== src/Examples/Stages.antt =====
-- Download stages and percentages, and Range headers.
use fetch_now.Prelude.{
  ℕ, ◌*◌, ◌≡◌, refl, ◌⊎◌, Bool, true, false, Option, none, some, List, [], ◌∷◌, ◌++◌, codes, pos,
  ok, err,
}
use fetch_now.Downloads.States.{MediaDownloadJobState, StateArg, assert_transition}
use fetch_now.Downloads.Stages.{
  ready, expired, assert_progress_transition, progress_for_public_state,
}
use fetch_now.Downloads.Stages.Walks.{
  Walk, here, change, terminal_stays, progress_for_public_state-Walk,
}
use fetch_now.Downloads.ByteProgress.{
  Persisted, applied, refused, Sample, idle, attempted, new_gate, run,
}
use fetch_now.Downloads.ByteProgress.Monotone.{Progress, run-Progress}
use fetch_now.Delivery.RangeParse.{
  strip, starts_with, lower, parse_spec, parse_suffix, split_dash, parse_pair, isdigit, to_int,
  Parsed, range, parse_single_byte_range, value_error,
}
use fetch_now.Delivery.RangeParse.Bounds.{Within, parse_single_byte_range-Within}

ready_expires : Walk ready expired
unfolding assert_progress_transition
ready_expires = change here refl

terminal_stays_example : (expired ≡ ready) ⊎ (expired ≡ expired)
terminal_stays_example = terminal_stays ready expired refl ready_expires

retry_legal :
    assert_transition
      (StateArg.member MediaDownloadJobState.downloading)
      (StateArg.member MediaDownloadJobState.queued)
    ≡ ok tt
unfolding assert_transition
retry_legal = refl

progress_for_public_state-Walk_example :
    Walk
      (progress_for_public_state (StateArg.member MediaDownloadJobState.downloading))
      (progress_for_public_state (StateArg.member MediaDownloadJobState.queued))
progress_for_public_state-Walk_example =
    progress_for_public_state-Walk MediaDownloadJobState.downloading MediaDownloadJobState.queued
      retry_legal

abbrev confirm : ℕ → Persisted
confirm p = applied

abbrev refuse : ℕ → Persisted
refuse p = refused

abbrev sample : ℕ → Bool → (ℕ → Persisted) → Sample
sample now force persist = record {
  observed_bytes = pos (now * 10);
  expected_bytes = some (pos 100);
  persist = persist;
  force = force;
  throttle_now = now;
  backoff_now = now;
  written_now = now;
}

abbrev samples : List Sample
samples =
    sample 1 false confirm
    ∷ sample 2 false confirm
    ∷ sample 7 false confirm
    ∷ sample 9 true refuse
    ∷ sample 99 false confirm
    ∷ []

-- The second sample is throttled; the last one comes after a refusal.
run-samples :
    run (new_gate 5 5 80) samples
    ≡ attempted 10 applied ∷ idle ∷ attempted 70 applied ∷ attempted 90 refused ∷ idle ∷ []
unfolding run new_gate
run-samples = refl

run-Progress_example : Progress none false (run (new_gate 5 5 80) samples)
run-Progress_example = run-Progress 5 5 80 samples

abbrev header : Option (List ℕ)
header = some (codes " Bytes=100-4000 ")

abbrev tail_range : Parsed
tail_range = range (record { start = 100; stop = 1000; total = 1000 })

header_parsed : parse_single_byte_range header 1000 ≡ ok tail_range
unfolding parse_single_byte_range strip starts_with lower parse_spec parse_suffix split_dash
    parse_pair isdigit to_int
header_parsed = refl

parse_single_byte_range-Within_example : Within 1000 tail_range
parse_single_byte_range-Within_example = parse_single_byte_range-Within header 1000 header_parsed

-- The suffix length is a superscript two.
superscript_raises :
    parse_single_byte_range (some (codes "bytes=-" ++ 0xb2 ∷ [])) 1000 ≡ err value_error
unfolding parse_single_byte_range strip starts_with lower parse_spec parse_suffix split_dash
    parse_pair isdigit to_int
superscript_raises = refl
