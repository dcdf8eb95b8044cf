-- ===== src/Inspection/Mux/Derive.antt =====
-- `derive_mux_options` (backend/src/fetchnow/media_inspection/mux_pairing.py).
pub mod Sound
use fetch_now.Prelude.{
  ◌>>=◌, ◌>>◌, ℕ, ◌+◌, ◌-◌, ◌/◌, Bool, true, false, not, ◌&&◌, ◌||◌, Option, none, some, List, [],
  ◌∷◌, ◌++◌, ltb, ◌==◌, if◌then◌else◌, find, insert_sorted, order_by, length, take, keep, Result,
  ok, err,
}
use fetch_now.Payments.Signature.{same_text}
use fetch_now.Inspection.Formats.{
  CodecFamily, codec_value, FormatCategory, progressive, Floats, InternalFormatCandidate,
  MediaFormat, sum_approx_bytes,
}
use fetch_now.Inspection.Mux.{
  MuxSettings, MuxError, mux_option_ambiguous, value_error, or_zero, text_leb, quality_label_for,
  DerivedMuxOption, mux_option_id_for, output_policy_for, usable_video, usable_audio, video_before,
  audio_before,
}

abbrev pub same_number : Option ℕ → Option ℕ → Bool
same_number none none = true
same_number (some a) (some b) = a == b
same_number _ _ = false

abbrev pub same_codec : CodecFamily → CodecFamily → Bool
same_codec a b = same_text (codec_value a) (codec_value b)

abbrev pub same_optional_text : Option (List ℕ) → Option (List ℕ) → Bool
same_optional_text none none = true
same_optional_text (some a) (some b) = same_text a b
same_optional_text _ _ = false

-- `approx is not None and approx > limit`
abbrev pub exceeds : Option ℕ → ℕ → Bool
exceeds none limit = false
exceeds (some approx) limit = ltb limit approx

module _ {F : Type 0} (floats : Floats F) (sha256_hex : List ℕ → List ℕ) where
  abbrev Candidate : Type 0
  Candidate = InternalFormatCandidate F

  abbrev Derived : Type 0
  Derived = DerivedMuxOption floats sha256_hex

  abbrev pub same_fps : Option F → Option F → Bool
  same_fps none none = true
  same_fps (some a) (some b) = floats.same a b
  same_fps _ _ = false

  abbrev pub is_frame_rate : Option F → Bool
  is_frame_rate none = true
  is_frame_rate (some fps) = floats.is_frame_rate fps

  -- `left == right` of two derived formats: the Boolean fields and the category are the same in all.
  unfoldable pub same_format : MediaFormat F → MediaFormat F → Bool
  unfolding codec_value
  same_format a b =
      same_text a.format_option_id b.format_option_id
      && same_text a.container b.container
      && same_number a.width b.width
      && same_number a.height b.height
      && same_fps a.fps b.fps
      && same_codec a.video_codec b.video_codec
      && same_codec a.audio_codec b.audio_codec
      && same_number a.approx_bytes b.approx_bytes
      && same_text a.quality_label b.quality_label

  unfoldable pub binding_equivalent : (left right : Derived) → Bool
  unfolding same_format
  binding_equivalent left right =
      same_text left.output_container right.output_container
      && same_optional_text left.video.provider_format_token right.video.provider_format_token
      && same_optional_text left.audio.provider_format_token right.audio.provider_format_token
      && same_format left.public right.public

  abbrev pub paired :
      Candidate → Option (List ℕ) → Option (Candidate × List ℕ) → Option (Candidate × List ℕ)
  paired audio none other = other
  paired audio (some output) other = some (audio, output)

  -- The inner loop: the first audio stream that goes with the video stream.
  unfoldable pub choose_audio : Candidate → List Candidate → Option (Candidate × List ℕ)
  unfolding output_policy_for
  choose_audio video [] = none
  choose_audio video (audio ∷ audios) =
      paired audio (output_policy_for floats sha256_hex video audio) (choose_audio video audios)

  -- The option of a pair.
  unfoldable pub option_of : (video audio : Candidate) → List ℕ → Derived
  unfolding quality_label_for mux_option_id_for sum_approx_bytes
  option_of video audio output =
      let label = quality_label_for video.height in
      record {
        public = record {
          format_option_id = mux_option_id_for floats sha256_hex video audio output label;
          container = output;
          width = video.width;
          height = video.height;
          fps = video.fps;
          has_video = true;
          has_audio = true;
          category = progressive;
          video_codec = video.video_codec;
          audio_codec = audio.audio_codec;
          approx_bytes = sum_approx_bytes video.approx_bytes audio.approx_bytes;
          quality_label = label;
          free_tier_eligible = true;
        };
        video = video;
        audio = audio;
        output_container = output;
      }

  -- The rest of the outer loop's body, for the pair that was chosen; none where it continues.
  unfoldable pub option_for :
      MuxSettings → Candidate → Option (Candidate × List ℕ) → Result MuxError (Option Derived)
  unfolding option_of
  option_for settings video none = ok none
  option_for settings video (some (audio, output)) =
      let option = option_of video audio output in
      if exceeds option.public.approx_bytes settings.max_source_file_bytes
      then ok none
      else if not (is_frame_rate video.fps)
      then err value_error
      else ok (some option)

  abbrev pub added : Option Derived → List Derived → List Derived
  added none rest = rest
  added (some option) rest = option ∷ rest

  -- The outer loop.
  unfoldable pub prepare :
      MuxSettings → (videos audios : List Candidate) → Result MuxError (List Derived)
  unfolding choose_audio option_for
  prepare settings [] audios = ok []
  prepare settings (video ∷ videos) audios = do
    option ← option_for settings video (choose_audio video audios)
    rest ← prepare settings videos audios
    ok (added option rest)

  abbrev pub has_id : List ℕ → Derived → Bool
  has_id id option = same_text option.public.format_option_id id

  -- What the loop that removes duplicates does with an item, where `existing` has the item's id.
  unfoldable pub keep_first :
      Option Derived → Derived → List Derived → Result MuxError (List Derived)
  unfolding binding_equivalent
  keep_first none item unique = ok (unique ++ item ∷ [])
  keep_first (some existing) item unique =
      if not (binding_equivalent existing item) then err mux_option_ambiguous else ok unique

  -- The loop; `unique` holds the items of `by_id` in the order in which they came.
  unfoldable pub remove_duplicates : List Derived → List Derived → Result MuxError (List Derived)
  unfolding keep_first find
  remove_duplicates unique [] = ok unique
  remove_duplicates unique (item ∷ items) = do
    more ← keep_first (find (has_id item.public.format_option_id) unique) item unique
    remove_duplicates more items

  abbrev pub id_before : Derived → Derived → Bool
  id_before a b = text_leb a.public.format_option_id b.public.format_option_id

  abbrev pub higher_before : Derived → Derived → Bool
  higher_before a b =
      ltb (or_zero b.video.height) (or_zero a.video.height)
      || (or_zero b.video.height == or_zero a.video.height) && id_before a b

  unfoldable pub derive_mux_options : MuxSettings → List Candidate → Result MuxError (List Derived)
  unfolding usable_video usable_audio video_before audio_before insert_sorted order_by prepare
      remove_duplicates
  derive_mux_options settings candidates =
      let videos = take settings.media_muxing_max_video_candidates (
        order_by (video_before floats sha256_hex)
          (keep (usable_video floats sha256_hex) candidates)) in
      let audios = take settings.media_muxing_max_audio_candidates (
        order_by (audio_before floats sha256_hex)
          (keep (usable_audio floats sha256_hex) candidates)) in
      if not settings.media_muxing_enabled
      then ok []
      else if length videos == 0 || length audios == 0
      then ok []
      else do
        prepared ← prepare settings videos audios
        unique ← remove_duplicates [] (order_by id_before prepared)
        ok (take settings.media_muxing_max_derived_options (order_by higher_before unique))
