-- ===== src/Inspection/Mux.antt =====
-- The pairing of video streams with audio streams
-- (backend/src/fetchnow/media_inspection/mux_pairing.py). SHA-256 and floating-point numbers are
-- parameters; a dimension is a natural number.
pub mod Derive
use fetch_now.Prelude.{
  ℕ, ◌+◌, ◌-◌, ◌/◌, Bool, true, false, not, ◌&&◌, ◌||◌, Option, none, some, List, [], ◌∷◌, ◌++◌,
  ltb, leb, ◌==◌, if◌then◌else◌, is_some, codes, length, take, any,
}
use fetch_now.Payments.Signature.{same_text}
use fetch_now.Payments.Amount.{print}
use fetch_now.Filenames.Utf8.{encode}
use fetch_now.Inspection.Formats.{
  CodecFamily, avc, hevc, vp8, vp9, av1, aac, opus, mp3, vorbis, flac, unknown_codec, no_codec,
  codec_value, FormatCategory, progressive, Floats, InternalFormatCandidate, MediaFormat,
  sum_approx_bytes,
}

-- The settings that the pairing reads.
pub record MuxSettings : Type 0 where
  pub media_muxing_enabled : Bool
  pub media_muxing_max_video_candidates : ℕ
  pub media_muxing_max_audio_candidates : ℕ
  pub media_muxing_max_derived_options : ℕ
  pub max_source_file_bytes : ℕ

pub data MuxError : Type 0 where
  -- INSPECTION_POLICY_REJECTED with the reason MUX_OPTION_AMBIGUOUS.
  mux_option_ambiguous : MuxError
  -- What the constructor of `MediaFormat` raises for a frame rate out of range.
  value_error : MuxError

abbrev pub is_one_of : List ℕ → List (List ℕ) → Bool
is_one_of s texts = any (same_text s) texts

-- `_MP4_VIDEO`, `_MP4_AUDIO`, `_WEBM_VIDEO` and `_WEBM_AUDIO`
unfoldable pub is_mp4_video : CodecFamily → Bool
is_mp4_video avc = true
is_mp4_video _ = false

unfoldable pub is_mp4_audio : CodecFamily → Bool
is_mp4_audio aac = true
is_mp4_audio _ = false

unfoldable pub is_webm_video : CodecFamily → Bool
is_webm_video vp8 = true
is_webm_video vp9 = true
is_webm_video av1 = true
is_webm_video _ = false

unfoldable pub is_webm_audio : CodecFamily → Bool
is_webm_audio opus = true
is_webm_audio vorbis = true
is_webm_audio _ = false

abbrev pub is_known : CodecFamily → Bool
is_known unknown_codec = false
is_known no_codec = false
is_known _ = true

unfoldable pub quality_label_for : Option ℕ → List ℕ
quality_label_for none = codes "unknown"
quality_label_for (some height) =
    if leb 2160 height
    then codes "p2160"
    else if leb 1440 height
    then codes "p1440"
    else if leb 1080 height
    then codes "p1080"
    else if leb 720 height
    then codes "p720"
    else if leb 480 height
    then codes "p480"
    else if leb 360 height
    then codes "p360"
    else if leb 240 height
    then codes "p240"
    else if leb 144 height
    then codes "p144"
    else codes "low"

abbrev pub is_http : Option (List ℕ) → Bool
is_http none = true
is_http (some protocol) = is_one_of protocol (codes "http" ∷ codes "https" ∷ [])

-- `bool(token)`
abbrev pub is_token : Option (List ℕ) → Bool
is_token none = false
is_token (some token) = not (length token == 0)

abbrev pub or_zero : Option ℕ → ℕ
or_zero none = 0
or_zero (some n) = n

-- `str(n if n is not None else "")`
unfoldable pub print_or_empty : Option ℕ → List ℕ
unfolding print
print_or_empty none = []
print_or_empty (some n) = print n

-- The order of texts by their code points.
abbrev pub text_leb : List ℕ → List ℕ → Bool
text_leb [] t = true
text_leb (a ∷ s) [] = false
text_leb (a ∷ s) (b ∷ t) = ltb a b || (a == b) && text_leb s t

-- `"|".join(parts)`
unfoldable pub join_bar : List (List ℕ) → List ℕ
join_bar [] = []
join_bar (s ∷ []) = s
join_bar (s ∷ t ∷ rest) = s ++ (b'|' ∷ join_bar (t ∷ rest))

abbrev pub audio_mp4_containers : List (List ℕ)
audio_mp4_containers = codes "m4a" ∷ codes "mp4" ∷ []

abbrev pub audio_webm_containers : List (List ℕ)
audio_webm_containers = codes "webm" ∷ codes "ogg" ∷ codes "opus" ∷ []

-- `sha256_hex` gives the hexadecimal digest of a byte string.
module _ {F : Type 0} (floats : Floats F) (sha256_hex : List ℕ → List ℕ) where
  pub record DerivedMuxOption : Type 0 where
    pub public : MediaFormat F
    pub video : InternalFormatCandidate F
    pub audio : InternalFormatCandidate F
    pub output_container : List ℕ

  abbrev pub token_bytes : Option (List ℕ) → List ℕ
  token_bytes none = []
  token_bytes (some token) = encode token

  unfoldable pub token_digest : Option (List ℕ) → List ℕ
  token_digest token =
      take 12 (sha256_hex (codes "fetchnow-fmt-token-v1" ++ (0 ∷ token_bytes token)))

  abbrev pub fps_milli : Option F → ℕ
  fps_milli none = 0
  fps_milli (some fps) = floats.milli fps

  unfoldable pub mux_option_id_for :
      (video audio : InternalFormatCandidate F) (output_container quality_label : List ℕ) → List ℕ
  unfolding print print_or_empty join_bar codec_value token_digest
  mux_option_id_for video audio output_container quality_label =
      let material = join_bar (
        codes "muxed"
        ∷ quality_label
        ∷ output_container
        ∷ codec_value video.video_codec
        ∷ codec_value audio.audio_codec
        ∷ print_or_empty video.width
        ∷ print_or_empty video.height
        ∷ print (fps_milli video.fps)
        ∷ print_or_empty video.approx_bytes
        ∷ print_or_empty audio.approx_bytes
        ∷ token_digest video.provider_format_token
        ∷ token_digest audio.provider_format_token
        ∷ []) in
      codes "fmt_"
      ++ take 28 (sha256_hex (codes "fetchnow-fmt-mux-option-v1" ++ (0 ∷ encode material)))

  unfoldable pub output_policy_for : (video audio : InternalFormatCandidate F) → Option (List ℕ)
  unfolding is_mp4_video is_mp4_audio is_webm_video is_webm_audio
  output_policy_for video audio =
      if same_text video.container (codes "mp4")
        && is_one_of audio.container audio_mp4_containers
        && is_mp4_video video.video_codec
        && is_mp4_audio audio.audio_codec
      then some (codes "mp4")
      else if same_text video.container (codes "webm")
          && is_one_of audio.container audio_webm_containers
          && is_webm_video video.video_codec
          && is_webm_audio audio.audio_codec
      then some (codes "webm")
      else none

  unfoldable pub usable_video : InternalFormatCandidate F → Bool
  unfolding is_mp4_video is_webm_video
  usable_video c =
      c.has_video
      && not c.has_audio
      && not c.has_drm
      && is_http c.protocol
      && is_known c.video_codec
      && is_token c.provider_format_token
      && is_some c.height
      && (if same_text c.container (codes "mp4")
          then is_mp4_video c.video_codec
          else if same_text c.container (codes "webm")
          then is_webm_video c.video_codec
          else false)

  unfoldable pub usable_audio : InternalFormatCandidate F → Bool
  unfolding is_mp4_audio is_webm_audio
  usable_audio c =
      c.has_audio
      && not c.has_video
      && not c.has_drm
      && is_http c.protocol
      && is_known c.audio_codec
      && is_token c.provider_format_token
      && (if is_one_of c.container audio_mp4_containers
          then is_mp4_audio c.audio_codec
          else if is_one_of c.container audio_webm_containers
          then is_webm_audio c.audio_codec
          else false)

  -- The order of `_video_sort_key`: the key of `a` is at most the key of `b`.
  unfoldable pub video_before : (a b : InternalFormatCandidate F) → Bool
  unfolding token_digest
  video_before a b =
      ltb (or_zero b.height) (or_zero a.height)
      || (or_zero b.height == or_zero a.height)
        && (ltb (or_zero b.width) (or_zero a.width)
            || (or_zero b.width == or_zero a.width)
              && text_leb (token_digest a.provider_format_token)
                  (token_digest b.provider_format_token))

  abbrev pub or_unknown_size : Option ℕ → ℕ
  or_unknown_size none = 1000000000000000000
  or_unknown_size (some n) = n

  -- The order of `_audio_sort_key`.
  unfoldable pub audio_before : (a b : InternalFormatCandidate F) → Bool
  unfolding token_digest
  audio_before a b =
      let first = token_digest a.provider_format_token in
      let second = token_digest b.provider_format_token in
      ltb (or_unknown_size a.approx_bytes) (or_unknown_size b.approx_bytes)
      || (or_unknown_size a.approx_bytes == or_unknown_size b.approx_bytes)
        && (text_leb first second && not (same_text first second)
            || same_text first second && text_leb a.container b.container)
