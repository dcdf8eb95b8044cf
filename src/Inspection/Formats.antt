-- ===== src/Inspection/Formats.antt =====
-- Formats and candidates (backend/src/fetchnow/media_inspection/models.py) and the sum of two sizes
-- (backend/src/fetchnow/media_inspection/size_estimate.py).
use fetch_now.Prelude.{ℕ, ◌+◌, Bool, ◌||◌, Option, none, some, List, ltb, if◌then◌else◌, codes}

pub data CodecFamily : Type 0 where
  avc hevc vp8 vp9 av1 aac opus mp3 vorbis flac unknown_codec no_codec : CodecFamily

unfoldable pub codec_value : CodecFamily → List ℕ
codec_value avc = codes "avc"
codec_value hevc = codes "hevc"
codec_value vp8 = codes "vp8"
codec_value vp9 = codes "vp9"
codec_value av1 = codes "av1"
codec_value aac = codes "aac"
codec_value opus = codes "opus"
codec_value mp3 = codes "mp3"
codec_value vorbis = codes "vorbis"
codec_value flac = codes "flac"
codec_value unknown_codec = codes "unknown"
codec_value no_codec = codes "none"

pub data FormatCategory : Type 0 where
  progressive video_only audio_only : FormatCategory

-- What the code does with a floating-point number `F`.
pub record Floats (F : Type 0) : Type 0 where
  -- `int(round(float(x) * 1000))`
  pub milli : F → ℕ
  -- `x == y`
  pub same : F → F → Bool
  -- The test of `require_finite_non_negative` with the maximum 240.
  pub is_frame_rate : F → Bool

pub record InternalFormatCandidate (F : Type 0) : Type 0 where
  pub container : List ℕ
  pub width : Option ℕ
  pub height : Option ℕ
  pub fps : Option F
  pub has_video : Bool
  pub has_audio : Bool
  pub video_codec : CodecFamily
  pub audio_codec : CodecFamily
  pub approx_bytes : Option ℕ
  pub provider_format_token : Option (List ℕ)
  pub protocol : Option (List ℕ)
  pub has_drm : Bool
  pub bitrate_kbps : Option ℕ

-- The fields that a derived option sets; the others keep their defaults.
pub record MediaFormat (F : Type 0) : Type 0 where
  pub format_option_id : List ℕ
  pub container : List ℕ
  pub width : Option ℕ
  pub height : Option ℕ
  pub fps : Option F
  pub has_video : Bool
  pub has_audio : Bool
  pub category : FormatCategory
  pub video_codec : CodecFamily
  pub audio_codec : CodecFamily
  pub approx_bytes : Option ℕ
  pub quality_label : List ℕ
  pub free_tier_eligible : Bool

-- `_MAX_INT64`
abbrev pub max_int64 : ℕ
max_int64 = 9223372036854775807

-- `sum_approx_bytes`
unfoldable pub sum_approx_bytes : Option ℕ → Option ℕ → Option ℕ
sum_approx_bytes (some left) (some right) =
    if ltb left 1 || ltb right 1
    then none
    else if ltb max_int64 (left + right)
    then none
    else some (left + right)
sum_approx_bytes _ _ = none
