-- ===== src/Examples/Mux.antt =====
-- The pairing of streams (backend/src/fetchnow/media_inspection/mux_pairing.py).
use fetch_now.Prelude.{
  ℕ, zero, suc, ◌≤◌, ◌≡◌, refl, true, false, none, some, List, [], ◌∷◌, leb, ◌==◌, codes, length,
  All, Distinct,
}
use fetch_now.Inspection.Formats.{avc, aac, opus, no_codec, Floats, InternalFormatCandidate}
use fetch_now.Inspection.Mux.{MuxSettings, DerivedMuxOption, quality_label_for}
use fetch_now.Inspection.Mux.Derive.{option_of, derive_mux_options}
use fetch_now.Inspection.Mux.Derive.Sound.{IsOption, Apart, derive_mux_options-IsOption}

-- Frame rates in thousandths.
abbrev thousandths : Floats ℕ
thousandths = record { milli = λ n. n; same = λ a b. a == b; is_frame_rate = λ n. leb n 240000 }

-- A digest of 64 zeros.
abbrev zeros : ℕ → List ℕ
zeros zero = []
zeros (suc n) = b'0' ∷ zeros n

abbrev flat_hex : List ℕ → List ℕ
flat_hex s = zeros 64

abbrev settings : MuxSettings
settings = record {
  media_muxing_enabled = true;
  media_muxing_max_video_candidates = 8;
  media_muxing_max_audio_candidates = 4;
  media_muxing_max_derived_options = 3;
  max_source_file_bytes = 1000;
}

abbrev video : InternalFormatCandidate ℕ
video = record {
  container = codes "mp4";
  width = some 1280;
  height = some 720;
  fps = some 30000;
  has_video = true;
  has_audio = false;
  video_codec = avc;
  audio_codec = no_codec;
  approx_bytes = some 600;
  provider_format_token = some (codes "v1");
  protocol = some (codes "https");
  has_drm = false;
  bitrate_kbps = none;
}

abbrev audio : InternalFormatCandidate ℕ
audio = record video {
  container = codes "m4a";
  width = none;
  height = none;
  fps = none;
  has_video = false;
  has_audio = true;
  video_codec = no_codec;
  audio_codec = aac;
  approx_bytes = some 100;
  provider_format_token = some (codes "a1");
}

-- Opus does not go into MP4.
abbrev other_audio : InternalFormatCandidate ℕ
other_audio = record audio {
  container = codes "webm";
  audio_codec = opus;
  approx_bytes = some 50;
  provider_format_token = some (codes "a0");
}

abbrev candidates : List (InternalFormatCandidate ℕ)
candidates = other_audio ∷ audio ∷ video ∷ []

abbrev options : List (DerivedMuxOption thousandths flat_hex)
options = option_of thousandths flat_hex video audio (codes "mp4") ∷ []

derive_mux_options-IsOption_example :
    All (IsOption thousandths flat_hex settings candidates) options
    × Distinct (Apart thousandths flat_hex) options
    × (length options ≤ 3)
unfolding derive_mux_options
derive_mux_options-IsOption_example =
    derive_mux_options-IsOption thousandths flat_hex settings candidates options refl

label_720 : quality_label_for (some 719) ≡ codes "p480"
unfolding quality_label_for
label_720 = refl
