-- ===== src/Filenames/Stem.antt =====
-- The name that a title suggests: `_sanitize_stem`, `_filename_bounds_ok`, `_validated_container` and
-- `suggested_filename_for` (backend/src/fetchnow/downloads/filename.py).
pub mod Parts
pub mod Bounds
use fetch_now.Prelude.{
  ◌>>=◌, ◌>>◌, ℕ, ◌+◌, ◌-◌, ◌*◌, ◌/◌, ◌<◌, Bool, false, not, ◌&&◌, ◌||◌, Option, none, some, List,
  [], ◌∷◌, ◌++◌, map, reverse, ltb, leb, ◌==◌, if◌then◌else◌, codes, has_code, length, take, keep,
  any, Result, ok, err,
}
use fetch_now.Delivery.RangeParse.{all_of, strip, lower, strip_left}
use fetch_now.Payments.Signature.{same_text}
use fetch_now.Filenames.Utf8.{encode, decode_ignore}

-- What the code takes from the Unicode Character Database.
pub record UnicodeData : Type 0 where
  -- `unicodedata.normalize("NFC", text)`
  pub normalize : List ℕ → List ℕ
  -- `unicodedata.category(char).startswith("C")`
  pub is_other : ℕ → Bool
  -- `char.isspace()`, which is also the class of `\s`
  pub is_white : ℕ → Bool
  -- `text.upper()`
  pub upper : List ℕ → List ℕ

-- `_BIDI`
unfoldable pub is_bidi : ℕ → Bool
is_bidi c =
    c == 0x061c
    || c == 0x200e
    || c == 0x200f
    || leb 0x202a c && leb c 0x202e
    || leb 0x2066 c && leb c 0x2069

-- `_FORBIDDEN`
unfoldable pub is_forbidden : ℕ → Bool
is_forbidden c = c == 0 || has_code c (codes "\\/:*?\"<>|")

-- `_CONTROL`
unfoldable pub is_control : ℕ → Bool
is_control c = leb c 0x1f || leb 0x7f c && leb c 0x9f

-- The elements of `_RESERVED`.
abbrev pub devices : List (List ℕ)
devices = codes "CON" ∷ codes "PRN" ∷ codes "AUX" ∷ codes "NUL" ∷ []

unfoldable pub is_reserved : List ℕ → Bool
is_reserved (c ∷ o ∷ m ∷ d ∷ []) =
    (same_text (c ∷ o ∷ m ∷ []) (codes "COM") || same_text (c ∷ o ∷ m ∷ []) (codes "LPT"))
    && leb b'1' d
    && leb d b'9'
is_reserved s = any (same_text s) devices

unfoldable pub is_space_or_dot : ℕ → Bool
is_space_or_dot c = c == b' ' || c == b'.'

-- `s.lstrip(" .")`
unfoldable pub lstrip_dots : List ℕ → List ℕ
unfolding is_space_or_dot
lstrip_dots [] = []
lstrip_dots (c ∷ s) = let rest = lstrip_dots s in if is_space_or_dot c then rest else c ∷ s

-- `s.rstrip(" .")`
unfoldable pub rstrip_dots : List ℕ → List ℕ
unfolding lstrip_dots
rstrip_dots s = reverse (lstrip_dots (reverse s))

-- `s.split(".", 1)[0]`
unfoldable pub before_dot : List ℕ → List ℕ
before_dot [] = []
before_dot (c ∷ s) = let rest = before_dot s in if c == b'.' then [] else c ∷ rest

-- `not s or s in {".", ".."}`
unfoldable pub is_nameless : List ℕ → Bool
is_nameless s = length s == 0 || same_text s (codes ".") || same_text s (codes "..")

unfoldable pub limit_chars : List ℕ → List ℕ
unfolding rstrip_dots
limit_chars s = if ltb 80 (length s) then rstrip_dots (take 80 s) else s

unfoldable pub limit_bytes : List ℕ → List ℕ
unfolding rstrip_dots encode decode_ignore
limit_bytes s =
    if ltb 180 (length (encode s)) then rstrip_dots (decode_ignore (take 180 (encode s))) else s

-- `_filename_bounds_ok`
unfoldable pub filename_bounds_ok : List ℕ → Bool
unfolding encode
filename_bounds_ok name =
    not (length name == 0 || ltb 255 (length name))
    && leb 1 (length (encode name))
    && leb (length (encode name)) 240

pub data MediaKind : Type 0 where
  normal_video video_only audio_only : MediaKind

abbrev pub containers : List (List ℕ)
containers =
    codes "mp4"
    ∷ codes "webm"
    ∷ codes "mkv"
    ∷ codes "m4a"
    ∷ codes "mp3"
    ∷ codes "ogg"
    ∷ codes "opus"
    ∷ codes "aac"
    ∷ []

pub data NameError : Type 0 where
  unsafe_container : NameError

-- `_validated_container`; the text's code points are below 256. Each of the containers matches
-- `_CONTAINER_RE`.
unfoldable pub validated_container : List ℕ → Result NameError (List ℕ)
unfolding strip lower
validated_container container =
    let ext = map lower (strip container) in
    if any (same_text ext) containers then ok ext else err unsafe_container

-- `fallback_filename`; the text `job` is `str(download_job_id)`.
unfoldable pub fallback_filename : List ℕ → List ℕ → Result NameError (List ℕ)
unfolding validated_container
fallback_filename job container = do
  ext ← validated_container container
  ok (codes "fetchnow-" ++ (job ++ (b'.' ∷ ext)))

unfoldable pub kind_suffix : MediaKind → List ℕ
kind_suffix normal_video = []
kind_suffix video_only = codes "-video"
kind_suffix audio_only = codes "-audio"

module _ (unicode : UnicodeData) where
  -- The loop of `_sanitize_stem` over the characters of the text.
  unfoldable pub clean : List ℕ → List ℕ
  unfolding is_bidi is_forbidden
  clean [] = []
  clean (c ∷ s) =
      let rest = clean s in
      if is_bidi c || is_forbidden c
      then rest
      else if unicode.is_other c
      then rest
      else if unicode.is_white c
      then b' ' ∷ rest
      else c ∷ rest

  -- `_WHITESPACE.sub(" ", s)`; the first argument tells whether the last character was white.
  unfoldable pub collapse : Bool → List ℕ → List ℕ
  collapse after_white [] = []
  collapse after_white (c ∷ s) =
      let rest = collapse (unicode.is_white c) s in
      if unicode.is_white c then if after_white then rest else b' ' ∷ rest else c ∷ rest

  unfoldable pub collapsed_text : List ℕ → List ℕ
  unfolding clean collapse lstrip_dots rstrip_dots is_control
  collapsed_text raw =
      keep (λ c. not (is_control c))
        (rstrip_dots (lstrip_dots (collapse false (clean (unicode.normalize raw)))))

  -- The tests after the limits, on what the limits left.
  unfoldable pub accept_stem : List ℕ → Option (List ℕ)
  unfolding is_nameless is_reserved
  accept_stem stem =
      if is_nameless stem
      then none
      else if is_reserved (unicode.upper stem)
      then none
      else some stem

  -- `_sanitize_stem`
  unfoldable pub sanitize_stem : Option (List ℕ) → Option (List ℕ)
  unfolding collapsed_text is_nameless before_dot is_reserved limit_chars limit_bytes accept_stem
  sanitize_stem none = none
  sanitize_stem (some raw) =
      let stem = collapsed_text raw in
      if is_nameless stem
      then none
      else if is_reserved (unicode.upper (before_dot stem))
      then none
      else accept_stem (limit_bytes (limit_chars stem))

  -- The stem with the suffix of the kind of media, sanitized again.
  unfoldable pub suffixed_stem : MediaKind → List ℕ → Option (List ℕ)
  unfolding sanitize_stem kind_suffix
  suffixed_stem normal_video stem = some stem
  suffixed_stem kind stem = sanitize_stem (some (stem ++ kind_suffix kind))

  unfoldable pub with_suffix : MediaKind → Option (List ℕ) → Option (List ℕ)
  unfolding suffixed_stem
  with_suffix kind none = none
  with_suffix kind (some stem) = suffixed_stem kind stem

  unfoldable pub stem_for : Option (List ℕ) → MediaKind → Option (List ℕ)
  unfolding sanitize_stem with_suffix
  stem_for title kind = with_suffix kind (sanitize_stem title)

  unfoldable pub name_or : List ℕ → List ℕ → Option (List ℕ) → List ℕ
  unfolding filename_bounds_ok
  name_or fallback ext none = fallback
  name_or fallback ext (some stem) =
      if filename_bounds_ok (stem ++ b'.' ∷ ext) then stem ++ b'.' ∷ ext else fallback

  -- `suggested_filename_for`
  unfoldable pub suggested_filename_for :
      Option (List ℕ) → List ℕ → List ℕ → MediaKind → Result NameError (List ℕ)
  unfolding validated_container fallback_filename stem_for name_or
  suggested_filename_for title container job kind = do
    ext ← validated_container container
    fallback ← fallback_filename job ext
    ok (name_or fallback ext (stem_for title kind))
