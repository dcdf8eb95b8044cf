-- ===== src/Filenames/Disposition/Suggested.antt =====
-- A header can be built for every name that `suggested_filename_for` returns.
use fetch_now.Prelude.{
  ℕ, ◌<◌, ◌≡◌, refl, subst, inl, inr, Bool, true, false, ◌&&◌, ◌||◌, Option, none, some, List, ◌∷◌,
  ◌++◌, map, arith, ltb, leb, ◌==◌, and_true, if-holds, if-cases, length, any, >>=-eq-ok,
  ok-injective, ok,
}
use fetch_now.Filenames.Disposition.Accepted.{fine, content_disposition_header-fine}
use fetch_now.Delivery.RangeParse.{strip, lower, all_of}
use fetch_now.Payments.Signature.{same_text}
use fetch_now.Texts.{all_of-append, all_of-weaken, any-same_text}
use fetch_now.Filenames.Stem.{
  UnicodeData, MediaKind, normal_video, video_only, audio_only, is_control, filename_bounds_ok,
  containers, validated_container, fallback_filename, kind_suffix, sanitize_stem, suffixed_stem,
  with_suffix, stem_for, name_or, suggested_filename_for,
}
use fetch_now.Filenames.Stem.Bounds.{
  code_point, IsUnicode, safe, IsSafeStem, sanitize_stem-IsSafeStem,
}
use fetch_now.Filenames.Disposition.{
  token_char, is_ascii_token, is_line_break, header_text, content_disposition_header,
}

-- The characters of `str(uuid)`.
abbrev pub uuid_char : ℕ → Bool
uuid_char c = leb b'0' c && leb c b'9' || leb b'a' c && leb c b'f' || c == b'-'

validated_container-known :
    (container ext : List ℕ)
    → validated_container container ≡ ok ext
    → any (same_text ext) containers ≡ true
unfolding validated_container
validated_container-known container ext h =
    let lowered = map lower (strip container) in
    elim (if-cases (any (same_text lowered) containers) _ _ h) [
      | inl (known, e) ↦ subst (λ s. any (same_text s) containers ≡ true) (ok-injective e) known
      | inr (unknown, e) ↦ cc
    ]

-- A character that both a quoted name and an extended name can hold.
abbrev plain : ℕ → Bool
plain c = token_char c && fine c

containers-plain :
    (container ext : List ℕ) → validated_container container ≡ ok ext → all_of plain ext ≡ true
unfolding token_char is_line_break
containers-plain container ext h =
    any-same_text plain ext containers (validated_container-known container ext h) refl

uuid_char-plain : (c : ℕ) → uuid_char c ≡ true → plain c ≡ true
unfolding token_char is_line_break
uuid_char-plain c h = ground arith

fallback_filename-plain :
    (job container fallback : List ℕ)
    → all_of uuid_char job ≡ true
    → fallback_filename job container ≡ ok fallback
    → (all_of plain fallback ≡ true) × (0 < length fallback)
unfolding fallback_filename token_char is_line_break
fallback_filename-plain job container fallback h returned =
    let (ext, known, same) = >>=-eq-ok (validated_container container) _ returned in
    let letters = containers-plain container ext known in
    let uuid = all_of-weaken uuid_char plain uuid_char-plain job h in
    subst (λ s. (all_of plain s ≡ true) × (0 < length s)) (ok-injective same)
      (all_of-append plain job (b'.' ∷ ext) uuid letters, omega arith)

plain-fine : (c : ℕ) → plain c ≡ true → fine c ≡ true
plain-fine c h = (and_true (token_char c) (fine c) h).1

plain-token : (c : ℕ) → plain c ≡ true → token_char c ≡ true
plain-token c h = (and_true (token_char c) (fine c) h).0

plain-ascii : (c : ℕ) → plain c ≡ true → ltb c 128 ≡ true
unfolding token_char
plain-ascii c h = ground arith

safe-fine : (c : ℕ) → safe c ≡ true → fine c ≡ true
unfolding is_line_break is_control
safe-fine c h = ground arith

safe-code_point : (c : ℕ) → safe c ≡ true → code_point c ≡ true
safe-code_point c h = ground arith

some_length : (n : ℕ) → 0 < n → (n == 0) ≡ false
some_length n h = ground arith

plain-is_ascii_token : (s : List ℕ) → all_of plain s ≡ true → 0 < length s → is_ascii_token s ≡ true
unfolding is_ascii_token
plain-is_ascii_token s h n =
    rw
      (
        some_length (length s) n,
        all_of-weaken plain (λ c. ltb c 128) plain-ascii s h,
        all_of-weaken plain token_char plain-token s h,
      )
      refl

kind_suffix-code_points : (kind : MediaKind) → all_of code_point (kind_suffix kind) ≡ true
unfolding kind_suffix
kind_suffix-code_points normal_video = refl
kind_suffix-code_points video_only = refl
kind_suffix-code_points audio_only = refl

same_name : {a b : List ℕ} → some a ≡ some b → a ≡ b
same_name h = cc

module _ (unicode : UnicodeData) (facts : IsUnicode unicode) where
  with_suffix_again :
      (kind : MediaKind) (stem name : List ℕ)
      → IsSafeStem stem
      → sanitize_stem unicode (some (stem ++ kind_suffix kind)) ≡ some name
      → IsSafeStem name
  with_suffix_again kind stem name safely h =
      sanitize_stem-IsSafeStem unicode facts (stem ++ kind_suffix kind) name
        (all_of-append code_point stem (kind_suffix kind)
          (all_of-weaken safe code_point safe-code_point stem safely.all_safe)
          (kind_suffix-code_points kind))
        h

  suffixed_stem-IsSafeStem :
      (kind : MediaKind) (stem name : List ℕ)
      → IsSafeStem stem
      → suffixed_stem unicode kind stem ≡ some name
      → IsSafeStem name
  unfolding suffixed_stem kind_suffix
  suffixed_stem-IsSafeStem normal_video stem name safely h = subst IsSafeStem (same_name h) safely
  suffixed_stem-IsSafeStem video_only stem name safely h =
      with_suffix_again video_only stem name safely h
  suffixed_stem-IsSafeStem audio_only stem name safely h =
      with_suffix_again audio_only stem name safely h

  with_suffix-IsSafeStem :
      (kind : MediaKind) (raw : List ℕ) (first : Option (List ℕ)) (name : List ℕ)
      → sanitize_stem unicode (some raw) ≡ first
      → all_of code_point raw ≡ true
      → with_suffix unicode kind first ≡ some name
      → IsSafeStem name
  unfolding with_suffix
  with_suffix-IsSafeStem kind raw none name e h made = cc
  with_suffix-IsSafeStem kind raw (some stem) name e h made =
      suffixed_stem-IsSafeStem kind stem name (sanitize_stem-IsSafeStem unicode facts raw stem h e)
        made

  name_or-fine :
      (fallback ext : List ℕ) (stem : Option (List ℕ))
      → all_of fine fallback ≡ true
      → all_of fine ext ≡ true
      → ((name : List ℕ) → stem ≡ some name → all_of fine name ≡ true)
      → all_of fine (name_or unicode fallback ext stem) ≡ true
  unfolding name_or is_line_break
  name_or-fine fallback ext none h k chars = h
  name_or-fine fallback ext (some stem) h k chars =
      if-holds (λ s. all_of fine s ≡ true) (filename_bounds_ok (stem ++ (b'.' ∷ ext)))
        (λ short. all_of-append fine stem (b'.' ∷ ext) (chars stem refl) k) (λ long. h)

-- A Content-Disposition header is built, without an error, for every name that
-- `suggested_filename_for` returns for a title of code points, with the fallback name of the same job
-- whose identifier is written in lower-case hexadecimal digits and dashes.
pub content_disposition_header-suggested_filename_for :
    (unicode : UnicodeData)
    → IsUnicode unicode
    → (title container job name fallback : List ℕ) (kind : MediaKind)
    → all_of code_point title ≡ true
    → all_of uuid_char job ≡ true
    → suggested_filename_for unicode (some title) container job kind ≡ ok name
    → fallback_filename job container ≡ ok fallback
    → (ascii : List ℕ) × (content_disposition_header name fallback ≡ ok (header_text ascii name))
unfolding suggested_filename_for stem_for
content_disposition_header-suggested_filename_for unicode facts title container job name fallback
      kind h uuid returned fell =
    let (ext, known, first) = >>=-eq-ok (validated_container container) _ returned in
    let (other, fell_too, same) = >>=-eq-ok (fallback_filename job ext) _ first in
    let (chars, some_left) = fallback_filename-plain job container fallback uuid fell in
    let (other_chars, also_left) = fallback_filename-plain job ext other uuid fell_too in
    let named =
      name_or-fine unicode facts other ext
        (with_suffix unicode kind (sanitize_stem unicode (some title)))
        (all_of-weaken plain fine plain-fine other other_chars)
        (all_of-weaken plain fine plain-fine ext (containers-plain container ext known))
        (λ stem made.
          all_of-weaken safe fine safe-fine stem
            (with_suffix-IsSafeStem unicode facts kind title (sanitize_stem unicode (some title))
              stem refl h made).all_safe) in
    content_disposition_header-fine name fallback
      (subst (λ s. all_of fine s ≡ true) (ok-injective same) named)
      (plain-is_ascii_token fallback chars some_left)
