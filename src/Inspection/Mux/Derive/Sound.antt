-- ===== src/Inspection/Mux/Derive/Sound.antt =====
-- What the derived options are: pairs of usable streams that go together, each once.
use fetch_now.Prelude.{
  ℕ, ◌≤◌, ◌≡◌, refl, sym, subst, inl, inr, Bool, true, false, not, ◌||◌, Option, none, some, List,
  [], ◌∷◌, Memᴰ, arith, ◌==◌, Bool-cases, if-cases, Distinct-order_by, Distinct-take, length-take,
  find-none, find, order_by, length, take, keep, ◌>>=◌, >>=-eq-ok, ok-injective, ok, All,
  All-append, All-take, All-keep, All-order_by, Distinct, Distinct-append_one,
}
use fetch_now.Texts.{same_text_refl, same_text-eq}
use fetch_now.Payments.Signature.{same_text}
use fetch_now.Inspection.Formats.{Floats, InternalFormatCandidate}
use fetch_now.Inspection.Mux.{
  MuxSettings, DerivedMuxOption, output_policy_for, usable_video, usable_audio, video_before,
  audio_before,
}
use fetch_now.Inspection.Mux.Derive.{
  exceeds, is_frame_rate, binding_equivalent, paired, choose_audio, option_of, option_for, added,
  prepare, has_id, keep_first, remove_duplicates, id_before, higher_before, derive_mux_options,
}

some-eq : {A : Type 0} {a b : A} → some a ≡ some b → a ≡ b
some-eq h = cc

absurd_test : (b a : List ℕ) → b ≡ a → same_text a b ≡ false → same_text b a ≡ false
absurd_test b a e h = let same = subst (λ s. same_text a s ≡ true) (sym e) (same_text_refl a) in cc

same_text-flip : (a b : List ℕ) → same_text a b ≡ false → same_text b a ≡ false
same_text-flip a b h = elim (Bool-cases (same_text b a)) [
  | inl e ↦ absurd_test b a (same_text-eq b a e) h
  | inr e ↦ e
]

module _ {F : Type 0} (floats : Floats F) (sha256_hex : List ℕ → List ℕ) where
  abbrev Candidate : Type 0
  Candidate = InternalFormatCandidate F

  abbrev Derived : Type 0
  Derived = DerivedMuxOption floats sha256_hex

  -- Two options have different ids.
  pub Apart : Derived → Derived → Type 0
  Apart a b = same_text a.public.format_option_id b.public.format_option_id ≡ false

  -- An option of `settings` for streams among `candidates`.
  pub record IsOption (settings : MuxSettings) (candidates : List Candidate) (o : Derived)
      : Type 0 where
    pub its_video : Memᴰ o.video candidates
    pub its_audio : Memᴰ o.audio candidates
    pub video_usable : usable_video floats sha256_hex o.video ≡ true
    pub audio_usable : usable_audio floats sha256_hex o.audio ≡ true
    pub pair : output_policy_for floats sha256_hex o.video o.audio ≡ some o.output_container
    pub within : exceeds o.public.approx_bytes settings.max_source_file_bytes ≡ false
    pub made : o ≡ option_of floats sha256_hex o.video o.audio o.output_container

  abbrev IsStream : (Candidate → Bool) → List Candidate → Candidate → Type 0
  IsStream usable candidates c = Memᴰ c candidates × (usable c ≡ true)

  streams :
      (usable : Candidate → Bool) (before : Candidate → Candidate → Bool) (n : ℕ)
      (candidates : List Candidate)
      → All (IsStream usable candidates) (take n (order_by before (keep usable candidates)))
  streams usable before n candidates = All-take (IsStream usable candidates) n _ (
      All-order_by (IsStream usable candidates) before (keep usable candidates)
        (All-keep (IsStream usable candidates) usable candidates (λ c m h. (m, h))))

  module _ (settings : MuxSettings) (candidates : List Candidate) where
    abbrev IsVideo : Candidate → Type 0
    IsVideo = IsStream (usable_video floats sha256_hex) candidates

    abbrev IsAudio : Candidate → Type 0
    IsAudio = IsStream (usable_audio floats sha256_hex) candidates

    -- The pair that the inner loop chooses.
    IsChoice : Candidate → Option (Candidate × List ℕ) → Type 0
    IsChoice video none = Unit
    IsChoice video (some (audio, output)) =
        IsAudio audio × (output_policy_for floats sha256_hex video audio ≡ some output)

    paired-IsChoice :
        (video audio : Candidate) (policy : Option (List ℕ)) (other : Option (Candidate × List ℕ))
        → IsAudio audio
        → output_policy_for floats sha256_hex video audio ≡ policy
        → IsChoice video other
        → IsChoice video (paired floats sha256_hex audio policy other)
    unfolding IsChoice
    paired-IsChoice video audio none other h e k = k
    paired-IsChoice video audio (some output) other h e k = (h, e)

    choose_audio-IsChoice :
        (video : Candidate) (audios : List Candidate)
        → All IsAudio audios
        → IsChoice video (choose_audio floats sha256_hex video audios)
    unfolding choose_audio IsChoice
    choose_audio-IsChoice video [] h = tt
    choose_audio-IsChoice video (audio ∷ audios) h =
        paired-IsChoice video audio _ _ h.0 refl (choose_audio-IsChoice video audios h.1)

    IsMaybe : Option Derived → Type 0
    IsMaybe none = Unit
    IsMaybe (some o) = IsOption settings candidates o

    option_of-IsOption :
        (video audio : Candidate) (output : List ℕ)
        → IsVideo video
        → IsChoice video (some (audio, output))
        → exceeds
            (option_of floats sha256_hex video audio output).public.approx_bytes
            settings.max_source_file_bytes
          ≡ false
        → IsOption settings candidates (option_of floats sha256_hex video audio output)
    unfolding option_of IsChoice
    option_of-IsOption video audio output v c small = record {
      its_video = v.0;
      its_audio = c.0.0;
      video_usable = v.1;
      audio_usable = c.0.1;
      pair = c.1;
      within = small;
      made = refl;
    }

    option_for-IsMaybe :
        (video : Candidate) (choice : Option (Candidate × List ℕ)) (result : Option Derived)
        → IsVideo video
        → IsChoice video choice
        → option_for floats sha256_hex settings video choice ≡ ok result
        → IsMaybe result
    unfolding option_for IsChoice IsMaybe
    option_for-IsMaybe video none result v c h = subst IsMaybe (ok-injective h) tt
    option_for-IsMaybe video (some (audio, output)) result v c h =
        let option = option_of floats sha256_hex video audio output in
        elim (if-cases (exceeds option.public.approx_bytes settings.max_source_file_bytes) _ _ h) [
          | inl (large, e) ↦ subst IsMaybe (ok-injective e) tt
          | inr (small, e) ↦
              elim (if-cases (not (is_frame_rate floats sha256_hex video.fps)) _ _ e) [
                | inl (bad, f) ↦ cc
                | inr (good, f) ↦
                    subst IsMaybe (ok-injective f) (option_of-IsOption video audio output v c small)
              ]
        ]

    all_added :
        (option : Option Derived) (rest : List Derived)
        → IsMaybe option
        → All (IsOption settings candidates) rest
        → All (IsOption settings candidates) (added floats sha256_hex option rest)
    unfolding IsMaybe
    all_added none rest h k = k
    all_added (some option) rest h k = (h, k)

    prepare-IsOption :
        (videos audios : List Candidate) (options : List Derived)
        → All IsVideo videos
        → All IsAudio audios
        → prepare floats sha256_hex settings videos audios ≡ ok options
        → All (IsOption settings candidates) options
    unfolding prepare
    prepare-IsOption [] audios options v a h =
        subst (All (IsOption settings candidates)) (ok-injective h) tt
    prepare-IsOption (video ∷ videos) audios options v a h =
        let choice = choose_audio floats sha256_hex video audios in
        let (option, made, h1) =
          >>=-eq-ok (option_for floats sha256_hex settings video choice) _ h in
        let (rest, others, h2) =
          >>=-eq-ok (prepare floats sha256_hex settings videos audios) _ h1 in
        subst (All (IsOption settings candidates)) (ok-injective h2) (
          all_added option rest
            (option_for-IsMaybe video choice option v.0 (choose_audio-IsChoice video audios a) made)
            (prepare-IsOption videos audios rest v.1 a others))

  -- The options that are kept are among those given, and their ids differ.
  record Kept (P : Derived → Type 0) (options : List Derived) : Type 0 where
    all : All P options
    apart : Distinct Apart options

  keep_first-Kept :
      (P : Derived → Type 0) (existing : Option Derived) (item : Derived)
      (unique more : List Derived)
      → find (has_id floats sha256_hex item.public.format_option_id) unique ≡ existing
      → P item
      → Kept P unique
      → keep_first floats sha256_hex existing item unique ≡ ok more
      → Kept P more
  unfolding keep_first Apart
  keep_first-Kept P none item unique more new p h e = subst (Kept P) (ok-injective e) (record {
    all = All-append P unique (item ∷ []) h.all (p, tt);
    apart = Distinct-append_one Apart unique item h.apart (find-none _ unique new);
  })
  keep_first-Kept P (some existing) item unique more new p h e =
      elim (if-cases (not (binding_equivalent floats sha256_hex existing item)) _ _ e) [
        | inl (ambiguous, f) ↦ cc
        | inr (same, f) ↦ subst (Kept P) (ok-injective f) h
      ]

  remove_duplicates-Kept :
      (P : Derived → Type 0) (unique items result : List Derived)
      → All P items
      → Kept P unique
      → remove_duplicates floats sha256_hex unique items ≡ ok result
      → Kept P result
  unfolding remove_duplicates
  remove_duplicates-Kept P unique [] result a h e = subst (Kept P) (ok-injective e) h
  remove_duplicates-Kept P unique (item ∷ items) result a h e =
      let existing = find (has_id floats sha256_hex item.public.format_option_id) unique in
      let (more, kept, rest) = >>=-eq-ok (keep_first floats sha256_hex existing item unique) _ e in
      remove_duplicates-Kept P more items result a.1
        (keep_first-Kept P existing item unique more refl a.0 h kept) rest

  Apart-flip : (a b : Derived) → Apart a b → Apart b a
  unfolding Apart
  Apart-flip a b h = same_text-flip a.public.format_option_id b.public.format_option_id h

module _ {F : Type 0} (floats : Floats F) (sha256_hex : List ℕ → List ℕ) (settings : MuxSettings)
    (candidates : List (InternalFormatCandidate F))
    (options : List (DerivedMuxOption floats sha256_hex)) where
  abbrev Promise : List (DerivedMuxOption floats sha256_hex) → Type 0
  Promise o =
      All (IsOption floats sha256_hex settings candidates) o
      × Distinct (Apart floats sha256_hex) o
      × (length o ≤ settings.media_muxing_max_derived_options)

  nothing : [] ≡ options → Promise options
  nothing e = subst Promise e (tt, tt, omega arith)

  derived :
      (videos audios : List (InternalFormatCandidate F))
      → All (IsStream floats sha256_hex (usable_video floats sha256_hex) candidates) videos
      → All (IsStream floats sha256_hex (usable_audio floats sha256_hex) candidates) audios
      → (prepare floats sha256_hex settings videos audios >>= λ prepared.
          remove_duplicates floats sha256_hex [] (order_by (id_before floats sha256_hex) prepared)
          >>= λ unique. ok (
              take settings.media_muxing_max_derived_options
                (order_by (higher_before floats sha256_hex) unique)))
        ≡ ok options
      → Promise options
  derived videos audios v a h =
      let (prepared, made, h1) = >>=-eq-ok (prepare floats sha256_hex settings videos audios) _ h in
      let sorted = order_by (id_before floats sha256_hex) prepared in
      let (unique, kept, h2) = >>=-eq-ok (remove_duplicates floats sha256_hex [] sorted) _ h1 in
      let P = IsOption floats sha256_hex settings candidates in
      let fine =
        prepare-IsOption floats sha256_hex settings candidates videos audios prepared v a made in
      let result =
        remove_duplicates-Kept floats sha256_hex P [] sorted unique
          (All-order_by P (id_before floats sha256_hex) prepared fine)
          (record { all = tt; apart = tt }) kept in
      let n = settings.media_muxing_max_derived_options in
      let last = order_by (higher_before floats sha256_hex) unique in
      subst Promise (ok-injective h2) (
        All-take P n last (All-order_by P (higher_before floats sha256_hex) unique result.all),
        Distinct-take (Apart floats sha256_hex) n last (
            Distinct-order_by (Apart floats sha256_hex) (higher_before floats sha256_hex)
              (Apart-flip floats sha256_hex) unique result.apart),
        length-take n last,
      )

-- The options that `derive_mux_options` returns are at most as many as the setting allows, their ids
-- differ, and each is made of a usable video stream and a usable audio stream among the candidates
-- which the output policy puts in its container, with a size, if one is known, within the limit.
pub derive_mux_options-IsOption :
    {F : Type 0} (floats : Floats F) (sha256_hex : List ℕ → List ℕ) (settings : MuxSettings)
    (candidates : List (InternalFormatCandidate F))
    (options : List (DerivedMuxOption floats sha256_hex))
    → derive_mux_options floats sha256_hex settings candidates ≡ ok options
    → All (IsOption floats sha256_hex settings candidates) options
      × Distinct (Apart floats sha256_hex) options
      × (length options ≤ settings.media_muxing_max_derived_options)
unfolding derive_mux_options
derive_mux_options-IsOption floats sha256_hex settings candidates options h =
    let videos = take settings.media_muxing_max_video_candidates (
      order_by (video_before floats sha256_hex)
        (keep (usable_video floats sha256_hex) candidates)) in
    let audios = take settings.media_muxing_max_audio_candidates (
      order_by (audio_before floats sha256_hex)
        (keep (usable_audio floats sha256_hex) candidates)) in
    elim (if-cases (not settings.media_muxing_enabled) _ _ h) [
      | inl (disabled, e) ↦ nothing floats sha256_hex settings candidates options (ok-injective e)
      | inr (enabled, e) ↦ elim (if-cases (length videos == 0 || length audios == 0) _ _ e) [
        | inl (missing, f) ↦ nothing floats sha256_hex settings candidates options (ok-injective f)
        | inr (given, f) ↦
            derived floats sha256_hex settings candidates options videos audios
              (streams floats sha256_hex (usable_video floats sha256_hex)
                (video_before floats sha256_hex) _ candidates)
              (streams floats sha256_hex (usable_audio floats sha256_hex)
                (audio_before floats sha256_hex) _ candidates)
              f
      ]
    ]
