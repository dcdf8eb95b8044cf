-- ===== src/Examples/Filenames.antt =====
-- Attachment names (backend/src/fetchnow/downloads/filename.py).
use fetch_now.Prelude.{
  ℕ, ◌-◌, ◌≡◌, refl, ◌≢◌, true, ◌&&◌, ◌||◌, some, List, [], ◌∷◌, ◌++◌, map, arith, leb, ◌==◌,
  if◌then◌else◌, codes, ok, err,
}
use fetch_now.Delivery.RangeParse.{all_of}
use fetch_now.Filenames.Utf8.{encode, decode}
use fetch_now.Filenames.Rfc8187.{
  escape, encode_rfc8187, no_fuel, value_error, decode_rfc8187, read_pieces,
}
use fetch_now.Filenames.Rfc8187.RoundTrip.{decode_rfc8187-encode_rfc8187}
use fetch_now.Filenames.Rfc8187.Termination.{decode_rfc8187-ends}
use fetch_now.Filenames.Stem.{UnicodeData, normal_video, fallback_filename, suggested_filename_for}
use fetch_now.Filenames.Stem.Bounds.{IsUnicode, is_surrogate}
use fetch_now.Filenames.Disposition.{token_char, header_text, content_disposition_header}
use fetch_now.Filenames.Disposition.Safety.{printable, content_disposition_header-IsHeader}
use fetch_now.Filenames.Disposition.Suggested.{content_disposition_header-suggested_filename_for}

-- "naïve €😀.mp4"
abbrev long_name : List ℕ
long_name = codes "na" ++ (0xef ∷ b'v' ∷ b'e' ∷ b' ' ∷ 0x20ac ∷ 0x1f600 ∷ codes ".mp4")

decode_rfc8187-encode_rfc8187_example :
    decode_rfc8187 (encode_rfc8187 long_name) ≡ ok (some long_name)
decode_rfc8187-encode_rfc8187_example = decode_rfc8187-encode_rfc8187 long_name refl (omega arith)

encoded_name : encode_rfc8187 (b'a' ∷ 0x20ac ∷ []) ≡ codes "UTF-8''a%E2%82%AC"
unfolding encode_rfc8187 escape encode
encoded_name = refl

-- A sign in front of a digit is read by `int`, and a negative number is no byte.
signed_escape : decode_rfc8187 (codes "UTF-8''%-1") ≡ err value_error
unfolding decode_rfc8187 read_pieces
signed_escape = refl

plus_escape : decode_rfc8187 (codes "UTF-8''%+a") ≡ ok (some (10 ∷ []))
unfolding decode_rfc8187 read_pieces decode
plus_escape = refl

decode_rfc8187-ends_example : decode_rfc8187 (codes "UTF-8''a%2") ≢ err no_fuel
decode_rfc8187-ends_example = decode_rfc8187-ends (codes "UTF-8''a%2")

abbrev clip : List ℕ
clip = codes "My clip.mp4"

abbrev clip_header : List ℕ
clip_header = header_text clip clip

content_disposition_header-IsHeader_example :
    (all_of printable clip_header ≡ true)
    × (ascii : List ℕ) × (all_of token_char ascii ≡ true)
    × (clip_header ≡ header_text ascii clip)
unfolding content_disposition_header header_text encode
content_disposition_header-IsHeader_example =
    content_disposition_header-IsHeader clip (codes "fallback.mp4") clip_header refl refl

abbrev latin_upper : ℕ → ℕ
latin_upper c = if leb b'a' c && leb c b'z' then c - 32 else c

-- The data of a Unicode with the letters of ASCII only.
abbrev ascii_data : UnicodeData
ascii_data = record {
  normalize = λ s. s;
  is_other = λ c. leb c 31 || leb 127 c && leb c 159 || is_surrogate c;
  is_white = λ c. c == b' ';
  upper = map latin_upper;
}

ascii_data-IsUnicode : IsUnicode ascii_data
ascii_data-IsUnicode = record { surrogates = λ c h. ground arith; in_range = λ s h. h }

abbrev job_text : List ℕ
job_text = codes "0b9f6c1e-4a3d-4f7e-8c21-9d0e5a7b3c42"

abbrev job_fallback : List ℕ
job_fallback = codes "fetchnow-0b9f6c1e-4a3d-4f7e-8c21-9d0e5a7b3c42.mp4"

content_disposition_header-suggested_filename_for_example :
    (ascii : List ℕ) × (content_disposition_header clip job_fallback ≡ ok (header_text ascii clip))
unfolding suggested_filename_for fallback_filename
content_disposition_header-suggested_filename_for_example =
    content_disposition_header-suggested_filename_for ascii_data ascii_data-IsUnicode
      (codes " My  clip? ") (codes "mp4") job_text clip job_fallback normal_video refl refl refl
      refl
