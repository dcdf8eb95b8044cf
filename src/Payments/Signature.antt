-- ===== src/Payments/Signature.antt =====
-- The signature of a callback (backend/src/fetchnow/payments/robokassa.py). A text is the list of
-- its code points.
use fetch_now.Prelude.{
  ℕ, ◌+◌, Bool, true, false, ◌&&◌, ◌||◌, List, [], ◌∷◌, ◌++◌, map, leb, ◌==◌, if◌then◌else◌, length,
}
use fetch_now.Delivery.RangeParse.{all_of}
use fetch_now.Payments.Amount.{print}

abbrev pub is_hex : ℕ → Bool
is_hex c = leb b'0' c && leb c b'9' || leb b'a' c && leb c b'f' || leb b'A' c && leb c b'F'

-- `str.lower` of a hexadecimal digit.
abbrev pub lower_hex : ℕ → ℕ
lower_hex c = if leb b'A' c && leb c b'Z' then c + 32 else c

abbrev pub same_text : List ℕ → List ℕ → Bool
same_text [] [] = true
same_text (a ∷ s) (b ∷ t) = (a == b) && same_text s t
same_text _ _ = false

unfoldable pub callback_signature_base : List ℕ → ℕ → List ℕ → List ℕ
unfolding print
callback_signature_base raw inv_id password = raw ++ (b':' ∷ print inv_id ++ (b':' ∷ password))

-- `hmac.compare_digest` is equality of texts.
unfoldable pub signature_matches : List ℕ → List ℕ → Bool
signature_matches supplied expected =
    (length supplied == 64)
    && all_of is_hex supplied
    && same_text (map lower_hex supplied) (map lower_hex expected)
