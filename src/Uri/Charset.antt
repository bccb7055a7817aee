-- ===== src/Uri/Charset.antt =====
-- The bytes that an encoded text is made of.
use marisa.Prelude.{
  ℕ, ◌/◌, ◌%◌, ◌≡◌, refl, Bool, true, ◌&&◌, ◌||◌, List, [], ◌∷◌, ◌++◌, Bytes, IsByte, bytes_eq,
  bytes_eq_iff, leb, ◌==◌, if◌then◌else◌, All, passes_below, passes_at,
}
use marisa.Uri.{
  encode_table_url, encode_table_urlcomponent, hex_digit, encode_byte, url_encode, encode_uri,
  encode_uri_component,
}

-- The unreserved characters of RFC 3986.
abbrev pub is_unreserved : ℕ → Bool
is_unreserved c =
    (leb b'a' c && leb c b'z')
    || (leb b'A' c && leb c b'Z')
    || (leb b'0' c && leb c b'9')
    || (c == b'-' || c == b'.' || c == b'_' || c == b'~')

-- The encoding of one byte by percent signs, as RFC 3986 has it.
unfoldable pub percent_encoding : (ℕ → Bool) → ℕ → Bytes
percent_encoding keeps c =
    if keeps c then c ∷ [] else b'%' ∷ hex_digit (c / 16) ∷ hex_digit (c % 16) ∷ []

unfoldable pub percent_encoded : (ℕ → Bool) → Bytes → Bytes
percent_encoded keeps [] = []
percent_encoded keeps (c ∷ s) = percent_encoding keeps c ++ percent_encoded keeps s

-- What `encodeURI` leaves alone.
abbrev pub is_uri_char : ℕ → Bool
is_uri_char c = is_unreserved c || (c == b'=' || c == b'&' || c == b'+')

abbrev is_table_of : (ℕ → Bool) → List ℕ → ℕ → Bool
is_table_of keeps table c = bytes_eq (encode_byte table c) (percent_encoding keeps c)

urlcomponent_table : passes_below (is_table_of is_unreserved encode_table_urlcomponent) 256 ≡ true
unfolding passes_below encode_table_urlcomponent encode_byte percent_encoding bytes_eq
urlcomponent_table = refl

url_table : passes_below (is_table_of is_uri_char encode_table_url) 256 ≡ true
unfolding passes_below encode_table_url encode_byte percent_encoding bytes_eq
url_table = refl

url_encode-eq-percent_encoded :
    (keeps : ℕ → Bool) (table : List ℕ) (s : Bytes)
    → passes_below (is_table_of keeps table) 256 ≡ true
    → All IsByte s
    → url_encode table s ≡ percent_encoded keeps s
unfolding url_encode percent_encoded
url_encode-eq-percent_encoded keeps table [] ok h = refl
url_encode-eq-percent_encoded keeps table (c ∷ s) ok (p, h) = cc (
  (bytes_eq_iff (encode_byte table c) (percent_encoding keeps c)).0
      (passes_at (is_table_of keeps table) 256 c p ok),
  url_encode-eq-percent_encoded keeps table s ok h,
)

-- On bytes, encodeURIComponent leaves exactly the unreserved characters of RFC 3986 and encodeURI
-- those and `=`, `&`, `+`; both encode every other byte as `%` and two upper-case digits.
pub encode-eq-percent_encoded :
    (s : Bytes)
    → All IsByte s
    → (encode_uri_component s ≡ percent_encoded is_unreserved s)
      × (encode_uri s ≡ percent_encoded is_uri_char s)
unfolding encode_uri encode_uri_component
encode-eq-percent_encoded s h = (
  url_encode-eq-percent_encoded is_unreserved encode_table_urlcomponent s urlcomponent_table h,
  url_encode-eq-percent_encoded is_uri_char encode_table_url s url_table h,
)
