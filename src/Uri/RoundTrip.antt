-- ===== src/Uri/RoundTrip.antt =====
-- Decoding what was encoded.
use mathlib.Core.Bool.{and-eq-true_iff}
use marisa.Prelude.{
  ℕ, ◌/◌, ◌%◌, ◌≡◌, ◌≢◌, ◌<◌, refl, ap, ◌∙◌, ==_iff, Bool, true, not, ◌&&◌, ◌||◌, List, [], ◌∷◌,
  ◌++◌, Bytes, ◌==◌, get_or, All, IsByte, passes_below, passes_at, arith,
}
use marisa.Uri.{
  encode_table_url, encode_table_urlcomponent, hex_digit, encode_byte, url_encode, encode_uri,
  encode_uri_component, is_escape, escaped, decode_uri_component,
}

-- An entry of a table is 0 or the byte itself, and the percent sign's is 0.
abbrev is_entry : List ℕ → ℕ → Bool
is_entry table c =
    get_or table c 0 == 0 || (get_or table c 0 == c && not (get_or table c 0 == b'%'))

urlcomponent_entries : passes_below (is_entry encode_table_urlcomponent) 256 ≡ true
unfolding passes_below encode_table_urlcomponent
urlcomponent_entries = refl

url_entries : passes_below (is_entry encode_table_url) 256 ≡ true
unfolding passes_below encode_table_url
url_entries = refl

abbrev is_printed : ℕ → Bool
is_printed c =
    is_escape b'%' (hex_digit (c / 16)) (hex_digit (c % 16))
    && (escaped (hex_digit (c / 16)) (hex_digit (c % 16)) == c)

printed : passes_below is_printed 256 ≡ true
unfolding passes_below is_escape escaped
printed = refl

-- A byte that starts no escape is copied.
decode_uri_component_plain :
    (c : ℕ) (rest after : Bytes)
    → c ≢ b'%'
    → decode_uri_component (c ∷ rest) after ≡ c ∷ decode_uri_component rest after
unfolding decode_uri_component is_escape
decode_uri_component_plain c [] after h = ground arith
decode_uri_component_plain c (a ∷ []) after h = ground arith
decode_uri_component_plain c (a ∷ b ∷ rest) after h = ground arith

-- An escape is read as the byte that its digits spell.
decode_uri_component_escape :
    (c a b : ℕ) (rest after : Bytes)
    → is_escape c a b ≡ true
    → decode_uri_component (c ∷ a ∷ b ∷ rest) after ≡ escaped a b ∷ decode_uri_component rest after
unfolding decode_uri_component
decode_uri_component_escape c a b rest after h = rw (h, decode_uri_component)

decode_uri_component_printed :
    (c : ℕ) (rest after : Bytes)
    → c < 256
    → decode_uri_component (b'%' ∷ hex_digit (c / 16) ∷ hex_digit (c % 16) ∷ rest) after
      ≡ c ∷ decode_uri_component rest after
decode_uri_component_printed c rest after h =
    let (e, q) = (and-eq-true_iff _ _).0 (passes_at is_printed 256 c h printed) in
    decode_uri_component_escape b'%' (hex_digit (c / 16)) (hex_digit (c % 16)) rest after e
    ∙ ap (λ d. d ∷ decode_uri_component rest after) ((==_iff _ c).0 q)

decode_uri_component-encode_byte :
    (table : List ℕ) (c : ℕ) (rest after : Bytes)
    → passes_below (is_entry table) 256 ≡ true
    → c < 256
    → decode_uri_component (encode_byte table c ++ rest) after ≡ c ∷ decode_uri_component rest after
unfolding encode_byte
decode_uri_component-encode_byte table c rest after ok h = ground (
  arith,
  passes_at (is_entry table) 256 c h ok,
  decode_uri_component_plain c rest after,
  decode_uri_component_printed c rest after h,
)

decode_uri_component-url_encode :
    (table : List ℕ) (s after : Bytes)
    → passes_below (is_entry table) 256 ≡ true
    → All IsByte s
    → decode_uri_component (url_encode table s) after ≡ s
unfolding url_encode
decode_uri_component-url_encode table [] after ok h = unfold decode_uri_component in refl
decode_uri_component-url_encode table (c ∷ s) after ok (p, h) =
    rw (decode_uri_component-encode_byte table c (url_encode table s) after ok p)
      (rw (decode_uri_component-url_encode table s after ok h))

-- decodeURIComponent gives back every byte string that encodeURIComponent encoded, whatever the
-- memory behind the encoded text holds.
pub decode_uri_component-encode_uri_component :
    (s after : Bytes) → All IsByte s → decode_uri_component (encode_uri_component s) after ≡ s
unfolding encode_uri_component
decode_uri_component-encode_uri_component s after h =
    decode_uri_component-url_encode encode_table_urlcomponent s after urlcomponent_entries h

-- decodeURIComponent also gives back every byte string that encodeURI encoded.
pub decode_uri_component-encode_uri :
    (s after : Bytes) → All IsByte s → decode_uri_component (encode_uri s) after ≡ s
unfolding encode_uri
decode_uri_component-encode_uri s after h =
    decode_uri_component-url_encode encode_table_url s after url_entries h
