-- ===== src/Uri/Bounds.antt =====
-- What the encoders and decoders write, against the buffers that they are given.
use marisa.Prelude.{
  ℕ, ◌+◌, ◌*◌, ◌≤◌, ◌≡◌, false, List, [], ◌∷◌, Bytes, get_or, length, length-append, arith,
}
use marisa.Uri.{
  encode_byte, url_encode, encode_uri, encode_uri_component, is_xdigit, is_escape, escaped,
  decode_uri_component, decoded, decode_uri,
}

length-encode_byte : (table : List ℕ) (c : ℕ) → length (encode_byte table c) ≤ 3
unfolding encode_byte
length-encode_byte table c = ground arith

length-url_encode : (table : List ℕ) (s : Bytes) → length (url_encode table s) ≤ 3 * length s
unfolding url_encode
length-url_encode table [] = omega arith
length-url_encode table (c ∷ s) = omega (
  arith,
  length-append (encode_byte table c) (url_encode table s),
  length-encode_byte table c,
  length-url_encode table s,
)

-- Both encoders write at most three bytes for each byte, so the text and the NUL that sprintf puts
-- behind it fit the buffer of 3 * size + 1 bytes.
pub length-encode :
    (s : Bytes)
    → (length (encode_uri s) + 1 ≤ 3 * length s + 1)
      × (length (encode_uri_component s) + 1 ≤ 3 * length s + 1)
unfolding encode_uri encode_uri_component
length-encode s = (omega (arith, length-url_encode _ s), omega (arith, length-url_encode _ s))

-- decodeURIComponent never writes more bytes than its input has, also where an escape reaches past
-- the end of the view.
pub length-decode_uri_component :
    (s after : Bytes) → length (decode_uri_component s after) ≤ length s
unfolding decode_uri_component
length-decode_uri_component [] after = omega arith
length-decode_uri_component (c ∷ []) after = ground arith
length-decode_uri_component (c ∷ a ∷ []) after =
    ground (arith, length-decode_uri_component (a ∷ []) after)
length-decode_uri_component (c ∷ a ∷ b ∷ s) after =
    ground
      (arith, length-decode_uri_component s after, length-decode_uri_component (a ∷ b ∷ s) after)

length-decoded : (c : ℕ) → length (decoded c) ≤ 3
unfolding decoded
length-decoded c = ground arith

-- An escape that begins with fewer than three bytes left wants a digit behind the view.
pub no_escape_of_second : (c a b : ℕ) → is_xdigit b ≡ false → is_escape c a b ≡ false
unfolding is_escape
no_escape_of_second c a b h = ground arith

pub no_escape_of_first : (c a b : ℕ) → is_xdigit a ≡ false → is_escape c a b ≡ false
unfolding is_escape
no_escape_of_first c a b h = ground arith

-- decodeURI never writes more bytes than its input has, if the byte behind the view is no
-- hexadecimal digit.
pub length-decode_uri :
    (s after : Bytes)
    → is_xdigit (get_or after 0 0) ≡ false
    → length (decode_uri s after) ≤ length s
unfolding decode_uri
length-decode_uri [] after h = omega arith
length-decode_uri (c ∷ []) after h =
    rw (no_escape_of_first c (get_or after 0 0) (get_or after 1 0) h, decode_uri) (omega arith)
length-decode_uri (c ∷ a ∷ []) after h =
    rw (no_escape_of_second c a (get_or after 0 0) h, decode_uri)
      (omega (arith, length-decode_uri (a ∷ []) after h))
length-decode_uri (c ∷ a ∷ b ∷ s) after h = ground (
  arith,
  length-decoded (escaped a b),
  length-append (decoded (escaped a b)) (decode_uri s after),
  length-decode_uri s after h,
  length-decode_uri (a ∷ b ∷ s) after h,
)
