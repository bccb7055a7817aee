-- ===== src/Uri.antt =====
-- Source/Protocol/HTTP/Parser.cpp: percent-encoding and decoding of URLs. A text is the list of its
-- bytes. A string_view stands in memory that goes on behind it: the decoders take the bytes that
-- follow (`after`), since they read up to two of them. A read past the listed bytes is the NUL that
-- ends a std::string.
pub mod RoundTrip
pub mod Bounds
pub mod Views
pub mod Charset
mod Tests
use marisa.Prelude.{
  ℕ, ◌+◌, ◌-◌, ◌*◌, ◌/◌, ◌%◌, Bool, true, false, not, ◌&&◌, ◌||◌, List, [], ◌∷◌, ◌++◌, Bytes, ltb,
  leb, ◌==◌, if◌then◌else◌, get_or,
}

encode_table_urlcomponent : List ℕ
encode_table_urlcomponent =
    0 ∷ 0 ∷ 0 ∷ 0 ∷ 0 ∷ 0 ∷ 0 ∷ 0 ∷ 0 ∷ 0 ∷ 0 ∷ 0 ∷ 0 ∷ 0 ∷ 0 ∷ 0 ∷ 0 ∷ 0 ∷ 0 ∷ 0 ∷ 0 ∷ 0 ∷ 0 ∷ 0
    ∷ 0 ∷ 0 ∷ 0 ∷ 0 ∷ 0 ∷ 0 ∷ 0 ∷ 0 ∷ 0 ∷ 0 ∷ 0 ∷ 0 ∷ 0 ∷ 0 ∷ 0 ∷ 0 ∷ 0 ∷ 0 ∷ 0 ∷ 0 ∷ 0 ∷ 0x2d
    ∷ 0x2e ∷ 0 ∷ 0x30 ∷ 0x31 ∷ 0x32 ∷ 0x33 ∷ 0x34 ∷ 0x35 ∷ 0x36 ∷ 0x37 ∷ 0x38 ∷ 0x39 ∷ 0 ∷ 0 ∷ 0 ∷ 0
    ∷ 0 ∷ 0 ∷ 0 ∷ 0x41 ∷ 0x42 ∷ 0x43 ∷ 0x44 ∷ 0x45 ∷ 0x46 ∷ 0x47 ∷ 0x48 ∷ 0x49 ∷ 0x4a ∷ 0x4b ∷ 0x4c
    ∷ 0x4d ∷ 0x4e ∷ 0x4f ∷ 0x50 ∷ 0x51 ∷ 0x52 ∷ 0x53 ∷ 0x54 ∷ 0x55 ∷ 0x56 ∷ 0x57 ∷ 0x58 ∷ 0x59
    ∷ 0x5a ∷ 0 ∷ 0 ∷ 0 ∷ 0 ∷ 0x5f ∷ 0 ∷ 0x61 ∷ 0x62 ∷ 0x63 ∷ 0x64 ∷ 0x65 ∷ 0x66 ∷ 0x67 ∷ 0x68 ∷ 0x69
    ∷ 0x6a ∷ 0x6b ∷ 0x6c ∷ 0x6d ∷ 0x6e ∷ 0x6f ∷ 0x70 ∷ 0x71 ∷ 0x72 ∷ 0x73 ∷ 0x74 ∷ 0x75 ∷ 0x76
    ∷ 0x77 ∷ 0x78 ∷ 0x79 ∷ 0x7a ∷ 0 ∷ 0 ∷ 0 ∷ 0x7e ∷ 0 ∷ 0 ∷ 0 ∷ 0 ∷ 0 ∷ 0 ∷ 0 ∷ 0 ∷ 0 ∷ 0 ∷ 0 ∷ 0
    ∷ 0 ∷ 0 ∷ 0 ∷ 0 ∷ 0 ∷ 0 ∷ 0 ∷ 0 ∷ 0 ∷ 0 ∷ 0 ∷ 0 ∷ 0 ∷ 0 ∷ 0 ∷ 0 ∷ 0 ∷ 0 ∷ 0 ∷ 0 ∷ 0 ∷ 0 ∷ 0 ∷ 0
    ∷ 0 ∷ 0 ∷ 0 ∷ 0 ∷ 0 ∷ 0 ∷ 0 ∷ 0 ∷ 0 ∷ 0 ∷ 0 ∷ 0 ∷ 0 ∷ 0 ∷ 0 ∷ 0 ∷ 0 ∷ 0 ∷ 0 ∷ 0 ∷ 0 ∷ 0 ∷ 0 ∷ 0
    ∷ 0 ∷ 0 ∷ 0 ∷ 0 ∷ 0 ∷ 0 ∷ 0 ∷ 0 ∷ 0 ∷ 0 ∷ 0 ∷ 0 ∷ 0 ∷ 0 ∷ 0 ∷ 0 ∷ 0 ∷ 0 ∷ 0 ∷ 0 ∷ 0 ∷ 0 ∷ 0 ∷ 0
    ∷ 0 ∷ 0 ∷ 0 ∷ 0 ∷ 0 ∷ 0 ∷ 0 ∷ 0 ∷ 0 ∷ 0 ∷ 0 ∷ 0 ∷ 0 ∷ 0 ∷ 0 ∷ 0 ∷ 0 ∷ 0 ∷ 0 ∷ 0 ∷ 0 ∷ 0 ∷ 0 ∷ 0
    ∷ 0 ∷ 0 ∷ 0 ∷ 0 ∷ 0 ∷ 0 ∷ 0 ∷ 0 ∷ 0 ∷ 0 ∷ 0 ∷ 0 ∷ 0 ∷ 0 ∷ 0 ∷ 0 ∷ 0 ∷ 0 ∷ 0 ∷ 0 ∷ 0 ∷ []

encode_table_url : List ℕ
encode_table_url =
    0 ∷ 0 ∷ 0 ∷ 0 ∷ 0 ∷ 0 ∷ 0 ∷ 0 ∷ 0 ∷ 0 ∷ 0 ∷ 0 ∷ 0 ∷ 0 ∷ 0 ∷ 0 ∷ 0 ∷ 0 ∷ 0 ∷ 0 ∷ 0 ∷ 0 ∷ 0 ∷ 0
    ∷ 0 ∷ 0 ∷ 0 ∷ 0 ∷ 0 ∷ 0 ∷ 0 ∷ 0 ∷ 0 ∷ 0 ∷ 0 ∷ 0 ∷ 0 ∷ 0 ∷ 0x26 ∷ 0 ∷ 0 ∷ 0 ∷ 0 ∷ 0x2b ∷ 0 ∷ 0x2d
    ∷ 0x2e ∷ 0 ∷ 0x30 ∷ 0x31 ∷ 0x32 ∷ 0x33 ∷ 0x34 ∷ 0x35 ∷ 0x36 ∷ 0x37 ∷ 0x38 ∷ 0x39 ∷ 0 ∷ 0 ∷ 0
    ∷ 0x3d ∷ 0 ∷ 0 ∷ 0 ∷ 0x41 ∷ 0x42 ∷ 0x43 ∷ 0x44 ∷ 0x45 ∷ 0x46 ∷ 0x47 ∷ 0x48 ∷ 0x49 ∷ 0x4a ∷ 0x4b
    ∷ 0x4c ∷ 0x4d ∷ 0x4e ∷ 0x4f ∷ 0x50 ∷ 0x51 ∷ 0x52 ∷ 0x53 ∷ 0x54 ∷ 0x55 ∷ 0x56 ∷ 0x57 ∷ 0x58
    ∷ 0x59 ∷ 0x5a ∷ 0 ∷ 0 ∷ 0 ∷ 0 ∷ 0x5f ∷ 0 ∷ 0x61 ∷ 0x62 ∷ 0x63 ∷ 0x64 ∷ 0x65 ∷ 0x66 ∷ 0x67 ∷ 0x68
    ∷ 0x69 ∷ 0x6a ∷ 0x6b ∷ 0x6c ∷ 0x6d ∷ 0x6e ∷ 0x6f ∷ 0x70 ∷ 0x71 ∷ 0x72 ∷ 0x73 ∷ 0x74 ∷ 0x75
    ∷ 0x76 ∷ 0x77 ∷ 0x78 ∷ 0x79 ∷ 0x7a ∷ 0 ∷ 0 ∷ 0 ∷ 0x7e ∷ 0 ∷ 0 ∷ 0 ∷ 0 ∷ 0 ∷ 0 ∷ 0 ∷ 0 ∷ 0 ∷ 0
    ∷ 0 ∷ 0 ∷ 0 ∷ 0 ∷ 0 ∷ 0 ∷ 0 ∷ 0 ∷ 0 ∷ 0 ∷ 0 ∷ 0 ∷ 0 ∷ 0 ∷ 0 ∷ 0 ∷ 0 ∷ 0 ∷ 0 ∷ 0 ∷ 0 ∷ 0 ∷ 0 ∷ 0
    ∷ 0 ∷ 0 ∷ 0 ∷ 0 ∷ 0 ∷ 0 ∷ 0 ∷ 0 ∷ 0 ∷ 0 ∷ 0 ∷ 0 ∷ 0 ∷ 0 ∷ 0 ∷ 0 ∷ 0 ∷ 0 ∷ 0 ∷ 0 ∷ 0 ∷ 0 ∷ 0 ∷ 0
    ∷ 0 ∷ 0 ∷ 0 ∷ 0 ∷ 0 ∷ 0 ∷ 0 ∷ 0 ∷ 0 ∷ 0 ∷ 0 ∷ 0 ∷ 0 ∷ 0 ∷ 0 ∷ 0 ∷ 0 ∷ 0 ∷ 0 ∷ 0 ∷ 0 ∷ 0 ∷ 0 ∷ 0
    ∷ 0 ∷ 0 ∷ 0 ∷ 0 ∷ 0 ∷ 0 ∷ 0 ∷ 0 ∷ 0 ∷ 0 ∷ 0 ∷ 0 ∷ 0 ∷ 0 ∷ 0 ∷ 0 ∷ 0 ∷ 0 ∷ 0 ∷ 0 ∷ 0 ∷ 0 ∷ 0 ∷ 0
    ∷ 0 ∷ 0 ∷ 0 ∷ 0 ∷ 0 ∷ 0 ∷ 0 ∷ 0 ∷ 0 ∷ 0 ∷ 0 ∷ 0 ∷ 0 ∷ 0 ∷ 0 ∷ 0 ∷ 0 ∷ 0 ∷ 0 ∷ 0 ∷ 0 ∷ 0 ∷ 0 ∷ []

-- One upper-case digit of `%02X`.
abbrev pub hex_digit : ℕ → ℕ
hex_digit n = if ltb n 10 then b'0' + n else 55 + n

-- What one round of `url_encode` prints.
encode_byte : List ℕ → ℕ → Bytes
encode_byte table c =
    let t = get_or table c 0 in
    if t == 0 then b'%' ∷ hex_digit (c / 16) ∷ hex_digit (c % 16) ∷ [] else t ∷ []

url_encode : List ℕ → Bytes → Bytes
unfolding encode_byte
url_encode table [] = []
url_encode table (c ∷ s) = encode_byte table c ++ url_encode table s

pub encode_uri : Bytes → Bytes
unfolding url_encode encode_table_url
encode_uri s = url_encode encode_table_url s

pub encode_uri_component : Bytes → Bytes
unfolding url_encode encode_table_urlcomponent
encode_uri_component s = url_encode encode_table_urlcomponent s

-- isxdigit
abbrev pub is_xdigit : ℕ → Bool
is_xdigit c = (leb b'0' c && leb c b'9') || (leb b'A' c && leb c b'F') || (leb b'a' c && leb c b'f')

-- The digit that `c` stands for, by the subtractions of the decoders.
abbrev pub hex_value : ℕ → ℕ
hex_value c = let u = if leb b'a' c then c - 32 else c in if leb b'A' u then u - 55 else u - b'0'

-- The decoders' test for an escape at `c`, `src[1]` = a and `src[2]` = b.
unfoldable pub is_escape : ℕ → ℕ → ℕ → Bool
is_escape c a b = (c == b'%') && (not (a == 0) && not (b == 0)) && (is_xdigit a && is_xdigit b)

unfoldable pub escaped : ℕ → ℕ → ℕ
escaped a b = (16 * hex_value a + hex_value b) % 256

-- `src` is the view, `after` the memory behind it.
unfoldable pub decode_uri_component : (src after : Bytes) → Bytes
decode_uri_component [] after = []
decode_uri_component (c ∷ []) after = elim (is_escape c (get_or after 0 0) (get_or after 1 0)) [
  | true ↦ escaped (get_or after 0 0) (get_or after 1 0) ∷ []
  | false ↦ c ∷ []
]
decode_uri_component (c ∷ a ∷ []) after = elim (is_escape c a (get_or after 0 0)) [
  | true ↦ escaped a (get_or after 0 0) ∷ []
  | false ↦ c ∷ decode_uri_component (a ∷ []) after
]
decode_uri_component (c ∷ a ∷ b ∷ src) after = elim (is_escape c a b) [
  | true ↦ escaped a b ∷ decode_uri_component src after
  | false ↦ c ∷ decode_uri_component (a ∷ b ∷ src) after
]

-- The bytes that `decodeURI` leaves encoded.
abbrev pub is_kept : ℕ → Bool
is_kept c = c == b'=' || c == b'&' || c == b'+'

-- What `decodeURI` writes for the byte `c` of an escape.
decoded : ℕ → Bytes
decoded c = if is_kept c then b'%' ∷ hex_digit (c / 16) ∷ hex_digit (c % 16) ∷ [] else c ∷ []

pub decode_uri : (src after : Bytes) → Bytes
unfolding decoded
decode_uri [] after = []
decode_uri (c ∷ []) after = elim (is_escape c (get_or after 0 0) (get_or after 1 0)) [
  | true ↦ decoded (escaped (get_or after 0 0) (get_or after 1 0))
  | false ↦ c ∷ []
]
decode_uri (c ∷ a ∷ []) after = elim (is_escape c a (get_or after 0 0)) [
  | true ↦ decoded (escaped a (get_or after 0 0))
  | false ↦ c ∷ decode_uri (a ∷ []) after
]
decode_uri (c ∷ a ∷ b ∷ src) after = elim (is_escape c a b) [
  | true ↦ decoded (escaped a b) ++ decode_uri src after
  | false ↦ c ∷ decode_uri (a ∷ b ∷ src) after
]
