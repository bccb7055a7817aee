-- ===== src/Uri/Views.antt =====
-- Decoding a view that stands inside a larger text.
use marisa.Prelude.{
  ℕ, ◌≡◌, inl, inr, refl, sym, ap, ◌∙◌, true, false, [], ◌∷◌, ◌++◌, Bytes, if◌then◌else◌,
  Bool-cases, get_or, arith,
}
use marisa.Uri.{is_xdigit, is_escape, escaped, is_kept, decode_uri_component, decoded, decode_uri}
use marisa.Uri.Bounds.{no_escape_of_second, no_escape_of_first}

-- The result of decodeURIComponent depends on the view alone, if the byte behind it is no
-- hexadecimal digit.
pub decode_uri_component_view :
    (s after : Bytes)
    → is_xdigit (get_or after 0 0) ≡ false
    → decode_uri_component s after ≡ decode_uri_component s []
unfolding decode_uri_component
decode_uri_component_view [] after h = refl
decode_uri_component_view (c ∷ []) after h = ground (
  arith,
  no_escape_of_first c (get_or after 0 0) (get_or after 1 0) h,
  no_escape_of_first c 0 0 refl,
)
decode_uri_component_view (c ∷ a ∷ []) after h = ground (
  arith,
  no_escape_of_second c a (get_or after 0 0) h,
  no_escape_of_second c a 0 refl,
  decode_uri_component_view (a ∷ []) after h,
)
decode_uri_component_view (c ∷ a ∷ b ∷ s) after h =
    ground
      (arith, decode_uri_component_view s after h, decode_uri_component_view (a ∷ b ∷ s) after h)

-- So does the result of decodeURI.
decode_uri_view :
    (s after : Bytes) → is_xdigit (get_or after 0 0) ≡ false → decode_uri s after ≡ decode_uri s []
unfolding decode_uri
decode_uri_view [] after h = refl
decode_uri_view (c ∷ []) after h = ground (
  arith,
  no_escape_of_first c (get_or after 0 0) (get_or after 1 0) h,
  no_escape_of_first c 0 0 refl,
)
decode_uri_view (c ∷ a ∷ []) after h = ground (
  arith,
  no_escape_of_second c a (get_or after 0 0) h,
  no_escape_of_second c a 0 refl,
  decode_uri_view (a ∷ []) after h,
)
decode_uri_view (c ∷ a ∷ b ∷ s) after h =
    ground (arith, decode_uri_view s after h, decode_uri_view (a ∷ b ∷ s) after h)

-- The equal, ampersand and plus signs of a text, in order.
unfoldable pub delimiters : Bytes → Bytes
delimiters [] = []
delimiters (c ∷ s) = if is_kept c then c ∷ delimiters s else delimiters s

delimiters-append : (s t : Bytes) → delimiters (s ++ t) ≡ delimiters s ++ delimiters t
unfolding delimiters
delimiters-append [] t = refl
delimiters-append (c ∷ s) t = ground (arith, delimiters-append s t)

delimiters-decoded : (c : ℕ) → delimiters (decoded c) ≡ []
unfolding delimiters decoded
delimiters-decoded c = ground arith

-- The bytes of an escape are no delimiters.
delimiters_escape :
    (c a b : ℕ) (s : Bytes) → is_escape c a b ≡ true → delimiters (c ∷ a ∷ b ∷ s) ≡ delimiters s
unfolding delimiters is_escape
delimiters_escape c a b s h = ground arith

-- A copied byte is a delimiter before and after.
delimiters_copy :
    (c : ℕ) (s t : Bytes) → delimiters s ≡ delimiters t → delimiters (c ∷ s) ≡ delimiters (c ∷ t)
unfolding delimiters
delimiters_copy c s t h = ground arith

delimiters-decode_uri_nil : (s : Bytes) → delimiters (decode_uri s []) ≡ delimiters s
unfolding decode_uri
delimiters-decode_uri_nil [] = refl
delimiters-decode_uri_nil (c ∷ []) = ground (arith, no_escape_of_first c 0 0 refl)
delimiters-decode_uri_nil (c ∷ a ∷ []) =
    rw (no_escape_of_second c a 0 refl, decode_uri)
      (delimiters_copy c (decode_uri (a ∷ []) []) (a ∷ []) (delimiters-decode_uri_nil (a ∷ [])))
delimiters-decode_uri_nil (c ∷ a ∷ b ∷ s) = elim (Bool-cases (is_escape c a b)) [
  | inl e ↦
      rw (e, decode_uri)
        (delimiters-append (decoded (escaped a b)) (decode_uri s [])
          ∙ (rw (delimiters-decoded (escaped a b))
              (delimiters-decode_uri_nil s ∙ sym (delimiters_escape c a b s e))))
  | inr e ↦
      rw (e, decode_uri)
        (delimiters_copy c (decode_uri (a ∷ b ∷ s) []) (a ∷ b ∷ s)
          (delimiters-decode_uri_nil (a ∷ b ∷ s)))
]

-- decodeURI neither adds nor removes a delimiter of a query string (`=`, `&` or `+`), if the byte
-- behind the view is no hexadecimal digit.
pub delimiters-decode_uri :
    (s after : Bytes)
    → is_xdigit (get_or after 0 0) ≡ false
    → delimiters (decode_uri s after) ≡ delimiters s
delimiters-decode_uri s after h =
    ap delimiters (decode_uri_view s after h) ∙ delimiters-decode_uri_nil s
