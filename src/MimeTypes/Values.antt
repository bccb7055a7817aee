-- ===== src/MimeTypes/Values.antt =====
-- What the table gives.
use marisa.Prelude.{
  ℕ, suc, ◌≡◌, refl, Bool, true, false, ◌||◌, Option, none, some, List, [], ◌∷◌, map, Bytes, codes,
  bytes_eq, to_lower, ◌==◌, if◌then◌else◌, all, find, find-all, arith,
}
use marisa.MimeTypes.{unknown_mime_type, mime_types, get_mime_type}

-- How often a slash stands in a text.
abbrev pub slashes : Bytes → ℕ
slashes [] = 0
slashes (c ∷ s) = let rest = slashes s in if c == b'/' then suc rest else rest

-- The extensions whose value has no subtype.
abbrev pub without_subtype : List Bytes
without_subtype =
    codes "dtd" ∷ codes "ent" ∷ codes "rng" ∷ codes "xbl" ∷ codes "xml" ∷ codes "xsd" ∷ []

abbrev pub is_one_of : List Bytes → Bytes → Bool
is_one_of [] s = false
is_one_of (t ∷ ts) s = let rest = is_one_of ts s in bytes_eq t s || rest

-- A value with one slash, or an extension whose first value has none.
is_type : Bytes → Bytes → Bool
is_type ext value = slashes value == 1 || is_one_of without_subtype ext

all_types : all (λ e. is_type e.0 e.1) mime_types ≡ true
unfolding is_type bytes_eq
all_types = refl

-- An extension, in any case, gets a media type with one slash, unless it is one of the listed ones.
get_mime_type-slashes :
    (file_ext : Bytes)
    → is_one_of without_subtype (map to_lower file_ext) ≡ false
    → slashes (get_mime_type file_ext) ≡ 1
unfolding get_mime_type is_type
get_mime_type-slashes file_ext other =
    go (find (map to_lower file_ext) mime_types)
      (λ value e. find-all is_type (map to_lower file_ext) value mime_types all_types e)
  where
    go :
        (found : Option Bytes)
        → ((value : Bytes) → found ≡ some value → is_type (map to_lower file_ext) value ≡ true)
        → slashes (elim found [ none ↦ unknown_mime_type | some value ↦ value ]) ≡ 1
    go none h = refl
    go (some value) h = let typed = h value refl in ground (arith)
