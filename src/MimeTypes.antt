-- ===== src/MimeTypes.antt =====
-- Source/Utilities/MimeTypes.cpp: the media type of a file's extension. The table stands in seven parts;
-- of the pairs with one extension, an unordered_map keeps the first.
mod TableA
mod TableB
mod TableC
mod TableD
mod TableE
mod TableF
mod TableG
pub mod Values
mod Tests
use marisa.Prelude.{
  ℤ, pos, negsuc, ℕ, zero, suc, ◌+◌, ◌-◌, ◌*◌, ◌/◌, ◌%◌, ◌^◌, ◌≤◌, ◌<◌, ◌≡◌, ◌≢◌, ◌↔◌, ◌⊎◌, inl,
  inr, refl, sym, ap, ◌∙◌, Bool, true, false, not, ◌&&◌, ◌||◌, Option, none, some, List, [], ◌∷◌,
  ◌++◌, map, append-nil, append_assoc, Bytes, codes, IsByte, bytes_eq, bytes_eq_iff, bytes_eq_refl,
  to_upper, to_lower, ltb, leb, ◌==◌, ==_iff, ==_refl, if◌then◌else◌, Bool-cases, Option-cases,
  get_or, get_elem?, take, drop, replicate, length, length-append, length-drop, take-all,
  take-append, drop-append, append-take-drop, length-take, digits-print_number, nil_of_length, all,
  All, All-append, All-imp, passes_below, passes_at, Result, ok, raise, fault, Exception,
  invalid_argument, logic_error, system_error, ◌>>=◌, ◌>>◌, at, bind_ok, Always, Always-bind,
  Always-ok, Always-any, print_number, read_number, read_number-print_number, length-print_number,
  digit_char, digit_value, find, find-all, insert, assign, insert_all, find-insert, find-assign,
  find-insert_all, or_else, arith,
}
use marisa.MimeTypes.TableA.{mime_types_a}
use marisa.MimeTypes.TableB.{mime_types_b}
use marisa.MimeTypes.TableC.{mime_types_c}
use marisa.MimeTypes.TableD.{mime_types_d}
use marisa.MimeTypes.TableE.{mime_types_e}
use marisa.MimeTypes.TableF.{mime_types_f}
use marisa.MimeTypes.TableG.{mime_types_g}

abbrev pub unknown_mime_type : Bytes
unknown_mime_type = codes "application/octet-stream"

abbrev pub mime_types : List (Bytes × Bytes)
mime_types =
    mime_types_a
    ++ (mime_types_b
        ++ (mime_types_c ++ (mime_types_d ++ (mime_types_e ++ (mime_types_f ++ mime_types_g)))))

unfoldable pub get_mime_type : Bytes → Bytes
get_mime_type file_ext = elim (find (map to_lower file_ext) mime_types) [
  | none ↦ unknown_mime_type
  | some value ↦ value
]
