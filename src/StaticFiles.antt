-- ===== src/StaticFiles.antt =====
-- Source/App/Middlewares/StaticFiles.cpp: which file a request gets. The file system is an argument:
-- `stat` and `opendir` give an error or none, `readdir` the names of a directory, and `maps` tells
-- whether a file can be mapped. `reached`
-- are the paths that were handed to it. Listing has the page of a directory.
pub mod Listing
pub mod Reached
mod Tests
use marisa.Prelude.{
  ℤ, pos, negsuc, ℕ, zero, suc, ◌+◌, ◌-◌, ◌*◌, ◌/◌, ◌%◌, ◌^◌, ◌≤◌, ◌<◌, ◌≡◌, ◌≢◌, ◌↔◌, ◌⊎◌, inl,
  inr, refl, sym, ap, ◌∙◌, Bool, true, false, not, ◌&&◌, ◌||◌, Option, none, some, List, [], ◌∷◌,
  ◌++◌, map, append-nil, append_assoc, Bytes, codes, IsByte, bytes_eq, bytes_eq_iff, bytes_eq_refl,
  to_upper, to_lower, ltb, leb, ◌==◌, ==_iff, ==_refl, if◌then◌else◌, Bool-cases, Option-cases,
  get_or, get_elem?, take, drop, replicate, length, length-append, length-drop, take-all,
  take-append, drop-append, append-take-drop, length-take, digits-print_number, find_text,
  starts_with, find_text-append, nil_of_length, all, All, All-append, All-imp, passes_below,
  passes_at, Result, ok, raise, fault, Exception, invalid_argument, logic_error, system_error,
  ◌>>=◌, ◌>>◌, at, bind_ok, Always, Always-bind, Always-ok, Always-any, print_number, read_number,
  read_number-print_number, length-print_number, digit_char, digit_value, find, find-all, insert,
  assign, insert_all, find-insert, find-assign, find-insert_all, or_else, arith,
}
use marisa.Uri.{decode_uri_component}
use marisa.MimeTypes.{get_mime_type}

-- The values of errno that the code tells apart.
pub data Errno : Type 0 where
  enoent eperm enotdir other_error : Errno

pub record FileSystem : Type 0 where
  pub stat : Bytes → Option Errno
  pub opendir : Bytes → Option Errno
  pub maps : Bytes → Bool
  pub readdir : Bytes → List Bytes

-- What is sent: a text, the page of a status, a directory's listing, a file with its type, or the page
-- of status 500 with that type.
pub data Answer : Type 0 where
  teapot listing : Answer
  unmapped : (mime : Bytes) → Answer
  status_page : ℕ → Answer
  sends_file : (path mime : Bytes) → Answer

pub record Visit : Type 0 where
  pub answer : Answer
  pub reached : List Bytes

abbrev pub status_of : Errno → ℕ
status_of enoent = 404
status_of eperm = 403
status_of enotdir = 500
status_of other_error = 500

-- `path.find_last_of('.')`, and the text behind it.
unfoldable pub extension : Bytes → Option Bytes
extension [] = none
extension (c ∷ s) =
    let later = extension s in
    elim later [ some ext ↦ some ext | none ↦ if c == b'.' then some s else none ]

unfoldable pub content_type : Bytes → Bytes
content_type path = elim (extension path) [
  | none ↦ codes "application/octet-stream"
  | some ext ↦ get_mime_type ext
]

-- What a function of C reads: the bytes in front of the first zero.
unfoldable pub c_str : Bytes → Bytes
c_str [] = []
c_str (c ∷ s) = let rest = c_str s in if c == 0 then [] else c ∷ rest

module _ (fs : FileSystem) (base_path : Bytes) (list_files : Bool) where
  -- What generate_file_page hands to stat: each name but `.` in the base path.
  unfoldable pub stat_paths : List Bytes → List Bytes
  stat_paths [] = []
  stat_paths (d_name ∷ later) =
      let rest = stat_paths later in
      if bytes_eq d_name (codes ".")
      then rest
      else c_str (base_path ++ (codes "/" ++ d_name)) ∷ rest

  -- A file: MMap throws system_error if it cannot be mapped.
  unfoldable pub serve_file : (path full_path : Bytes) (reached : List Bytes) → Visit
  serve_file path full_path reached =
      if fs.maps (c_str full_path)
      then record {
        answer = sends_file full_path (content_type path);
        reached = reached ++ c_str full_path ∷ [];
      }
      else record {
        answer = unmapped (content_type path);
        reached = reached ++ c_str full_path ∷ [];
      }

  unfoldable pub open_path : (path full_path : Bytes) → Visit
  open_path path full_path =
      let directory = c_str (full_path ++ codes "/") in
      let reached = c_str full_path ∷ directory ∷ [] in
      elim (fs.opendir directory) [
        | none ↦ record {
          answer = if list_files then listing else status_page 403;
          reached = if list_files then reached ++ stat_paths (fs.readdir directory) else reached;
        }
        | some enotdir ↦ serve_file path full_path reached
        | some enoent ↦ record { answer = status_page 404; reached = reached }
        | some eperm ↦ record { answer = status_page 403; reached = reached }
        | some other_error ↦ record { answer = status_page 500; reached = reached }
      ]

  unfoldable pub visit : (path : Bytes) → Visit
  visit path =
      let full_path = base_path ++ (codes "/" ++ path) in
      elim (find_text (codes "..") path) [
        | some n ↦ record { answer = teapot; reached = [] }
        | none ↦ elim (fs.stat (c_str full_path)) [
          | some e ↦ record { answer = status_page (status_of e); reached = c_str full_path ∷ [] }
          | none ↦ open_path path full_path
        ]
      ]

  -- The path is a group of the route's expression; what stands behind its text is the end of it.
  unfoldable pub handler : (url_smatch : List Bytes) (path_smatch_pos : ℕ) → Result Visit
  handler url_smatch path_smatch_pos =
      at url_smatch path_smatch_pos >>= λ m. ok (visit (decode_uri_component m []))
