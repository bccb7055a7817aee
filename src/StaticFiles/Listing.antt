-- ===== src/StaticFiles/Listing.antt =====
-- Source/App/Middlewares/StaticFiles.cpp: the page with a directory's entries. What readdir gives, what
-- stat answers, and the calendar functions of the C library are arguments. The buffer of stat keeps what
-- an earlier entry left in it; to read it before anything did is a fault.
pub mod Rows
mod Tests
use marisa.Prelude.{
  ℤ, pos, negsuc, ℕ, zero, suc, ◌+◌, ◌-◌, ◌*◌, ◌/◌, ◌%◌, ◌^◌, ◌≤◌, ◌<◌, ◌≡◌, ◌≢◌, ◌↔◌, ◌⊎◌, inl,
  inr, refl, sym, ap, ◌∙◌, Bool, true, false, not, ◌&&◌, ◌||◌, Option, none, some, List, [], ◌∷◌,
  ◌++◌, map, append-nil, append_assoc, Bytes, codes, IsByte, bytes_eq, bytes_eq_iff, bytes_eq_refl,
  to_upper, to_lower, ltb, leb, ◌==◌, ==_iff, ==_refl, if◌then◌else◌, Bool-cases, Option-cases,
  get_or, get_elem?, take, drop, replicate, length, length-append, length-drop, take-all,
  take-append, drop-append, append-take-drop, length-take, digits-print_number, find_text,
  starts_with, find_text-append, nil_of_length, all, All, All-append, All-imp, passes_below,
  passes_at, Result, ok, raise, fault, Exception, invalid_argument, logic_error, system_error,
  ◌>>=◌, ◌>>◌, at, bind_ok, bind-inverse, and_then, and_go_on, assert, length-take_below,
  length-replicate, length-positive, Always, Always-bind, Always-ok, Always-any, print_number,
  read_number, read_number-print_number, length-print_number, digit_char, digit_value, find,
  find-all, insert, assign, insert_all, find-insert, find-assign, find-insert_all, or_else, arith,
}
use marisa.Uri.{encode_uri_component}
use marisa.Date.{Calendar, assign_timespec, to_good_string}
use marisa.StaticFiles.{c_str}

pub data FileType : Type 0 where
  dt_dir dt_reg dt_lnk dt_other : FileType

pub record Dirent : Type 0 where
  pub d_name : Bytes
  pub d_type : FileType

pub record Stat : Type 0 where
  pub st_mtim : ℤ × ℤ
  pub st_size : ℕ

abbrev pub page_head : (url : Bytes) → Bytes
page_head url =
    let title = codes "Index of " ++ url in
    codes "<!DOCTYPE HTML><html><head><title>"
    ++ (title
        ++ (codes
              "</title><style>html {font-family: Monospace;font-size: 16px;}</style></head><body><h1>"
            ++ (title
                ++ codes
                    "</h1><table style=\"text-align: left;\" border=\"1\"><tr><th>Type</th><th>Name</th><th>Last modified</th><th>Size</th></tr>")))

abbrev pub page_tail : Bytes
page_tail = codes "</table><address>Marisa/0.0.1</address></body></html>"

abbrev pub type_text : FileType → Bytes
type_text dt_dir = codes "DIR"
type_text dt_reg = codes "REG"
type_text dt_lnk = codes "LNK"
type_text dt_other = []

abbrev pub slash_of : FileType → Bytes
slash_of dt_dir = codes "/"
slash_of dt_reg = []
slash_of dt_lnk = []
slash_of dt_other = []

abbrev pub is_self : Dirent → Bool
is_self de = bytes_eq de.d_name (codes ".")

module _ (calendar : Calendar) (stat : Bytes → Option Stat) (base_path : Bytes) where
  -- Date(&sbuf.st_mtim).toGoodString().
  abbrev modified : Stat → Bytes
  modified sbuf = to_good_string calendar (
      assign_timespec sbuf.st_mtim.0 sbuf.st_mtim.1
        (record { valid = true; tv_sec = pos 0; tv_nsec = pos 0 }))

  unfoldable pub row : Dirent → Stat → Bytes
  row de sbuf =
      codes "<tr><th valign=\"top\">"
      ++ (type_text de.d_type
          ++ (codes "</th><th><a href=\"./"
              ++ (encode_uri_component de.d_name
                  ++ (slash_of de.d_type
                      ++ (codes "\">"
                          ++ (de.d_name
                              ++ (codes "</th><th>"
                                  ++ (modified sbuf
                                      ++ (codes "</th><th>"
                                          ++ (print_number 10 sbuf.st_size
                                              ++ codes "</th></tr>"))))))))))

  -- The path that is looked up for an entry.
  abbrev pub full_path : Dirent → Bytes
  full_path de = c_str (base_path ++ (codes "/" ++ de.d_name))

  -- stat that fails leaves the buffer.
  abbrev pub stat_into : Option Stat → Dirent → Option Stat
  stat_into sbuf de = or_else (stat (full_path de)) sbuf

  -- The loop over readdir.
  unfoldable pub list_rows : List Dirent → (sbuf : Option Stat) (ss : Bytes) → Result Bytes
  list_rows [] sbuf ss = ok ss
  list_rows (de ∷ later) sbuf ss = elim (is_self de) [
    | true ↦ list_rows later sbuf ss
    | false ↦ elim (stat_into sbuf de) [
      | none ↦ fault
      | some st ↦ list_rows later (some st) (ss ++ row de st)
    ]
  ]

  unfoldable pub generate_file_page : (url : Bytes) → List Dirent → Result Bytes
  generate_file_page url entries =
      list_rows entries none (page_head url) >>= λ ss. ok (ss ++ page_tail)
