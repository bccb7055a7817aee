-- ===== src/StaticFiles/Listing/Tests.antt =====
-- Pages of a directory with two entries.
use marisa.Prelude.{
  ℤ, pos, ◌≡◌, ◌⊎◌, refl, Option, none, some, List, [], ◌∷◌, ◌++◌, map, Bytes, codes, bytes_eq,
  if◌then◌else◌, ok, fault, print_number,
}
use marisa.Uri.{encode_uri_component}
use marisa.Date.{Calendar, to_good_string, assign_timespec}
use marisa.StaticFiles.{c_str}
use marisa.StaticFiles.Listing.{
  Dirent, Stat, dt_dir, dt_reg, page_head, page_tail, row, list_rows, generate_file_page,
}
use marisa.StaticFiles.Listing.Rows.{
  visible, all_rows, Backed, FirstUnknown, generate_file_page-cases,
}

abbrev one_day : Calendar
one_day = record {
  Tm = ℤ;
  strptime = λ text format. pos 0;
  strftime = λ size format t. codes "1970-01-01";
  timegm = λ t. t;
  gmtime = λ t. t;
  localtime = λ t. t;
}

abbrev only_a : Bytes → Option Stat
only_a path =
    if bytes_eq path (codes "/srv/a")
    then some (record { st_mtim = (pos 0, pos 0); st_size = 7 })
    else none

abbrev self : Dirent
self = record { d_name = codes "."; d_type = dt_dir }

abbrev a : Dirent
a = record { d_name = codes "a"; d_type = dt_reg }

abbrev bold : Dirent
bold = record { d_name = codes "<b>"; d_type = dt_dir }

abbrev seven : Stat
seven = record { st_mtim = (pos 0, pos 0); st_size = 7 }

-- The size of the entry above is shown for an entry that stat does not find.
two_rows :
    list_rows one_day only_a (codes "/srv") (self ∷ a ∷ bold ∷ []) none []
    ≡ ok (row one_day only_a (codes "/srv") a seven ++ row one_day only_a (codes "/srv") bold seven)
unfolding list_rows row bytes_eq c_str
two_rows = refl

-- The name of an entry is not escaped in the text of the page.
markup_in_name :
    row one_day only_a (codes "/srv") bold seven
    ≡ codes "<tr><th valign=\"top\">DIR</th><th><a href=\"./"
      ++ (encode_uri_component (codes "<b>")
          ++ codes "/\"><b></th><th>1970-01-01</th><th>7</th></tr>")
unfolding row print_number to_good_string assign_timespec
markup_in_name = refl

-- Without such an entry above, what stat left is not there.
first_unknown : generate_file_page one_day only_a (codes "/srv") (codes "/") (bold ∷ []) ≡ fault
unfolding generate_file_page list_rows bytes_eq c_str
first_unknown = refl

generate_file_page-cases_example :
    ((generate_file_page one_day only_a (codes "/srv") (codes "/") (a ∷ bold ∷ []) ≡ fault)
      × FirstUnknown one_day only_a (codes "/srv") (a ∷ bold ∷ []))
    ⊎ ((rows : List (Dirent × Stat)) × (generate_file_page one_day only_a
            (codes "/srv")
            (codes "/")
            (a ∷ bold ∷ [])
          ≡ ok (page_head (codes "/") ++ all_rows one_day only_a (codes "/srv") rows ++ page_tail))
        × (map (λ r. r.0) rows ≡ visible (a ∷ bold ∷ []))
        × Backed one_day only_a (codes "/srv") none rows)
generate_file_page-cases_example =
    generate_file_page-cases one_day only_a (codes "/srv") (codes "/") (a ∷ bold ∷ [])
