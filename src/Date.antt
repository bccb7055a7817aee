-- ===== src/Date.antt =====
-- Source/Types/Date.cpp: dates, read from text and written as text. The calendar functions of the C
-- library are an argument: strptime fills a tm that is zero, and strftime gets the size of its buffer
-- and writes nothing if that is too small. Numbers of type long have no bounds here.
pub mod Manual
mod Search
pub mod RoundTrip
mod Tests
use marisa.Prelude.{
  ℤ, pos, negsuc, ℕ, zero, suc, ◌+◌, ◌-◌, ◌*◌, ◌/◌, ◌%◌, ◌^◌, ◌≤◌, ◌<◌, ◌≡◌, ◌≢◌, ◌↔◌, ◌⊎◌, inl,
  inr, refl, sym, ap, ◌∙◌, Bool, true, false, not, ◌&&◌, ◌||◌, Option, none, some, List, [], ◌∷◌,
  ◌++◌, map, append-nil, append_assoc, Bytes, codes, IsByte, bytes_eq, bytes_eq_iff, bytes_eq_refl,
  to_upper, to_lower, ltb, leb, ◌==◌, ==_iff, ==_refl, if◌then◌else◌, Bool-cases, Option-cases,
  get_or, get_elem?, take, drop, replicate, length, length-append, length-drop, take-all,
  take-append, drop-append, append-take-drop, length-take, digits-print_number, find_text,
  starts_with, find_text-append, nil_of_length, all, All, All-append, All-imp, passes_below,
  passes_at, Result, ok, raise, fault, Exception, invalid_argument, logic_error, system_error,
  ◌>>=◌, ◌>>◌, at, bind_ok, bind-inverse, and_then, and_go_on, assert, length-take_below,
  length-replicate, length-positive, Always, Always-bind, Always-ok, Always-any, print_number,
  read_number, read_number-print_number, length-print_number, digit_char, digit_value, find,
  find-all, insert, assign, insert_all, find-insert, find-assign, find-insert_all, or_else, arith,
}

-- What the C library computes with dates: `Tm` is struct tm.
pub record Calendar : Type 1 where
  pub Tm : Type 0
  pub strptime : (text format : Bytes) → Tm
  pub strftime : (size : ℕ) (format : Bytes) → Tm → Bytes
  pub timegm : Tm → ℤ
  pub gmtime : ℤ → Tm
  pub localtime : ℤ → Tm

pub record Date : Type 0 where
  pub valid : Bool
  pub tv_sec : ℤ
  pub tv_nsec : ℤ

abbrev pub pos_part : ℤ → ℕ
pos_part (pos n) = n
pos_part (negsuc n) = 0

abbrev pub neg_part : ℤ → ℕ
neg_part (pos n) = 0
neg_part (negsuc n) = suc n

-- a - b, as an integer.
abbrev pub sub_ℕ : ℕ → ℕ → ℤ
sub_ℕ a b = if leb b a then pos (a - b) else negsuc (b - a - 1)

abbrev pub add_int : ℤ → ℤ → ℤ
add_int a b = sub_ℕ (pos_part a + pos_part b) (neg_part a + neg_part b)

abbrev pub sub_int : ℤ → ℤ → ℤ
sub_int a b = sub_ℕ (pos_part a + neg_part b) (neg_part a + pos_part b)

abbrev pub scale_int : ℤ → ℕ → ℤ
scale_int a k = sub_ℕ (pos_part a * k) (neg_part a * k)

-- Division of C++, towards zero.
abbrev pub div_int : ℤ → ℕ → ℤ
div_int a k = sub_ℕ (pos_part a / k) (neg_part a / k)

abbrev pub is_digit : ℕ → Bool
is_digit c = leb b'0' c && leb c b'9'

-- strtol in base ten: the digits, a sign in front of them, and space in front of that.
unfoldable pub read_digits : (n : ℕ) → Bytes → ℕ
read_digits n [] = n
read_digits n (c ∷ s) =
    let rest = read_digits (n * 10 + (c - b'0')) s in if is_digit c then rest else n

unfoldable pub read_signed : Bytes → ℤ
read_signed [] = pos 0
read_signed (c ∷ s) =
    if c == b'-'
    then sub_ℕ 0 (read_digits 0 s)
    else (if c == b'+' then pos (read_digits 0 s) else pos (read_digits 0 (c ∷ s)))

unfoldable pub strtol : Bytes → ℤ
strtol [] = pos 0
strtol (c ∷ s) =
    let rest = strtol s in if c == 32 || leb 9 c && leb c 13 then rest else read_signed (c ∷ s)

-- find and find_last_of for one byte.
unfoldable pub find_first : ℕ → Bytes → Option ℕ
find_first c [] = none
find_first c (d ∷ s) =
    let rest = find_first c s in
    if d == c then some 0 else elim rest [ none ↦ none | some n ↦ some (suc n) ]

unfoldable pub find_last : ℕ → Bytes → Option ℕ
find_last c [] = none
find_last c (d ∷ s) = elim (find_last c s) [
  | some n ↦ some (suc n)
  | none ↦ if d == c then some 0 else none
]

-- Where an offset begins, and whether it is subtracted.
unfoldable pub offset_mark : Bytes → Option ℕ × Bool
offset_mark s = elim (find_first b'Z' s) [
  | some n ↦ (none, true)
  | none ↦ elim (find_last b'+' s) [ some n ↦ (some n, true) | none ↦ (find_last b'-' s, false) ]
]

-- hh:mm behind the mark, in seconds; the strings reach past the end of a shorter text.
unfoldable pub read_offset : Bytes → Result ℤ
read_offset buf3 =
    if ltb (length buf3) 3
    then fault
    else ok (add_int (scale_int (strtol (take 2 buf3)) 3600) (scale_int (strtol (drop 3 buf3)) 60))

abbrev pub gmt_zone_format : Bytes
gmt_zone_format = codes "%a, %d %b %Y %T %Z"

abbrev pub gmt_format : Bytes
gmt_format = codes "%a, %d %b %Y %T GMT"

abbrev pub iso_z_format : Bytes
iso_z_format = codes "%Y-%m-%dT%TZ"

abbrev pub iso_format : Bytes
iso_format = codes "%Y-%m-%dT%T"

abbrev pub invalid_date : Bytes
invalid_date = codes "Invalid Date"

-- `%03d` of an int.
abbrev pub pad : (width : ℕ) → Bytes → Bytes
pad width s = replicate (width - length s) b'0' ++ s

unfoldable pub print_millis : ℤ → Bytes
print_millis (pos n) = pad 3 (print_number 10 n)
print_millis (negsuc n) = b'-' ∷ pad 2 (print_number 10 (suc n))

abbrev pub is_zero : ℤ → Bool
is_zero (pos zero) = true
is_zero (pos (suc n)) = false
is_zero (negsuc n) = false

module _ (calendar : Calendar) where
  open calendar use {Tm, strptime, strftime, timegm, gmtime, localtime}

  -- The time without its offset, and the nanoseconds.
  unfoldable pub read_iso : Bytes → Tm × ℤ
  read_iso s = elim (find_first b'.' s) [
    | none ↦ (strptime s iso_z_format, pos 0)
    | some n ↦ (strptime (take n s) iso_format, scale_int (strtol (drop (n + 1) s)) 1000000)
  ]

  -- The second form, with an offset or without.
  unfoldable pub assign_iso : Bytes → Date → Result Date
  assign_iso s d =
      let t = read_iso s in
      let mark = offset_mark s in
      elim mark.0 [
        | none ↦ ok (record d { tv_sec = timegm t.0; tv_nsec = t.1 })
        | some n ↦ read_offset (drop (n + 1) s) >>= λ offset. ok (record d {
          tv_sec = if mark.1 then sub_int (timegm t.0) offset else add_int (timegm t.0) offset;
          tv_nsec = t.1;
        })
      ]

  unfoldable pub assign_date : Bytes → Date → Result Date
  assign_date [] d = ok (record d { valid = false })
  assign_date (c ∷ s) d =
      if leb b'A' c && leb c b'Z'
      then ok (record d { tv_sec = timegm (strptime (c ∷ s) gmt_zone_format); tv_nsec = pos 0 })
      else assign_iso (c ∷ s) d

  -- Date(const std::string &).
  abbrev pub new_date : Bytes → Result Date
  new_date s = assign_date s (record { valid = true; tv_sec = pos 0; tv_nsec = pos 0 })

  unfoldable pub to_gmt_string : Date → Bytes
  to_gmt_string d = if d.valid then strftime 32 gmt_format (gmtime d.tv_sec) else invalid_date

  unfoldable pub to_iso_string : Date → Bytes
  to_iso_string d =
      let fraction = take 6 (b'.' ∷ print_millis (div_int d.tv_nsec 1000000)) in
      if d.valid
      then strftime 32 iso_format (gmtime d.tv_sec)
        ++ ((if is_zero d.tv_nsec then [] else fraction) ++ codes "Z")
      else invalid_date

  -- The forms in local time.
  abbrev in_local_time : (size : ℕ) (format : Bytes) → Date → Bytes
  in_local_time size format d =
      if d.valid then strftime size format (localtime d.tv_sec) else invalid_date

  unfoldable pub to_string : Date → Bytes
  to_string d = in_local_time 48 (codes "%a %b %d %Y %T GMT%z (%Z)") d

  unfoldable pub to_date_string : Date → Bytes
  to_date_string d = in_local_time 32 (codes "%a %b %d %Y") d

  unfoldable pub to_good_string : Date → Bytes
  to_good_string d = in_local_time 32 (codes "%Y-%m-%d %H:%M:%S %z") d

-- JavaScript's time, in milliseconds.
unfoldable pub get_time : Date → ℤ
get_time d =
    if d.valid then add_int (scale_int d.tv_sec 1000) (div_int d.tv_nsec 1000000) else pos 0

unfoldable pub get_time_seconds : Date → ℤ
get_time_seconds d = if d.valid then d.tv_sec else pos 0

unfoldable pub assign_unixtime : ℤ → Date → Date
assign_unixtime t d = record { valid = true; tv_sec = t; tv_nsec = pos 0 }

unfoldable pub assign_timespec : (tv_sec tv_nsec : ℤ) → Date → Date
assign_timespec sec nsec d = record { valid = true; tv_sec = sec; tv_nsec = nsec }

unfoldable pub assign_jstime : (t : ℕ) → Date → Date
assign_jstime t d = record {
  valid = true;
  tv_sec = pos (t / 1000);
  tv_nsec = pos (t % 1000 * 1000000);
}
