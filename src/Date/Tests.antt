-- ===== src/Date/Tests.antt =====
-- Dates on a calendar that knows the first second of 1970 only.
use marisa.Prelude.{
  ℤ, pos, negsuc, ℕ, ◌≡◌, ◌≢◌, refl, sym, Bool, true, false, not, ◌&&◌, [], ◌∷◌, Bytes, codes,
  bytes_eq, ◌==◌, ==_iff, if◌then◌else◌, all, All, ok, print_number, arith,
}
use marisa.Date.{
  Calendar, Date, iso_format, strtol, read_digits, read_signed, find_first, find_last, offset_mark,
  read_offset, read_iso, assign_iso, assign_date, new_date, print_millis, to_iso_string,
}
use marisa.Date.Manual.{IsCalendar}
use marisa.Date.RoundTrip.{assign_date-to_iso_string}

abbrev epoch : Calendar
epoch = record {
  Tm = ℤ;
  strptime = λ text format. pos 0;
  strftime = λ size format t.
      if bytes_eq format iso_format
      then codes "1970-01-01T00:00:00"
      else codes "Thu, 01 Jan 1970 00:00:00 GMT";
  timegm = λ t. t;
  gmtime = λ t. t;
  localtime = λ t. t;
}

abbrev IsEpoch : ℤ → Type 0
IsEpoch t = t ≡ pos 0

abbrev plain_check : ℕ → Bool
plain_check c = not (c == b'Z') && not (c == b'.')

all_plain : (s : Bytes) → all plain_check s ≡ true → All (λ x. (x ≢ b'Z') × (x ≢ b'.')) s
all_plain [] h = tt
all_plain (c ∷ s) h =
    ((ground (arith, ==_iff c b'Z'), ground (arith, ==_iff c b'.')), all_plain s (ground arith))

epoch-IsCalendar : IsCalendar epoch IsEpoch
unfolding bytes_eq
epoch-IsCalendar = record {
  iso_text = λ t here.
      (b'1', codes "970-01-01T00:00:00", refl, refl, all_plain (codes "1970-01-01T00:00:00") refl);
  iso_reads = λ t here. sym here;
  iso_z_reads = λ t here. sym here;
  gmt_text = λ t here. (b'T', codes "hu, 01 Jan 1970 00:00:00 GMT", refl, refl);
  gmt_reads = λ t here. sym here;
}

abbrev some_date : (nsec : ℕ) → Date
some_date nsec = record { valid = true; tv_sec = pos 0; tv_nsec = pos nsec }

abbrev no_date : Date
no_date = record { valid = false; tv_sec = pos 7; tv_nsec = pos 0 }

iso_text_of : to_iso_string epoch (some_date 45678901) ≡ codes "1970-01-01T00:00:00.045Z"
unfolding to_iso_string print_millis print_number bytes_eq
iso_text_of = refl

no_text : new_date epoch [] ≡ ok (record { valid = false; tv_sec = pos 0; tv_nsec = pos 0 })
unfolding assign_date
no_text = refl

-- An offset is taken away from the local time.
with_offset :
    new_date epoch (codes "1970-01-01T00:00:00.500+01:30")
    ≡ ok (record { valid = true; tv_sec = negsuc 5399; tv_nsec = pos 500000000 })
unfolding assign_date assign_iso read_iso read_offset offset_mark find_first find_last strtol
    read_signed read_digits
with_offset = refl

-- Without an offset and without Z, the day is taken for an offset of hours.
day_as_offset :
    new_date epoch (codes "1970-01-01T00:00:00")
    ≡ ok (record { valid = true; tv_sec = pos 3600; tv_nsec = pos 0 })
unfolding assign_date assign_iso read_iso read_offset offset_mark find_first find_last strtol
    read_signed read_digits
day_as_offset = refl

-- Five tenths of a second are read as five milliseconds.
short_fraction :
    new_date epoch (codes "1970-01-01T00:00:00.5Z")
    ≡ ok (record { valid = true; tv_sec = pos 0; tv_nsec = pos 5000000 })
unfolding assign_date assign_iso read_iso offset_mark find_first find_last strtol read_signed
    read_digits
short_fraction = refl

-- A date that is not valid stays so when it is assigned to.
stays_invalid :
    assign_date epoch (codes "1970-01-01T00:00:00Z") no_date
    ≡ ok (record { valid = false; tv_sec = pos 0; tv_nsec = pos 0 })
unfolding assign_date assign_iso read_iso offset_mark find_first find_last strtol read_signed
    read_digits
stays_invalid = refl

assign_date-to_iso_string_example :
    assign_date epoch (to_iso_string epoch (some_date 45678901)) no_date
    ≡ ok (record { valid = false; tv_sec = pos 0; tv_nsec = pos 45000000 })
assign_date-to_iso_string_example =
    assign_date-to_iso_string epoch epoch-IsCalendar (some_date 45678901) no_date 45678901 refl refl
      (omega arith) refl
