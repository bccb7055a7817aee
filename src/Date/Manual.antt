-- ===== src/Date/Manual.antt =====
-- What the round trips of dates rely on.
use marisa.Prelude.{ℤ, ℕ, ◌≡◌, ◌≢◌, true, ◌&&◌, ◌∷◌, ◌++◌, Bytes, codes, leb, All}
use marisa.Date.{Calendar, is_digit, gmt_zone_format, gmt_format, iso_z_format, iso_format}

abbrev pub IsUpper : ℕ → Type 0
IsUpper c = leb b'A' c && leb c b'Z' ≡ true

-- What the documentation says of the calendar functions, for the times of some range, such as those of
-- the years with four digits: the two forms of text, and that they are read back.
pub record IsCalendar (calendar : Calendar) (InRange : ℤ → Type 0) : Type 0 where
  pub iso_text :
      (t : ℤ)
      → InRange t
      → (c : ℕ) × (s : Bytes) × (calendar.strftime 32 iso_format (calendar.gmtime t) ≡ c ∷ s)
        × (is_digit c ≡ true)
        × All (λ x. (x ≢ b'Z') × (x ≢ b'.')) (c ∷ s)
  pub iso_reads :
      (t : ℤ)
      → InRange t
      → calendar.timegm
          (calendar.strptime (calendar.strftime 32 iso_format (calendar.gmtime t)) iso_format)
        ≡ t
  pub iso_z_reads :
      (t : ℤ)
      → InRange t
      → calendar.timegm (
          calendar.strptime
            (calendar.strftime 32 iso_format (calendar.gmtime t) ++ codes "Z")
            iso_z_format)
        ≡ t
  pub gmt_text :
      (t : ℤ)
      → InRange t
      → (c : ℕ) × (s : Bytes) × (calendar.strftime 32 gmt_format (calendar.gmtime t) ≡ c ∷ s)
        × IsUpper c
  pub gmt_reads :
      (t : ℤ)
      → InRange t
      → calendar.timegm
          (calendar.strptime (calendar.strftime 32 gmt_format (calendar.gmtime t)) gmt_zone_format)
        ≡ t
