-- ===== src/Date/RoundTrip.antt =====
-- What was written as text is read back.
use marisa.Prelude.{
  ℤ, pos, ℕ, zero, suc, ◌+◌, ◌*◌, ◌/◌, ◌<◌, ◌≡◌, ◌≢◌, refl, sym, ap, ◌∙◌, true, false, ◌&&◌, none,
  some, [], ◌∷◌, ◌++◌, append_assoc, Bytes, codes, leb, take, drop, length, length-append,
  take-append, All, All-append, All-imp, ok, arith,
}
use marisa.Date.{
  Calendar, Date, scale_int, is_digit, strtol, find_first, gmt_zone_format, iso_z_format,
  iso_format, print_millis, read_iso, assign_iso, assign_date, to_gmt_string, to_iso_string,
  get_time, assign_jstime,
}
use marisa.Date.Manual.{IsCalendar}
use marisa.Date.Search.{
  find_first_at, find_first-none, millis_text, strtol-millis_text, scale_pos, div_pos,
  offset_mark-zulu, drop_point,
}

module _ (calendar : Calendar) {InRange : ℤ → Type 0} (laws : IsCalendar calendar InRange) where
  open calendar use {strptime, strftime, timegm, gmtime}

  assign_iso-zulu :
      (s t : Bytes) (e : Date)
      → assign_iso calendar (s ++ b'Z' ∷ t) e
        ≡ ok (record e {
          tv_sec = timegm (read_iso calendar (s ++ b'Z' ∷ t)).0;
          tv_nsec = (read_iso calendar (s ++ b'Z' ∷ t)).1;
        })
  unfolding assign_iso
  assign_iso-zulu s t e = rw (assign_iso, offset_mark-zulu s t) refl

  assign_date-digit :
      (c : ℕ) (s : Bytes) (e : Date)
      → is_digit c ≡ true
      → assign_date calendar (c ∷ s) e ≡ assign_iso calendar (c ∷ s) e
  unfolding assign_date
  assign_date-digit c s e digit =
      let lower : leb b'A' c && leb c b'Z' ≡ false = ground arith in rw lower refl

  read_iso-whole :
      (t : ℤ) (s : Bytes)
      → InRange t
      → strftime 32 iso_format (gmtime t) ≡ s
      → All (λ x. (x ≢ b'Z') × (x ≢ b'.')) s
      → (timegm (read_iso calendar (s ++ codes "Z")).0 ≡ t)
        × ((read_iso calendar (s ++ codes "Z")).1 ≡ pos 0)
  unfolding read_iso
  read_iso-whole t s range text plain =
      let no_point : find_first b'.' (s ++ codes "Z") ≡ none =
        find_first-none b'.' (s ++ codes "Z") (
          All-append (λ x. x ≢ b'.') s (codes "Z") (All-imp _ _ s (λ x p. p.1) plain)
            ((λ e. absurd (omega arith)), tt)) in
      rw (read_iso, no_point)
        (
          ap (λ x. timegm (strptime (x ++ codes "Z") iso_z_format)) (sym text)
              ∙ laws.iso_z_reads t range,
          refl,
        )

  read_iso-fraction :
      (t : ℤ) (s : Bytes) (k : ℕ)
      → InRange t
      → k < 1000
      → strftime 32 iso_format (gmtime t) ≡ s
      → All (λ x. (x ≢ b'Z') × (x ≢ b'.')) s
      → (timegm (read_iso calendar (s ++ b'.' ∷ millis_text k)).0 ≡ t)
        × ((read_iso calendar (s ++ b'.' ∷ millis_text k)).1 ≡ pos (k * 1000000))
  unfolding read_iso
  read_iso-fraction t s k range small text plain =
      let point : find_first b'.' (s ++ b'.' ∷ millis_text k) ≡ some (length s) =
        find_first_at b'.' s (millis_text k) (All-imp _ _ s (λ x p. p.1) plain) in
      let front : take (length s) (s ++ b'.' ∷ millis_text k) ≡ s =
        take-append s (b'.' ∷ millis_text k) in
      let behind : drop (length s + 1) (s ++ b'.' ∷ millis_text k) ≡ millis_text k =
        ap (λ n. drop n (s ++ b'.' ∷ millis_text k)) (omega (arith, length-append s (b'.' ∷ [])))
        ∙ drop_point s (millis_text k) in
      rw (read_iso, point)
        (
          ap (λ x. timegm (strptime x iso_format)) (front ∙ sym text) ∙ laws.iso_reads t range,
          ap (λ x. scale_int (strtol x) 1000000) behind
              ∙ ap (λ v. scale_int v 1000000) (strtol-millis_text k small)
              ∙ scale_pos k 1000000,
        )

  -- The end of the text: nothing but `Z` if there are no nanoseconds.
  abbrev tail_of : ℕ → Bytes
  tail_of zero = codes "Z"
  tail_of (suc n) = b'.' ∷ millis_text (suc n / 1000000)

  to_iso_string-tail :
      (d : Date) (n : ℕ)
      → d.valid ≡ true
      → d.tv_nsec ≡ pos n
      → to_iso_string calendar d ≡ strftime 32 iso_format (gmtime d.tv_sec) ++ tail_of n
  unfolding to_iso_string
  to_iso_string-tail d zero valid nsec = rw (valid, nsec) refl
  to_iso_string-tail d (suc n) valid nsec =
      rw (valid, nsec)
        (ap
          (λ v.
            strftime 32 iso_format (gmtime d.tv_sec)
            ++ b'.' ∷ (take 5 (print_millis v) ++ codes "Z"))
          (div_pos (suc n) 1000000))

  read_tail :
      (t : ℤ) (s : Bytes) (n : ℕ)
      → InRange t
      → n < 1000000000
      → strftime 32 iso_format (gmtime t) ≡ s
      → All (λ x. (x ≢ b'Z') × (x ≢ b'.')) s
      → (timegm (read_iso calendar (s ++ tail_of n)).0 ≡ t)
        × ((read_iso calendar (s ++ tail_of n)).1 ≡ pos (n / 1000000 * 1000000))
  read_tail t s zero range small text plain = read_iso-whole t s range text plain
  read_tail t s (suc n) range small text plain =
      read_iso-fraction t s (suc n / 1000000) range (omega arith) text plain

  ends_zulu : (s : Bytes) (n : ℕ) → (u : Bytes) × (s ++ tail_of n ≡ u ++ codes "Z")
  ends_zulu s zero = (s, refl)
  ends_zulu s (suc n) =
      let front = b'.' ∷ take 5 (print_millis (pos (suc n / 1000000))) in
      (s ++ front, sym (append_assoc s front (codes "Z")))

  -- For a valid date, and calendar functions that behave as documented for its time, the ISO form
  -- reads back as the time, cut to whole milliseconds, whatever the date was that it is assigned to;
  -- whether that one is valid stays as it was.
  pub assign_date-to_iso_string :
      (d e : Date) (n : ℕ)
      → d.valid ≡ true
      → d.tv_nsec ≡ pos n
      → n < 1000000000
      → InRange d.tv_sec
      → assign_date calendar (to_iso_string calendar d) e
        ≡ ok (record e { tv_sec = d.tv_sec; tv_nsec = pos (n / 1000000 * 1000000) })
  assign_date-to_iso_string d e n valid nsec small range =
      let (c, s, text, digit, plain) = laws.iso_text d.tv_sec range in
      let (sec, frac) = read_tail d.tv_sec (c ∷ s) n range small text plain in
      let (u, zulu) = ends_zulu (c ∷ s) n in
      ap (λ x. assign_date calendar x e)
        (to_iso_string-tail d n valid nsec ∙ ap (λ x. x ++ tail_of n) text)
      ∙ assign_date-digit c (s ++ tail_of n) e digit
      ∙ ap (λ x. assign_iso calendar x e) zulu
      ∙ assign_iso-zulu u [] e
      ∙ ap
          (λ x. ok (record e {
            tv_sec = timegm (read_iso calendar x).0;
            tv_nsec = (read_iso calendar x).1;
          }))
          (sym zulu)
      ∙ ap (λ x. ok (record e { tv_sec = x; tv_nsec = (read_iso calendar (c ∷ s ++ tail_of n)).1 }))
          sec
      ∙ ap (λ x. ok (record e { tv_sec = d.tv_sec; tv_nsec = x })) frac

  -- The same for the form of HTTP, which has whole seconds.
  assign_date-to_gmt_string :
      (d e : Date)
      → d.valid ≡ true
      → InRange d.tv_sec
      → assign_date calendar (to_gmt_string calendar d) e
        ≡ ok (record e { tv_sec = d.tv_sec; tv_nsec = pos 0 })
  unfolding assign_date to_gmt_string
  assign_date-to_gmt_string d e valid range =
      let (c, s, text, upper) = laws.gmt_text d.tv_sec range in
      rw valid (
        rw text (
          rw upper (
            ap (λ x. ok (record e { tv_sec = x; tv_nsec = pos 0 }))
              (ap (λ x. timegm (strptime x gmt_zone_format)) (sym text)
                ∙ laws.gmt_reads d.tv_sec range))))

-- A time in milliseconds is given back, whatever the date was before.
get_time-assign_jstime : (t : ℕ) (d : Date) → get_time (assign_jstime t d) ≡ pos t
unfolding get_time assign_jstime
get_time-assign_jstime t d = ground arith
