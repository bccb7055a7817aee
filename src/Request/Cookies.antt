-- ===== src/Request/Cookies.antt =====
-- What becomes of a cookie.
use marisa.Prelude.{
  ℕ, suc, ◌+◌, ◌-◌, ◌<◌, ◌≡◌, ◌≢◌, sym, ap, ◌∙◌, [], ◌∷◌, ◌++◌, append_assoc, Bytes, get_or, take,
  drop, replicate, length, length-append, take-all, take-append, drop-append, All, All-append,
  Result, ok, ◌>>=◌, bind_ok, arith,
}
use mathlib.Core.Path.{ap₂}
use marisa.Utilities.{View}
use marisa.Request.{skip_key, skip_value, trim_value, substring, parse_cookie}
use marisa.Request.Loops.{
  length-spaces, IsTrimmed, get_or-append, find_byte-append, trim_key_lem, get_or-behind,
  skip_key-spaces, skip_value_stop, trim_value_stop, get_or-inside, All-replicate,
}

module _ (a before : ℕ) (key value after : Bytes) where
  abbrev spaced : Bytes
  spaced = replicate a b' ' ++ key

  abbrev pub cookie : View
  cookie = record { before = before; text = spaced ++ b'=' ∷ value; after = after }

  length-spaced : length spaced ≡ a + length key
  length-spaced = omega (arith, length-append (replicate a b' ') key, length-spaces a)

  key_end : IsTrimmed key → get_or cookie.text (length spaced - 1) 0 ≢ b' '
  key_end (full, first, last) x =
      let n = length key - 1 in
      let same : length spaced - 1 ≡ a + n = omega (arith, length-spaced, full) in
      let inside : length spaced - 1 < length spaced = omega (arith, length-spaced, full) in
      last (
        sym (get_or-behind a key n)
        ∙ ap (λ i. get_or spaced i 0) (sym same)
        ∙ sym (get_or-inside spaced (b'=' ∷ value) (length spaced - 1) inside)
        ∙ x)

  get_or-value :
      (i : ℕ)
      → get_or (cookie.text ++ after) (length spaced + 1 + i) 0 ≡ get_or (value ++ after) i 0
  get_or-value i =
      let same : length spaced + 1 + i ≡ length spaced + suc i = omega arith in
      ap₂ (λ t n. get_or t n 0) (append_assoc spaced (b'=' ∷ value) after) same
      ∙ get_or-append spaced (b'=' ∷ value ++ after) (suc i)

  value_first : IsTrimmed value → get_or (cookie.text ++ after) (length spaced + 1) 0 ≢ b' '
  value_first (full, first, last) x =
      let same : length spaced + 1 + 0 ≡ length spaced + 1 = omega arith in
      first (
        sym (get_or-inside value after 0 full)
        ∙ sym (get_or-value 0)
        ∙ ap (λ i. get_or (cookie.text ++ after) i 0) same
        ∙ x)

  value_last :
      IsTrimmed value
      → get_or (cookie.text ++ after) (length spaced + 1 + (length value - 1)) 0 ≢ b' '
  value_last (full, first, last) x = last (
      sym (get_or-inside value after (length value - 1) (omega (arith, full)))
      ∙ sym (get_or-value (length value - 1))
      ∙ x)

  key_skipped :
      IsTrimmed key
      → skip_key (length cookie.text) cookie.text 0 (length spaced) ≡ ok (a, length key)
  key_skipped (full, first, last) =
      let t = key ++ b'=' ∷ value in
      let same : length spaced ≡ a + length key = length-spaced in
      let long = length-append spaced (b'=' ∷ value) in
      ap₂ (λ s n. skip_key (length cookie.text) s 0 n)
        (append_assoc (replicate a b' ') key (b'=' ∷ value)) same
      ∙ skip_key-spaces a (length cookie.text) a 0 (length key) t (omega arith)
          (omega (arith, long, same)) (omega (arith, length-append key (b'=' ∷ value)))
          (λ x. first (sym (get_or-inside key (b'=' ∷ value) 0 full) ∙ x))

  key_cut : substring cookie.text a (length key) ≡ key
  key_cut =
      let same : a ≡ length (replicate a b' ') = omega (arith, length-spaces a) in
      ap₂ (λ s n. take (length key) (drop n s)) (append_assoc (replicate a b' ') key (b'=' ∷ value))
        same
      ∙ ap (take (length key)) (drop-append (replicate a b' ') (key ++ b'=' ∷ value))
      ∙ take-append key (b'=' ∷ value)

  value_cut : substring cookie.text (length spaced + 1) (length value) ≡ value
  value_cut =
      let eq : Bytes = b'=' ∷ [] in
      let same : length spaced + 1 ≡ length (spaced ++ eq) =
        omega (arith, length-append spaced eq) in
      ap₂ (λ s n. take (length value) (drop n s)) (sym (append_assoc spaced eq value)) same
      ∙ ap (take (length value)) (drop-append (spaced ++ eq) value)
      ∙ take-all (length value) value (omega arith)

  -- A cookie of spaces, a key, an equal sign and a value, where neither the key nor the value is
  -- empty, begins or ends with a space, and the key has no equal sign, gives the key and the value,
  -- whatever stands in memory around it.
  pub parse_cookie-pair :
      All (λ (d : ℕ). d ≢ b'=') key
      → IsTrimmed key
      → IsTrimmed value
      → parse_cookie cookie ≡ ok (key, value)
  unfolding parse_cookie
  parse_cookie-pair plain k w =
      let found =
        find_byte-append b'=' spaced value
          (All-append (λ (d : ℕ). d ≢ b'=') (replicate a b' ') key (All-replicate a) plain) in
      let memory = cookie.text ++ after in
      let val_len : length cookie.text - length spaced - 1 ≡ length value =
        omega (arith, length-append spaced (b'=' ∷ value)) in
      let finish : ℕ × ℕ → ℕ × ℕ → ℕ → Result (Bytes × Bytes) =
        λ key val n. ok (substring cookie.text key.0 key.1, substring cookie.text val.0 n) in
      let trim : ℕ × ℕ → ℕ × ℕ → Result (Bytes × Bytes) =
        λ key val. trim_value memory val.0 val.1 >>= finish key val in
      let skip : ℕ × ℕ → Result (Bytes × Bytes) = λ key.
        skip_value memory (length spaced + 1) (length cookie.text - length spaced - 1)
        >>= trim key in
      let full : 0 < length spaced = omega (arith, length-spaced, k.0) in
      rw (parse_cookie, found)
        (bind_ok (λ n. skip_key (length cookie.text) cookie.text 0 n >>= skip)
            (trim_key_lem cookie (length spaced) full (key_end k))
          ∙ bind_ok skip (key_skipped k)
          ∙ bind_ok (trim (a, length key)) (
              ap (skip_value memory (length spaced + 1)) val_len
              ∙ skip_value_stop memory (length spaced + 1) (length value) (value_first w))
          ∙ bind_ok (finish (a, length key) (length spaced + 1, length value))
              (trim_value_stop memory (length spaced + 1) (length value) w.0 (value_last w))
          ∙ ap₂ (λ k v. ok (k, v)) key_cut value_cut)
