-- ===== src/Request/Faults.antt =====
-- Cookies that make the parser read outside of memory.
use marisa.Prelude.{
  ℕ, zero, suc, ◌-◌, ◌≤◌, ◌<◌, ◌≡◌, ◌≢◌, refl, true, false, ◌∷◌, ◌++◌, Bytes, ◌==◌, get_or,
  replicate, length, length-append, ok, fault, arith,
}
use marisa.Utilities.{View}
use marisa.Request.{trim_key, skip_key, parse_cookie}
use marisa.Request.Loops.{length-spaces, get_or-spaces, find_byte-append, All-replicate}

module _ (n before : ℕ) (value after : Bytes) where
  abbrev pub keyless : View
  keyless = record { before = before; text = replicate (suc n) b' ' ++ b'=' ∷ value; after = after }

  trim_key-spaces : (k : ℕ) → k ≤ suc n → before ≢ b' ' → trim_key keyless k ≡ ok 0
  unfolding trim_key
  trim_key-spaces zero h other =
      let no_space : (before == b' ') ≡ false = ground arith in rw no_space refl
  trim_key-spaces (suc k) h other =
      let space : (get_or keyless.text k 0 == b' ') ≡ true =
        ground (arith, get_or-spaces (suc n) k (b'=' ∷ value) (omega arith)) in
      rw (trim_key, space) (trim_key-spaces k (omega arith) other)

  -- A cookie whose key is nothing but spaces is a fault, if no space stands in front of it: the first
  -- loop brings the length of the key to zero, and the second below.
  pub parse_cookie-keyless : before ≢ b' ' → parse_cookie keyless ≡ fault
  unfolding parse_cookie skip_key
  parse_cookie-keyless other =
      let spaces : Bytes = replicate (suc n) b' ' in
      let found = find_byte-append b'=' spaces value (All-replicate (suc n)) in
      let size : length spaces ≡ suc n = length-spaces (suc n) in
      let fits : length spaces ≤ suc n = omega (arith, size) in
      let more : 0 < length keyless.text - 1 =
        omega (arith, length-append spaces (b'=' ∷ value), size) in
      let wraps : skip_key (length keyless.text) keyless.text 0 0 ≡ fault = ground arith in
      rw (parse_cookie, found) (rw (trim_key-spaces (length spaces) fits other) (rw wraps refl))
