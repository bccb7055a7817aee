-- ===== src/Request.antt =====
-- Source/App/Request/Request.cpp: cookies, the client's address, and the reading of a body. A cookie is
-- a view into the header's value: an index past its end reads on in memory (`after`), and one below
-- zero reads the byte in front of it. A length that falls below zero wraps to a view of almost 2 ^ 64
-- bytes, and to read that is a fault.
pub mod Loops
pub mod Cookies
pub mod Faults
mod Tests
use marisa.Prelude.{
  ℤ, pos, negsuc, ℕ, zero, suc, ◌+◌, ◌-◌, ◌*◌, ◌/◌, ◌%◌, ◌^◌, ◌≤◌, ◌<◌, ◌≡◌, ◌≢◌, ◌↔◌, ◌⊎◌, inl,
  inr, refl, sym, ap, ◌∙◌, Bool, true, false, not, ◌&&◌, ◌||◌, Option, none, some, List, [], ◌∷◌,
  ◌++◌, map, append-nil, append_assoc, Bytes, codes, IsByte, bytes_eq, bytes_eq_iff, bytes_eq_refl,
  to_upper, to_lower, ltb, leb, ◌==◌, ==_iff, ==_refl, if◌then◌else◌, Bool-cases, Option-cases,
  get_or, get_elem?, take, drop, replicate, length, length-append, length-drop, take-all,
  take-append, drop-append, append-take-drop, length-take, digits-print_number, nil_of_length, all,
  All, All-append, All-imp, passes_below, passes_at, Result, ok, raise, fault, Exception,
  invalid_argument, logic_error, system_error, ◌>>=◌, ◌>>◌, at, bind_ok, Always, Always-bind,
  Always-ok, Always-any, print_number, read_number, read_number-print_number, length-print_number,
  digit_char, digit_value, find, find-all, insert, assign, insert_all, find-insert, find-assign,
  find-insert_all, or_else, arith,
}
use mathlib.Core.Option
use marisa.Http1.{Headers}
use marisa.Utilities.{View, explode_zerocopy_sv}

-- `it_c.find('=')`
unfoldable pub find_byte : ℕ → Bytes → Option ℕ
find_byte c [] = none
find_byte c (d ∷ s) = let later = find_byte c s in if d == c then some 0 else Option.map suc later

-- while (it_c[key_len-1] == ' ') key_len--;
unfoldable pub trim_key : View → (key_len : ℕ) → Result ℕ
trim_key v zero = if v.before == b' ' then fault else ok 0
trim_key v (suc n) =
    let rest = trim_key v n in if get_or v.text n 0 == b' ' then rest else ok (suc n)

-- while (it_c[key_offset] == ' ' && key_offset < it_c.size()-1), with the view's size as fuel.
unfoldable pub skip_key : (fuel : ℕ) → Bytes → (key_offset key_len : ℕ) → Result (ℕ × ℕ)
skip_key zero text key_offset key_len = ok (key_offset, key_len)
skip_key (suc fuel) text key_offset zero =
    if get_or text key_offset 0 == b' ' && ltb key_offset (length text - 1)
    then fault
    else ok (key_offset, zero)
skip_key (suc fuel) text key_offset (suc n) =
    let rest = skip_key fuel text (suc key_offset) n in
    if get_or text key_offset 0 == b' ' && ltb key_offset (length text - 1)
    then rest
    else ok (key_offset, suc n)

-- while (it_c[val_offset] == ' ')
unfoldable pub skip_value : (memory : Bytes) (val_offset val_len : ℕ) → Result (ℕ × ℕ)
skip_value memory val_offset zero =
    if get_or memory val_offset 0 == b' ' then fault else ok (val_offset, zero)
skip_value memory val_offset (suc n) =
    let rest = skip_value memory (suc val_offset) n in
    if get_or memory val_offset 0 == b' ' then rest else ok (val_offset, suc n)

-- while (it_c[val_offset+val_len-1] == ' ') val_len--;
unfoldable pub trim_value : (memory : Bytes) (val_offset val_len : ℕ) → Result ℕ
trim_value memory val_offset zero = if get_or memory (val_offset - 1) 0 == b' ' then fault else ok 0
trim_value memory val_offset (suc n) =
    let rest = trim_value memory val_offset n in
    if get_or memory (val_offset + n) 0 == b' ' then rest else ok (suc n)

abbrev pub substring : Bytes → (offset len : ℕ) → Bytes
substring text offset len = take len (drop offset text)

-- One cookie: its key and its value.
unfoldable pub parse_cookie : View → Result (Bytes × Bytes)
parse_cookie it_c = elim (find_byte b'=' it_c.text) [
  | none ↦ ok (it_c.text, [])
  | some equal_mark_pos ↦ do
    trimmed ← trim_key it_c equal_mark_pos
    key ← skip_key (length it_c.text) it_c.text 0 trimmed
    val ←
        skip_value (it_c.text ++ it_c.after) (equal_mark_pos + 1)
          (length it_c.text - equal_mark_pos - 1)
    val_len ← trim_value (it_c.text ++ it_c.after) val.0 val.1
    ok (substring it_c.text key.0 key.1, substring it_c.text val.0 val_len)
]

unfoldable pub parse_cookies : List View → Headers → Result Headers
parse_cookies [] m = ok m
parse_cookies (it ∷ its) m = parse_cookie it >>= λ c. parse_cookies its (assign c.0 c.1 m)

-- `cached` is `__cookies`; `front` is the byte in front of the header's value.
unfoldable pub cookies : (front : ℕ) (headers_lowercase cached : Headers) → Result Headers
cookies front headers_lowercase (c ∷ cs) = ok (c ∷ cs)
cookies front headers_lowercase [] = elim (find (codes "cookie") headers_lowercase) [
  | none ↦ ok []
  | some cstr ↦
      parse_cookies (explode_zerocopy_sv (record { before = front; text = cstr; after = [] }) b';')
        []
]

-- `cached` is `__ip`; `remote` is the address of the socket's other end.
unfoldable pub ip : (remote : Bytes) (headers_lowercase : Headers) (cached : Bytes) → Bytes
ip remote headers_lowercase (c ∷ s) = c ∷ s
ip remote headers_lowercase [] = elim (find (codes "x-forwarded-for") headers_lowercase) [
  | none ↦ remote
  | some value ↦ elim (find_byte b',' value) [ none ↦ value | some cpos ↦ take cpos value ]
]

-- What the parser has of the body is given out once; then the session is read.
unfoldable pub read : (read_session : Result Bytes) (body : Bytes) → Result (Bytes × Bytes)
read read_session (c ∷ body) = ok (c ∷ body, [])
read read_session [] = read_session >>= λ s. ok (s, [])
