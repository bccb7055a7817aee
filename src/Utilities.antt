-- ===== src/Utilities.antt =====
-- Source/Utilities/Utilities.cpp and Utilities.hpp: splitting of text without copies, and the
-- status pages. A pointer with a size is a `View`: the bytes that it spans, the byte in front of
-- them and the memory behind them, since the loop of explode_zerocopy reads both.
pub mod Explode
pub mod Borders
pub mod Pages
mod Tests
use marisa.Prelude.{
  ℕ, zero, suc, ◌+◌, ◌-◌, ◌*◌, ◌/◌, ◌%◌, ◌^◌, ◌≤◌, ◌<◌, ◌≡◌, ◌≢◌, ◌↔◌, ◌⊎◌, inl, inr, refl, sym, ap,
  ◌∙◌, Bool, true, false, not, ◌&&◌, ◌||◌, Option, none, some, List, [], ◌∷◌, ◌++◌, map, append-nil,
  append_assoc, Bytes, codes, IsByte, bytes_eq, bytes_eq_iff, bytes_eq_refl, to_upper, to_lower,
  ltb, leb, ◌==◌, ==_iff, ==_refl, if◌then◌else◌, Bool-cases, Option-cases, get_or, get_elem?, take,
  drop, replicate, length, length-append, all, All, All-append, passes_below, passes_at, Result, ok,
  raise, fault, Exception, invalid_argument, logic_error, system_error, ◌>>=◌, ◌>>◌, at,
  print_number, read_number, read_number-print_number, length-print_number, digit_char, digit_value,
  arith,
}

pub record View : Type 0 where
  pub before : ℕ
  pub text : Bytes
  pub after : Bytes

-- `if (pos[-1] == needle)` behind the loop: `last` is the byte there, `rest` the memory at `pos`.
tail_piece : (last needle : ℕ) (rest : Bytes) → List View
tail_piece last needle rest =
    if last == needle then record { before = last; text = []; after = rest } ∷ [] else []

-- The loop ends where `pos` reaches the end of the haystack.
resume : Bytes → List View → List View → List View
resume [] done more = done
resume (_ ∷ _) done more = more

-- The rounds of the loop: `before` and `cur` are the byte in front of `last_pos` and what memchr
-- has passed since then. A failed memchr puts `pos` behind the haystack, and `pos++` one further.
pub rounds : (needle before : ℕ) (cur hay after : Bytes) → List View
rounds needle before cur [] after =
    record { before = before; text = cur; after = after }
    ∷ tail_piece (get_or after 0 0) needle (drop 1 after)
rounds needle before cur (c ∷ hay) after = elim (c == needle) [
  | true ↦
      record { before = before; text = cur; after = c ∷ hay ++ after }
      ∷ resume hay (tail_piece c needle after) (rounds needle c [] hay after)
  | false ↦ rounds needle before (cur ++ c ∷ []) hay after
]

unfoldable pub explode_zerocopy : View → ℕ → List View
unfolding tail_piece resume rounds
explode_zerocopy v needle =
    resume v.text (tail_piece v.before needle v.after) (rounds needle v.before [] v.text v.after)

-- The same loop with string_views.
unfoldable pub explode_zerocopy_sv : View → ℕ → List View
unfolding tail_piece resume rounds
explode_zerocopy_sv v needle =
    resume v.text (tail_piece v.before needle v.after) (rounds needle v.before [] v.text v.after)

-- std::getline stops at the delimiter, and fails where it extracts nothing before the end.
getlines : (delim : ℕ) (item s : Bytes) → List Bytes
getlines delim [] [] = []
getlines delim (d ∷ item) [] = (d ∷ item) ∷ []
getlines delim item (c ∷ s) = elim (c == delim) [
  | true ↦ item ∷ getlines delim [] s
  | false ↦ getlines delim (item ++ c ∷ []) s
]

unfoldable pub explode_string : Bytes → ℕ → List Bytes
unfolding getlines
explode_string s delim = getlines delim [] s

abbrev pub http_status_part0 : Bytes
http_status_part0 = codes "<!DOCTYPE html>\n<html>\n<head><title>"

abbrev pub http_status_part1 : Bytes
http_status_part1 = codes "</title></head>\n<body bgcolor=\"white\">\n<center><h1>"

abbrev pub http_status_part2 : Bytes
http_status_part2 = codes "</h1></center>\n<hr><center>Marisa/0.1</center>\n</body>\n</html>"

-- `http_status_str` is http_parser's table of status texts.
module _ (http_status_str : ℕ → Bytes) where
  unfoldable pub http_status_page : ℕ → Bytes
  http_status_page status =
      let sbuf = print_number 10 status ++ codes " " ++ http_status_str status in
      http_status_part0 ++ sbuf ++ http_status_part1 ++ sbuf ++ http_status_part2

  -- Appends the page to `v`.
  unfoldable pub http_status_page_append : Bytes → ℕ → Bytes
  http_status_page_append v status =
      let sbuf = print_number 10 status ++ codes " " ++ http_status_str status in
      ((((v ++ http_status_part0) ++ sbuf) ++ http_status_part1) ++ sbuf) ++ http_status_part2

  -- Appends the page to a vector of 1024 zeros.
  unfoldable pub http_status_page_v : ℕ → Bytes
  unfolding http_status_page_append
  http_status_page_v status = http_status_page_append (replicate 1024 0) status
