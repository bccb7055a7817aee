-- ===== src/Mullet.antt =====
-- Source/Types/Mullet.cpp: the parts of a multipart body, which the callbacks of multipart-parser (a
-- submodule) collect: one run of it is the list of its calls. The maps are lists of pairs; `order` is
-- the order in which the loop over the headers meets them. A moved-from std::string is empty.
pub mod Parts
pub mod Bodies
pub mod Carried
mod Tests
use marisa.Prelude.{
  find_text, ℤ, pos, negsuc, ℕ, zero, suc, ◌+◌, ◌-◌, ◌*◌, ◌/◌, ◌%◌, ◌^◌, ◌≤◌, ◌<◌, ◌≡◌, ◌≢◌, ◌↔◌,
  ◌⊎◌, inl, inr, refl, sym, ap, ◌∙◌, Bool, true, false, not, ◌&&◌, ◌||◌, Option, none, some, List,
  [], ◌∷◌, ◌++◌, map, append-nil, append_assoc, Bytes, codes, IsByte, bytes_eq, bytes_eq_iff,
  bytes_eq_refl, to_upper, to_lower, ltb, leb, ◌==◌, ==_iff, ==_refl, if◌then◌else◌, Bool-cases,
  Option-cases, get_or, get_elem?, take, drop, replicate, length, length-append, length-drop,
  take-all, take-append, drop-append, append-take-drop, length-take, digits-print_number,
  nil_of_length, all, All, All-append, All-imp, passes_below, passes_at, Result, ok, raise, fault,
  Exception, invalid_argument, logic_error, system_error, ◌>>=◌, ◌>>◌, at, bind_ok, Always,
  Always-bind, Always-ok, Always-any, print_number, read_number, read_number-print_number,
  length-print_number, digit_char, digit_value, find, find-all, insert, assign, insert_all,
  find-insert, find-assign, find-insert_all, or_else, arith,
}
use marisa.Http1.{Headers, lowercase}

pub record Part : Type 0 where
  pub headers : Headers
  pub headers_lowercase : Headers
  pub body : Bytes
  pub is_done : Bool

abbrev pub new_part : Part
new_part = record { headers = []; headers_lowercase = []; body = []; is_done = false }

-- `last_handler` is 2 behind a header's field, 3 behind its value, 4 behind data.
pub record Mullet : Type 0 where
  pub all_done : Bool
  pub last_handler : ℕ
  pub last_field : Bytes
  pub last_value : Bytes
  pub parts : List Part

abbrev pub new_mullet : Mullet
new_mullet = record {
  all_done = false;
  last_handler = 0;
  last_field = [];
  last_value = [];
  parts = [];
}

-- A change of `parts.back()`, of which an empty deque has none.
unfoldable pub change_back : (Part → Part) → List Part → Result (List Part)
change_back f [] = fault
change_back f (p ∷ []) = ok (f p ∷ [])
change_back f (p ∷ q ∷ ps) = change_back f (q ∷ ps) >>= λ rest. ok (p ∷ rest)

abbrev pub on_back : (Part → Part) → Mullet → Result Mullet
on_back f m = change_back f m.parts >>= λ parts. ok (record m { parts = parts })

abbrev pub on_part_begin : Mullet → Mullet
on_part_begin m = record m { parts = m.parts ++ new_part ∷ [] }

-- Behind a header's value, the header is put into the current part.
unfoldable pub store_header : Mullet → Result Mullet
store_header m =
    if m.last_handler == 3
    then (on_back (λ p. record p { headers = insert m.last_field m.last_value p.headers }) m
        >>= λ n. ok (record n { last_field = []; last_value = [] }))
    else on_back (λ p. p) m

unfoldable pub on_header_field : Bytes → Mullet → Result Mullet
on_header_field text m =
    if m.last_handler == 2
    then on_back (λ p. p) (record m { last_field = m.last_field ++ text })
    else (store_header m >>= λ n. ok (record n { last_handler = 2; last_field = text }))

unfoldable pub on_header_value : Bytes → Mullet → Result Mullet
on_header_value text m =
    if m.last_handler == 3
    then on_back (λ p. p) (record m { last_value = m.last_value ++ text })
    else on_back (λ p. p) (record m { last_handler = 3; last_value = text })

unfoldable pub on_part_data : Bytes → Mullet → Result Mullet
on_part_data text m =
    if m.last_handler == 4
    then on_back (λ p. record p { body = p.body ++ text }) m
    else (store_header m >>= λ n.
        on_back (λ p. record p { body = text }) (record n { last_handler = 4 }))

-- multipart-parser's calls.
pub data Call : Type 0 where
  part_begin part_end body_end : Call
  header_field header_value part_data : Bytes → Call

module _ (order : Headers → Headers) where
  abbrev pub end_part : Part → Part
  end_part p = record p {
    headers_lowercase = lowercase (order p.headers) p.headers_lowercase;
    is_done = true;
  }

  unfoldable pub handle : Call → Mullet → Result Mullet
  handle part_begin m = ok (on_part_begin m)
  handle (header_field text) m = on_header_field text m
  handle (header_value text) m = on_header_value text m
  handle (part_data text) m = on_part_data text m
  handle part_end m = on_back end_part m
  handle body_end m = ok (record m { all_done = true })

  unfoldable pub feed : List Call → Mullet → Result Mullet
  feed [] m = ok m
  feed (c ∷ cs) m = handle c m >>= feed cs

-- The boundary that set_headers takes from the header.
unfoldable pub set_headers : Headers → Result Bytes
set_headers headers = elim (find (codes "content-type") headers) [
  | none ↦ raise invalid_argument
  | some val ↦ elim (find_text (codes "multipart/form-data") val) [
    | none ↦ raise invalid_argument
    | some pos_mf ↦ elim (find_text (codes "=") val) [
      | none ↦ raise invalid_argument
      | some pos_e ↦
          if leb pos_e pos_mf || pos_e == length val - 1
          then raise invalid_argument
          else ok (drop (pos_e + 1) val)
    ]
  ]
]
