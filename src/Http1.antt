-- ===== src/Http1.antt =====
-- Source/Protocol/HTTP/HTTP1/Parser.cpp: the parser of a request. http_parser (a submodule) calls
-- it back: what one run of http_parser_execute does is the list of its calls and the count of bytes
-- that it took, both arguments of `parse`. The maps are lists of pairs; `order` is the order in
-- which the loop over the headers meets them. A moved-from std::string is empty. `front` is the
-- byte in memory in front of the URL's text.
pub mod Url
pub mod Faults
pub mod Fragments
pub mod HeaderBlock
mod Tests
use marisa.Prelude.{
  ℕ, zero, suc, ◌+◌, ◌-◌, ◌*◌, ◌/◌, ◌%◌, ◌^◌, ◌≤◌, ◌<◌, ◌≡◌, ◌≢◌, ◌↔◌, ◌⊎◌, inl, inr, refl, sym, ap,
  ◌∙◌, Bool, true, false, not, ◌&&◌, ◌||◌, Option, none, some, List, [], ◌∷◌, ◌++◌, map, append-nil,
  append_assoc, Bytes, codes, IsByte, bytes_eq, bytes_eq_iff, bytes_eq_refl, to_upper, to_lower,
  ltb, leb, ◌==◌, ==_iff, ==_refl, if◌then◌else◌, Bool-cases, Option-cases, get_or, get_elem?, take,
  drop, replicate, length, length-append, all, All, All-append, passes_below, passes_at, Result, ok,
  raise, fault, Exception, invalid_argument, logic_error, system_error, ◌>>=◌, ◌>>◌, at,
  print_number, read_number, read_number-print_number, length-print_number, digit_char, digit_value,
  find, insert, assign, insert_all, find-insert, find-assign, find-insert_all, or_else, arith,
}
use marisa.Uri.{decode_uri_component}
use marisa.Utilities.{View, explode_zerocopy}

-- The values of `last_data_cb` that the code tells apart.
pub data Callback : Type 0 where
  no_callback header_field header_value : Callback

abbrev pub Headers : Type 0
Headers = List (Bytes × Bytes)

pub record Parser : Type 0 where
  pub url_raw : Bytes
  pub url : Bytes
  pub headers : Headers
  pub headers_lowercase : Headers
  pub query_string : Headers
  pub body : Bytes
  pub method : ℕ
  pub status : ℕ
  pub size_parsed : ℕ
  pub is_finished : Bool
  pub header_finished : Bool
  pub is_request : Bool
  pub last_data_cb : Callback
  pub last_field : Bytes
  pub last_value : Bytes

abbrev pub init : Parser
init = record {
  url_raw = [];
  url = [];
  headers = [];
  headers_lowercase = [];
  query_string = [];
  body = [];
  method = 0;
  status = 200;
  size_parsed = 0;
  is_finished = false;
  header_finished = false;
  is_request = true;
  last_data_cb = no_callback;
  last_field = [];
  last_value = [];
}

unfoldable pub callback_url : Bytes → Parser → Parser
callback_url text p = record p { url_raw = p.url_raw ++ text }

unfoldable pub callback_body : Bytes → Parser → Parser
callback_body text p = record p { body = p.body ++ text }

unfoldable pub callback_status : ℕ → Parser → Parser
callback_status code p = record p { status = code }

-- `__headers.insert({std::move(last_field), std::move(last_value)})`, if there is a field.
unfoldable pub flush : Parser → Parser
flush p = elim p.last_field [
  | [] ↦ p
  | c ∷ s ↦ record p {
    headers = insert (c ∷ s) p.last_value p.headers;
    last_field = [];
    last_value = [];
  }
]

abbrev is_field : Callback → Bool
is_field header_field = true
is_field _ = false

abbrev is_value : Callback → Bool
is_value header_value = true
is_value _ = false

unfoldable pub callback_header_field : Bytes → Parser → Parser
unfolding flush
callback_header_field text p =
    if is_field p.last_data_cb
    then record p { last_field = p.last_field ++ text; last_data_cb = header_field }
    else record (flush p) { last_field = text; last_data_cb = header_field }

unfoldable pub callback_header_value : Bytes → Parser → Parser
callback_header_value text p =
    if is_value p.last_data_cb
    then record p { last_value = p.last_value ++ text; last_data_cb = header_value }
    else record p { last_value = text; last_data_cb = header_value }

unfoldable pub callback_message_complete : Parser → Parser
callback_message_complete p = record p { is_finished = true }

-- `if (buf2[0].second) key = decodeURIComponent(…)`
unfoldable pub decode_view : View → Bytes
decode_view v = elim v.text [ [] ↦ [] | c ∷ s ↦ decode_uri_component (c ∷ s) v.after ]

-- The key and the value of one part of the query.
unfoldable pub parse_pair : View → Result (Bytes × Bytes)
unfolding decode_view
parse_pair it = do
  let buf2 = explode_zerocopy it b'='
  key ← at buf2 0
  val ← if length buf2 == 2 then at buf2 1 >>= (λ v. ok (decode_view v)) else ok []
  ok (decode_view key, val)

unfoldable pub parse_pairs : List View → Headers → Result Headers
unfolding parse_pair
parse_pairs [] m = ok m
parse_pairs (it ∷ its) m = do (key, val) ← parse_pair it; parse_pairs its (insert key val m)

-- The branch of `parse_url` with a query.
with_query : Parser → Bytes → View → Result Parser
with_query p path second = do
  query ← parse_pairs (explode_zerocopy second b'&') p.query_string
  ok (record p { url = path; query_string = query })

module _ (front : ℕ) where
  unfoldable pub parse_url : Parser → Result Parser
  unfolding parse_pairs with_query
  parse_url p = do
    let buf0 = explode_zerocopy (record { before = front; text = p.url_raw; after = [] }) b'?'
    first ← at buf0 0
    if length buf0 == 2
        then (at buf0 1 >>= with_query p first.text)
        else ok (record p { url = first.text })

-- The lower-case copies, in the order of the loop.
unfoldable pub lowercase : Headers → Headers → Headers
lowercase [] m = m
lowercase ((field, value) ∷ l) m = lowercase l (insert (map to_lower field) value m)

module _ (order : Headers → Headers) where
  -- What follows the URL; `method` is `hp_ctx.method`.
  abbrev pub end_of_headers : ℕ → Parser → Parser
  end_of_headers method p = record p {
    method = method;
    headers_lowercase = lowercase (order p.headers) p.headers_lowercase;
    header_finished = true;
  }

  unfoldable pub callback_headers_complete : ℕ → ℕ → Parser → Result Parser
  callback_headers_complete front method p = do
    q ← if p.is_request then parse_url front (flush p) else ok (flush p)
    ok (end_of_headers method q)

-- The calls that http_parser makes.
pub data Event : Type 0 where
  on_url on_body on_header_field on_header_value : Bytes → Event
  on_status on_headers_complete : ℕ → Event
  on_message_complete : Event

module _ (order : Headers → Headers) (front : ℕ) where
  unfoldable pub callback : Event → Parser → Result Parser
  unfolding callback_headers_complete
  callback (on_url text) p = ok (callback_url text p)
  callback (on_body text) p = ok (callback_body text p)
  callback (on_header_field text) p = ok (callback_header_field text p)
  callback (on_header_value text) p = ok (callback_header_value text p)
  callback (on_status code) p = ok (callback_status code p)
  callback (on_headers_complete method) p = callback_headers_complete order front method p
  callback on_message_complete p = ok (callback_message_complete p)

  unfoldable pub callbacks : List Event → Parser → Result Parser
  callbacks [] p = ok p
  callbacks (e ∷ es) p = callback e p >>= callbacks es

  -- `es` and `rc` are the calls and the result of http_parser_execute on `len` bytes. The changes of
  -- the callbacks stay where `parse` throws.
  unfoldable pub parse : List Event → (rc len : ℕ) → Parser → Result (Parser × Result ℕ)
  unfolding callbacks
  parse es rc len p = do
    q ← callbacks es p
    ok (
        if rc == len
        then (record q { size_parsed = q.size_parsed + len }, ok rc)
        else (q, raise invalid_argument))
