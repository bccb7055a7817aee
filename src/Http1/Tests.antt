-- ===== src/Http1/Tests.antt =====
-- Tests of the request parser, and its theorems at concrete inputs.
use marisa.Prelude.{
  ◌≡◌, ◌↔◌, refl, true, List, [], ◌∷◌, ◌++◌, Bytes, codes, bytes_eq, ok, fault, find, insert,
  or_else, arith,
}
use marisa.Uri.{is_escape, escaped, decode_uri_component}
use marisa.Utilities.{explode_zerocopy}
use marisa.Utilities.Explode.{split}
use marisa.Http1.{
  Parser, init, Headers, Event, on_url, on_header_field, on_header_value, on_headers_complete,
  on_message_complete, callbacks, parse_url, lowercase,
}
use marisa.Http1.Url.{url_parts, parse_url-url_parts}
use marisa.Http1.Faults.{has_empty, parse_url-fault_iff}
use marisa.Http1.Fragments.{same, keep, cut_field, cut_value, cut_url, callbacks-Cuts}
use marisa.Http1.HeaderBlock.{header_events, header_block}

abbrev at_url : Bytes → Parser
at_url s = record init { url_raw = s }

reads_query :
    parse_url 0 (at_url (codes "/p?a=%31&b&c=1=2&a=9"))
    ≡ ok (record (at_url (codes "/p?a=%31&b&c=1=2&a=9")) {
      url = codes "/p";
      query_string = (codes "a", codes "1") ∷ (codes "b", []) ∷ (codes "c", []) ∷ [];
    })
unfolding parse_url is_escape escaped explode_zerocopy insert bytes_eq decode_uri_component
reads_query = refl

-- A second question mark drops the query.
drops_query :
    parse_url 0 (at_url (codes "/p?a=1?b"))
    ≡ ok (record (at_url (codes "/p?a=1?b")) { url = codes "/p" })
unfolding parse_url explode_zerocopy
drops_query = refl

faults : parse_url 0 (at_url (codes "/?a=1&")) ≡ fault
unfolding parse_url explode_zerocopy
faults = refl

parse_url-url_parts_example :
    parse_url 61 (at_url (codes "/p?a=1"))
    ≡ url_parts (split b'?' (codes "/p?a=1")) (at_url (codes "/p?a=1"))
parse_url-url_parts_example = parse_url-url_parts 61 (at_url (codes "/p?a=1")) (λ e. cc)

parse_url-fault_iff_example :
    (parse_url 61 (at_url (codes "/?a&")) ≡ fault) ↔ (has_empty (split b'&' (codes "a&")) ≡ true)
parse_url-fault_iff_example =
    parse_url-fault_iff 61 (at_url (codes "/?a&")) (codes "/") (codes "a&") refl (omega arith)
      (omega arith) (λ e. cc)

abbrev request : List Event
request =
    on_url (codes "/p")
    ∷ on_header_field (codes "Host")
    ∷ on_header_value (codes "h")
    ∷ on_headers_complete 1
    ∷ on_message_complete
    ∷ []

abbrev cut_request : List Event
cut_request =
    on_url (codes "/")
    ∷ on_url (codes "p")
    ∷ on_header_field (codes "Ho")
    ∷ on_header_field (codes "st")
    ∷ on_header_value (codes "h")
    ∷ on_header_value []
    ∷ on_headers_complete 1
    ∷ on_message_complete
    ∷ []

callbacks-Cuts_example : callbacks (λ l. l) 0 request init ≡ callbacks (λ l. l) 0 cut_request init
callbacks-Cuts_example =
    callbacks-Cuts (λ l. l) 0
      (cut_url (codes "/") (codes "p") (
        cut_field (codes "Ho") (codes "st") (
          cut_value (codes "h") [] (keep (on_headers_complete 1) (keep on_message_complete same)))))
      init

abbrev sent : Headers
sent = (codes "A", codes "1") ∷ (codes "a", codes "2") ∷ (codes "A", codes "3") ∷ []

header_block_example :
    (q : Parser) × (callbacks
        (λ l. l)
        0
        (header_events sent ++ on_headers_complete 1 ∷ [])
        (at_url (codes "/p"))
      ≡ ok q)
    × ((k : Bytes) → find k q.headers ≡ or_else (find k []) (find k sent))
    × (q.headers_lowercase ≡ lowercase q.headers [])
    × (q.url ≡ codes "/p")
    × (q.method ≡ 1)
    × (q.header_finished ≡ true)
header_block_example =
    header_block (λ l. l) 0 sent 1 (at_url (codes "/p")) ((λ e. cc), ((λ e. cc), ((λ e. cc), tt)))
      refl refl refl (λ e. cc) (omega arith)
