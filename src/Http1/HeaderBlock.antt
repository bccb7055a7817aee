-- ===== src/Http1/HeaderBlock.antt =====
-- The header map that the callbacks build from a block of headers.
use marisa.Prelude.{
  ℕ, ◌≡◌, ◌≢◌, refl, sym, ap, ◌∙◌, true, false, List, [], ◌∷◌, ◌++◌, Bytes, if◌then◌else◌, All, ok,
  ◌>>=◌, find, insert, insert_all, find-insert_all, or_else, arith,
}
use mathlib.Core.Path.{subst}
use marisa.Http1.{
  Parser, header_value, is_field, Headers, flush, callback_header_field, callback_header_value,
  parse_url, lowercase, end_of_headers, callback_headers_complete, Event, on_header_field,
  on_header_value, on_headers_complete, callback, callbacks,
}
use marisa.Http1.Url.{url_parts, parse_url-url_parts}
use marisa.Http1.Faults.{Lacks, split-Lacks}

-- The calls of http_parser for a block of headers.
abbrev pub header_events : Headers → List Event
header_events [] = []
header_events ((field, value) ∷ hs) =
    on_header_field field ∷ on_header_value value ∷ header_events hs

-- The state behind one header.
abbrev received : Bytes → Bytes → Parser → Parser
received field value p = record (flush p) {
  last_field = field;
  last_value = value;
  last_data_cb = header_value;
}

abbrev receive_all : Headers → Parser → Parser
receive_all [] p = p
receive_all ((field, value) ∷ hs) p = receive_all hs (received field value p)

receive_one :
    (field value : Bytes) (p : Parser)
    → is_field p.last_data_cb ≡ false
    → callback_header_value value (callback_header_field field p) ≡ received field value p
unfolding callback_header_field callback_header_value
receive_one field value p h = rw (h, callback_header_field)

flush_field : (p : Parser) → p.last_field ≡ [] → flush p ≡ p
unfolding flush
flush_field p h = ground arith

flush-received :
    (field value : Bytes) (p : Parser)
    → field ≢ []
    → flush (received field value p) ≡ record (flush p) {
      headers = insert field value (flush p).headers;
      last_field = [];
      last_value = [];
      last_data_cb = header_value;
    }
unfolding flush
flush-received [] value p h = absurd (h refl)
flush-received (c ∷ field) value p h = refl

-- All headers but the last are in the map, and the last waits to be flushed.
headers-receive_all :
    (hs : Headers) (p : Parser)
    → All (λ h. h.0 ≢ []) hs
    → (flush (receive_all hs p)).headers ≡ insert_all hs (flush p).headers
unfolding insert_all
headers-receive_all [] p names = refl
headers-receive_all ((field, value) ∷ hs) p (full, names) =
    headers-receive_all hs (received field value p) names
    ∙ ap (insert_all hs) (ap (λ (q : Parser). q.headers) (flush-received field value p full))

-- What a flush and a block of headers leave alone.
record KeepsRest (p q : Parser) : Type 0 where
  raw : q.url_raw ≡ p.url_raw
  kind : q.is_request ≡ p.is_request
  lower : q.headers_lowercase ≡ p.headers_lowercase

flush-KeepsRest : (p : Parser) → KeepsRest p (flush p)
unfolding flush
flush-KeepsRest p = ground arith

receive_all-KeepsRest : (hs : Headers) (p : Parser) → KeepsRest p (receive_all hs p)
receive_all-KeepsRest [] p = record { raw = refl; kind = refl; lower = refl }
receive_all-KeepsRest ((field, value) ∷ hs) p =
    let k = receive_all-KeepsRest hs (received field value p) in
    let f = flush-KeepsRest p in
    record { raw = k.raw ∙ f.raw; kind = k.kind ∙ f.kind; lower = k.lower ∙ f.lower }

module _ (order : Headers → Headers) (front : ℕ) where
  callbacks-header_events :
      (hs : Headers) (es : List Event) (p : Parser)
      → is_field p.last_data_cb ≡ false
      → callbacks order front (header_events hs ++ es) p
        ≡ callbacks order front es (receive_all hs p)
  unfolding callbacks callback
  callbacks-header_events [] es p h = refl
  callbacks-header_events ((field, value) ∷ hs) es p h =
      ap (callbacks order front (header_events hs ++ es)) (receive_one field value p h)
      ∙ callbacks-header_events hs es (received field value p) refl

  plain_url :
      (p : Parser)
      → p.url_raw ≢ []
      → Lacks b'?' p.url_raw
      → parse_url front p ≡ ok (record p { url = p.url_raw })
  plain_url p full plain =
      parse_url-url_parts front p full
      ∙ ap (λ l. url_parts l p) (split-Lacks b'?' p.url_raw plain)
      ∙ (unfold url_parts in refl)

  request_url :
      (p : Parser)
      → p.is_request ≡ true
      → p.url_raw ≢ []
      → Lacks b'?' p.url_raw
      → (if p.is_request then parse_url front (flush p) else ok (flush p))
        ≡ ok (record (flush p) { url = p.url_raw })
  request_url p request full plain =
      let same_url = (flush-KeepsRest p).raw in
      ap (λ b. if b then parse_url front (flush p) else ok (flush p)) request
      ∙ plain_url (flush p) (λ e. full (sym same_url ∙ e)) (subst (Lacks b'?') (sym same_url) plain)
      ∙ ap (λ u. ok (record (flush p) { url = u })) same_url

  complete :
      (method : ℕ) (p : Parser)
      → p.is_request ≡ true
      → p.url_raw ≢ []
      → Lacks b'?' p.url_raw
      → callback_headers_complete order front method p
        ≡ ok (end_of_headers order method (record (flush p) { url = p.url_raw }))
  unfolding callback_headers_complete
  complete method p request full plain =
      ap (λ m. m >>= (λ q. ok (end_of_headers order method q))) (request_url p request full plain)

  last_call :
      (method : ℕ) (p : Parser) {q : Parser}
      → callback_headers_complete order front method p ≡ ok q
      → callbacks order front (on_headers_complete method ∷ []) p ≡ ok q
  unfolding callbacks
  last_call method p e = unfold callback in ap (λ m. m >>= callbacks order front []) e

  -- From a parser that waits for no header's value, the calls for a block of headers with names and
  -- for its end give, for a URL with no question mark, a parser whose map holds for every name the
  -- value that it had, or else that of the first header with the name; its lower-case map is made
  -- from that map, the path is the URL, and the method is the one reported.
  pub header_block :
      (hs : Headers) (method : ℕ) (p : Parser)
      → All (λ h. h.0 ≢ []) hs
      → p.last_field ≡ []
      → is_field p.last_data_cb ≡ false
      → p.is_request ≡ true
      → p.url_raw ≢ []
      → Lacks b'?' p.url_raw
      → (q : Parser) × (callbacks order front
            (header_events hs ++ on_headers_complete method ∷ [])
            p
          ≡ ok q)
        × ((k : Bytes) → find k q.headers ≡ or_else (find k p.headers) (find k hs))
        × (q.headers_lowercase ≡ lowercase (order q.headers) p.headers_lowercase)
        × (q.url ≡ p.url_raw)
        × (q.method ≡ method)
        × (q.header_finished ≡ true)
  header_block hs method p names idle ready request full plain =
      let r = receive_all hs p in
      let k = receive_all-KeepsRest hs p in
      let f = flush-KeepsRest r in
      (
        end_of_headers order method (record (flush r) { url = r.url_raw }),
        callbacks-header_events hs (on_headers_complete method ∷ []) p ready
            ∙ last_call method r (
                complete method r (k.kind ∙ request) (λ e. full (sym k.raw ∙ e))
                  (subst (Lacks b'?') (sym k.raw) plain)),
        λ name.
            ap (find name) (
              headers-receive_all hs p names
              ∙ ap (λ (q : Parser). insert_all hs q.headers) (flush_field p idle))
            ∙ find-insert_all name hs p.headers,
        ap (lowercase (order (flush r).headers)) (f.lower ∙ k.lower),
        k.raw,
        refl,
        refl,
      )
