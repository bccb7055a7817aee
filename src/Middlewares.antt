-- ===== src/Middlewares.antt =====
-- Source/App/Middlewares/Redirection.cpp and Simple.cpp: the middlewares of the library that answer
-- with a response's operations alone. Lambda calls the function that it was given.
mod Tests
use marisa.Prelude.{
  ℤ, pos, negsuc, ℕ, zero, suc, ◌+◌, ◌-◌, ◌*◌, ◌/◌, ◌%◌, ◌^◌, ◌≤◌, ◌<◌, ◌≡◌, ◌≢◌, ◌↔◌, ◌⊎◌, inl,
  inr, refl, sym, ap, ◌∙◌, Bool, true, false, not, ◌&&◌, ◌||◌, Option, none, some, List, [], ◌∷◌,
  ◌++◌, map, append-nil, append_assoc, Bytes, codes, IsByte, bytes_eq, bytes_eq_iff, bytes_eq_refl,
  to_upper, to_lower, ltb, leb, ◌==◌, ==_iff, ==_refl, if◌then◌else◌, Bool-cases, Option-cases,
  get_or, get_elem?, take, drop, replicate, length, length-append, length-drop, take-all,
  take-append, drop-append, append-take-drop, length-take, digits-print_number, find_text,
  starts_with, find_text-append, nil_of_length, all, All, All-append, All-imp, passes_below,
  passes_at, Result, ok, raise, fault, Exception, invalid_argument, logic_error, system_error,
  ◌>>=◌, ◌>>◌, at, bind_ok, bind-inverse, and_then, and_go_on, assert, length-take_below,
  length-replicate, length-positive, Always, Always-bind, Always-ok, Always-any, print_number,
  read_number, read_number-print_number, length-print_number, digit_char, digit_value, find,
  find-all, insert, assign, insert_all, find-insert, find-assign, find-insert_all, or_else, arith,
}
use marisa.Buffer.{string}
use marisa.Generator.{as_unsigned, generate_headers}
use marisa.Generator.Head.{
  IsTimeout, status_line, header_lines, keepalive_lines, generate_headers-head,
}
use marisa.Response.{Response, push, send_headers, send}

pub record Redirection : Type 0 where
  pub location : Bytes
  pub status_code : ℕ

module _ (timeout max : ℤ) where
  -- The location is moved out of the middleware.
  unfoldable pub redirection_handler : Redirection → Response → Result (Redirection × Response)
  redirection_handler mw response =
      let headers = assign (codes "Location") mw.location response.headers in
      send_headers timeout max false
        (record response { headers = headers; status = mw.status_code })
      >>= λ r. ok (record mw { location = [] }, r)

  unfoldable pub simple_handler : (contents : Bytes) → Response → Result Response
  simple_handler contents response = send timeout max string contents false response

  -- The headers of a redirection.
  abbrev pub redirected : Redirection → Response → List (Bytes × Bytes)
  redirected mw response =
      assign (codes "Content-Type") response.type
        (assign (codes "Location") mw.location response.headers)

  -- A redirection whose response's head was not sent, with a keep-alive timeout that is not sent, as -1,
  -- or below 65536, and a maximum below 65536, makes one write: the status line, the headers with the
  -- location and the type, the keep-alive lines and an empty line. Of a length and of a coding that
  -- tells where its body ends the headers have what they had before, which is none if no middleware
  -- in front set one.
  pub redirection_handler_lem :
      (mw : Redirection) (response : Response)
      → IsTimeout timeout
      → as_unsigned max < 65536
      → response.headers_sent ≡ false
      → (redirection_handler mw response
          ≡ ok (
            record mw { location = [] },
            push
                (status_line mw.status_code
                  ++ (header_lines (redirected mw response)
                      ++ (keepalive_lines timeout max ++ codes "\r\n")))
                (record response {
                  headers = redirected mw response;
                  status = mw.status_code;
                  type = [];
                  headers_sent = true;
                }),
          ))
        × (find (codes "Location") (redirected mw response) ≡ some mw.location)
        × (find (codes "Content-Length") (redirected mw response)
            ≡ find (codes "Content-Length") response.headers)
        × (find (codes "Transfer-Encoding") (redirected mw response)
            ≡ find (codes "Transfer-Encoding") response.headers)
  unfolding redirection_handler send_headers bytes_eq
  redirection_handler_lem mw response t m fresh =
      let located = assign (codes "Location") mw.location response.headers in
      let found = λ (key : Bytes). find-assign (codes "Content-Type") key response.type located in
      let found_located =
        λ (key : Bytes). find-assign (codes "Location") key mw.location response.headers in
      (
        rw (fresh, generate_headers-head timeout max mw.status_code (redirected mw response) t m)
            refl,
        found (codes "Location") ∙ found_located (codes "Location"),
        found (codes "Content-Length") ∙ found_located (codes "Content-Length"),
        found (codes "Transfer-Encoding") ∙ found_located (codes "Transfer-Encoding"),
      )
