-- ===== src/Generator.antt =====
-- Source/Protocol/HTTP/HTTP1/Generator.cpp: the head of a response, written into a buffer at a
-- position. A write outside of the vector is a fault.
pub mod Written
pub mod Head
mod Tests
use marisa.Prelude.{
  ℤ, pos, negsuc, ℕ, zero, suc, ◌+◌, ◌-◌, ◌*◌, ◌/◌, ◌%◌, ◌^◌, ◌≤◌, ◌<◌, ◌≡◌, ◌≢◌, ◌↔◌, ◌⊎◌, inl,
  inr, refl, sym, ap, ◌∙◌, Bool, true, false, not, ◌&&◌, ◌||◌, Option, none, some, List, [], ◌∷◌,
  ◌++◌, map, append-nil, append_assoc, Bytes, codes, IsByte, bytes_eq, bytes_eq_iff, bytes_eq_refl,
  to_upper, to_lower, ltb, leb, ◌==◌, ==_iff, ==_refl, if◌then◌else◌, Bool-cases, Option-cases,
  get_or, get_elem?, take, drop, replicate, length, length-append, all, All, All-append, All-imp,
  passes_below, passes_at, Result, ok, raise, fault, Exception, invalid_argument, logic_error,
  system_error, ◌>>=◌, ◌>>◌, at, print_number, read_number, read_number-print_number,
  length-print_number, digit_char, digit_value, find, insert, assign, insert_all, find-insert,
  find-assign, find-insert_all, or_else, arith,
}

abbrev pub http1_status_map : List (ℕ × Bytes)
http1_status_map =
    (100, codes "HTTP/1.1 100 Continue\r\n")
    ∷ (101, codes "HTTP/1.1 101 Switching Protocols\r\n")
    ∷ (102, codes "HTTP/1.1 102 Processing\r\n")
    ∷ (200, codes "HTTP/1.1 200 OK\r\n")
    ∷ (201, codes "HTTP/1.1 201 Created\r\n")
    ∷ (202, codes "HTTP/1.1 202 Accepted\r\n")
    ∷ (203, codes "HTTP/1.1 203 Non-Authoritative Information\r\n")
    ∷ (204, codes "HTTP/1.1 204 No Content\r\n")
    ∷ (205, codes "HTTP/1.1 205 Reset Content\r\n")
    ∷ (206, codes "HTTP/1.1 206 Partial Content\r\n")
    ∷ (207, codes "HTTP/1.1 207 Multi-Status\r\n")
    ∷ (208, codes "HTTP/1.1 208 Already Reported\r\n")
    ∷ (226, codes "HTTP/1.1 226 IM Used\r\n")
    ∷ (300, codes "HTTP/1.1 300 Multiple Choices\r\n")
    ∷ (301, codes "HTTP/1.1 301 Moved Permanently\r\n")
    ∷ (302, codes "HTTP/1.1 302 Found\r\n")
    ∷ (303, codes "HTTP/1.1 303 See Other\r\n")
    ∷ (304, codes "HTTP/1.1 304 Not Modified\r\n")
    ∷ (305, codes "HTTP/1.1 305 Use Proxy\r\n")
    ∷ (307, codes "HTTP/1.1 307 Temporary Redirect\r\n")
    ∷ (308, codes "HTTP/1.1 308 Permanent Redirect\r\n")
    ∷ (400, codes "HTTP/1.1 400 Bad Request\r\n")
    ∷ (401, codes "HTTP/1.1 401 Unauthorized\r\n")
    ∷ (402, codes "HTTP/1.1 402 Payment Required\r\n")
    ∷ (403, codes "HTTP/1.1 403 Forbidden\r\n")
    ∷ (404, codes "HTTP/1.1 404 Not Found\r\n")
    ∷ (405, codes "HTTP/1.1 405 Method Not Allowed\r\n")
    ∷ (406, codes "HTTP/1.1 406 Not Acceptable\r\n")
    ∷ (407, codes "HTTP/1.1 407 Proxy Authentication Required\r\n")
    ∷ (408, codes "HTTP/1.1 408 Request Timeout\r\n")
    ∷ (409, codes "HTTP/1.1 409 Conflict\r\n")
    ∷ (410, codes "HTTP/1.1 410 Gone\r\n")
    ∷ (411, codes "HTTP/1.1 411 Length Required\r\n")
    ∷ (412, codes "HTTP/1.1 412 Precondition Failed\r\n")
    ∷ (413, codes "HTTP/1.1 413 Payload Too Large\r\n")
    ∷ (414, codes "HTTP/1.1 414 URI Too Long\r\n")
    ∷ (415, codes "HTTP/1.1 415 Unsupported Media Type\r\n")
    ∷ (416, codes "HTTP/1.1 416 Range Not Satisfiable\r\n")
    ∷ (417, codes "HTTP/1.1 417 Expectation Failed\r\n")
    ∷ (421, codes "HTTP/1.1 421 Misdirected Request\r\n")
    ∷ (422, codes "HTTP/1.1 422 Unprocessable Entity\r\n")
    ∷ (423, codes "HTTP/1.1 423 Locked\r\n")
    ∷ (424, codes "HTTP/1.1 424 Failed Dependency\r\n")
    ∷ (426, codes "HTTP/1.1 426 Upgrade Required\r\n")
    ∷ (428, codes "HTTP/1.1 428 Precondition Required\r\n")
    ∷ (429, codes "HTTP/1.1 429 Too Many Requests\r\n")
    ∷ (431, codes "HTTP/1.1 431 Request Header Fields Too Large\r\n")
    ∷ (451, codes "HTTP/1.1 451 Unavailable For Illegal Reasons\r\n")
    ∷ (500, codes "HTTP/1.1 500 Internal Server Error\r\n")
    ∷ (501, codes "HTTP/1.1 501 Not Implemented\r\n")
    ∷ (502, codes "HTTP/1.1 502 Bad Gateway\r\n")
    ∷ (503, codes "HTTP/1.1 503 Service Unavailable\r\n")
    ∷ (504, codes "HTTP/1.1 504 Gateway Timeout\r\n")
    ∷ (505, codes "HTTP/1.1 505 HTTP Version Not Supported\r\n")
    ∷ (506, codes "HTTP/1.1 506 Variant Also Negotiates\r\n")
    ∷ (507, codes "HTTP/1.1 507 Insufficient Storage\r\n")
    ∷ (508, codes "HTTP/1.1 508 Loop Detected\r\n")
    ∷ (510, codes "HTTP/1.1 510 Not Extended\r\n")
    ∷ (511, codes "HTTP/1.1 511 Network Authentication Required\r\n")
    ∷ []

unfoldable pub find_status : ℕ → List (ℕ × Bytes) → Option Bytes
find_status code [] = none
find_status code ((c, line) ∷ m) = if c == code then some line else find_status code m

abbrev pub hdr_part6 : Bytes
hdr_part6 = codes "Connection: Keep-Alive\r\nKeep-Alive: timeout="

abbrev pub is_positive : ℤ → Bool
is_positive (pos n) = ltb 0 n
is_positive (negsuc n) = false

-- An int printed by `%u`.
abbrev pub as_unsigned : ℤ → ℕ
as_unsigned (pos n) = n
as_unsigned (negsuc n) = 2 ^ 32 - 1 - n

-- std::vector::resize: new bytes are zero.
unfoldable pub resize : ℕ → Bytes → Bytes
resize zero buf = []
resize (suc n) [] = 0 ∷ resize n []
resize (suc n) (c ∷ buf) = c ∷ resize n buf

-- memcpy of `src` to `dp + pos`.
unfoldable pub copy_to : (buf : Bytes) (start : ℕ) (src : Bytes) → Result Bytes
copy_to buf zero [] = ok buf
copy_to [] zero (c ∷ src) = fault
copy_to (b ∷ buf) zero (c ∷ src) = copy_to buf zero src >>= λ rest. ok (c ∷ rest)
copy_to [] (suc n) src = fault
copy_to (b ∷ buf) (suc n) src = copy_to buf n src >>= λ rest. ok (b ∷ rest)

-- The vector `ret` and the position in it.
pub record Output : Type 0 where
  pub ret : Bytes
  pub position : ℕ

-- Copies `src` to the position, and moves that on.
unfoldable pub put : Bytes → Output → Result Output
put src out = do
  ret ← copy_to out.ret out.position src
  ok (record { ret = ret; position = out.position + length src })

-- `sprintf` writes a NUL behind the text, which the position does not pass.
unfoldable pub put_printed : Bytes → Output → Result Output
put_printed src out = do
  ret ← copy_to out.ret out.position (src ++ 0 ∷ [])
  ok (record { ret = ret; position = out.position + length src })

abbrev pub grow : ℕ → Output → Output
grow n out = record out { ret = resize (n + out.position) out.ret }

-- One round of the loop over the headers.
unfoldable pub put_header : Bytes × Bytes → Output → Result Output
unfolding put
put_header (field, value) out = do
  named ← put field (grow (length field + length value + 4) out)
  colon ← put (codes ": ") named
  valued ← put value colon
  put (codes "\r\n") valued

unfoldable pub put_headers : List (Bytes × Bytes) → Output → Result Output
unfolding put_header
put_headers [] out = ok out
put_headers (h ∷ hs) out = put_header h out >>= put_headers hs

unfoldable pub put_status : ℕ → Output → Result Output
put_status status out = elim (find_status status http1_status_map) [
  | none ↦ ok out
  | some line ↦ put line out
]

unfoldable pub put_keepalive : (timeout max : ℤ) → Output → Result Output
put_keepalive timeout max out =
    if is_positive timeout
    then (do
      connection ← put hdr_part6 (grow 64 out)
      put_printed
          (print_number 10 (as_unsigned timeout)
            ++ (codes ", max=" ++ (print_number 10 (as_unsigned max) ++ codes "\r\n")))
          connection)
    else ok out

-- `timeout` and `max` are `keepalive_config`; the headers stand in the order of the map's loop.
unfoldable pub generate_headers :
    (timeout max : ℤ) (status : ℕ) (headers : List (Bytes × Bytes)) → Result Bytes
unfolding put put_printed put_header put_headers put_status put_keepalive
generate_headers timeout max status headers = do
  begun ← put_status status (record { ret = replicate 50 0; position = 0 })
  headed ← put_headers headers begun
  kept ← put_keepalive timeout max headed
  ended ← put (codes "\r\n") (grow 2 kept)
  ok ended.ret
