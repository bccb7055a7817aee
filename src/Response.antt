-- ===== src/Response.antt =====
-- Source/App/Response/Response.cpp: the response of a handler. What it sends is the list of its calls
-- of the session; a write that fails throws there, and ends the handler, so that the calls made are
-- then the first of the list. A moved-from std::string is empty. `timeout` and `max` are the
-- generator's keepalive_config.
pub mod Wire
pub mod Chunks
pub mod Bodies
pub mod Files
mod Tests
use marisa.Prelude.{
  ℤ, pos, negsuc, ℕ, zero, suc, ◌+◌, ◌-◌, ◌*◌, ◌/◌, ◌%◌, ◌^◌, ◌≤◌, ◌<◌, ◌≡◌, ◌≢◌, ◌↔◌, ◌⊎◌, inl,
  inr, refl, sym, ap, ◌∙◌, Bool, true, false, not, ◌&&◌, ◌||◌, Option, none, some, List, [], ◌∷◌,
  ◌++◌, map, append-nil, append_assoc, Bytes, codes, IsByte, bytes_eq, bytes_eq_iff, bytes_eq_refl,
  to_upper, to_lower, ltb, leb, ◌==◌, ==_iff, ==_refl, if◌then◌else◌, Bool-cases, Option-cases,
  get_or, get_elem?, take, drop, replicate, length, length-append, length-drop, nil_of_length, all,
  All, All-append, All-imp, passes_below, passes_at, Result, ok, raise, fault, Exception,
  invalid_argument, logic_error, system_error, ◌>>=◌, and_then, ◌>>◌, at, bind_ok, print_number,
  read_number, read_number-print_number, length-print_number, digit_char, digit_value, find,
  find-all, insert, assign, insert_all, find-insert, find-assign, find-insert_all, or_else, arith,
}
use marisa.Buffer.{
  Buffer, Holder, string, vector, string_view, empty_buffer, get, size, assign_data, move_assign,
}
use marisa.Generator.{generate_headers}
use marisa.MMap.{File, map_file}

-- A call of the session's write functions, with the bytes of the buffer.
pub data Call : Type 0 where
  write_async inline_async_write write_blocking : Bytes → Call

pub record Response : Type 0 where
  pub headers : List (Bytes × Bytes)
  pub status : ℕ
  pub type : Bytes
  pub headers_sent : Bool
  pub buf_write : Buffer
  pub has_yield_context : Bool
  pub calls : List Call

abbrev pub chunk_end : Bytes
chunk_end = codes "\r\n"

abbrev pub chunk_all_end : Bytes
chunk_all_end = codes "0\r\n\r\n"

-- snprintf writes at most 14 characters and the NUL.
unfoldable pub chunk_header : ℕ → Bytes
chunk_header size = take 14 (print_number 16 size ++ codes "\r\n")

abbrev pub call : Call → Response → Response
call c r = record r { calls = r.calls ++ c ∷ [] }

-- `inline_async_write`, or `write_async` in a coroutine.
abbrev pub push : Bytes → Response → Response
push s r = if r.has_yield_context then call (write_async s) r else call (inline_async_write s) r

-- A write of the data itself, which may block outside of a coroutine.
abbrev pub push_data : (blocking : Bool) → Bytes → Response → Response
push_data blocking s r =
    if not r.has_yield_context && blocking then call (write_blocking s) r else push s r

-- `headers["Transfer-Encoding"]`, with `chunked` as the last coding.
unfoldable pub add_chunked : List (Bytes × Bytes) → List (Bytes × Bytes)
add_chunked headers = elim (find (codes "Transfer-Encoding") headers) [
  | none ↦ assign (codes "Transfer-Encoding") (codes "chunked") headers
  | some coding ↦
      assign (codes "Transfer-Encoding")
        (if bytes_eq coding [] then codes "chunked" else coding ++ codes ",chunked") headers
]

-- `std::move(buf_write)` as an argument: the buffer left, and the bytes of the one made.
unfoldable pub take_buffer : Response → Result (Response × Bytes)
take_buffer r =
    let moved = move_assign r.buf_write empty_buffer in
    get moved.1 >>= λ s. ok (record r { buf_write = moved.0 }, s)

unfoldable pub do_write : (blocking : Bool) → Response → Result Response
do_write blocking r = do
  n ← size r.buf_write
  taken ← take_buffer r
  ok (push chunk_end (push_data blocking taken.1 (push (chunk_header n) taken.0)))

unfoldable pub do_raw_write : (blocking : Bool) → Response → Result Response
do_raw_write blocking r = take_buffer r >>= λ taken. ok (push_data blocking taken.1 taken.0)

unfoldable pub raw_write : Holder → Bytes → (blocking : Bool) → Response → Result Response
raw_write h s blocking r =
    do_raw_write blocking (record r { buf_write = assign_data h s r.buf_write })

unfoldable pub end : Response → Response
end r = push chunk_all_end r

-- The loop over a mapped file; each round takes the next piece.
unfoldable pub send_pieces : (fuel buffer_size : ℕ) → Bytes → Response → Option (Result Response)
send_pieces fuel buffer_size [] r = some (ok r)
send_pieces zero buffer_size (c ∷ left) r = none
send_pieces (suc fuel) buffer_size (c ∷ left) r =
    let all_left = c ∷ left in
    let size_left = length all_left in
    let size_write = if ltb buffer_size size_left then buffer_size else size_left in
    elim (raw_write string (take size_write all_left) true r) [
      | ok q ↦ send_pieces fuel buffer_size (drop size_write all_left) q
      | raise e ↦ some (raise e)
      | fault ↦ some fault
    ]

module _ (timeout max : ℤ) where
  -- `flags & 0x1` is `chunked`.
  unfoldable pub send_headers : (chunked : Bool) → Response → Result Response
  send_headers chunked r =
      let coded = if chunked then add_chunked r.headers else r.headers in
      let headers = assign (codes "Content-Type") r.type coded in
      let head = generate_headers timeout max r.status headers in
      if r.headers_sent
      then ok r
      else (head >>= λ s.
          ok (push s (record r { headers = headers; type = []; headers_sent = true })))

  unfoldable pub write : Holder → Bytes → (blocking : Bool) → Response → Result Response
  write h s blocking r = send_headers true r >>= λ q.
      do_write blocking (record q { buf_write = assign_data h s q.buf_write })

  unfoldable pub send : Holder → Bytes → (blocking : Bool) → Response → Result Response
  send h s blocking r =
      send_headers false (record r {
        headers = assign (codes "Content-Length") (print_number 10 (length s)) r.headers;
      })
      >>= raw_write h s blocking

  unfoldable pub send_file :
      (fuel buffer_size : ℕ) (file : File) → Response → Option (Result Response)
  send_file fuel buffer_size file r = and_then (map_file file) (λ mapped.
      let lengthy = assign (codes "Content-Length") (print_number 10 (length mapped)) r.headers in
      let headers = assign (codes "Content-Encoding") (codes "identity") lengthy in
      and_then (send_headers false (record r { headers = headers }))
        (λ q. send_pieces fuel buffer_size mapped q))
