-- ===== src/Response/Wire.antt =====
-- The bytes that a response sends, whichever of the session's functions it calls.
use marisa.Prelude.{
  ℤ, ◌<◌, ◌≡◌, inl, inr, refl, sym, ap, ◌∙◌, Bool, true, false, not, ◌&&◌, List, [], ◌∷◌, ◌++◌,
  append-nil, append_assoc, Bytes, codes, if◌then◌else◌, Bool-cases, length, ok, ◌>>=◌, bind_ok,
  assign,
}
use marisa.Buffer.{empty_buffer, Holder, assign_data, move_assign}
use marisa.Buffer.Moves.{get-assign_data, size-assign_data, get-move_assign}
use marisa.Generator.{as_unsigned}
use marisa.Generator.Head.{
  IsTimeout, status_line, header_lines, keepalive_lines, generate_headers-head,
}
use marisa.Response.{
  Call, write_async, inline_async_write, write_blocking, Response, chunk_end, chunk_header, push,
  push_data, take_buffer, send_headers, do_write, do_raw_write, raw_write, add_chunked,
}

abbrev pub bytes_of : Call → Bytes
bytes_of (write_async s) = s
bytes_of (inline_async_write s) = s
bytes_of (write_blocking s) = s

abbrev pub wire : List Call → Bytes
wire [] = []
wire (c ∷ cs) = bytes_of c ++ wire cs

wire-append : (cs ds : List Call) → wire (cs ++ ds) ≡ wire cs ++ wire ds
wire-append [] ds = refl
wire-append (c ∷ cs) ds =
    ap (λ t. bytes_of c ++ t) (wire-append cs ds)
    ∙ sym (append_assoc (bytes_of c) (wire cs) (wire ds))

wire_one : (cs : List Call) (c : Call) → wire (cs ++ c ∷ []) ≡ wire cs ++ bytes_of c
wire_one cs c = wire-append cs (c ∷ []) ∙ ap (λ t. wire cs ++ t) (append-nil (bytes_of c))

pub wire-push : (s : Bytes) (r : Response) → wire (push s r).calls ≡ wire r.calls ++ s
wire-push s r = elim (Bool-cases r.has_yield_context) [
  | inl e ↦ rw e (wire_one r.calls (write_async s))
  | inr e ↦ rw e (wire_one r.calls (inline_async_write s))
]

pub wire-push_data :
    (blocking : Bool) (s : Bytes) (r : Response)
    → wire (push_data blocking s r).calls ≡ wire r.calls ++ s
wire-push_data blocking s r = elim (Bool-cases (not r.has_yield_context && blocking)) [
  | inl e ↦ rw e (wire_one r.calls (write_blocking s))
  | inr e ↦ rw e (wire-push s r)
]

pub headers_sent-push : (s : Bytes) (r : Response) → (push s r).headers_sent ≡ r.headers_sent
headers_sent-push s r = elim (Bool-cases r.has_yield_context) [
  | inl e ↦ rw e refl
  | inr e ↦ rw e refl
]

pub headers_sent-push_data :
    (blocking : Bool) (s : Bytes) (r : Response)
    → (push_data blocking s r).headers_sent ≡ r.headers_sent
headers_sent-push_data blocking s r = elim (Bool-cases (not r.has_yield_context && blocking)) [
  | inl e ↦ rw e refl
  | inr e ↦ rw e (headers_sent-push s r)
]

pub headers-push : (s : Bytes) (r : Response) → (push s r).headers ≡ r.headers
headers-push s r = elim (Bool-cases r.has_yield_context) [ inl e ↦ rw e refl | inr e ↦ rw e refl ]

pub headers-push_data :
    (blocking : Bool) (s : Bytes) (r : Response) → (push_data blocking s r).headers ≡ r.headers
headers-push_data blocking s r = elim (Bool-cases (not r.has_yield_context && blocking)) [
  | inl e ↦ rw e refl
  | inr e ↦ rw e (headers-push s r)
]

-- The buffer with data in it, and what is left of it once the data is moved out.
abbrev pub loaded : Holder → Bytes → Response → Response
loaded h s r = record r { buf_write = assign_data h s r.buf_write }

abbrev pub unloaded : Holder → Bytes → Response → Response
unloaded h s r = record r { buf_write = (move_assign (assign_data h s r.buf_write) empty_buffer).0 }

take_buffer-loaded :
    (h : Holder) (s : Bytes) (r : Response) → take_buffer (loaded h s r) ≡ ok (unloaded h s r, s)
unfolding take_buffer
take_buffer-loaded h s r =
    bind_ok (λ t. ok (unloaded h s r, t))
      (get-move_assign (assign_data h s r.buf_write) empty_buffer ∙ get-assign_data h s r.buf_write)

pub raw_write_lem :
    (h : Holder) (s : Bytes) (blocking : Bool) (r : Response)
    → raw_write h s blocking r ≡ ok (push_data blocking s (unloaded h s r))
unfolding raw_write do_raw_write
raw_write_lem h s blocking r =
    bind_ok (λ taken. ok (push_data blocking taken.1 taken.0)) (take_buffer-loaded h s r)

pub do_write_lem :
    (h : Holder) (s : Bytes) (blocking : Bool) (r : Response)
    → do_write blocking (loaded h s r)
      ≡ ok (push chunk_end (push_data blocking s (push (chunk_header (length s)) (unloaded h s r))))
unfolding do_write
do_write_lem h s blocking r =
    bind_ok
      (λ n. take_buffer (loaded h s r) >>= λ taken.
        ok (push chunk_end (push_data blocking taken.1 (push (chunk_header n) taken.0))))
      (size-assign_data h s r.buf_write)
    ∙ bind_ok
        (λ taken.
          ok (push chunk_end (push_data blocking taken.1 (push (chunk_header (length s)) taken.0))))
        (take_buffer-loaded h s r)

-- The headers of a response that is sent in chunks, or is not.
abbrev pub header_map : Bool → Response → List (Bytes × Bytes)
header_map chunked r =
    assign (codes "Content-Type") r.type (if chunked then add_chunked r.headers else r.headers)

module _ (timeout max : ℤ) where
  abbrev pub head_of : Bool → Response → Bytes
  head_of chunked r =
      status_line r.status
      ++ (header_lines (header_map chunked r) ++ (keepalive_lines timeout max ++ codes "\r\n"))

  abbrev pub begun : Bool → Response → Response
  begun chunked r =
      push (head_of chunked r)
        (record r { headers = header_map chunked r; type = []; headers_sent = true })

  pub send_headers_sent :
      (chunked : Bool) (r : Response)
      → r.headers_sent ≡ true
      → send_headers timeout max chunked r ≡ ok r
  unfolding send_headers
  send_headers_sent chunked r e = rw e refl

  pub wire-begun :
      (chunked : Bool) (r : Response)
      → wire (begun chunked r).calls ≡ wire r.calls ++ head_of chunked r
  wire-begun chunked r =
      wire-push (head_of chunked r)
        (record r { headers = header_map chunked r; type = []; headers_sent = true })

  module _ (small_timeout : IsTimeout timeout) (small_max : as_unsigned max < 65536) where
    pub send_headers_lem :
        (chunked : Bool) (r : Response)
        → r.headers_sent ≡ false
        → send_headers timeout max chunked r ≡ ok (begun chunked r)
    unfolding send_headers
    send_headers_lem chunked r e = rw e (
        bind_ok
          (λ s.
            ok (
              push s (record r { headers = header_map chunked r; type = []; headers_sent = true })))
          (generate_headers-head timeout max r.status (header_map chunked r) small_timeout
            small_max))
