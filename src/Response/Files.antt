-- ===== src/Response/Files.antt =====
-- What send and send_file put on the wire.
use marisa.Prelude.{
  ℤ, ℕ, zero, suc, ◌≤◌, ◌<◌, ◌≡◌, inl, inr, ◌≢◌, ◌⊎◌, Exception, raise, system_error, refl, sym, ap,
  ◌∙◌, Bool, true, false, none, some, List, [], ◌∷◌, ◌++◌, map, append-nil, append_assoc, Bytes,
  codes, bytes_eq, ltb, if◌then◌else◌, Bool-cases, take, drop, length, length-drop,
  append-take-drop, length-take, All, ok, bind_ok, print_number, read_number,
  read_number-print_number, find, assign, find-assign, arith,
}
use mathlib.Core.Path.{ap₂}
use marisa.Buffer.{Holder, string}
use marisa.MMap.{File, cannot_open, no_size, has_bytes, map_file}
use marisa.Generator.{as_unsigned}
use marisa.Generator.Head.{IsTimeout}
use marisa.Response.{
  Call, write_async, write_blocking, Response, push_data, raw_write, send, send_file, send_pieces,
}
use marisa.Response.Wire.{
  wire-begun, wire, wire-push_data, headers-push, headers-push_data, raw_write_lem, unloaded,
  head_of, header_map, begun, send_headers_lem,
}

-- The response with a length among its headers.
abbrev pub with_length : ℕ → Response → Response
with_length n r = record r {
  headers = assign (codes "Content-Length") (print_number 10 n) r.headers;
}

find_length :
    (n : ℕ) (r : Response)
    → find (codes "Content-Length") (header_map false (with_length n r)) ≡ some (print_number 10 n)
find_length n r =
    find-assign (codes "Content-Type") (codes "Content-Length") r.type (with_length n r).headers
    ∙ (unfold bytes_eq in
        find-assign (codes "Content-Length") (codes "Content-Length") (print_number 10 n) r.headers)

module _ (timeout max : ℤ) (small_timeout : IsTimeout timeout)
    (small_max : as_unsigned max < 65536) where
  -- With small keep-alive values, `send` on a response whose headers are not sent puts one head and
  -- the data on the wire; the head's headers have a Content-Length that reads as the data's length.
  pub send-content_length :
      (h : Holder) (s : Bytes) (blocking : Bool) (r : Response)
      → r.headers_sent ≡ false
      → (q : Response) × (send timeout max h s blocking r ≡ ok q)
        × (wire q.calls
            ≡ wire r.calls ++ (head_of timeout max false (with_length (length s) r) ++ s))
        × (q.headers ≡ header_map false (with_length (length s) r))
        × ((value : Bytes) × (find (codes "Content-Length") q.headers ≡ some value)
            × (read_number 10 0 value ≡ length s))
  unfolding send
  send-content_length h s blocking r e =
      let lengthy = with_length (length s) r in
      let b = begun timeout max false lengthy in
      let head = head_of timeout max false lengthy in
      let held : (push_data blocking s (unloaded h s b)).headers ≡ header_map false lengthy =
        headers-push_data blocking s (unloaded h s b) ∙ headers-push head _ in
      (
        push_data blocking s (unloaded h s b),
        bind_ok (raw_write h s blocking)
              (send_headers_lem timeout max small_timeout small_max false lengthy e)
            ∙ raw_write_lem h s blocking b,
        wire-push_data blocking s (unloaded h s b)
            ∙ ap (λ t. t ++ s) (wire-begun timeout max false lengthy)
            ∙ append_assoc (wire r.calls) head s,
        held,
        (
          print_number 10 (length s),
          ap (find (codes "Content-Length")) held ∙ find_length (length s) r,
          read_number-print_number 10 (omega arith) (omega arith) (length s),
        ),
      )

abbrev pub join : List Bytes → Bytes
join [] = []
join (p ∷ ps) = p ++ join ps

-- The call for a piece of a file: it waits for the piece to be written.
abbrev pub piece_call : Bool → Bytes → Call
piece_call has_yield_context s = if has_yield_context then write_async s else write_blocking s

calls-push_data :
    (s : Bytes) (r : Response)
    → (push_data true s r).calls ≡ r.calls ++ piece_call r.has_yield_context s ∷ []
calls-push_data s r = elim (Bool-cases r.has_yield_context) [
  | inl e ↦ rw e refl
  | inr e ↦ rw e refl
]

yield-push_data :
    (s : Bytes) (r : Response) → (push_data true s r).has_yield_context ≡ r.has_yield_context
yield-push_data s r = elim (Bool-cases r.has_yield_context) [
  | inl e ↦ rw e refl
  | inr e ↦ rw e refl
]

-- The calls of `q` are those of `r` and one for each piece; the pieces are no longer than the buffer
-- and make up the file.
abbrev pub Pieces : (buffer_size : ℕ) (file : Bytes) (r q : Response) → Type 0
Pieces buffer_size file r q =
    (ps : List Bytes) × (q.calls ≡ r.calls ++ map (piece_call r.has_yield_context) ps)
    × (join ps ≡ file)
    × All (λ p. length p ≤ buffer_size) ps

abbrev piece_size : (buffer_size : ℕ) (file : Bytes) → ℕ
piece_size buffer_size file = if ltb buffer_size (length file) then buffer_size else length file

-- The response behind one round of the loop.
abbrev after_piece : (n : ℕ) (file : Bytes) → Response → Response
after_piece n file r = push_data true (take n file) (unloaded string (take n file) r)

send_pieces_step :
    (fuel buffer_size c : ℕ) (left : Bytes) (r : Response)
    → let n = piece_size buffer_size (c ∷ left) in
      send_pieces (suc fuel) buffer_size (c ∷ left) r
      ≡ send_pieces fuel buffer_size (drop n (c ∷ left)) (after_piece n (c ∷ left) r)
unfolding send_pieces
send_pieces_step fuel buffer_size c left r =
    rw
      (
        send_pieces,
        raw_write_lem string (take (piece_size buffer_size (c ∷ left)) (c ∷ left)) true r,
      )
      refl

send_pieces-Pieces :
    (fuel buffer_size : ℕ) (file : Bytes) (r : Response)
    → length file ≤ fuel
    → 0 < buffer_size
    → (q : Response) × (send_pieces fuel buffer_size file r ≡ some (ok q))
      × Pieces buffer_size file r q
send_pieces-Pieces fuel buffer_size [] r h k =
    (r, unfold send_pieces in refl, ([], sym (append-nil r.calls), refl, tt))
send_pieces-Pieces zero buffer_size (c ∷ left) r h k = absurd (omega arith)
send_pieces-Pieces (suc fuel) buffer_size (c ∷ left) r h k =
    let file : Bytes = c ∷ left in
    let n = piece_size buffer_size file in
    let fits : (0 < n) × (n ≤ buffer_size) = ground arith in
    let piece = take n file in
    let (q, done, (ps, called, joined, bounded)) =
      send_pieces-Pieces fuel buffer_size (drop n file) (after_piece n file r)
        (omega (arith, length-drop n file, fits)) k in
    (
      q,
      send_pieces_step fuel buffer_size c left r ∙ done,
      (
        piece ∷ ps,
        called
            ∙ ap₂ (λ cs y. cs ++ map (piece_call y) ps)
                (calls-push_data piece (unloaded string piece r))
                (yield-push_data piece (unloaded string piece r))
            ∙ append_assoc r.calls (piece_call r.has_yield_context piece ∷ [])
                (map (piece_call r.has_yield_context) ps),
        ap (λ t. piece ++ t) joined ∙ append-take-drop n file,
        (omega (arith, length-take n file, fits), bounded),
      ),
    )

-- With a buffer size of zero the loop goes on forever over a file that is not empty.
send_pieces_endless :
    (fuel c : ℕ) (left : Bytes) (r : Response) → send_pieces fuel 0 (c ∷ left) r ≡ none
send_pieces_endless zero c left r = unfold send_pieces in refl
send_pieces_endless (suc fuel) c left r =
    let none_taken : piece_size 0 (c ∷ left) ≡ 0 = ground arith in
    send_pieces_step fuel 0 c left r
    ∙ ap (λ n. send_pieces fuel 0 (drop n (c ∷ left)) (after_piece n (c ∷ left) r)) none_taken
    ∙ send_pieces_endless fuel c left (after_piece 0 (c ∷ left) r)

-- The bytes that can be mapped: none if the file cannot be opened, measured or mapped.
abbrev pub contents : File → Bytes
contents cannot_open = []
contents no_size = []
contents (has_bytes true s) = s
contents (has_bytes false s) = []

-- The response with the headers of a file.
abbrev pub file_response : ℕ → Response → Response
file_response n r = record r {
  headers = assign (codes "Content-Encoding") (codes "identity") (with_length n r).headers;
}

module _ (timeout max : ℤ) (small_timeout : IsTimeout timeout)
    (small_max : as_unsigned max < 65536) where
  send_file_lem :
      (fuel buffer_size : ℕ) (file : File) (mapped : Bytes) (r : Response)
      → map_file file ≡ ok mapped
      → r.headers_sent ≡ false
      → send_file timeout max fuel buffer_size file r
        ≡ send_pieces fuel buffer_size mapped
            (begun timeout max false (file_response (length mapped) r))
  unfolding send_file
  send_file_lem fuel buffer_size file mapped r m e =
      rw
        (
          send_file,
          m,
          send_headers_lem timeout max small_timeout small_max false
              (file_response (length mapped) r) e,
        )
        refl

  send_file_unmapped :
      (fuel buffer_size : ℕ) (file : File) (r : Response) (x : Exception)
      → map_file file ≡ raise x
      → send_file timeout max fuel buffer_size file r ≡ some (raise x)
  unfolding send_file
  send_file_unmapped fuel buffer_size file r x m = rw (send_file, m) refl

  map_file-cases :
      (file : File)
      → ((map_file file ≡ raise system_error) × (contents file ≡ []))
        ⊎ ((map_file file ≡ ok (contents file)) × (contents file ≢ []))
  unfolding map_file
  map_file-cases cannot_open = inl (refl, refl)
  map_file-cases no_size = inl (refl, refl)
  map_file-cases (has_bytes true []) = inl (refl, refl)
  map_file-cases (has_bytes false []) = inl (refl, refl)
  map_file-cases (has_bytes true (c ∷ s)) = inr (refl, λ e. cc)
  map_file-cases (has_bytes false (c ∷ s)) = inl (refl, refl)

  -- With small keep-alive values, a buffer that is not empty, headers that are not sent, and fuel for
  -- each byte, send_file throws exactly if the file cannot be opened, measured or mapped, or is empty;
  -- or it ends, and behind the head it writes pieces that fit the buffer, make up the file, and are
  -- each waited for.
  pub send_file-Pieces :
      (fuel buffer_size : ℕ) (file : File) (r : Response)
      → r.headers_sent ≡ false
      → length (contents file) ≤ fuel
      → 0 < buffer_size
      → ((contents file ≡ [])
          × (send_file timeout max fuel buffer_size file r ≡ some (raise system_error)))
        ⊎ ((contents file ≢ [])
            × ((q : Response) × (send_file timeout max fuel buffer_size file r ≡ some (ok q))
                × Pieces buffer_size
                    (contents file)
                    (begun timeout max false (file_response (length (contents file)) r))
                    q))
  send_file-Pieces fuel buffer_size file r e h k = elim (map_file-cases file) [
    | inl (m, nothing) ↦ inl (nothing, send_file_unmapped fuel buffer_size file r system_error m)
    | inr (m, full) ↦
        let b = begun timeout max false (file_response (length (contents file)) r) in
        let (q, done, pieces) = send_pieces-Pieces fuel buffer_size (contents file) b h k in
        inr (full, (q, send_file_lem fuel buffer_size file (contents file) r m e ∙ done, pieces))
  ]

  -- With small keep-alive values and headers that are not sent, send_file with a buffer size of zero
  -- does not end on a file that is mapped, whatever the fuel.
  send_file_endless :
      (fuel c : ℕ) (left : Bytes) (r : Response)
      → r.headers_sent ≡ false
      → send_file timeout max fuel 0 (has_bytes true (c ∷ left)) r ≡ none
  unfolding map_file
  send_file_endless fuel c left r e =
      send_file_lem fuel 0 (has_bytes true (c ∷ left)) (c ∷ left) r refl e
      ∙ send_pieces_endless fuel c left
          (begun timeout max false (file_response (length (c ∷ left)) r))
