-- ===== src/Generator/Head.antt =====
-- The bytes of a response head, whatever the buffer held.
use marisa.Prelude.{
  ℤ, ℕ, ◌+◌, ◌≤◌, ◌<◌, ◌≡◌, inl, inr, ◌⊎◌, refl, sym, ap, ◌∙◌, Bool, true, false, Option, none,
  some, List, [], ◌∷◌, ◌++◌, append-nil, append_assoc, Bytes, codes, leb, if◌then◌else◌, Bool-cases,
  drop, replicate, length, length-append, length-drop, all, Result, ok, ◌>>=◌, bind_ok,
  print_number, length-print_number, arith,
}
use mathlib.Core.Path.{ap₂}
use marisa.Generator.{
  http1_status_map, find_status, hdr_part6, is_positive, as_unsigned, resize, Output, put,
  put_printed, grow, put_header, put_headers, put_status, put_keepalive, generate_headers,
}
use marisa.Generator.Written.{
  length-resize, written, put-written, grow-written, put_printed-written, put_last, put_then,
}

-- A header as it stands in the head.
abbrev pub header_line : Bytes × Bytes → Bytes
header_line (field, value) = field ++ (codes ": " ++ (value ++ codes "\r\n"))

abbrev pub header_lines : List (Bytes × Bytes) → Bytes
header_lines [] = []
header_lines (h ∷ hs) = header_line h ++ header_lines hs

put_header-written :
    (out junk : Bytes) (h : Bytes × Bytes)
    → put_header h (written out junk) ≡ ok (written (out ++ header_line h) [])
unfolding put_header
put_header-written out junk (field, value) =
    let size = length field + length value + 4 in
    let line_end : Output → Result Output = put (codes "\r\n") in
    let after_colon : Output → Result Output = λ o. put value o >>= line_end in
    let after_field : Output → Result Output = λ o. put (codes ": ") o >>= after_colon in
    let last = length-append value (codes "\r\n") in
    ap (λ o. put field o >>= after_field) (grow-written size out junk)
    ∙ put_then field (codes ": " ++ (value ++ codes "\r\n")) out (resize size junk) after_field
        (omega (arith, last, length-resize size junk))
        (λ o j e.
          put_then (codes ": ") (value ++ codes "\r\n") o j after_colon (omega (arith, e)) (λ o j e.
            put_then value (codes "\r\n") o j line_end (omega (arith, last, e))
              (put_last (codes "\r\n"))))

-- What the loop leaves of the vector's end: nothing, once it has run.
left_of : List (Bytes × Bytes) → Bytes → Bytes
left_of [] junk = junk
left_of (h ∷ hs) junk = []

left_of-nil : (hs : List (Bytes × Bytes)) → left_of hs [] ≡ []
unfolding left_of
left_of-nil [] = refl
left_of-nil (h ∷ hs) = refl

put_headers-written :
    (hs : List (Bytes × Bytes)) (out junk : Bytes)
    → put_headers hs (written out junk) ≡ ok (written (out ++ header_lines hs) (left_of hs junk))
unfolding put_headers left_of
put_headers-written [] out junk = ap (λ r. ok (written r junk)) (sym (append-nil out))
put_headers-written (h ∷ hs) out junk =
    bind_ok (put_headers hs) (put_header-written out junk h)
    ∙ put_headers-written hs (out ++ header_line h) []
    ∙ ap₂ (λ r j. ok (written r j)) (append_assoc out (header_line h) (header_lines hs))
        (left_of-nil hs)

-- The lines that tell how long the connection is kept.
abbrev pub keepalive_lines : (timeout max : ℤ) → Bytes
keepalive_lines timeout max =
    if is_positive timeout
    then codes "Connection: Keep-Alive\r\nKeep-Alive: timeout="
      ++ (print_number 10 (as_unsigned timeout)
          ++ (codes ", max=" ++ (print_number 10 (as_unsigned max) ++ codes "\r\n")))
    else []

abbrev keepalive_numbers : (timeout max : ℕ) → Bytes
keepalive_numbers timeout max =
    print_number 10 timeout ++ (codes ", max=" ++ (print_number 10 max ++ codes "\r\n"))

length-keepalive_numbers :
    (timeout max : ℕ) → timeout < 65536 → max < 65536 → length (keepalive_numbers timeout max) ≤ 18
length-keepalive_numbers timeout max t m =
    let line = print_number 10 max ++ codes "\r\n" in
    omega (
      arith,
      length-append (print_number 10 timeout) (codes ", max=" ++ line),
      length-append (codes ", max=") line,
      length-append (print_number 10 max) (codes "\r\n"),
      length-print_number 10 (omega arith) (omega arith) timeout 4 (omega arith),
      length-print_number 10 (omega arith) (omega arith) max 4 (omega arith),
    )

-- A timeout that is not sent, such as -1, or one of 16 bits.
abbrev pub IsTimeout : ℤ → Type 0
IsTimeout timeout = (is_positive timeout ≡ false) ⊎ (as_unsigned timeout < 65536)

put_keepalive-written :
    (timeout max : ℤ) (out junk : Bytes)
    → IsTimeout timeout
    → as_unsigned max < 65536
    → (rest : Bytes) × put_keepalive timeout max (written out junk)
        ≡ ok (written (out ++ keepalive_lines timeout max) rest)
unfolding put_keepalive
put_keepalive-written timeout max out junk t m = elim (Bool-cases (is_positive timeout)) [
  | inl e ↦
      let small : as_unsigned timeout < 65536 = elim t [
        | inl unsent ↦ absurd (cc)
        | inr few ↦ few
      ] in
      let numbers = keepalive_numbers (as_unsigned timeout) (as_unsigned max) in
      let room = drop 44 (resize 64 junk) in
      let (rest, printed) = put_printed-written (out ++ hdr_part6) room numbers (
        omega (
          arith,
          length-keepalive_numbers (as_unsigned timeout) (as_unsigned max) small m,
          length-drop 44 (resize 64 junk),
          length-resize 64 junk,
        )) in
      (
        rest,
        rw e (
            ap (λ o. put hdr_part6 o >>= put_printed numbers) (grow-written 64 out junk)
            ∙ bind_ok (put_printed numbers)
                (put-written out (resize 64 junk) hdr_part6 (omega (arith, length-resize 64 junk)))
            ∙ printed
            ∙ ap (λ r. ok (written r rest)) (append_assoc out hdr_part6 numbers)),
      )
  | inr e ↦ (junk, rw e (ap (λ r. ok (written r junk)) (sym (append-nil out))))
]

abbrev line_of : Option Bytes → Bytes
line_of none = []
line_of (some line) = line

-- The status line of a code, if the table has one.
abbrev pub status_line : ℕ → Bytes
status_line status = line_of (find_status status http1_status_map)

fits_line : ℕ × Bytes → Bool
fits_line (code, line) = leb (length line) 50

find_status-fits :
    (code : ℕ) (m : List (ℕ × Bytes)) (line : Bytes)
    → all fits_line m ≡ true
    → find_status code m ≡ some line
    → length line ≤ 50
unfolding find_status fits_line
find_status-fits code [] line h e = cc
find_status-fits code ((c, l) ∷ m) line h e = ground (arith, find_status-fits code m line)

put_found :
    (found : Option Bytes)
    → ((line : Bytes) → found ≡ some line → length line ≤ 50)
    → (rest : Bytes) × (elim found [
      | none ↦ ok (written [] (replicate 50 0))
      | some line ↦ put line (written [] (replicate 50 0))
    ])
        ≡ ok (written (line_of found) rest)
put_found none fits = (replicate 50 0, refl)
put_found (some line) fits =
    (drop (length line) (replicate 50 0), put-written [] (replicate 50 0) line (fits line refl))

put_status-written :
    (status : ℕ)
    → (rest : Bytes) × put_status status (written [] (replicate 50 0))
        ≡ ok (written (status_line status) rest)
unfolding put_status
put_status-written status =
    put_found (find_status status http1_status_map)
      (λ line e. find_status-fits status http1_status_map line (unfold fits_line in refl) e)

-- With a timeout that is not positive, as -1, or below 65536, and a maximum below 65536, the head is
-- the status line, a line for each header in the order of the map, the keep-alive lines and an empty
-- line, and no byte is written out of bounds.
pub generate_headers-head :
    (timeout max : ℤ) (status : ℕ) (headers : List (Bytes × Bytes))
    → IsTimeout timeout
    → as_unsigned max < 65536
    → generate_headers timeout max status headers
      ≡ ok (
          status_line status
          ++ (header_lines headers ++ (keepalive_lines timeout max ++ codes "\r\n")))
unfolding generate_headers
generate_headers-head timeout max status headers t m =
    let line = status_line status in
    let (rest, begun) = put_status-written status in
    let out = line ++ header_lines headers in
    let (room, kept) = put_keepalive-written timeout max out (left_of headers rest) t m in
    let full = out ++ keepalive_lines timeout max in
    let finish : Output → Result Bytes =
      λ o. put (codes "\r\n") (grow 2 o) >>= λ ended. ok ended.ret in
    let keep : Output → Result Bytes = λ o. put_keepalive timeout max o >>= finish in
    let ended : finish (written full room) ≡ ok (full ++ codes "\r\n") =
      ap (λ o. put (codes "\r\n") o >>= λ ended. ok ended.ret) (grow-written 2 full room)
      ∙ bind_ok (λ ended. ok ended.ret)
          (put_last (codes "\r\n") full (resize 2 room) (length-resize 2 room))
      ∙ ap ok (append-nil (full ++ codes "\r\n")) in
    bind_ok (λ o. put_headers headers o >>= keep) begun
    ∙ bind_ok keep (put_headers-written headers line rest)
    ∙ bind_ok finish kept
    ∙ ended
    ∙ ap ok (
        append_assoc out (keepalive_lines timeout max) (codes "\r\n")
        ∙ append_assoc line (header_lines headers) (keepalive_lines timeout max ++ codes "\r\n"))
