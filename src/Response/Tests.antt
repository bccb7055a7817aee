-- ===== src/Response/Tests.antt =====
-- Runs of the response.
use marisa.Prelude.{
  pos, ◌≡◌, ◌≢◌, ◌⊎◌, inl, raise, system_error, refl, true, false, some, List, [], ◌∷◌, ◌++◌, Bytes,
  codes, ok, print_number, read_number, find, arith,
}
use marisa.MMap.{has_bytes, map_file}
use marisa.Buffer.{string, vector, empty_buffer}
use marisa.Response.{Response, chunk_header, send, send_file, end}
use marisa.Response.Wire.{wire, head_of, header_map, begun}
use marisa.Response.Chunks.{decode_chunks, Write}
use marisa.Response.Bodies.{write_all, write_all-chunked}
use marisa.Response.Files.{
  Pieces, with_length, file_response, send-content_length, send_file-Pieces,
}

abbrev fresh : Response
fresh = record {
  headers = [];
  status = 200;
  type = codes "text/plain";
  headers_sent = false;
  buf_write = empty_buffer;
  has_yield_context = false;
  calls = [];
}

abbrev two_writes : List Write
two_writes = (vector, codes "defghijklmnopqr", true) ∷ []

header_17 : chunk_header 17 ≡ codes "11\r\n"
unfolding chunk_header print_number
header_17 = refl

-- Empty data makes the chunk that ends the body.
empty_chunk : chunk_header 0 ++ codes "\r\n" ≡ codes "0\r\n\r\n"
unfolding chunk_header print_number
empty_chunk = refl

write_all-chunked_example :
    (q : Response) × (body : Bytes) × (write_all
        (pos 0)
        (pos 0)
        ((string, codes "abc", false) ∷ two_writes)
        fresh
      ≡ ok q)
    × (wire (end q).calls ≡ head_of (pos 0) (pos 0) true fresh ++ body)
    × (decode_chunks 3 body ≡ some (codes "abcdefghijklmnopqr"))
write_all-chunked_example =
    write_all-chunked (pos 0) (pos 0) (string, codes "abc", false) two_writes fresh (inl refl)
      (omega arith) refl (((λ e. cc), omega arith), (((λ e. cc), omega arith), tt))

send-content_length_example :
    (q : Response) × (send (pos 0) (pos 0) string (codes "hello") true fresh ≡ ok q)
    × (wire q.calls ≡ head_of (pos 0) (pos 0) false (with_length 5 fresh) ++ codes "hello")
    × (q.headers ≡ header_map false (with_length 5 fresh))
    × ((value : Bytes) × (find (codes "Content-Length") q.headers ≡ some value)
        × (read_number 10 0 value ≡ 5))
send-content_length_example =
    send-content_length (pos 0) (pos 0) (inl refl) (omega arith) string (codes "hello") true fresh
      refl

send_file-Pieces_example :
    ((codes "hello" ≡ [])
      × (send_file (pos 0) (pos 0) 5 2 (has_bytes true (codes "hello")) fresh
          ≡ some (raise system_error)))
    ⊎ ((codes "hello" ≢ [])
        × ((q : Response) × (send_file (pos 0) (pos 0) 5 2 (has_bytes true (codes "hello")) fresh
              ≡ some (ok q))
            × Pieces 2 (codes "hello") (begun (pos 0) (pos 0) false (file_response 5 fresh)) q))
send_file-Pieces_example =
    send_file-Pieces (pos 0) (pos 0) (inl refl) (omega arith) 5 2 (has_bytes true (codes "hello"))
      fresh refl (omega arith) (omega arith)

-- An empty file is an error.
empty_file : send_file (pos 0) (pos 0) 5 2 (has_bytes true []) fresh ≡ some (raise system_error)
unfolding send_file map_file
empty_file = refl
