-- ===== src/Compression.antt =====
-- Source/App/Middlewares/Compression.cpp: the response that compresses what is written to it. zlib is
-- an argument, as in Deflate. `zlib_strm` is none where zlib_ctx_present is false; `fed` tells that
-- avail_in was set, which is zero then between the calls: the constructor leaves it undefined.
pub mod Once
pub mod Streams
pub mod Bodies
pub mod Codings
mod Tests
use marisa.Prelude.{
  ℤ, pos, negsuc, ℕ, zero, suc, ◌+◌, ◌-◌, ◌*◌, ◌/◌, ◌%◌, ◌^◌, ◌≤◌, ◌<◌, ◌≡◌, ◌≢◌, ◌↔◌, ◌⊎◌, inl,
  inr, refl, sym, ap, ◌∙◌, Bool, true, false, not, ◌&&◌, ◌||◌, Option, none, some, List, [], ◌∷◌,
  ◌++◌, map, append-nil, append_assoc, Bytes, codes, IsByte, bytes_eq, bytes_eq_iff, bytes_eq_refl,
  to_upper, to_lower, ltb, leb, ◌==◌, ==_iff, ==_refl, if◌then◌else◌, Bool-cases, Option-cases,
  get_or, get_elem?, take, drop, replicate, length, length-append, length-drop, take-all,
  take-append, drop-append, append-take-drop, length-take, digits-print_number, find_text,
  starts_with, find_text-append, nil_of_length, all, All, All-append, All-imp, passes_below,
  passes_at, Result, ok, raise, fault, Exception, invalid_argument, logic_error, system_error,
  ◌>>=◌, ◌>>◌, at, bind_ok, and_then, and_go_on, assert, length-take_below, length-replicate,
  length-positive, Always, Always-bind, Always-ok, Always-any, print_number, read_number,
  read_number-print_number, length-print_number, digit_char, digit_value, find, find-all, insert,
  assign, insert_all, find-insert, find-assign, find-insert_all, or_else, arith,
}
use marisa.Buffer.{Holder, string, vector, string_view}
use marisa.Deflate.{
  Code, z_ok, z_stream_end, z_error, Zlib, resize, Out, feed_loop, finish_loop, is_ok, uint,
  read_in,
}
use marisa.Response.{Response, write, send, end as end_response}
use marisa.Coding.{
  Settings, Coding, gzip_coding, deflate_coding, name_of, window_bits, has_byte, choose_coding,
  level_of, strategy_of,
}

module _ (z : Zlib) where
  pub record Overrider : Type 0 where
    pub response : Response
    pub zlib_strm : Option (Out z)
    pub fed : Bool

  -- decide_encoding, behind the constructor's part: the buffer is given its size.
  unfoldable pub decide_encoding :
      Settings
      → (buf_size : ℕ) (headers_lowercase : List (Bytes × Bytes)) → Response
      → Result Overrider
  decide_encoding f buf_size headers_lowercase r =
      let plain : Overrider = record { response = r; zlib_strm = none; fed = false } in
      elim (find (codes "accept-encoding") headers_lowercase) [
        | none ↦ ok plain
        | some s ↦ elim (choose_coding f s) [
          | none ↦ ok plain
          | some coding ↦
              let begun = z.deflate_init2 (level_of f) (window_bits coding) (strategy_of f) in
              if is_ok begun.0
              then ok (record {
                response = record r {
                  headers = assign (codes "Content-Encoding") (name_of coding) r.headers;
                };
                zlib_strm = some (record {
                  strm = begun.1;
                  buf = replicate buf_size 0;
                  next_out = 0;
                  avail_out = uint buf_size;
                });
                fed = false;
              })
              else raise system_error
        ]
      ]

  module _ (timeout max : ℤ) (buf_size : ℕ) where
    -- compress_once: where the room is used up, the buffer grows.
    unfoldable pub grow : Unit {0} → Out z → Result (Unit {0} × Out z)
    grow sink o =
        let oldsize = length o.buf in
        ok (
          tt,
          record o {
            buf = resize (oldsize + buf_size) o.buf;
            avail_out = uint buf_size;
            next_out = oldsize;
          },
        )

    -- The compressed data: the buffer is cut to what was written.
    unfoldable pub compress_once : (fuel : ℕ) → Bytes → Out z → Option (Result Bytes)
    compress_once fuel text o =
        and_go_on
          (feed_loop z grow fuel (read_in text) tt
            (record o { next_out = 0; avail_out = uint buf_size }))
          (λ p.
            and_go_on (finish_loop z grow fuel tt p.1)
              (λ q. some (ok (resize (length q.1.buf - q.1.avail_out) q.1.buf))))

    -- send of a string or a vector; the stream is ended.
    unfoldable pub send_compressed :
        (fuel : ℕ) → Holder → Bytes → (blocking : Bool) → Overrider → Option (Result Overrider)
    send_compressed fuel h s blocking c = elim c.zlib_strm [
      | none ↦
          some (send timeout max h s blocking c.response >>= λ r. ok (record c { response = r }))
      | some o ↦ and_go_on (compress_once fuel s o) (λ t. some (
          send timeout max vector t blocking c.response >>= λ r.
          ok (record c { response = r; zlib_strm = none })))
    ]

    -- send of a pointer: without a stream, `blocking` is taken for the length.
    unfoldable pub send_pointer :
        (fuel : ℕ) → Bytes → (blocking : Bool) → Overrider → Option (Result Overrider)
    send_pointer fuel s blocking c = elim c.zlib_strm [
      | none ↦ some (
          (if ltb (length s) (if blocking then 1 else 0)
            then fault
            else send timeout max string_view (take (if blocking then 1 else 0) s) false c.response)
          >>= λ r. ok (record c { response = r }))
      | some o ↦ send_compressed fuel string_view s blocking c
    ]

    -- compress_stream and end: where the room is used up, the buffer is written as a chunk.
    unfoldable pub write_out : Response → Out z → Result (Response × Out z)
    write_out r o = write timeout max vector o.buf false r >>= λ q.
        ok (q, record o { buf = resize buf_size []; next_out = 0; avail_out = uint buf_size })

    -- What is left in the buffer at the end of a call.
    unfoldable pub write_rest : (blocking : Bool) → Response → Out z → Result (Response × Out z)
    write_rest blocking r o =
        let processed_size = buf_size - o.avail_out in
        if processed_size == 0
        then ok (r, o)
        else (write timeout max vector (resize processed_size o.buf) blocking r >>= λ q.
            ok (q, record o { buf = resize buf_size [] }))

    unfoldable pub compress_stream :
        (fuel : ℕ)
        → Bytes
        → (blocking : Bool) → Response
        → Out z
        → Option (Result (Response × Out z))
    compress_stream fuel text blocking r o =
        and_go_on
          (feed_loop z write_out fuel (read_in text) r
            (record o { next_out = 0; avail_out = uint buf_size }))
          (λ p. some (write_rest blocking p.0 p.1))

    -- write of a string or a vector.
    unfoldable pub write_compressed :
        (fuel : ℕ) → Holder → Bytes → (blocking : Bool) → Overrider → Option (Result Overrider)
    write_compressed fuel h s blocking c = elim c.zlib_strm [
      | none ↦
          some (write timeout max h s blocking c.response >>= λ r. ok (record c { response = r }))
      | some o ↦
          and_go_on (compress_stream fuel s blocking c.response o)
            (λ p. some (ok (record c { response = p.0; zlib_strm = some p.1; fed = true })))
    ]

    -- write of a pointer.
    unfoldable pub write_pointer :
        (fuel : ℕ) → Bytes → (blocking : Bool) → Overrider → Option (Result Overrider)
    write_pointer fuel s blocking c = elim c.zlib_strm [
      | none ↦ some (
          (if ltb (length s) (if blocking then 1 else 0)
            then fault
            else write timeout max string_view (take (if blocking then 1 else 0) s) false
                c.response)
          >>= λ r. ok (record c { response = r }))
      | some o ↦ write_compressed fuel string_view s blocking c
    ]

    -- end reads avail_in, which is undefined if nothing was written.
    unfoldable pub end_compressed : (fuel : ℕ) → Overrider → Option (Result Overrider)
    end_compressed fuel c = elim c.zlib_strm [
      | none ↦ some (ok (record c { response = end_response c.response }))
      | some o ↦ and_then (assert c.fed) (λ t.
          and_go_on
            (finish_loop z write_out fuel c.response
              (record o { next_out = 0; avail_out = uint buf_size }))
            (λ p.
              and_then (write_rest false p.0 p.1)
                (λ q. some (ok (record c { response = end_response q.0; zlib_strm = none })))))
    ]

  -- compress_memory: the room is the temporary buffer, which is put behind the vector. `bufsize` is
  -- 128 * 1024 in the code.
  unfoldable pub take_out : (bufsize : ℕ) → Bytes → Out z → Result (Bytes × Out z)
  take_out bufsize buffer o =
      ok (buffer ++ take bufsize o.buf, record o { next_out = 0; avail_out = uint bufsize })

  -- The result of deflateInit is not looked at.
  unfoldable pub compress_memory :
      (fuel bufsize : ℕ) (in_data temp_buffer : Bytes) → Option (Result Bytes)
  compress_memory fuel bufsize in_data temp_buffer =
      let o : Out z = record {
        strm = (z.deflate_init2 (pos 9) 15 0).1;
        buf = temp_buffer;
        next_out = 0;
        avail_out = uint bufsize;
      } in
      and_go_on (feed_loop z (take_out bufsize) fuel (read_in in_data) [] o) (λ p.
        and_go_on (finish_loop z (take_out bufsize) fuel p.0 p.1)
          (λ q. some (ok (q.0 ++ take (bufsize - q.1.avail_out) q.1.buf))))
