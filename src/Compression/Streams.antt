-- ===== src/Compression/Streams.antt =====
-- The pieces that compress_stream and end write are chunks of one stream.
use marisa.Prelude.{
  ℤ, ℕ, ◌+◌, ◌-◌, ◌^◌, ◌≤◌, ◌<◌, ◌≡◌, inl, inr, refl, sym, ap, ◌∙◌, Bool, false, Option, some, List,
  [], ◌∷◌, ◌++◌, append-nil, append_assoc, Bytes, ◌==◌, Bool-cases, take, replicate, length,
  take-all, All, All-append, ok, bind_ok, length-take_below, length-replicate, arith,
}
use marisa.Buffer.{Holder, vector}
use marisa.Generator.{as_unsigned}
use marisa.Generator.Head.{IsTimeout}
use marisa.Deflate.{uint, read_in-fits, Zlib, Out, resize, finish_loop}
use marisa.Deflate.Manual.{IsZlib}
use marisa.Deflate.Buffers.{resize-cut}
use marisa.Deflate.Emitted.{Emitted, MakesRoom, feed-Emitted, finish_loop-Emitted}
use marisa.Response.{Response, write}
use marisa.Response.Chunks.{Write, data_of, MakesChunk}
use marisa.Response.Bodies.{write_all, write_all-append_one, write_total}
use marisa.Compression.{write_out, write_rest, compress_stream}

data_of-append_one :
    (ws : List Write) (h : Holder) (s : Bytes) (blocking : Bool)
    → data_of (ws ++ (h, s, blocking) ∷ []) ≡ data_of ws ++ s
data_of-append_one [] h s blocking = append-nil s
data_of-append_one ((g, t, wait) ∷ ws) h s blocking =
    ap (λ d. t ++ d) (data_of-append_one ws h s blocking) ∙ sym (append_assoc t (data_of ws) s)

module _ (z : Zlib) (timeout max : ℤ) (small_timeout : IsTimeout timeout)
    (small_max : as_unsigned max < 65536) (buf_size : ℕ) (positive : 0 < buf_size)
    (fits : uint buf_size ≡ buf_size) (small : buf_size < 16 ^ 12) (r0 : Response) where
  -- The response is the one that writes of pieces bring about, which make up `s` and can be chunks;
  -- the buffer has its size.
  abbrev pub Streamed : Response → ℕ → Bytes → Type 0
  Streamed r n s =
      (n ≡ buf_size)
      × ((ws : List Write) × (write_all timeout max ws r0 ≡ ok r)
          × (data_of ws ≡ s)
          × All MakesChunk ws)

  write-Streamed :
      (r : Response) (n k : ℕ) (s t : Bytes) (blocking : Bool)
      → n ≡ buf_size
      → k ≡ buf_size
      → 0 < length t
      → length t ≤ buf_size
      → Streamed r n s
      → (q : Response) × (write timeout max vector t blocking r ≡ ok q) × Streamed q k (s ++ t)
  write-Streamed r n k s t blocking n_size k_size full bounded (sized, (ws, run, same, chunks)) =
      let (q, done) = write_total timeout max vector t blocking r small_timeout small_max in
      (
        q,
        done,
        (
          k_size,
          (
            ws ++ (vector, t, blocking) ∷ [],
            write_all-append_one timeout max ws vector t blocking r0 r q run done,
            data_of-append_one ws vector t blocking ∙ ap (λ d. d ++ t) same,
            All-append MakesChunk ws ((vector, t, blocking) ∷ []) chunks (
              ((λ e. absurd (omega (arith, full, ap length e))), omega (arith, bounded, small)),
              tt,
            ),
          ),
        ),
      )

  length-fresh : length (resize buf_size []) ≡ buf_size
  unfolding resize
  length-fresh =
      ap (λ t. length (t ++ replicate (buf_size - 0) 0)) (take-all buf_size [] (omega arith))
      ∙ omega (arith, length-replicate {A = ℕ} (buf_size - 0) 0)

  write_out-MakesRoom : MakesRoom z Streamed (write_out z timeout max buf_size)
  unfolding write_out
  write_out-MakesRoom r o e none_left ((s, has, same), placed) =
      let sized = has.0 in
      let (q, done, streamed) =
        write-Streamed r (length o.buf) (length (resize buf_size [])) s o.buf false sized
          length-fresh (omega (arith, sized, positive)) (omega (arith, sized)) has in
      let whole : take o.next_out o.buf ≡ o.buf =
        take-all o.next_out o.buf (omega (arith, placed, none_left)) in
      (
        q,
        record o { buf = resize buf_size []; next_out = 0; avail_out = uint buf_size },
        bind_ok
            (λ t.
              ok
                (t, record o { buf = resize buf_size []; next_out = 0; avail_out = uint buf_size }))
            done,
        refl,
        omega (arith, positive, fits),
        (
          (s ++ o.buf, streamed, same ∙ ap (λ t. s ++ t) whole ∙ sym (append-nil (s ++ o.buf))),
          omega (arith, length-fresh, fits),
        ),
      )

  -- Between the calls: the chunks make up what the stream has written.
  abbrev pub Between :
      {inflate : Bytes → Option Bytes} (laws : IsZlib z inflate)
      → Response
      → Out z
      → (c e : Bytes) → Type 0
  Between laws r o c e = Streamed r (length o.buf) e × laws.Coded o.strm c e

  write_rest-Streamed :
      (blocking : Bool) (r : Response) (o : Out z) (e : Bytes)
      → Emitted z Streamed r o e
      → (q : Response) × (p : Out z) × (write_rest z timeout max buf_size blocking r o ≡ ok (q, p))
        × (p.strm ≡ o.strm)
        × Streamed q (length p.buf) e
  unfolding write_rest
  write_rest-Streamed blocking r o e ((s, has, same), placed) =
      let sized = has.0 in
      elim (Bool-cases (buf_size - o.avail_out == 0)) [
        | inl nothing ↦
            let at_start : o.next_out ≡ 0 = ground (arith, sized, placed) in
            let unchanged : e ≡ s = same ∙ ap (λ n. s ++ take n o.buf) at_start ∙ append-nil s in
            (r, o, rw nothing refl, refl, rw unchanged has)
        | inr something ↦
            let processed : buf_size - o.avail_out ≡ o.next_out = omega (arith, sized, placed) in
            let cut : resize (buf_size - o.avail_out) o.buf ≡ take o.next_out o.buf =
              ap (λ n. resize n o.buf) processed
              ∙ resize-cut o.next_out o.buf (omega (arith, placed)) in
            let size = length-take_below o.next_out o.buf (omega (arith, placed)) in
            let (q, done, streamed) =
              write-Streamed r (length o.buf) (length (resize buf_size [])) s
                (take o.next_out o.buf) blocking sized length-fresh
                (ground (arith, size, processed)) (omega (arith, size, placed, sized)) has in
            (
              q,
              record o { buf = resize buf_size [] },
              rw something (rw cut (rw done refl)),
              refl,
              rw same streamed,
            )
      ]

  pub compress_stream-Between :
      {inflate : Bytes → Option Bytes} (laws : IsZlib z inflate) (fuel : ℕ) (text : Bytes)
      (blocking : Bool) (r : Response) (o : Out z) (c e : Bytes) (m : ℕ)
      → length text < 2 ^ 32
      → laws.remaining o.strm (length text + m) < fuel
      → Between laws r o c e
      → (q : Response) × (p : Out z) × (e' : Bytes) × (compress_stream z timeout max buf_size fuel
            text blocking r o
          ≡ some (ok (q, p)))
        × Between laws q p (c ++ text) e'
        × (laws.remaining p.strm m ≤ laws.remaining o.strm (length text + m))
  unfolding compress_stream
  compress_stream-Between laws fuel text blocking r o c e m short enough (has, coded) =
      let start = record o { next_out = 0; avail_out = uint buf_size } in
      let (r1, p1, e1, fed, free, coded1, emitted1, bound) =
        feed-Emitted z laws Streamed (write_out z timeout max buf_size) write_out-MakesRoom fuel
          text r start c e m enough (omega (arith, positive, fits)) coded
          ((e, has, sym (append-nil e)), omega (arith, has.0, fits)) in
      let (q, p, done, same, streamed) = write_rest-Streamed blocking r1 p1 e1 emitted1 in
      (
        q,
        p,
        e1,
        rw (read_in-fits text short) (rw fed (ap some done)),
        (streamed, rw same coded1),
        omega (arith, bound, ap (λ s. laws.remaining s m) same),
      )

  -- The end of a stream, but for the chunk that ends the body.
  pub finish-Streamed :
      {inflate : Bytes → Option Bytes} (laws : IsZlib z inflate) (fuel : ℕ) (r : Response)
      (o : Out z) (c e : Bytes)
      → laws.remaining o.strm 0 < fuel
      → Between laws r o c e
      → (q1 : Response) × (p1 : Out z) × (q : Response) × (p : Out z) × (e' : Bytes) × (finish_loop
            z
            (write_out z timeout max buf_size)
            fuel
            r
            (record o { next_out = 0; avail_out = uint buf_size })
          ≡ some (ok (q1, p1)))
        × (write_rest z timeout max buf_size false q1 p1 ≡ ok (q, p))
        × Streamed q (length p.buf) e'
        × (inflate e' ≡ some c)
  finish-Streamed laws fuel r o c e enough (has, coded) =
      let start = record o { next_out = 0; avail_out = uint buf_size } in
      let (r1, p1, e1, done, inflates, emitted1) =
        finish_loop-Emitted z laws Streamed (write_out z timeout max buf_size) write_out-MakesRoom
          fuel r start c e enough coded
          ((e, has, sym (append-nil e)), omega (arith, has.0, fits)) in
      let (q, p, rest, same, streamed) = write_rest-Streamed false r1 p1 e1 emitted1 in
      (r1, p1, q, p, e1, done, rest, streamed, inflates)
