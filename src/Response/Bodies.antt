-- ===== src/Response/Bodies.antt =====
-- What a sequence of writes puts on the wire.
use marisa.Prelude.{
  ℤ, suc, ◌<◌, ◌≡◌, refl, sym, ap, ◌∙◌, Bool, true, false, some, List, [], ◌∷◌, ◌++◌, append-nil,
  append_assoc, Bytes, length, All, Result, ok, ◌>>=◌, bind_ok, bind_assoc, false, Bool-cases, inl,
  inr,
}
use mathlib.Core.Path.{fun_ext}
use marisa.Buffer.{Holder}
use marisa.Generator.{as_unsigned}
use marisa.Generator.Head.{IsTimeout}
use marisa.Response.{
  Response, chunk_end, chunk_all_end, chunk_header, push, push_data, write, do_write, end,
}
use marisa.Response.Wire.{
  wire-begun, loaded, wire, wire-push, wire-push_data, headers_sent-push, headers_sent-push_data,
  do_write_lem, unloaded, head_of, begun, send_headers_lem, send_headers_sent,
}
use marisa.Response.Chunks.{
  decode_chunks, chunk, chunks, Write, data_of, MakesChunk, decode_chunks-chunks,
}

-- A response whose headers are sent, and that has put `s` on the wire behind what `r` had.
abbrev Sent : Bytes → Response → Response → Type 0
Sent s r q = (q.headers_sent ≡ true) × (wire q.calls ≡ wire r.calls ++ s)

do_write-Sent :
    (h : Holder) (s : Bytes) (blocking : Bool) (r : Response)
    → r.headers_sent ≡ true
    → Sent
        (chunk s)
        r
        (push chunk_end (push_data blocking s (push (chunk_header (length s)) (unloaded h s r))))
do_write-Sent h s blocking r e =
    let r0 = unloaded h s r in
    let r1 = push (chunk_header (length s)) r0 in
    let r2 = push_data blocking s r1 in
    (
      headers_sent-push chunk_end r2
          ∙ headers_sent-push_data blocking s r1
          ∙ headers_sent-push (chunk_header (length s)) r0
          ∙ e,
      wire-push chunk_end r2
          ∙ ap (λ t. t ++ chunk_end)
              (wire-push_data blocking s r1
                ∙ ap (λ t. t ++ s) (wire-push (chunk_header (length s)) r0))
          ∙ simp append_assoc,
    )

module _ (timeout max : ℤ) where
  unfoldable pub write_all : List Write → Response → Result Response
  write_all [] r = ok r
  write_all ((h, s, blocking) ∷ ws) r = write timeout max h s blocking r >>= write_all ws

  write-Sent :
      (h : Holder) (s : Bytes) (blocking : Bool) (r : Response)
      → r.headers_sent ≡ true
      → (q : Response) × (write timeout max h s blocking r ≡ ok q) × Sent (chunk s) r q
  unfolding write
  write-Sent h s blocking r e = (
    push chunk_end (push_data blocking s (push (chunk_header (length s)) (unloaded h s r))),
    bind_ok (λ q. do_write blocking (loaded h s q)) (send_headers_sent timeout max true r e)
        ∙ do_write_lem h s blocking r,
    do_write-Sent h s blocking r e,
  )

  write_all-Sent :
      (ws : List Write) (r : Response)
      → r.headers_sent ≡ true
      → (q : Response) × (write_all ws r ≡ ok q) × Sent (chunks ws) r q
  unfolding write_all
  write_all-Sent [] r e = (r, refl, (e, sym (append-nil (wire r.calls))))
  write_all-Sent ((h, s, blocking) ∷ ws) r e =
      let (q, done, (sent, out)) = write-Sent h s blocking r e in
      let (p, rest, (end_sent, end_out)) = write_all-Sent ws q sent in
      (
        p,
        bind_ok (write_all ws) done ∙ rest,
        (
          end_sent,
          end_out
              ∙ ap (λ t. t ++ chunks ws) out
              ∙ append_assoc (wire r.calls) (chunk s) (chunks ws),
        ),
      )

  -- With small keep-alive values, writes of data that makes a chunk, and the end, on a response whose
  -- headers are not sent, put the head on the wire once and behind it a chunked body; a decoder after
  -- RFC 7230 gets the data back from it.
  pub write_all-chunked :
      (w : Write) (ws : List Write) (r : Response)
      → IsTimeout timeout
      → as_unsigned max < 65536
      → r.headers_sent ≡ false
      → All MakesChunk (w ∷ ws)
      → (q : Response) × (body : Bytes) × (write_all (w ∷ ws) r ≡ ok q)
        × (wire (end q).calls ≡ wire r.calls ++ (head_of timeout max true r ++ body))
        × (decode_chunks (suc (length (w ∷ ws))) body ≡ some (data_of (w ∷ ws)))
  unfolding write_all end write
  write_all-chunked (h, s, blocking) ws r t m e chunked =
      let all_writes : List Write = (h, s, blocking) ∷ ws in
      let head = head_of timeout max true r in
      let b = begun timeout max true r in
      let b_sent : b.headers_sent ≡ true = headers_sent-push head _ in
      let (q, done, (sent, out)) = write_all-Sent all_writes b b_sent in
      let first : Response → Result Response = λ q. do_write blocking (loaded h s q) in
      (
        q,
        chunks all_writes ++ chunk_all_end,
        ap (λ o. o >>= write_all ws)
              (bind_ok first (send_headers_lem timeout max t m true r e)
                ∙ sym (bind_ok first (send_headers_sent timeout max true b b_sent)))
            ∙ done,
        wire-push chunk_all_end q
            ∙ ap (λ o. o ++ chunk_all_end)
                (out ∙ ap (λ o. o ++ chunks all_writes) (wire-begun timeout max true r))
            ∙ simp append_assoc,
        decode_chunks-chunks all_writes chunked,
      )

  -- A write works, whether the headers are sent or not.
  pub write_total :
      (h : Holder) (s : Bytes) (blocking : Bool) (r : Response)
      → IsTimeout timeout
      → as_unsigned max < 65536
      → (q : Response) × (write timeout max h s blocking r ≡ ok q)
  unfolding write
  write_total h s blocking r t m =
      let first : Response → Result Response = λ q. do_write blocking (loaded h s q) in
      elim (Bool-cases r.headers_sent) [
        | inl sent ↦
            let (q, done, out) = write-Sent h s blocking r sent in (q, unfold write in done)
        | inr unsent ↦ (
          push chunk_end (
              push_data blocking s
                (push (chunk_header (length s)) (unloaded h s (begun timeout max true r)))),
          bind_ok first (send_headers_lem timeout max t m true r unsent)
              ∙ do_write_lem h s blocking (begun timeout max true r),
        )
      ]

  write_all-append :
      (ws vs : List Write) (r : Response)
      → write_all (ws ++ vs) r ≡ (write_all ws r >>= write_all vs)
  unfolding write_all
  write_all-append [] vs r = refl
  write_all-append ((h, s, blocking) ∷ ws) vs r =
      ap (λ f. write timeout max h s blocking r >>= f) (fun_ext (write_all-append ws vs))
      ∙ sym (bind_assoc (write timeout max h s blocking r) (write_all ws) (write_all vs))

  pub write_all-append_one :
      (ws : List Write) (h : Holder) (s : Bytes) (blocking : Bool) (r q p : Response)
      → write_all ws r ≡ ok q
      → write timeout max h s blocking q ≡ ok p
      → write_all (ws ++ (h, s, blocking) ∷ []) r ≡ ok p
  unfolding write_all
  write_all-append_one ws h s blocking r q p all_done done =
      write_all-append ws ((h, s, blocking) ∷ []) r
      ∙ bind_ok (write_all ((h, s, blocking) ∷ [])) all_done
      ∙ bind_ok (λ t. ok t) done
