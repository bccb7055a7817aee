-- ===== src/Compression/Once.antt =====
-- What compress_once and compress_memory make is a whole stream, which decodes to the data.
use marisa.Prelude.{
  ℤ, pos, ℕ, ◌+◌, ◌-◌, ◌<◌, ◌≡◌, refl, sym, ap, ◌∙◌, Option, some, [], ◌++◌, append-nil, Bytes,
  take, replicate, length, length-append, take-all, take-append, ok, length-replicate, arith,
}
use marisa.Deflate.{read_in, uint, z_ok, Zlib, Out, resize}
use marisa.Deflate.Manual.{IsZlib}
use marisa.Deflate.Buffers.{resize-grown, resize-cut}
use marisa.Deflate.Emitted.{MakesRoom, feed-Emitted, finish_loop-Emitted}
use marisa.Compression.{grow, compress_once, take_out, compress_memory}
use marisa.Response.{Response}

module _ (z : Zlib) (timeout max : ℤ) (buf_size : ℕ) (positive : 0 < buf_size)
    (fits : uint buf_size ≡ buf_size) where
  -- The bytes emitted before the call.
  abbrev Earlier : Bytes → Unit {0} → ℕ → Bytes → Type 0
  Earlier e0 sink n s = s ≡ e0

  grow-MakesRoom : (e0 : Bytes) → MakesRoom z (Earlier e0) (grow z timeout max buf_size)
  unfolding grow
  grow-MakesRoom e0 sink o e none_left ((s, has, same), placed) =
      let grown = resize-grown buf_size o.buf in
      let whole : o.next_out ≡ length o.buf = omega (arith, none_left, placed) in
      (
        tt,
        record o {
          buf = resize (length o.buf + buf_size) o.buf;
          avail_out = uint buf_size;
          next_out = length o.buf;
        },
        refl,
        refl,
        omega (arith, positive, fits),
        (
          (
            s,
            has,
            same
                ∙ ap (λ t. s ++ t)
                    (ap (λ n. take n o.buf) whole
                      ∙ take-all (length o.buf) o.buf (omega arith)
                      ∙ sym (
                          ap (take (length o.buf)) grown
                          ∙ take-append o.buf (replicate buf_size 0))),
          ),
          omega (
            arith,
            ap length grown,
            length-append o.buf (replicate buf_size 0),
            length-replicate {A = ℕ} buf_size 0,
            fits,
          ),
        ),
      )

  -- A call on a stream that has read `c` and written `e`.
  pub compress_once-inflates :
      {inflate : Bytes → Option Bytes} (laws : IsZlib z inflate) (fuel : ℕ) (text c e : Bytes)
      (o : Out z)
      → laws.Coded o.strm c e
      → length o.buf ≡ buf_size
      → laws.remaining o.strm (length (read_in text)) < fuel
      → (t : Bytes) × (compress_once z timeout max buf_size fuel text o ≡ some (ok t))
        × (inflate (e ++ t) ≡ some (c ++ read_in text))
  unfolding compress_once
  compress_once-inflates {inflate = inflate} laws fuel text c e o coded sized enough =
      let start = record o { next_out = 0; avail_out = uint buf_size } in
      let room = grow-MakesRoom e in
      let none_more : length (read_in text) + 0 ≡ length (read_in text) = omega arith in
      let (s1, p, e1, fed, free, coded1, emitted1, bound) =
        feed-Emitted z laws (Earlier e) (grow z timeout max buf_size) room fuel (read_in text) tt
          start c e 0 (omega (arith, enough, ap (laws.remaining o.strm) none_more))
          (omega (arith, positive, fits)) coded
          ((e, refl, sym (append-nil e)), omega (arith, sized, fits)) in
      let (s2, q, e2, done, inflates, ((s, has, same), placed)) =
        finish_loop-Emitted z laws (Earlier e) (grow z timeout max buf_size) room fuel s1 p
          (c ++ read_in text) e1
          (omega (arith, bound, enough, ap (laws.remaining o.strm) none_more)) coded1 emitted1 in
      let cut : resize (length q.buf - q.avail_out) q.buf ≡ take q.next_out q.buf =
        ap (λ n. resize n q.buf) (omega (arith, placed))
        ∙ resize-cut q.next_out q.buf (omega (arith, placed)) in
      (
        take q.next_out q.buf,
        rw fed (rw done (ap (λ t. some (ok t)) cut)),
        ap inflate (ap (λ s. s ++ take q.next_out q.buf) (sym has) ∙ sym same) ∙ inflates,
      )

module _ (z : Zlib) (bufsize : ℕ) (positive : 0 < bufsize) (fits : uint bufsize ≡ bufsize) where
  -- The vector, and the temporary buffer's size.
  abbrev Collected : Bytes → ℕ → Bytes → Type 0
  Collected buffer n s = (n ≡ bufsize) × (buffer ≡ s)

  take_out-MakesRoom : MakesRoom z Collected (take_out z bufsize)
  unfolding take_out
  take_out-MakesRoom buffer o e none_left ((s, (sized, has), same), placed) = (
    buffer ++ take bufsize o.buf,
    record o { next_out = 0; avail_out = uint bufsize },
    refl,
    refl,
    omega (arith, positive, fits),
    (
      (
        s ++ take o.next_out o.buf,
        (
          sized,
          ap (λ b. b ++ take bufsize o.buf) has
              ∙ ap (λ n. s ++ take n o.buf) (omega (arith, sized, placed, none_left)),
        ),
        same ∙ sym (append-nil (s ++ take o.next_out o.buf)),
      ),
      omega (arith, sized, fits),
    ),
  )

  pub compress_memory-started :
      {inflate : Bytes → Option Bytes} (laws : IsZlib z inflate) (fuel : ℕ)
      (in_data temp_buffer : Bytes)
      → (z.deflate_init2 (pos 9) 15 0).0 ≡ z_ok
      → length temp_buffer ≡ bufsize
      → laws.remaining (z.deflate_init2 (pos 9) 15 0).1 (length (read_in in_data)) < fuel
      → (t : Bytes) × (compress_memory z fuel bufsize in_data temp_buffer ≡ some (ok t))
        × (inflate t ≡ some (read_in in_data))
  unfolding compress_memory
  compress_memory-started {inflate = inflate} laws fuel in_data temp_buffer fine sized enough =
      let begun = (z.deflate_init2 (pos 9) 15 0).1 in
      let input = read_in in_data in
      let start : Out z = record {
        strm = begun;
        buf = temp_buffer;
        next_out = 0;
        avail_out = uint bufsize;
      } in
      let none_more : length input + 0 ≡ length input = omega arith in
      let (s1, p, e1, fed, free, coded1, emitted1, bound) =
        feed-Emitted z laws Collected (take_out z bufsize) take_out-MakesRoom fuel input [] start []
          [] 0 (omega (arith, enough, ap (laws.remaining begun) none_more))
          (omega (arith, positive, fits)) (laws.starts (pos 9) 15 0 fine)
          (([], (sized, refl), refl), omega (arith, sized, fits)) in
      let (s2, q, e2, done, inflates, ((s, (size, has), same), placed)) =
        finish_loop-Emitted z laws Collected (take_out z bufsize) take_out-MakesRoom fuel s1 p input
          e1 (omega (arith, bound, enough, ap (laws.remaining begun) none_more)) coded1 emitted1 in
      let at_end : bufsize - q.avail_out ≡ q.next_out = omega (arith, size, placed) in
      (
        s2 ++ take q.next_out q.buf,
        rw fed (rw done (ap (λ n. some (ok (s2 ++ take n q.buf))) at_end)),
        ap inflate (ap (λ b. b ++ take q.next_out q.buf) has ∙ sym same) ∙ inflates,
      )
