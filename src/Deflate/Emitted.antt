-- ===== src/Deflate/Emitted.antt =====
-- The loops over zlib, by what its manual says of it: all that they emit decodes to all that they were
-- given.
use marisa.Prelude.{
  ℕ, zero, suc, ◌+◌, ◌-◌, ◌≤◌, ◌<◌, ◌≡◌, ◌≢◌, ◌⊎◌, inl, inr, refl, sym, ap, ◌∙◌, true, Option, some,
  [], ◌∷◌, ◌++◌, append-nil, append_assoc, Bytes, leb, ◌==◌, Bool-cases, take, length, Result, ok,
  and_then, arith,
}
use marisa.Deflate.{
  Flush, no_flush, finish, Zlib, splice, Out, deflate_into, room_if_full, feed_round, feed_loop,
  finish_round, finish_loop,
}
use marisa.Deflate.Manual.{IsZlib}
use marisa.Deflate.Buffers.{take-splice, length-splice}

-- The stream's place and its room make up the buffer.
abbrev pub IsPlaced : (z : Zlib) → Out z → Type 0
IsPlaced z o = o.next_out + o.avail_out ≡ length o.buf

module _ (z : Zlib) {Sink : Type 0} (P : Sink → ℕ → Bytes → Type 0) where
  -- The bytes emitted are those that the sink has got, and those in front of the place. What is said
  -- of the sink may depend on the buffer's size.
  abbrev pub Emitted : Sink → Out z → Bytes → Type 0
  Emitted sink o e =
      ((s : Bytes) × P sink (length o.buf) s × (e ≡ s ++ take o.next_out o.buf)) × IsPlaced z o

  deflate_into-Emitted :
      (flush : Flush) (input : Bytes) (sink : Sink) (o : Out z) (e : Bytes)
      → length (z.deflate flush o.strm input o.avail_out).out ≤ o.avail_out
      → Emitted sink o e
      → (p : Out z) × (deflate_into z flush input o
          ≡ ok (
            p,
            (z.deflate flush o.strm input o.avail_out).left,
            (z.deflate flush o.strm input o.avail_out).code,
          ))
        × (p.strm ≡ (z.deflate flush o.strm input o.avail_out).next)
        × (p.avail_out ≡ o.avail_out - length (z.deflate flush o.strm input o.avail_out).out)
        × Emitted sink p (e ++ (z.deflate flush o.strm input o.avail_out).out)
  unfolding deflate_into
  deflate_into-Emitted flush input sink o e fit ((s, has, same), placed) =
      let t = z.deflate flush o.strm input o.avail_out in
      let inside : leb (o.next_out + o.avail_out) (length o.buf) ≡ true = ground arith in
      (
        record o {
          strm = t.next;
          buf = splice o.next_out t.out o.buf;
          next_out = o.next_out + length t.out;
          avail_out = o.avail_out - length t.out;
        },
        rw inside refl,
        refl,
        refl,
        (
          (
            s,
            rw (length-splice o.next_out t.out o.buf (omega (arith, placed, fit))) has,
            ap (λ x. x ++ t.out) same
                ∙ append_assoc s (take o.next_out o.buf) t.out
                ∙ ap (λ x. s ++ x)
                    (sym (take-splice o.next_out t.out o.buf (omega (arith, placed, fit)))),
          ),
          omega (
            arith,
            placed,
            fit,
            length-splice o.next_out t.out o.buf (omega (arith, placed, fit)),
          ),
        ),
      )

-- What a caller's way to make room has to do: there is room then, and nothing emitted is lost.
abbrev pub MakesRoom :
    (z : Zlib) {Sink : Type 0} (P : Sink → ℕ → Bytes → Type 0)
    → (Sink → Out z → Result (Sink × Out z))
    → Type 0
MakesRoom z {Sink} P make_room =
    (sink : Sink) (o : Out z) (e : Bytes)
    → o.avail_out ≡ 0
    → Emitted z P sink o e
    → (sink' : Sink) × (p : Out z) × (make_room sink o ≡ ok (sink', p))
      × (p.strm ≡ o.strm)
      × (0 < p.avail_out)
      × Emitted z P sink' p e

left_sizes : (left : Bytes) (m : ℕ) → left ≡ [] → length left + m ≡ m
left_sizes left m e = omega (arith, ap length e)

module _ (z : Zlib) {inflate : Bytes → Option Bytes} (laws : IsZlib z inflate) {Sink : Type 0}
    (P : Sink → ℕ → Bytes → Type 0) (make_room : Sink → Out z → Result (Sink × Out z))
    (makes : MakesRoom z P make_room) where
  open laws use {Coded, remaining}

  room_if_full-Emitted :
      (sink : Sink) (o : Out z) (e : Bytes)
      → Emitted z P sink o e
      → (sink' : Sink) × (p : Out z) × (room_if_full z make_room sink o ≡ ok (sink', p))
        × (p.strm ≡ o.strm)
        × (0 < p.avail_out)
        × Emitted z P sink' p e
  unfolding room_if_full
  room_if_full-Emitted sink o e h = elim (Bool-cases (o.avail_out == 0)) [
    | inl full ↦ rw full (makes sink o e (ground arith) h)
    | inr free ↦ rw free (sink, o, refl, refl, ground arith, h)
  ]

  -- A round of the loop over the input.
  feed_round-Emitted :
      (input : Bytes) (sink : Sink) (o : Out z) (c e : Bytes) (m : ℕ)
      → input ≢ []
      → 0 < o.avail_out
      → Coded o.strm c e
      → Emitted z P sink o e
      → (sink' : Sink) × (p : Out z) × (left : Bytes) × (taken : Bytes) × (out : Bytes)
        × (feed_round z make_room input sink o ≡ ok ((sink', p), left))
        × (input ≡ taken ++ left)
        × (0 < p.avail_out)
        × Coded p.strm (c ++ taken) (e ++ out)
        × Emitted z P sink' p (e ++ out)
        × (length out + remaining p.strm (length left + m) ≤ remaining o.strm (length input + m))
        × ((left ≡ []) ⊎ (0 < length out))
  unfolding feed_round
  feed_round-Emitted input sink o c e m full free coded h =
      let t = z.deflate no_flush o.strm input o.avail_out in
      let (fine, (taken, parts, next), stops) =
        laws.reads o.strm c e input o.avail_out coded full free in
      let (q, called, strm, room, emitted) =
        deflate_into-Emitted z P no_flush input sink o e
          (laws.fits no_flush o.strm input o.avail_out) h in
      let (sink', p, made, same, free', emitted') =
        room_if_full-Emitted sink q (e ++ t.out) emitted in
      let arrives : p.strm ≡ t.next = same ∙ strm in
      (
        sink',
        p,
        t.left,
        taken,
        t.out,
        rw called (rw fine (rw made refl)),
        parts,
        free',
        rw arrives next,
        emitted',
        rw arrives (laws.bounded no_flush o.strm input o.avail_out m),
        elim stops [
          | inl none_left ↦ inl none_left
          | inr all_used ↦ inr (omega (arith, all_used, free))
        ],
      )

  -- The loop over the input, with enough fuel for what the state may still write.
  pub feed-Emitted :
      (fuel : ℕ) (input : Bytes) (sink : Sink) (o : Out z) (c e : Bytes) (m : ℕ)
      → remaining o.strm (length input + m) < fuel
      → 0 < o.avail_out
      → Coded o.strm c e
      → Emitted z P sink o e
      → (sink' : Sink) × (p : Out z) × (e' : Bytes) × (feed_loop z make_room fuel input sink o
          ≡ some (ok (sink', p)))
        × (0 < p.avail_out)
        × Coded p.strm (c ++ input) e'
        × Emitted z P sink' p e'
        × (remaining p.strm m ≤ remaining o.strm (length input + m))
  unfolding feed_loop
  feed-Emitted fuel [] sink o c e m enough free coded h =
      let none_read : 0 + m ≡ m = omega arith in
      (
        sink,
        o,
        e,
        refl,
        free,
        rw (append-nil c) coded,
        h,
        omega (arith, ap (remaining o.strm) none_read),
      )
  feed-Emitted zero (x ∷ xs) sink o c e m enough free coded h = absurd (omega arith)
  feed-Emitted (suc fuel) (x ∷ xs) sink o c e m enough free coded h =
      let (sink', p, left, taken, out, ran, parts, free', coded', h', bound, stops) =
        feed_round-Emitted (x ∷ xs) sink o c e m (λ none_here. cc) free coded h in
      elim stops [
        | inl none_left ↦
            let all_taken : x ∷ xs ≡ taken =
              parts ∙ ap (λ l. taken ++ l) none_left ∙ append-nil taken in
            (
              sink',
              p,
              e ++ out,
              ap (λ r. and_then r (λ t. feed_loop z make_room fuel t.1 t.0.0 t.0.1)) ran
                  ∙ ap (λ l. feed_loop z make_room fuel l sink' p) none_left,
              free',
              rw all_taken coded',
              h',
              omega (arith, bound, ap (remaining p.strm) (left_sizes left m none_left)),
            )
        | inr wrote ↦
            let (sink'', q, e', rest, free'', coded'', h'', bound') =
              feed-Emitted fuel left sink' p (c ++ taken) (e ++ out) m (omega (arith, bound)) free'
                coded' h' in
            (
              sink'',
              q,
              e',
              ap (λ r. and_then r (λ t. feed_loop z make_room fuel t.1 t.0.0 t.0.1)) ran ∙ rest,
              free'',
              rw parts (rw (← append_assoc c taken left) coded''),
              h'',
              omega (arith, bound, bound'),
            )
      ]

  -- The loop that ends the stream.
  pub finish_loop-Emitted :
      (fuel : ℕ) (sink : Sink) (o : Out z) (c e : Bytes)
      → remaining o.strm 0 < fuel
      → Coded o.strm c e
      → Emitted z P sink o e
      → (sink' : Sink) × (p : Out z) × (e' : Bytes) × (finish_loop z make_room fuel sink o
          ≡ some (ok (sink', p)))
        × (inflate e' ≡ some c)
        × Emitted z P sink' p e'
  unfolding finish_loop finish_round
  finish_loop-Emitted zero sink o c e enough coded h = absurd (omega arith)
  finish_loop-Emitted (suc fuel) sink o c e enough coded h =
      let (sink1, q, made, same, free, emitted) = room_if_full-Emitted sink o e h in
      let t = z.deflate finish q.strm [] q.avail_out in
      let (p, called, strm, room, emitted') =
        deflate_into-Emitted z P finish [] sink1 q e (laws.fits finish q.strm [] q.avail_out)
          emitted in
      let bound = laws.bounded finish q.strm [] q.avail_out 0 in
      elim (laws.ends q.strm c e q.avail_out (rw same coded) free) [
        | inl (ended, inflates) ↦
            (sink1, p, e ++ t.out, rw made (rw called (rw ended refl)), inflates, emitted')
        | inr (fine, none_left, filled, coded') ↦
            let smaller : remaining p.strm 0 < fuel = omega (
              arith,
              bound,
              filled,
              free,
              ap (λ s. remaining s 0) strm,
              ap (λ s. remaining s 0) same,
              ap (remaining t.next) (left_sizes t.left 0 none_left),
            ) in
            let (sink2, r, e', rest, inflates, h') =
              finish_loop-Emitted fuel sink1 p c (e ++ t.out) smaller (rw strm coded') emitted' in
            (sink2, r, e', rw made (rw called (rw fine rest)), inflates, h')
      ]
