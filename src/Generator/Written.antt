-- ===== src/Generator/Written.antt =====
-- A vector with a position, where what is written so far stands in front of whatever is left.
use marisa.Prelude.{
  ℕ, zero, suc, ◌+◌, ◌≤◌, ◌<◌, ◌≡◌, refl, sym, ap, ◌∙◌, [], ◌∷◌, ◌++◌, append_assoc, Bytes, drop,
  length, length-append, length-drop, nil_of_length, Result, ok, ◌>>=◌, bind_ok, arith,
}
use mathlib.Core.Path.{ap₂}
use native.Mathlib.Nat.{add-suc, add-zero}
use marisa.Generator.{resize, copy_to, Output, put, put_printed, grow}

pub length-resize : (n : ℕ) (buf : Bytes) → length (resize n buf) ≡ n
unfolding resize
length-resize zero buf = refl
length-resize (suc n) [] = ap suc (length-resize n [])
length-resize (suc n) (c ∷ buf) = ap suc (length-resize n buf)

resize-append :
    (n : ℕ) (out junk : Bytes) → resize (n + length out) (out ++ junk) ≡ out ++ resize n junk
unfolding resize
resize-append n [] junk = ap (λ k. resize k junk) (add-zero n)
resize-append n (c ∷ out) junk =
    ap (λ k. resize k (c ∷ out ++ junk)) (add-suc n (length out))
    ∙ ap (λ b. c ∷ b) (resize-append n out junk)

copy_to-append :
    (out junk src : Bytes)
    → length src ≤ length junk
    → copy_to (out ++ junk) (length out) src ≡ ok (out ++ (src ++ drop (length src) junk))
unfolding copy_to
copy_to-append [] junk [] h = refl
copy_to-append [] [] (c ∷ src) h = absurd (omega arith)
copy_to-append [] (b ∷ junk) (c ∷ src) h =
    bind_ok (λ rest. ok (c ∷ rest)) (copy_to-append [] junk src (omega arith))
copy_to-append (d ∷ out) junk src h =
    bind_ok (λ rest. ok (d ∷ rest)) (copy_to-append out junk src h)

-- What has been written, and what else the vector holds.
abbrev pub written : (out junk : Bytes) → Output
written out junk = record { ret = out ++ junk; position = length out }

output_of :
    (out src junk : Bytes) (n : ℕ)
    → n ≡ length out + length src
    → ok (record { ret = out ++ (src ++ junk); position = n }) ≡ ok (written (out ++ src) junk)
output_of out src junk n e =
    ap₂ (λ r p. ok (record { ret = r; position = p })) (sym (append_assoc out src junk))
      (e ∙ sym (length-append out src))

pub put-written :
    (out junk src : Bytes)
    → length src ≤ length junk
    → put src (written out junk) ≡ ok (written (out ++ src) (drop (length src) junk))
unfolding put
put-written out junk src h =
    bind_ok (λ r. ok (record { ret = r; position = length out + length src }))
      (copy_to-append out junk src h)
    ∙ output_of out src (drop (length src) junk) (length out + length src) refl

pub grow-written :
    (n : ℕ) (out junk : Bytes) → grow n (written out junk) ≡ written out (resize n junk)
grow-written n out junk =
    ap (λ r. record { ret = r; position = length out }) (resize-append n out junk)

-- The NUL of `sprintf` is left behind the text.
pub put_printed-written :
    (out junk src : Bytes)
    → length src < length junk
    → (rest : Bytes) × put_printed src (written out junk) ≡ ok (written (out ++ src) rest)
unfolding put_printed
put_printed-written out junk src h =
    let text = src ++ 0 ∷ [] in
    let rest = drop (length text) junk in
    let fits : length text ≤ length junk = omega (arith, length-append src (0 ∷ [])) in
    (
      0 ∷ rest,
      bind_ok (λ r. ok (record { ret = r; position = length out + length src }))
            (copy_to-append out junk text fits)
          ∙ ap (λ t. ok (record { ret = out ++ t; position = length out + length src }))
              (append_assoc src (0 ∷ []) rest)
          ∙ output_of out src (0 ∷ rest) (length out + length src) refl,
    )

-- A text that fills the rest of the vector.
pub put_last :
    (t out junk : Bytes)
    → length junk ≡ length t
    → put t (written out junk) ≡ ok (written (out ++ t) [])
put_last t out junk e =
    put-written out junk t (omega arith)
    ∙ ap (λ r. ok (written (out ++ t) r))
        (nil_of_length (drop (length t) junk) (omega (arith, length-drop (length t) junk)))

-- A text in front of what fills the rest of the vector.
pub put_then :
    (a t out junk : Bytes) (k : Output → Result Output)
    → length junk ≡ length a + length t
    → ((o j : Bytes) → length j ≡ length t → k (written o j) ≡ ok (written (o ++ t) []))
    → (put a (written out junk) >>= k) ≡ ok (written (out ++ (a ++ t)) [])
put_then a t out junk k e fills =
    bind_ok k (put-written out junk a (omega arith))
    ∙ fills (out ++ a) (drop (length a) junk) (omega (arith, length-drop (length a) junk))
    ∙ ap (λ r. ok (written r [])) (append_assoc out a t)
