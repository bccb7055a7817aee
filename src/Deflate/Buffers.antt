-- ===== src/Deflate/Buffers.antt =====
-- Parts of a buffer, behind a write into it and behind a change of its size.
use marisa.Prelude.{
  ℕ, ◌+◌, ◌-◌, ◌≤◌, ◌≡◌, sym, ap, ◌∙◌, ◌++◌, append-nil, append_assoc, Bytes, take, drop, replicate,
  length, length-append, length-drop, take-all, take-append, length-take_below, arith,
}
use marisa.Deflate.{splice, resize}

pub take-splice :
    (n : ℕ) (out buf : Bytes)
    → n + length out ≤ length buf
    → take (n + length out) (splice n out buf) ≡ take n buf ++ out
unfolding splice
take-splice n out buf h =
    let front = take n buf in
    let behind = drop (n + length out) buf in
    let here : n + length out ≡ length (front ++ out) =
      omega (arith, length-append front out, length-take_below n buf (omega arith)) in
    ap (λ k. take k (front ++ (out ++ behind))) here
    ∙ ap (take (length (front ++ out))) (sym (append_assoc front out behind))
    ∙ take-append (front ++ out) behind

pub length-splice :
    (n : ℕ) (out buf : Bytes) → n + length out ≤ length buf → length (splice n out buf) ≡ length buf
unfolding splice
length-splice n out buf h =
    let front = take n buf in
    let behind = drop (n + length out) buf in
    omega (
      arith,
      length-append front (out ++ behind),
      length-append out behind,
      length-take_below n buf (omega arith),
      length-drop (n + length out) buf,
    )

pub resize-grown : (k : ℕ) (buf : Bytes) → resize (length buf + k) buf ≡ buf ++ replicate k 0
unfolding resize
resize-grown k buf =
    ap (λ b. b ++ replicate (length buf + k - length buf) 0)
      (take-all (length buf + k) buf (omega arith))
    ∙ ap (λ n. buf ++ replicate n 0) (omega arith)

pub resize-cut : (n : ℕ) (buf : Bytes) → n ≤ length buf → resize n buf ≡ take n buf
unfolding resize
resize-cut n buf h =
    let none_new : n - length buf ≡ 0 = omega arith in
    ap (λ k. take n buf ++ replicate k 0) none_new ∙ append-nil (take n buf)
