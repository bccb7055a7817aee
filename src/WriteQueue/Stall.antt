-- ===== src/WriteQueue/Stall.antt =====
-- What a failed write leaves behind.
use marisa.Prelude.{
  ℕ, ◌-◌, ◌≡◌, ◌≢◌, refl, ◌∙◌, Bool, true, false, List, [], ◌∷◌, ◌++◌, Bytes, leb, length,
  length-append, ok, arith,
}
use mathlib.Core.Path.{subst}
use marisa.WriteQueue.{
  Session, arrange_async_write, write_handler, Step, arrange, handle, Steps, done, step,
}

-- Data waits, and no write is in flight whose handler would start it.
abbrev pub IsStalled : Session → Type 0
IsStalled s = (s.in_flight ≡ 0) × (s.queue_write ≢ [])

-- Nothing more was given to asio, and no promise got a value.
abbrev pub NoProgress : Session → Session → Type 0
NoProgress s t = (t.started ≡ s.started) × (t.promises ≡ s.promises)

arrange-IsStalled :
    (bytes : Bytes) (promise n : ℕ) (q : List (Bytes × ℕ)) (ps : List (ℕ × Bool)) (c : Bool)
    (st ar : List Bytes) (t : Session)
    → let s : Session = record {
      queue_write = q;
      in_flight = n;
      promises = ps;
      close_requested = c;
      started = st;
      arranged = ar;
    } in
      arrange_async_write bytes promise s ≡ ok t → IsStalled s → IsStalled t × NoProgress s t
unfolding arrange_async_write
arrange-IsStalled bytes promise n [] ps c st ar t e (idle, full) = absurd (full refl)
arrange-IsStalled bytes promise n (p ∷ q) ps c st ar t e (idle, full) =
    let more : leb (length (p ∷ q ++ (bytes, promise) ∷ [])) 1 ≡ false =
      ground (arith, length-append q ((bytes, promise) ∷ [])) in
    let s : Session = record {
      queue_write = p ∷ q;
      in_flight = n;
      promises = ps;
      close_requested = c;
      started = st;
      arranged = ar;
    } in
    let u : Session = record {
      queue_write = p ∷ q ++ (bytes, promise) ∷ [];
      in_flight = n;
      promises = ps;
      close_requested = c;
      started = st;
      arranged = ar ++ bytes ∷ [];
    } in
    let same : u ≡ t = (let f : ok u ≡ ok t = rw more at e in cc) in
    subst (λ x. IsStalled x × NoProgress s x) same ((idle, (λ x. cc)), (refl, refl))

Step-IsStalled :
    {error : Bool} {s t : Session} → Step error s t → IsStalled s → IsStalled t × NoProgress s t
Step-IsStalled (arrange {s} {t} bytes promise e) h =
    arrange-IsStalled bytes promise s.in_flight s.queue_write s.promises s.close_requested s.started
      s.arranged t e h
Step-IsStalled (handle error busy e) (idle, full) = absurd (busy idle)

Steps-IsStalled :
    {failed : Bool} {s t : Session} → Steps failed s t → IsStalled s → IsStalled t × NoProgress s t
Steps-IsStalled done h = (h, (refl, refl))
Steps-IsStalled (step run last) h =
    let (stalled, (started, promises)) = Steps-IsStalled run h in
    let (later, (started_later, promises_later)) = Step-IsStalled last stalled in
    (later, (started_later ∙ started, promises_later ∙ promises))

handled_lem :
    (p next : Bytes × ℕ) (q : List (Bytes × ℕ)) (s t : Session)
    → s.in_flight ≡ 1
    → s.queue_write ≡ p ∷ next ∷ q
    → write_handler true s ≡ ok t
    → IsStalled t
unfolding write_handler
handled_lem p next q s t busy e handled =
    let left : Session = record s {
      queue_write = next ∷ q;
      promises = s.promises ++ (p.1, true) ∷ [];
      in_flight = s.in_flight - 1;
      close_requested = true;
    } in
    let ran : write_handler true s ≡ ok left = rw (write_handler, e) refl in
    let same : left ≡ t = cc in subst IsStalled same (omega arith, (λ x. cc))

-- If a write fails while data waits behind it, no write is started any more and no promise gets a
-- value, whatever is arranged later: a blocking write of that data never returns.
pub write_handler-IsStalled :
    (failed : Bool) (p next : Bytes × ℕ) (q : List (Bytes × ℕ)) (s t u : Session)
    → s.in_flight ≡ 1
    → s.queue_write ≡ p ∷ next ∷ q
    → write_handler true s ≡ ok t
    → Steps failed t u
    → IsStalled u × NoProgress t u
write_handler-IsStalled failed p next q s t u busy e handled run =
    Steps-IsStalled run (handled_lem p next q s t busy e handled)
