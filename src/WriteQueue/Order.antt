-- ===== src/WriteQueue/Order.antt =====
-- One write at a time, in the order of arrival.
use marisa.Prelude.{
  ℕ, zero, suc, ◌≤◌, ◌≡◌, ◌≢◌, ◌⊎◌, inl, inr, refl, sym, ap, ◌∙◌, Bool, true, false, List, [], ◌∷◌,
  ◌++◌, map, append-nil, append_assoc, Bytes, leb, drop, length, length-append, Result, ok, arith,
}
use mathlib.Core.Path.{subst}
use marisa.WriteQueue.{
  Session, new_session, write_async_promised_impl, arrange_async_write, write_handler, Step,
  arrange, handle, Steps, done, step,
}

-- The data that waits behind the write in flight.
abbrev pub waiting : Session → List Bytes
waiting s = drop s.in_flight (map (λ p. p.0) s.queue_write)

-- At most one write is in flight, and then the queue holds its data; what was started and what waits
-- make up what was arranged.
pub record InOrder (s : Session) : Type 0 where
  pub one_write : (s.in_flight ≡ 0) ⊎ ((s.in_flight ≡ 1) × (s.queue_write ≢ []))
  pub in_order : s.arranged ≡ s.started ++ waiting s

-- No data waits for a write that no handler will start.
abbrev pub IsLive : Session → Type 0
IsLive s = (s.queue_write ≡ []) ⊎ (s.in_flight ≢ 0)

drop-map_snoc :
    (n : ℕ) (q : List (Bytes × ℕ)) (x : Bytes × ℕ)
    → n ≤ length q
    → drop n (map (λ p. p.0) (q ++ x ∷ [])) ≡ drop n (map (λ p. p.0) q) ++ x.0 ∷ []
drop-map_snoc zero [] x h = refl
drop-map_snoc zero (p ∷ q) x h = ap (λ l. p.0 ∷ l) (drop-map_snoc zero q x (omega arith))
drop-map_snoc (suc n) [] x h = absurd (omega arith)
drop-map_snoc (suc n) (p ∷ q) x h = drop-map_snoc n q x (omega arith)

arrange-InOrder :
    (bytes : Bytes) (promise n : ℕ) (q : List (Bytes × ℕ)) (ps : List (ℕ × Bool)) (c : Bool)
    (st ar : List Bytes)
    → let s : Session = record {
      queue_write = q;
      in_flight = n;
      promises = ps;
      close_requested = c;
      started = st;
      arranged = ar;
    } in
      InOrder s
      → (t : Session) × (arrange_async_write bytes promise s ≡ ok t)
        × InOrder t
        × (IsLive s → IsLive t)
unfolding arrange_async_write write_async_promised_impl
arrange-InOrder bytes promise zero [] ps c st ar h = (
  record {
    queue_write = (bytes, promise) ∷ [];
    in_flight = 1;
    promises = ps;
    close_requested = c;
    started = st ++ bytes ∷ [];
    arranged = ar ++ bytes ∷ [];
  },
  refl,
  record {
    one_write = inr (refl, (λ e. cc));
    in_order =
        ap (λ l. l ++ bytes ∷ []) (h.in_order ∙ append-nil st)
        ∙ sym (append-nil (st ++ bytes ∷ []));
  },
  (λ live. inr (λ e. omega (arith, e))),
)
arrange-InOrder bytes promise (suc n) [] ps c st ar h = elim h.one_write [
  | inl e ↦ absurd (omega arith)
  | inr (e, full) ↦ absurd (full refl)
]
arrange-InOrder bytes promise n (p ∷ q) ps c st ar h =
    let more : leb (length (p ∷ q ++ (bytes, promise) ∷ [])) 1 ≡ false =
      ground (arith, length-append q ((bytes, promise) ∷ [])) in
    let few : n ≤ length (p ∷ q) = elim h.one_write [
      | inl e ↦ omega arith
      | inr (e, full) ↦ omega arith
    ] in
    (
      record {
        queue_write = p ∷ q ++ (bytes, promise) ∷ [];
        in_flight = n;
        promises = ps;
        close_requested = c;
        started = st;
        arranged = ar ++ bytes ∷ [];
      },
      rw more refl,
      record {
        one_write = elim h.one_write [ inl e ↦ inl e | inr (e, full) ↦ inr (e, (λ x. cc)) ];
        in_order =
            ap (λ l. l ++ bytes ∷ []) h.in_order
            ∙ append_assoc st (drop n (map (λ p. p.0) (p ∷ q))) (bytes ∷ [])
            ∙ ap (λ l. st ++ l) (sym (drop-map_snoc n (p ∷ q) (bytes, promise) few));
      },
      (λ live. elim live [ inl nothing ↦ cc | inr busy ↦ inr busy ]),
    )

handle-InOrder :
    (error : Bool) (n : ℕ) (q : List (Bytes × ℕ)) (ps : List (ℕ × Bool)) (c : Bool)
    (st ar : List Bytes)
    → let s : Session = record {
      queue_write = q;
      in_flight = n;
      promises = ps;
      close_requested = c;
      started = st;
      arranged = ar;
    } in
      InOrder s
      → n ≢ 0
      → (t : Session) × (write_handler error s ≡ ok t) × InOrder t × (error ≡ false → IsLive t)
unfolding write_handler write_async_promised_impl
handle-InOrder error zero q ps c st ar h k = absurd (k refl)
handle-InOrder error (suc n) [] ps c st ar h k = elim h.one_write [
  | inl e ↦ absurd (k e)
  | inr (e, full) ↦ absurd (full refl)
]
handle-InOrder error (suc (suc n)) (p ∷ q) ps c st ar h k = elim h.one_write [
  | inl e ↦ absurd (omega arith)
  | inr (e, full) ↦ absurd (omega arith)
]
handle-InOrder true (suc zero) (p ∷ q) ps c st ar h k = (
  record {
    queue_write = q;
    in_flight = 0;
    promises = ps ++ (p.1, true) ∷ [];
    close_requested = true;
    started = st;
    arranged = ar;
  },
  refl,
  record { one_write = inl refl; in_order = h.in_order },
  (λ e. cc),
)
handle-InOrder false (suc zero) (p ∷ []) ps c st ar h k = (
  record {
    queue_write = [];
    in_flight = 0;
    promises = ps ++ (p.1, false) ∷ [];
    close_requested = c;
    started = st;
    arranged = ar;
  },
  refl,
  record { one_write = inl refl; in_order = h.in_order },
  (λ e. inl refl),
)
handle-InOrder false (suc zero) (p ∷ next ∷ q) ps c st ar h k = (
  record {
    queue_write = next ∷ q;
    in_flight = 1;
    promises = ps ++ (p.1, false) ∷ [];
    close_requested = c;
    started = st ++ next.0 ∷ [];
    arranged = ar;
  },
  refl,
  record {
    one_write = inr (refl, (λ e. cc));
    in_order = h.in_order ∙ sym (append_assoc st (next.0 ∷ []) (map (λ p. p.0) q));
  },
  (λ e. inr (λ x. omega (arith, x))),
)

same_result : {s t : Session} {r : Result Session} → r ≡ ok t → r ≡ ok s → s ≡ t
same_result e f = cc

Step-InOrder :
    {error : Bool} {s t : Session}
    → Step error s t
    → InOrder s
    → InOrder t × (error ≡ false → IsLive s → IsLive t)
Step-InOrder (arrange {s} {t} bytes promise e) h =
    let (u, ran, order, live) =
      arrange-InOrder bytes promise s.in_flight s.queue_write s.promises s.close_requested s.started
        s.arranged h in
    subst (λ x. InOrder x × (false ≡ false → IsLive s → IsLive x)) (same_result e ran)
      (order, (λ x. live))
Step-InOrder (handle {s} {t} error busy e) h =
    let (u, ran, order, live) =
      handle-InOrder error s.in_flight s.queue_write s.promises s.close_requested s.started
        s.arranged h busy in
    subst (λ x. InOrder x × (error ≡ false → IsLive s → IsLive x)) (same_result e ran)
      (order, (λ x y. live x))

Steps-InOrder :
    {failed : Bool} {s t : Session}
    → Steps failed s t
    → InOrder s
    → IsLive s
    → InOrder t × (failed ≡ false → IsLive t)
Steps-InOrder done h live = (h, (λ e. live))
Steps-InOrder (step {failed} {error} {s} {t} {u} run last) h live =
    let (before, live_before) = Steps-InOrder run h live in
    let (after, live_after) = Step-InOrder last before in
    (after, (λ e. live_after (ground arith) (live_before (ground arith))))

new_session_lem :
    {failed : Bool} {s : Session}
    → Steps failed new_session s
    → InOrder s × (failed ≡ false → IsLive s)
new_session_lem run =
    Steps-InOrder run (record { one_write = inl refl; in_order = refl }) (inl refl)

-- However writes are arranged and end, with errors or without, a session has at most one write in
-- flight, whose data stands in the queue, and what was given to asio, followed by what waits, is what
-- was arranged, in order.
pub new_session-InOrder : (failed : Bool) (s : Session) → Steps failed new_session s → InOrder s
new_session-InOrder failed s run = (new_session_lem run).0

-- If no write failed, the queue is empty or a write is in flight, whose handler starts the next.
pub new_session-IsLive : (s : Session) → Steps false new_session s → IsLive s
new_session-IsLive s run = (new_session_lem run).1 refl

-- Whatever happened before, the handler of a write that is in flight finds its data and its promise in
-- the queue, with an error or without, and to arrange a write works too.
pub write_handler-ok :
    (failed error : Bool) (bytes : Bytes) (promise : ℕ) (s : Session)
    → Steps failed new_session s
    → s.in_flight ≢ 0
    → ((t : Session) × (write_handler error s ≡ ok t))
      × ((t : Session) × (arrange_async_write bytes promise s ≡ ok t))
write_handler-ok failed error bytes promise s run busy =
    let order = (new_session_lem run).0 in
    let (t, handled, kept, rest) =
      handle-InOrder error s.in_flight s.queue_write s.promises s.close_requested s.started
        s.arranged order busy in
    let (u, arranged, held, more) =
      arrange-InOrder bytes promise s.in_flight s.queue_write s.promises s.close_requested s.started
        s.arranged order in
    ((t, handled), (u, arranged))
