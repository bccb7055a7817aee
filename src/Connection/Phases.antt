-- ===== src/Connection/Phases.antt =====
-- What is in flight in a session, until its socket is asked to close.
use marisa.Prelude.{
  ℕ, suc, ◌+◌, ◌≡◌, ◌⊎◌, inl, inr, refl, sym, ap, ◌∙◌, Bool, true, false, some, List, [], ◌∷◌, ◌++◌,
  Bool-cases, Option, none, Exception, if◌then◌else◌, ok, arith,
}
use mathlib.Core.Path.{subst}
use marisa.Endpoints.{Socket}
use marisa.Context.Ready.{IsWaiting, IsReady}
use marisa.Connection.{
  Connection, new_context, new_connection, setup_timeout_timer, inline_async_read_impl, run_or_read,
  handler_handshake, reload_context, handler_ends, close_socket, raw_handler_ends,
}

abbrev pub sum : List ℕ → ℕ
sum [] = 0
sum (n ∷ ns) = n + sum ns

pub sum-append : (ns ms : List ℕ) → sum (ns ++ ms) ≡ sum ns + sum ms
sum-append [] ms = omega arith
sum-append (n ∷ ns) ms = omega (arith, sum-append ns ms)

pub ok_inj {ℓ} : {A : Type ℓ} {a b : A} → ok a ≡ ok b → a ≡ b
ok_inj e = cc

module _ (M Regex : Type 0) where
  -- TLS shakes hands, with no timer; or one read is in flight, with the timer, for a context that
  -- waits for data; or a request's handler runs; or the raw handler does; or none of these.
  abbrev pub IsShaking : Connection M Regex → Type 0
  IsShaking s =
      (s.handshake ≡ true)
      × (s.inline_reads ≡ 0)
      × (s.app_ctx ≡ new_context M Regex)
      × (s.raw ≡ false)
      × (s.timer ≡ false)

  abbrev pub IsReading : Connection M Regex → Type 0
  IsReading s =
      (s.handshake ≡ false)
      × (s.inline_reads ≡ 1)
      × (s.app_ctx.running ≡ false)
      × (s.raw ≡ false)
      × (s.timer ≡ true)
      × IsWaiting M Regex s.app_ctx

  abbrev pub IsHandling : Connection M Regex → Type 0
  IsHandling s =
      (s.handshake ≡ false)
      × (s.inline_reads ≡ 0)
      × (s.app_ctx.running ≡ true)
      × (s.raw ≡ false)
      × IsReady M Regex s.app_ctx

  abbrev pub IsRaw : Connection M Regex → Type 0
  IsRaw s =
      (s.handshake ≡ false) × (s.inline_reads ≡ 0) × (s.app_ctx.running ≡ false) × (s.raw ≡ true)

  abbrev pub IsOver : Connection M Regex → Type 0
  IsOver s =
      (s.handshake ≡ false) × (s.inline_reads ≡ 0) × (s.app_ctx.running ≡ false) × (s.raw ≡ false)

  abbrev pub Phase : Connection M Regex → Type 0
  Phase s = IsShaking s ⊎ (IsReading s ⊎ (IsHandling s ⊎ (IsRaw s ⊎ IsOver s)))

  abbrev pub IsLive : Connection M Regex → Type 0
  IsLive s = (s.close_requested ≡ true) ⊎ Phase s

  abbrev pub HasSocket : Connection M Regex → Type 0
  HasSocket s = (socket : Socket) × (s.conn_ctx ≡ some socket)

  -- What was read is counted, and the socket's description stays.
  abbrev pub Kept : ℕ → (s t : Connection M Regex) → Type 0
  Kept n s t = (t.total_read_size ≡ s.total_read_size + n) × (t.conn_ctx ≡ s.conn_ctx)

  IsLive-running :
      (s : Connection M Regex)
      → s.app_ctx.running ≡ true
      → IsLive s
      → (s.close_requested ≡ true) ⊎ IsHandling s
  IsLive-running s run (inl closed) = inl closed
  IsLive-running s run (inr (inl p)) = let e = ap (λ c. c.running) p.2 in cc
  IsLive-running s run (inr (inr (inl p))) = let e = p.2 in cc
  IsLive-running s run (inr (inr (inr (inl p)))) = inr p
  IsLive-running s run (inr (inr (inr (inr (inl p))))) = let e = p.2 in cc
  IsLive-running s run (inr (inr (inr (inr (inr p))))) = let e = p.2 in cc

  pub handler_ends-IsLive :
      (s : Connection M Regex)
      → s.app_ctx.running ≡ true
      → IsLive s
      → IsLive (handler_ends M Regex s) × Kept 0 s (handler_ends M Regex s)
  unfolding handler_ends reload_context inline_async_read_impl
  handler_ends-IsLive s run live = elim (Bool-cases s.app_ctx.is_keepalive) [
    | inl e ↦ rw e (
      elim (IsLive-running s run live) [
        | inl closed ↦ inl closed
        | inr (h, n, r, w, ready) ↦ inr (inr (inl (h, ap suc n, refl, w, refl, inl (refl, refl))))
      ],
      (omega arith, refl),
    )
    | inr e ↦ rw e (
      elim (IsLive-running s run live) [
        | inl closed ↦ inl closed
        | inr (h, n, r, w, ready) ↦ inr (inr (inr (inr (inr (h, n, refl, w)))))
      ],
      (omega arith, refl),
    )
  ]

  pub transfers-IsLive :
      (s : Connection M Regex)
      → (s.app_ctx.running ≡ true) ⊎ (s.raw ≡ true)
      → IsLive s
      → IsLive (setup_timeout_timer M Regex s)
  transfers-IsLive s busy (inl closed) = inl closed
  transfers-IsLive s (inl run) (inr p) = elim (IsLive-running s run (inr p)) [
    | inl closed ↦ inl closed
    | inr q ↦ inr (inr (inr (inl q)))
  ]
  transfers-IsLive s (inr w) (inr (inl p)) = let e = p.3 in cc
  transfers-IsLive s (inr w) (inr (inr (inl p))) = let e = p.3 in cc
  transfers-IsLive s (inr w) (inr (inr (inr (inl p)))) = let e = p.3 in cc
  transfers-IsLive s (inr w) (inr (inr (inr (inr (inl p))))) = inr (inr (inr (inr (inl p))))
  transfers-IsLive s (inr w) (inr (inr (inr (inr (inr p))))) = let e = p.3 in cc

  -- A step that reads nothing.
  pub quiet :
      {t u : Connection M Regex} (s : Connection M Regex)
      → t ≡ u
      → IsLive u × Kept 0 s u
      → IsLive t × Kept 0 s t
  quiet s e h = subst (λ u. IsLive u × Kept 0 s u) (sym e) h

  raw_over-IsLive :
      (s : Connection M Regex) → s.raw ≡ true → IsLive s → IsLive (record s { raw = false })
  raw_over-IsLive s raw (inl closed) = inl closed
  raw_over-IsLive s raw (inr (inl p)) = let e = p.3 in cc
  raw_over-IsLive s raw (inr (inr (inl p))) = let e = p.3 in cc
  raw_over-IsLive s raw (inr (inr (inr (inl p)))) = let e = p.3 in cc
  raw_over-IsLive s raw (inr (inr (inr (inr (inl p))))) =
      inr (inr (inr (inr (inr (p.0, p.1, p.2, refl)))))
  raw_over-IsLive s raw (inr (inr (inr (inr (inr p))))) = let e = p.3 in cc

  raw_returns-IsLive :
      (mode_async : Bool) (s t : Connection M Regex)
      → s.raw ≡ true
      → (let over = record s { raw = false } in
          ok (if mode_async then close_socket M Regex over else over))
        ≡ ok t
      → IsLive s
      → IsLive t × Kept 0 s t
  raw_returns-IsLive true s t raw e live = quiet s (sym (ok_inj e)) (inl refl, (omega arith, refl))
  raw_returns-IsLive false s t raw e live =
      quiet s (sym (ok_inj e)) (raw_over-IsLive s raw live, (omega arith, refl))

  pub raw_handler_ends-IsLive :
      (mode_async catch_unhandled_exception : Bool) (thrown : Option Exception)
      (s t : Connection M Regex)
      → s.raw ≡ true
      → raw_handler_ends M Regex mode_async catch_unhandled_exception thrown s ≡ ok t
      → IsLive s
      → IsLive t × Kept 0 s t
  unfolding raw_handler_ends
  raw_handler_ends-IsLive mode_async catch_unhandled_exception none s t raw e live =
      raw_returns-IsLive mode_async s t raw e live
  raw_handler_ends-IsLive mode_async true (some x) s t raw e live =
      raw_returns-IsLive mode_async s t raw e live
  raw_handler_ends-IsLive mode_async false (some x) s t raw e live = absurd (cc)

  module _ (raw_mw : Bool) where
    run_or_read-IsLive :
        (s : Connection M Regex)
        → s.handshake ≡ false
        → s.inline_reads ≡ 0
        → s.app_ctx ≡ new_context M Regex
        → s.raw ≡ false
        → Phase (run_or_read M Regex raw_mw s)
    unfolding run_or_read inline_async_read_impl
    run_or_read-IsLive s h n c r = elim (Bool-cases raw_mw) [
      | inl e ↦ rw e (inr (inr (inr (inl (h, n, ap (λ c. c.running) c, refl)))))
      | inr e ↦ rw e (
          inr (
            inl (
              h,
              ap suc n,
              ap (λ c. c.running) c,
              r,
              refl,
              inl (ap (λ c. c.route) c, ap (λ c. c.not_streamed) c),
            )))
    ]

    pub handler_handshake-IsLive :
        (error : Bool) (s : Connection M Regex)
        → s.handshake ≡ true
        → IsLive s
        → IsLive (handler_handshake M Regex raw_mw error s)
          × Kept 0 s (handler_handshake M Regex raw_mw error s)
    unfolding handler_handshake run_or_read inline_async_read_impl
    handler_handshake-IsLive true s shaking live = (inl refl, (omega arith, refl))
    handler_handshake-IsLive false s shaking live = (phase live, total)
      where
        done : Connection M Regex
        done = record s { handshake = false }

        total : Kept 0 s (run_or_read M Regex raw_mw done)
        total = elim (Bool-cases raw_mw) [
          | inl e ↦ rw e (omega arith, refl)
          | inr e ↦ rw e (omega arith, refl)
        ]

        closing : (run_or_read M Regex raw_mw done).close_requested ≡ s.close_requested
        closing = elim (Bool-cases raw_mw) [ inl e ↦ rw e refl | inr e ↦ rw e refl ]

        phase : IsLive s → IsLive (run_or_read M Regex raw_mw done)
        phase (inl closed) = inl (closing ∙ closed)
        phase (inr (inl p)) = inr (run_or_read-IsLive done refl p.1 p.2 p.3)
        phase (inr (inr (inl p))) = let e = p.0 in cc
        phase (inr (inr (inr (inl p)))) = let e = p.0 in cc
        phase (inr (inr (inr (inr (inl p))))) = let e = p.0 in cc
        phase (inr (inr (inr (inr (inr p))))) = let e = p.0 in cc

    run_or_read-Start :
        (socket : Socket)
        → let s =
            run_or_read M Regex raw_mw
              (record (new_connection M Regex) { conn_ctx = some socket }) in
          IsLive s × (s.total_read_size ≡ 0) × (s.conn_ctx ≡ some socket)
    unfolding run_or_read inline_async_read_impl
    run_or_read-Start socket =
        let s = record (new_connection M Regex) { conn_ctx = some socket } in
        let phase = run_or_read-IsLive s refl refl refl refl in
        elim (Bool-cases raw_mw) [
          | inl e ↦ (inr phase, rw e refl, rw e refl)
          | inr e ↦ (inr phase, rw e refl, rw e refl)
        ]

    abbrev pub Begun : Connection M Regex → Type 0
    Begun s = IsLive s × (s.total_read_size ≡ 0) × HasSocket s

    pub begun :
        (s : Connection M Regex) (socket : Socket)
        → run_or_read M Regex raw_mw (record (new_connection M Regex) { conn_ctx = some socket })
          ≡ s
        → Begun s
    begun s socket same =
        let (live, none_read, held) = run_or_read-Start socket in
        subst Begun same (live, none_read, (socket, held))
