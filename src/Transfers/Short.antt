-- ===== src/Transfers/Short.antt =====
-- A body whose rest is shorter than the buffer of the handler that reads it.
use marisa.Prelude.{
  ℕ, ◌<◌, ◌≡◌, ◌≢◌, ◌⊎◌, inl, inr, refl, sym, ap, ◌∙◌, Bool, true, false, not, [], ◌++◌, Bytes,
  if◌then◌else◌, length, length-append, nil_of_length, ok, raise, system_error, arith,
}
use marisa.Connection.{Connection, setup_timeout_timer, timer_fires, error_action}
use marisa.Transfers.{
  Completion, Asio, Io, waited, Transport, session_tcp, session_ssl, session_unix, read_request,
}
use marisa.Transfers.Manual.{IsAsio}
use marisa.Transfers.Reads.{
  IsTransport, ReadsBy, after, blocking-ReadsBy, coro-ReadsBy, promised_impl, coro_impl,
}

module _ (M Regex : Type 0) (asio : Asio) (laws : IsAsio asio) where
  open asio use {Wire, async_read_some, async_read}
  open laws use {unread, ended, some_ready, full_order, full_short}

  abbrev pub UsesReadSome : (mode_async : Bool) → Transport M Regex asio → Type 0
  UsesReadSome mode_async transport = (mode_async ≡ true) ⊎ (transport ≡ session_tcp M Regex asio)

  abbrev pub UsesRead : (mode_async : Bool) → Transport M Regex asio → Type 0
  UsesRead mode_async transport =
      (mode_async ≡ false)
      × ((transport ≡ session_ssl M Regex asio) ⊎ (transport ≡ session_unix M Regex asio))

  -- The read gives some bytes.
  abbrev pub Gives :
      (mode_async : Bool) → Transport M Regex asio → (size : ℕ) → Io M Regex asio → Type 0
  Gives mode_async transport size io =
      (chunk : Bytes) × (io' : Io M Regex asio) × (read_request M Regex asio mode_async transport
          size [] io
        ≡ (ok chunk, ([], io')))
      × (chunk ≢ [])

  -- The session behind a read that threw: at once, or when the timer had fired.
  abbrev pub Behind : (ended : Bool) → Connection M Regex → Connection M Regex
  Behind ended s =
      let t = setup_timeout_timer M Regex s in
      error_action M Regex (if ended then t else timer_fires M Regex t)

  -- The read throws, the rest of the body is gone, and the socket is asked to close.
  abbrev pub Loses :
      (mode_async : Bool) → Transport M Regex asio → (size : ℕ) → Io M Regex asio → Type 0
  Loses mode_async transport size io =
      (io' : Io M Regex asio) × (read_request M Regex asio mode_async transport size [] io
        ≡ (raise system_error, ([], io')))
      × (unread io'.wire ≡ [])
      × (io'.session ≡ Behind (ended io.wire) io.session)
      × (io'.session.close_requested ≡ true)

  some-Gives :
      (mode_async : Bool) (transport : Transport M Regex asio) (size : ℕ) (io : Io M Regex asio)
      → ReadsBy M Regex asio laws mode_async transport async_read_some
      → 0 < size
      → unread io.wire ≢ []
      → Gives mode_async transport size io
  some-Gives mode_async transport size io reads positive waiting =
      let (fine, full) = some_ready size io.wire positive waiting in
      ((async_read_some size io.wire).0.bytes, _, rw fine at (reads size io), full)

  nothing_behind : (bytes rest : Bytes) → bytes ++ rest ≡ bytes → rest ≡ []
  nothing_behind bytes rest e =
      nil_of_length rest (omega (arith, ap (length {A = ℕ}) e, length-append bytes rest))

  after-Behind :
      (c : Completion) (over : Bool) (s : Connection M Regex)
      → c.error ≡ true
      → c.late ≡ not over
      → after M Regex asio laws true c s ≡ Behind over s
  unfolding waited
  after-Behind c true s failed late = rw (failed, waited, late) refl
  after-Behind c false s failed late = rw (failed, waited, late) refl

  full-Loses :
      (transport : Transport M Regex asio) (size : ℕ) (io : Io M Regex asio)
      → ReadsBy M Regex asio laws false transport async_read
      → length (unread io.wire) < size
      → Loses false transport size io
  unfolding error_action
  full-Loses transport size io reads short =
      let w = io.wire in
      let (failed, all_read, late) = full_short size w short in
      let behind = after-Behind (async_read size w).0 (ended w) io.session failed late in
      (
        record { session = Behind (ended w) io.session; wire = (async_read size w).1 },
        reads size io
            ∙ ap
                (λ b. (
                  if b then raise system_error else ok (async_read size w).0.bytes,
                  (
                    [],
                    record {
                      session = after M Regex asio laws true (async_read size w).0 io.session;
                      wire = (async_read size w).1;
                    },
                  ),
                ))
                failed
            ∙ ap
                (λ s.
                  (raise system_error, ([], record { session = s; wire = (async_read size w).1 })))
                behind,
        nothing_behind (unread w) (unread (async_read size w).1)
            (ap (λ b. b ++ unread (async_read size w).1) (sym all_read) ∙ (full_order size w).0),
        refl,
        refl,
      )

  -- When a handler reads with a buffer that is larger than what is unread of the body, and that is not
  -- nothing, from a peer that does not pause for as long as the timer waits: a coroutine, and a session
  -- over TCP, gets some of it. In a thread, over TLS or a Unix socket, the read throws, the rest of the
  -- body is lost, and the socket is asked to close: at once if the peer ends its side, and else when
  -- the timer has fired.
  pub read_request-short :
      (mode_async : Bool) (transport : Transport M Regex asio) (size : ℕ) (io : Io M Regex asio)
      → IsTransport M Regex asio laws transport
      → unread io.wire ≢ []
      → length (unread io.wire) < size
      → (UsesReadSome mode_async transport × Gives mode_async transport size io)
        ⊎ (UsesRead mode_async transport × Loses mode_async transport size io)
  read_request-short true transport size io known waiting short = inl (
    inl refl,
    some-Gives true transport size io
        (coro-ReadsBy M Regex asio laws transport async_read_some
          (coro_impl M Regex asio laws transport known))
        (omega arith) waiting,
  )
  read_request-short false transport size io (inl e) waiting short = inl (
    inr e,
    some-Gives false transport size io
        (blocking-ReadsBy M Regex asio laws transport async_read_some
          (ap (λ t. t.read_async_promised_impl) e))
        (omega arith) waiting,
  )
  read_request-short false transport size io (inr known) waiting short = inr (
    (refl, known),
    full-Loses transport size io
        (blocking-ReadsBy M Regex asio laws transport async_read
          (promised_impl M Regex asio laws transport known))
        short,
  )
