-- ===== src/Transfers/Reads.antt =====
-- What one read of a handler gives, by what asio gives.
use marisa.Prelude.{
  ℕ, ◌-◌, ◌≤◌, ◌≡◌, ◌⊎◌, inl, inr, refl, ap, ◌∙◌, Bool, true, false, not, ◌&&◌, [], ◌++◌,
  append-nil, Bytes, if◌then◌else◌, take, drop, replicate, length, length-append, take-append,
  Result, ok, raise, system_error, arith,
}
use marisa.Connection.{Connection, error_action}
use marisa.Transfers.{
  Completion, Asio, resize, overwrite, Io, waited, read_into, read_coro, Transport, session_tcp,
  session_ssl, session_unix, read_blocking, read_request,
}
use marisa.Transfers.Manual.{IsAsio}

-- A vector that is cut to the size of its front is this front.
resize-overwrite : (bytes buffer : Bytes) → resize (length bytes) (overwrite bytes buffer) ≡ bytes
unfolding resize
resize-overwrite bytes buffer =
    let rest = drop (length bytes) buffer in
    let none_added : length bytes - length (bytes ++ rest) ≡ 0 =
      omega (arith, length-append bytes rest) in
    rw none_added (append-nil (take (length bytes) (bytes ++ rest)) ∙ take-append bytes rest)

module _ (M Regex : Type 0) (asio : Asio) (laws : IsAsio asio) where
  open asio use {Wire, async_read_some, async_read}
  open laws use {unread, some_order, full_order}

  -- What both of asio's reads keep.
  abbrev pub InOrder : (ℕ → Wire → Completion × Wire) → Type 0
  InOrder read_op =
      (size : ℕ) (w : Wire)
      → ((read_op size w).0.bytes ++ unread (read_op size w).1 ≡ unread w)
        × (length (read_op size w).0.bytes ≤ size)
        × (((read_op size w).0.error ≡ true) ⊎ ((read_op size w).0.late ≡ false))

  abbrev pub outcome : Completion → Result Bytes
  outcome c = if c.error then raise system_error else ok c.bytes

  -- The session behind a read; only a promise's handler closes the socket itself.
  abbrev pub after : (closes : Bool) → Completion → Connection M Regex → Connection M Regex
  after closes c s =
      if c.error && closes
      then error_action M Regex (waited M Regex asio c.late s)
      else waited M Regex asio c.late s

  -- The classes of sessions.
  abbrev pub IsTransport : Transport M Regex asio → Type 0
  IsTransport transport =
      (transport ≡ session_tcp M Regex asio)
      ⊎ ((transport ≡ session_ssl M Regex asio) ⊎ (transport ≡ session_unix M Regex asio))

  -- With nothing of the body left, a handler reads by one of asio's two functions.
  abbrev pub ReadsBy :
      (mode_async : Bool) → Transport M Regex asio → (ℕ → Wire → Completion × Wire) → Type 0
  ReadsBy mode_async transport read_op =
      (size : ℕ) (io : Io M Regex asio)
      → read_request M Regex asio mode_async transport size [] io ≡ (
        outcome (read_op size io.wire).0,
        (
          [],
          record {
            session = after (not mode_async) (read_op size io.wire).0 io.session;
            wire = (read_op size io.wire).1;
          },
        ),
      )

  and_true : (b : Bool) → b && true ≡ b
  and_true true = refl
  and_true false = refl

  and_false : (b : Bool) → b && false ≡ false
  and_false true = refl
  and_false false = refl

  pub blocking-ReadsBy :
      (transport : Transport M Regex asio) (read_op : ℕ → Wire → Completion × Wire)
      → transport.read_async_promised_impl ≡ read_into M Regex asio read_op
      → ReadsBy false transport read_op
  unfolding read_request read_blocking read_into
  blocking-ReadsBy transport read_op promised size io =
      let c = (read_op size io.wire).0 in
      rw
        (
          read_request,
          read_blocking,
          promised,
          resize-overwrite c.bytes (replicate size 0),
          and_true c.error,
        )
        refl

  pub coro-ReadsBy :
      (transport : Transport M Regex asio) (read_op : ℕ → Wire → Completion × Wire)
      → transport.read_async_coro_impl ≡ read_coro M Regex asio read_op
      → ReadsBy true transport read_op
  unfolding read_request read_coro
  coro-ReadsBy transport read_op coroutine size io =
      let c = (read_op size io.wire).0 in
      rw (read_request, coroutine, resize-overwrite c.bytes (replicate size 0), and_false c.error)
        refl

  -- What all three classes do in the same way.
  pub same_function :
      {A : Type 0} (f : Transport M Regex asio → A) (a : A) (transport : Transport M Regex asio)
      → f (session_tcp M Regex asio) ≡ a
      → f (session_ssl M Regex asio) ≡ a
      → f (session_unix M Regex asio) ≡ a
      → IsTransport transport
      → f transport ≡ a
  same_function f a transport tcp ssl unix (inl e) = ap f e ∙ tcp
  same_function f a transport tcp ssl unix (inr (inl e)) = ap f e ∙ ssl
  same_function f a transport tcp ssl unix (inr (inr e)) = ap f e ∙ unix

  -- What the two that are not TCP do in the same way.
  pub promised_impl :
      (transport : Transport M Regex asio)
      → (transport ≡ session_ssl M Regex asio) ⊎ (transport ≡ session_unix M Regex asio)
      → transport.read_async_promised_impl ≡ read_into M Regex asio async_read
  promised_impl transport (inl e) = ap (λ t. t.read_async_promised_impl) e
  promised_impl transport (inr e) = ap (λ t. t.read_async_promised_impl) e

  pub coro_impl :
      (transport : Transport M Regex asio)
      → IsTransport transport
      → transport.read_async_coro_impl ≡ read_coro M Regex asio async_read_some
  coro_impl transport known =
      same_function (λ t. t.read_async_coro_impl) (read_coro M Regex asio async_read_some) transport
        refl refl refl known

  pub read-ReadsBy :
      (mode_async : Bool) (transport : Transport M Regex asio)
      → IsTransport transport
      → (read_op : ℕ → Wire → Completion × Wire) × InOrder read_op
        × ReadsBy mode_async transport read_op
  read-ReadsBy true transport known = (
    async_read_some,
    some_order,
    coro-ReadsBy transport async_read_some (coro_impl transport known),
  )
  read-ReadsBy false transport (inl e) = (
    async_read_some,
    some_order,
    blocking-ReadsBy transport async_read_some (ap (λ t. t.read_async_promised_impl) e),
  )
  read-ReadsBy false transport (inr other) = (
    async_read,
    full_order,
    blocking-ReadsBy transport async_read (promised_impl transport other),
  )
