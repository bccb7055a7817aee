-- ===== src/Transfers/Tests.antt =====
-- Reads of a wire that is a text.
use marisa.Prelude.{
  ℕ, ◌≡◌, ◌⊎◌, inl, inr, refl, ap, Bool, true, false, [], Bytes, codes, length, ok, raise,
  system_error, arith,
}
use marisa.Connection.{new_connection, error_action, timer_fires}
use marisa.Transfers.{
  resize, Io, waited, read_into, write_with_callback, session_tcp, session_ssl, read_blocking,
  read_request,
}
use marisa.Transfers.Short.{read_request-short, UsesReadSome, UsesRead, Gives, Loses}
use marisa.Transfers.TextWire.{text_wire, text_wire-IsAsio}

abbrev on_wire : Bytes → Bool → Io ℕ Bytes text_wire
on_wire s over = record { session = new_connection ℕ Bytes; wire = (s, over) }

-- A body of three bytes, over TCP and over TLS.
tcp_short :
    read_request ℕ Bytes text_wire false
      (session_tcp ℕ Bytes text_wire)
      16
      []
      (on_wire (codes "a=1") false)
    ≡ (
      ok (codes "a=1"),
      (
        [],
        record { session = record (new_connection ℕ Bytes) { timer = true }; wire = ([], false) },
      ),
    )
unfolding read_request read_blocking read_into waited resize
tcp_short = refl

ssl_short :
    read_request ℕ Bytes text_wire false
      (session_ssl ℕ Bytes text_wire)
      16
      []
      (on_wire (codes "a=1") false)
    ≡ (
      raise system_error,
      (
        [],
        record {
          session = record (new_connection ℕ Bytes) { close_requested = true };
          wire = ([], false);
        },
      ),
    )
unfolding read_request read_blocking read_into waited timer_fires error_action
ssl_short = refl

-- A write whose peer is gone closes the session, and one of a coroutine does not.
write_gone : write_with_callback ℕ Bytes text_wire (codes "x") (on_wire [] true) ≡ (
  (true, 1),
  record {
    session = record (new_connection ℕ Bytes) { close_requested = true };
    wire = ([], true);
  },
)
unfolding write_with_callback waited error_action
write_gone = refl

read_request-short_example :
    (UsesReadSome ℕ Bytes text_wire text_wire-IsAsio false (session_ssl ℕ Bytes text_wire)
      × Gives ℕ Bytes text_wire text_wire-IsAsio false
          (session_ssl ℕ Bytes text_wire)
          4
          (on_wire (codes "a=1") false))
    ⊎ (UsesRead ℕ Bytes text_wire text_wire-IsAsio false (session_ssl ℕ Bytes text_wire)
        × Loses ℕ Bytes text_wire text_wire-IsAsio false
            (session_ssl ℕ Bytes text_wire)
            4
            (on_wire (codes "a=1") false))
read_request-short_example =
    read_request-short ℕ Bytes text_wire text_wire-IsAsio false (session_ssl ℕ Bytes text_wire) 4
      (on_wire (codes "a=1") false) (inr (inl refl))
      (λ e. let f = ap (length {A = ℕ}) e in omega (arith, f)) (omega arith)
