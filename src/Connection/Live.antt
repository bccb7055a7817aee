-- ===== src/Connection/Live.antt =====
-- A session is in one phase at a time.
use marisa.Prelude.{
  ℕ, ◌≡◌, inl, inr, refl, sym, ◌∙◌, Bool, true, Option, some, List, Bytes, ok, bind-inverse, arith,
}
use mathlib.Core.Path.{subst}
use marisa.Endpoints.{new_socket_tcp, new_socket_unix}
use marisa.Http1.{Headers}
use marisa.Routes.{App}
use marisa.Context.{Config}
use marisa.Connection.{
  Connection, new_connection, error_action, run_or_read, start_tcp, start_unix, start_ssl,
  timer_fires, read_handler, Step, shakes, reads, read_fails, ends, raw_ends, transfers,
  transfer_fails, fires, Run, starts_tcp, starts_unix, starts_ssl, step,
}
use marisa.Connection.Phases.{
  sum, sum-append, ok_inj, IsLive, HasSocket, Kept, handler_ends-IsLive, transfers-IsLive,
  raw_handler_ends-IsLive, quiet, handler_handshake-IsLive, Begun, begun,
}
use marisa.Connection.Reads.{read_handler-IsLive}

module _ (M Regex : Type 0) where
  module _ (regex_search : Bytes → Regex → Option (List Bytes)) (order : Headers → Headers)
      (front : ℕ) (app : App M Regex) (config : Config) (raw_mw : Bool) where
    Step-IsLive :
        {more : List ℕ} {s t : Connection M Regex}
        → Step M Regex regex_search order front app config raw_mw more s t
        → IsLive M Regex s
        → IsLive M Regex t × Kept M Regex (sum more) s t
    unfolding read_handler error_action timer_fires
    Step-IsLive (shakes {s = s} error shaking e) live =
        quiet M Regex s e (handler_handshake-IsLive M Regex raw_mw error s shaking live)
    Step-IsLive (reads {s = s} {t = t} size events rc some_read e) live =
        let (live', total) =
          read_handler-IsLive M Regex regex_search order front app config raw_mw size events rc s t
            some_read live e in
        (live', (omega (arith, total.0), total.1))
    Step-IsLive (read_fails {s = s} size events rc some_read e) live =
        quiet M Regex s (sym (ok_inj e)) (inl refl, (omega arith, refl))
    Step-IsLive (ends {s = s} run e) live =
        quiet M Regex s e (handler_ends-IsLive M Regex s run live)
    Step-IsLive (raw_ends {s = s} {t = t} mode_async catch_unhandled_exception thrown raw e) live =
        raw_handler_ends-IsLive M Regex mode_async catch_unhandled_exception thrown s t raw e live
    Step-IsLive (transfers {s = s} busy e) live =
        quiet M Regex s e (transfers-IsLive M Regex s busy live, (omega arith, refl))
    Step-IsLive (transfer_fails {s = s} busy e) live =
        quiet M Regex s e (inl refl, (omega arith, refl))
    Step-IsLive (fires {s = s} wait e) live = quiet M Regex s e (inl refl, (omega arith, refl))

    -- Until its socket is asked to close, a session is in one phase, whatever clients and handlers do:
    -- TLS shakes hands, and no timer waits; or one read is in flight, for a context that waits for
    -- data, and the timer waits; or a request's handler runs, with the request as complete as its route
    -- wants it; or the raw handler runs; or nothing does. The size that is compared with the header's
    -- bound is that of all that was read, and the description of the socket is there.
    pub Run-IsLive :
        {sizes : List ℕ} {s : Connection M Regex}
        → Run M Regex regex_search order front app config raw_mw sizes s
        → IsLive M Regex s × (s.total_read_size ≡ sum sizes) × HasSocket M Regex s
    unfolding start_tcp start_unix start_ssl
    Run-IsLive {s = s} (starts_tcp remote local e) =
        let (socket, made, same) =
          bind-inverse (new_socket_tcp remote local)
            (λ socket. ok (
              run_or_read M Regex raw_mw
                (record (new_connection M Regex) { conn_ctx = some socket })))
            s e in
        begun M Regex raw_mw s socket (ok_inj same)
    Run-IsLive {s = s} (starts_unix remote local e) =
        let (socket, made, same) =
          bind-inverse (new_socket_unix remote local)
            (λ socket. ok (
              run_or_read M Regex raw_mw
                (record (new_connection M Regex) { conn_ctx = some socket })))
            s e in
        begun M Regex raw_mw s socket (ok_inj same)
    Run-IsLive {s = s} (starts_ssl remote local e) =
        let (socket, made, same) =
          bind-inverse (new_socket_tcp remote local)
            (λ socket.
              ok (record (new_connection M Regex) { conn_ctx = some socket; handshake = true }))
            s e in
        subst (Begun M Regex raw_mw) (ok_inj same)
          (inr (inl (refl, refl, refl, refl, refl)), refl, (socket, refl))
    Run-IsLive (step {sizes = sizes} {more = more} {s = s} r st) =
        let (live, total, (socket, held)) = Run-IsLive r in
        let (live', (total', held')) = Step-IsLive st live in
        (live', omega (arith, total, total', sum-append sizes more), (socket, held' ∙ held))
