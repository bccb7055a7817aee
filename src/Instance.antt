-- ===== src/Instance.antt =====
-- Source/Server/InstanceTCP.cpp, InstanceSSL.cpp and InstanceUnix.cpp: a server that accepts one
-- connection after the other. `accepting` tells whether a call of async_accept is in flight.
mod Tests
use marisa.Prelude.{
  ℤ, pos, negsuc, ℕ, zero, suc, ◌+◌, ◌-◌, ◌*◌, ◌/◌, ◌%◌, ◌^◌, ◌≤◌, ◌<◌, ◌≡◌, ◌≢◌, ◌↔◌, ◌⊎◌, inl,
  inr, refl, sym, ap, ◌∙◌, Bool, true, false, not, ◌&&◌, ◌||◌, Option, none, some, List, [], ◌∷◌,
  ◌++◌, map, append-nil, append_assoc, Bytes, codes, IsByte, bytes_eq, bytes_eq_iff, bytes_eq_refl,
  to_upper, to_lower, ltb, leb, ◌==◌, ==_iff, ==_refl, if◌then◌else◌, Bool-cases, Option-cases,
  get_or, get_elem?, take, drop, replicate, length, length-append, length-drop, take-all,
  take-append, drop-append, append-take-drop, length-take, digits-print_number, find_text,
  starts_with, find_text-append, nil_of_length, all, All, All-append, All-imp, passes_below,
  passes_at, Result, ok, raise, fault, Exception, invalid_argument, logic_error, system_error,
  ◌>>=◌, ◌>>◌, at, bind_ok, bind-inverse, and_then, and_go_on, assert, length-take_below,
  length-replicate, length-positive, Always, Always-bind, Always-ok, Always-any, print_number,
  read_number, read_number-print_number, length-print_number, digit_char, digit_value, find,
  find-all, insert, assign, insert_all, find-insert, find-assign, find-insert_all, or_else, arith,
}
use marisa.Endpoints.{IpEndpoint, Socket, new_socket_tcp, new_socket_unix}
use marisa.Connection.{Connection, new_connection, start_tcp, start_unix, start_ssl, run_or_read}

-- What asio says of the two ends of a new connection, by the class of the server.
pub data Peer : Type 0 where
  tcp_peer ssl_peer : (remote local : Option IpEndpoint) → Peer
  unix_peer : (remote local : Option Bytes) → Peer

module _ (M Regex : Type 0) where
  -- The acceptor of a server.
  pub record Instance : Type 0 where
    pub accepting : Bool

  unfoldable pub prepare_next_session : Instance → Instance
  prepare_next_session i = record i { accepting = true }

  -- start of the class's session.
  unfoldable pub start_peer :
      (raw_mw : Bool) → Peer → Connection M Regex → Result (Connection M Regex)
  start_peer raw_mw (tcp_peer remote local) s = start_tcp M Regex raw_mw remote local s
  start_peer raw_mw (ssl_peer remote local) s = start_ssl M Regex remote local s
  start_peer raw_mw (unix_peer remote local) s = start_unix M Regex raw_mw remote local s

  -- The handler of async_accept, with the session that was started; asio's handlers keep that alive.
  unfoldable pub handler_accept :
      (raw_mw error : Bool) → Peer → Instance → Result (Instance × Option (Connection M Regex))
  handler_accept raw_mw error peer i =
      let j = record i { accepting = false } in
      if error
      then ok (prepare_next_session j, none)
      else (start_peer raw_mw peer (new_connection M Regex) >>= λ s.
          ok (prepare_next_session j, some s))

  -- An end is not known any more.
  abbrev IsGone : Peer → Type 0
  IsGone (tcp_peer remote local) = (remote ≡ none) ⊎ (local ≡ none)
  IsGone (ssl_peer remote local) = (remote ≡ none) ⊎ (local ≡ none)
  IsGone (unix_peer remote local) = (remote ≡ none) ⊎ (local ≡ none)

  start_peer-cases :
      (raw_mw : Bool) (peer : Peer) (s : Connection M Regex)
      → ((start_peer raw_mw peer s ≡ raise system_error) × IsGone peer)
        ⊎ ((t : Connection M Regex) × (start_peer raw_mw peer s ≡ ok t) × ¬ IsGone peer)
  unfolding start_peer start_tcp start_ssl start_unix new_socket_tcp new_socket_unix
  start_peer-cases raw_mw (tcp_peer none l) s = inl (refl, inl refl)
  start_peer-cases raw_mw (tcp_peer (some r) none) s = inl (refl, inr refl)
  start_peer-cases raw_mw (tcp_peer (some r) (some l)) s =
      inr (_, refl, λ gone. elim gone [ inl e ↦ cc | inr e ↦ cc ])
  start_peer-cases raw_mw (ssl_peer none l) s = inl (refl, inl refl)
  start_peer-cases raw_mw (ssl_peer (some r) none) s = inl (refl, inr refl)
  start_peer-cases raw_mw (ssl_peer (some r) (some l)) s =
      inr (_, refl, λ gone. elim gone [ inl e ↦ cc | inr e ↦ cc ])
  start_peer-cases raw_mw (unix_peer none l) s = inl (refl, inl refl)
  start_peer-cases raw_mw (unix_peer (some r) none) s = inl (refl, inr refl)
  start_peer-cases raw_mw (unix_peer (some r) (some l)) s =
      inr (_, refl, λ gone. elim gone [ inl e ↦ cc | inr e ↦ cc ])

  -- The handler of async_accept either throws, which is so exactly if there is no error and asio does
  -- not know an end of the connection any more; or a call of async_accept is in flight again, and the
  -- session was started as start of its class does, unless there was an error.
  pub handler_accept-cases :
      (raw_mw error : Bool) (peer : Peer) (i : Instance)
      → ((handler_accept raw_mw error peer i ≡ raise system_error)
          × ((error ≡ false) × IsGone peer))
        ⊎ ((j : Instance) × (started : Option (Connection M Regex)) × (handler_accept raw_mw error
                peer i
              ≡ ok (j, started))
            × (¬ ((error ≡ false) × IsGone peer))
            × (j.accepting ≡ true)
            × (((error ≡ true) × (started ≡ none))
                ⊎ ((error ≡ false)
                    × ((s : Connection M Regex) × (started ≡ some s)
                        × (start_peer raw_mw peer (new_connection M Regex) ≡ ok s)))))
  unfolding handler_accept prepare_next_session
  handler_accept-cases raw_mw true peer i =
      inr (_, none, refl, (λ (gone, e). cc), refl, inl (refl, refl))
  handler_accept-cases raw_mw false peer i =
      elim (start_peer-cases raw_mw peer (new_connection M Regex)) [
        | inl (raised, gone) ↦ inl (rw raised refl, (refl, gone))
        | inr (s, started, known) ↦
            inr (_, some s, rw started refl, (λ h. known h.1), refl, inr (refl, (s, refl, started)))
      ]
