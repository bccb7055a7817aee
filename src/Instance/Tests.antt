-- ===== src/Instance/Tests.antt =====
-- Runs of a server.
use marisa.Prelude.{
  ℕ, ◌≡◌, ◌⊎◌, refl, true, false, none, some, Option, Bytes, ok, raise, system_error,
}
use marisa.Endpoints.{new_socket_tcp}
use marisa.Connection.{Connection, new_connection, start_tcp}
use marisa.Instance.{tcp_peer, Instance, start_peer, handler_accept, handler_accept-cases, IsGone}

abbrev waiting : Instance ℕ Bytes
waiting = record { accepting = true }

-- A client that is gone when its connection is accepted.
accept_gone : handler_accept ℕ Bytes false false (tcp_peer none none) waiting ≡ raise system_error
unfolding handler_accept start_peer start_tcp new_socket_tcp
accept_gone = refl

handler_accept-cases_example :
    ((handler_accept ℕ Bytes false false (tcp_peer none none) waiting ≡ raise system_error)
      × ((false ≡ false) × IsGone ℕ Bytes (tcp_peer none none)))
    ⊎ ((j : Instance ℕ Bytes) × (started : Option (Connection ℕ Bytes)) × (handler_accept ℕ Bytes
            false false
            (tcp_peer none none)
            waiting
          ≡ ok (j, started))
        × (¬ ((false ≡ false) × IsGone ℕ Bytes (tcp_peer none none)))
        × (j.accepting ≡ true)
        × (((false ≡ true) × (started ≡ none))
            ⊎ ((false ≡ false)
                × ((s : Connection ℕ Bytes) × (started ≡ some s)
                    × (start_peer ℕ Bytes false (tcp_peer none none) (new_connection ℕ Bytes)
                        ≡ ok s)))))
handler_accept-cases_example = handler_accept-cases ℕ Bytes false false (tcp_peer none none) waiting
