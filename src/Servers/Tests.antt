-- ===== src/Servers/Tests.antt =====
-- Two servers that are run, stopped and run again.
use marisa.Prelude.{◌≡◌, refl, true, false, [], ◌∷◌, raise, system_error, arith}
use marisa.Servers.{Servers, new_server, listen_all, listen, run, stop}
use marisa.Servers.Threads.{EveryServer, IsServedBy, IsDead, run-stop-run}

abbrev no_servers : Servers
no_servers = record { tcp_servers = []; ssl_servers = []; unix_servers = []; nr_io_threads = 1 }

abbrev two_servers : Servers
two_servers = (listen true 2 no_servers).1

-- A server whose address cannot be bound stays in the list, and does not listen.
bind_fails :
    listen false 2 no_servers
    ≡ (raise system_error, record no_servers { tcp_servers = new_server ∷ [] })
unfolding listen listen_all
bind_fails = refl

run-stop-run_example :
    EveryServer (IsServedBy 3) (run 3 two_servers)
    × EveryServer IsDead (stop (run 3 two_servers))
    × EveryServer IsDead (run 4 (stop (run 3 two_servers)))
unfolding listen listen_all
run-stop-run_example =
    run-stop-run 3 4 two_servers (λ e. omega (arith, e))
      (((refl, refl), ((refl, refl), tt)), tt, tt)
