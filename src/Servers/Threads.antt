-- ===== src/Servers/Threads.antt =====
-- How many threads serve.
use marisa.Prelude.{
  ℕ, zero, suc, ◌+◌, ◌≤◌, ◌≡◌, ◌≢◌, refl, true, false, List, [], ◌∷◌, map, All, arith,
}
use marisa.Servers.{Server, Servers, run_server, stop_server, times, run_io, run, stop}

abbrev pub EveryServer : (Server → Type 0) → Servers → Type 0
EveryServer P app = All P app.tcp_servers × All P app.ssl_servers × All P app.unix_servers

-- A server that was neither started nor stopped.
abbrev pub IsIdle : Server → Type 0
IsIdle s = (s.stopped ≡ false) × (s.runs ≡ 0)

-- So many threads serve, and a call of async_accept is in flight for each.
abbrev pub IsServedBy : ℕ → Server → Type 0
IsServedBy n s = (s.runs ≡ n) × (n ≤ s.accepts)

abbrev pub IsDead : Server → Type 0
IsDead s = (s.stopped ≡ true) × (s.runs ≡ 0)

times-run_server :
    (n : ℕ) (s : Server)
    → s.stopped ≡ false
    → ((times n run_server s).runs ≡ s.runs + n) × ((times n run_server s).accepts ≡ s.accepts + n)
unfolding times run_server
times-run_server zero s h = (omega arith, omega arith)
times-run_server (suc n) s h =
    let (r, a) = times-run_server n (run_server s) h in
    let one_more : (run_server s).runs ≡ suc s.runs = rw h refl in
    (omega (arith, r, one_more), omega (arith, a))

times-run_server-IsDead : (n : ℕ) (s : Server) → IsDead s → IsDead (times n run_server s)
unfolding times run_server
times-run_server-IsDead zero s h = h
times-run_server-IsDead (suc n) s h = times-run_server-IsDead n (run_server s) (h.0, rw h.0 h.1)

times-stop_server-IsDead : (n : ℕ) (s : Server) → IsDead s → IsDead (times n stop_server s)
unfolding times stop_server
times-stop_server-IsDead zero s h = h
times-stop_server-IsDead (suc n) s h = times-stop_server-IsDead n (stop_server s) (refl, refl)

times-stop_server : (n : ℕ) (s : Server) → n ≢ 0 → IsDead (times n stop_server s)
unfolding times stop_server
times-stop_server zero s h = absurd (h refl)
times-stop_server (suc n) s h = times-stop_server-IsDead n (stop_server s) (refl, refl)

All-map :
    (P Q : Server → Type 0) (f : Server → Server) (l : List Server)
    → ((s : Server) → P s → Q (f s))
    → All P l
    → All Q (map f l)
All-map P Q f [] h all_l = tt
All-map P Q f (s ∷ l) h (first, later) = (h s first, All-map P Q f l h later)

EveryServer-map :
    (P Q : Server → Type 0) (f : Server → Server) (app : Servers)
    → ((s : Server) → P s → Q (f s))
    → EveryServer P app
    → All Q (map f app.tcp_servers) × All Q (map f app.ssl_servers) × All Q (map f app.unix_servers)
EveryServer-map P Q f app h (t, s, u) = (
  All-map P Q f app.tcp_servers h t,
  All-map P Q f app.ssl_servers h s,
  All-map P Q f app.unix_servers h u,
)

-- A run, with at least one thread, of servers that are idle has that many threads serve each of them,
-- and at least as many calls of async_accept. When they are stopped, no thread serves them, and in a
-- later run none does either, whatever its number of threads.
pub run-stop-run :
    (n m : ℕ) (app : Servers)
    → n ≢ 0
    → EveryServer IsIdle app
    → EveryServer (IsServedBy n) (run n app)
      × EveryServer IsDead (stop (run n app))
      × EveryServer IsDead (run m (stop (run n app)))
unfolding run run_io stop
run-stop-run n m app positive idle =
    let served =
      EveryServer-map IsIdle (IsServedBy n) (times n run_server) app
        (λ s h. let (r, a) = times-run_server n s h.0 in (omega (arith, r, h.1), omega (arith, a)))
        idle in
    let dead =
      EveryServer-map (IsServedBy n) IsDead (times n stop_server) (run n app)
        (λ s h. times-stop_server n s positive) served in
    (
      served,
      dead,
      EveryServer-map IsDead IsDead (times m run_server) (stop (run n app))
          (λ s h. times-run_server-IsDead m s h) dead,
    )
