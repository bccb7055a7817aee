-- ===== src/Servers.antt =====
-- Source/App/App.cpp: listen, run and stop, and Source/Server/InstanceCommon.cpp: run and stop. Whether
-- asio can bind the address is an argument. `runs` counts the threads that are in io_service::run,
-- which returns at once if the io_service was stopped, and `accepts` the calls of async_accept.
pub mod Threads
mod Tests
use marisa.Prelude.{
  ℤ, pos, negsuc, ℕ, zero, suc, ◌+◌, ◌-◌, ◌*◌, ◌/◌, ◌%◌, ◌^◌, ◌≤◌, ◌<◌, ◌≡◌, ◌≢◌, ◌↔◌, ◌⊎◌, inl,
  inr, refl, sym, ap, ◌∙◌, Bool, true, false, not, ◌&&◌, ◌||◌, Option, none, some, List, [], ◌∷◌,
  ◌++◌, map, append-nil, append_assoc, Bytes, codes, IsByte, bytes_eq, bytes_eq_iff, bytes_eq_refl,
  to_upper, to_lower, ltb, leb, ◌==◌, ==_iff, ==_refl, if◌then◌else◌, Bool-cases, Option-cases,
  get_or, get_elem?, take, drop, replicate, length, length-append, length-drop, take-all,
  take-append, drop-append, append-take-drop, length-take, digits-print_number, find_text,
  starts_with, find_text-append, nil_of_length, all, All, All-append, All-imp, passes_below,
  passes_at, Result, ok, raise, fault, Exception, invalid_argument, logic_error, system_error,
  ◌>>=◌, ◌>>◌, at, bind_ok, bind-inverse, and_then, and_go_on, assert, length-take_below,
  length-replicate, length-positive, Always, Always-bind, Always-ok, Always-any, print_number,
  read_number, read_number-print_number, length-print_number, digit_char, digit_value, find,
  find-all, insert, assign, insert_all, find-insert, find-assign, find-insert_all, or_else, arith,
}

pub record Server : Type 0 where
  pub listening : Bool
  pub runs : ℕ
  pub accepts : ℕ
  pub stopped : Bool

pub record Servers : Type 0 where
  pub tcp_servers : List Server
  pub ssl_servers : List Server
  pub unix_servers : List Server
  pub nr_io_threads : ℕ

abbrev pub new_server : Server
new_server = record { listening = false; runs = 0; accepts = 0; stopped = false }

-- Instance::run, in a thread of its own.
unfoldable pub run_server : Server → Server
run_server s = record s { accepts = suc s.accepts; runs = if s.stopped then s.runs else suc s.runs }

-- Instance::stop: the threads return from io_service::run.
unfoldable pub stop_server : Server → Server
stop_server s = record s { stopped = true; runs = 0 }

-- The inner loops over the threads.
unfoldable pub times : (n : ℕ) → (Server → Server) → Server → Server
times zero f s = s
times (suc n) f s = times n f (f s)

-- listen: the server is in the list before its address is bound; if that fails, bind throws.
unfoldable pub listen_all : (binds : Bool) (instances : ℕ) → List Server → List Server × Bool
listen_all binds zero servers = (servers, true)
listen_all true (suc n) servers =
    listen_all true n (servers ++ record new_server { listening = true } ∷ [])
listen_all false (suc n) servers = (servers ++ new_server ∷ [], false)

unfoldable pub listen : (binds : Bool) (instances : ℕ) → Servers → Result (Unit {0}) × Servers
listen binds instances app =
    let l = listen_all binds instances app.tcp_servers in
    (if l.1 then ok tt else raise system_error, record app { tcp_servers = l.0 })

unfoldable pub listen_ssl : (binds : Bool) (instances : ℕ) → Servers → Result (Unit {0}) × Servers
listen_ssl binds instances app =
    let l = listen_all binds instances app.ssl_servers in
    (if l.1 then ok tt else raise system_error, record app { ssl_servers = l.0 })

unfoldable pub listen_unix : (binds : Bool) → Servers → Result (Unit {0}) × Servers
listen_unix binds app =
    let l = listen_all binds 1 app.unix_servers in
    (if l.1 then ok tt else raise system_error, record app { unix_servers = l.0 })

-- The runners of every server, while they run.
unfoldable pub run_io : (threads : ℕ) → Servers → Servers
run_io threads app = record app {
  tcp_servers = map (times threads run_server) app.tcp_servers;
  ssl_servers = map (times threads run_server) app.ssl_servers;
  unix_servers = map (times threads run_server) app.unix_servers;
}

unfoldable pub run : (threads_per_io_service : ℕ) → Servers → Servers
run threads_per_io_service app =
    run_io threads_per_io_service (record app { nr_io_threads = threads_per_io_service })

unfoldable pub stop : Servers → Servers
stop app = record app {
  tcp_servers = map (times app.nr_io_threads stop_server) app.tcp_servers;
  ssl_servers = map (times app.nr_io_threads stop_server) app.ssl_servers;
  unix_servers = map (times app.nr_io_threads stop_server) app.unix_servers;
}
