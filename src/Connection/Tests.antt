-- ===== src/Connection/Tests.antt =====
-- Runs of a session.
use marisa.Prelude.{
  ℕ, ◌≡◌, refl, true, false, Option, none, some, List, [], ◌∷◌, Bytes, codes, bytes_eq,
  if◌then◌else◌, Result, ok, raise, fault, arith,
}
use marisa.Endpoints.{IpEndpoint, new_socket_tcp}
use marisa.Http1.{Event, on_url, on_headers_complete, on_message_complete, parse, callbacks, flush}
use marisa.Routes.{Route, new_route, App}
use marisa.Context.{Config, parsed, route_and_run, parse_data, process_request_data}
use marisa.Connection.{
  Connection, new_connection, start_tcp, run_or_read, inline_async_read_impl, read_handler,
  decide_io_action_in_read, Run, starts_tcp, step, reads,
}
use marisa.Connection.Live.{Run-IsLive}
use marisa.Connection.Phases.{HasSocket, IsLive, IsOver}
use marisa.Connection.Limits.{read-IsOver}

abbrev search_equal : Bytes → Bytes → Option (List Bytes)
search_equal url regex = if bytes_eq url regex then some (regex ∷ []) else none

abbrev one_route : Route ℕ
one_route = record (new_route ℕ) { routemethods_mapping = (1, 7 ∷ []) ∷ [] }

abbrev app : App ℕ Bytes
app = record { route_mapping = (codes "/a", one_route) ∷ []; route_global = none }

abbrev config : Config
config = record { max_header_size = 40; max_requests_per_conn = 65535; timeout_seconds = 60 }

abbrev request : List Event
request = on_url (codes "/a") ∷ on_headers_complete 1 ∷ on_message_complete ∷ []

abbrev client : IpEndpoint
client = record {
  ip_address = record { text = codes "::1"; loopback = true; v4 = false; v6 = true };
  ip_port = 40000;
}

abbrev connection_of : Result (Connection ℕ Bytes) → Connection ℕ Bytes
connection_of (ok c) = c
connection_of (raise e) = new_connection ℕ Bytes
connection_of fault = new_connection ℕ Bytes

abbrev first : Connection ℕ Bytes
first = connection_of (start_tcp ℕ Bytes false (some client) (some client) (new_connection ℕ Bytes))

-- A part of a header was read.
abbrev second : Connection ℕ Bytes
second =
    connection_of
      (read_handler ℕ Bytes search_equal (λ l. l) 0 app config false false 30 [] 30 first)

second-Run : Run ℕ Bytes search_equal (λ l. l) 0 app config false (30 ∷ []) second
unfolding start_tcp new_socket_tcp run_or_read inline_async_read_impl read_handler
    decide_io_action_in_read process_request_data parse_data parsed parse callbacks flush
    route_and_run
second-Run = step (starts_tcp (some client) (some client) refl) (reads 30 [] 30 (λ e. cc) refl)

Run-IsLive_example :
    IsLive ℕ Bytes second × (second.total_read_size ≡ 30) × HasSocket ℕ Bytes second
unfolding start_tcp new_socket_tcp run_or_read inline_async_read_impl read_handler
    decide_io_action_in_read process_request_data parse_data parsed parse callbacks flush
    route_and_run
Run-IsLive_example = Run-IsLive ℕ Bytes search_equal (λ l. l) 0 app config false second-Run

read-IsOver_example :
    (t : Connection ℕ Bytes) × (read_handler ℕ Bytes search_equal
        (λ l. l)
        0
        app
        config
        false
        false
        20
        request
        20
        second
      ≡ ok t)
    × IsOver ℕ Bytes t
    × (t.app_ctx.pages ≡ second.app_ctx.pages)
unfolding start_tcp new_socket_tcp run_or_read inline_async_read_impl read_handler
    decide_io_action_in_read process_request_data parse_data parsed parse callbacks flush
    route_and_run
read-IsOver_example =
    read-IsOver ℕ Bytes search_equal (λ l. l) 0 app config false (30 ∷ []) second 20 request 20
      second-Run (λ e. cc) refl refl (omega arith)
