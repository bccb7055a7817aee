-- ===== src/Context/Tests.antt =====
-- Runs of the context.
use marisa.Prelude.{
  pos, negsuc, ℕ, ◌≡◌, inl, refl, true, false, Option, none, some, List, [], ◌∷◌, Bytes, codes,
  bytes_eq, if◌then◌else◌, Result, ok, raise, fault, find,
}
use marisa.Http1.{
  init, Event, on_url, on_headers_complete, on_message_complete, parse, callbacks, callback,
  callback_url, callback_headers_complete, callback_message_complete, parse_url, lowercase, flush,
}
use marisa.Utilities.{explode_zerocopy}
use marisa.Routes.{Route, new_route, App, find_method}
use marisa.Context.{
  Config, Context, parsed, init_handler_data, match_routes, keep_connection, use_route, find_route,
  route_and_run, parse_data, process_request_data,
}
use marisa.Context.Matching.{match_routes-last}
use marisa.Context.Ready.{Outcome}
use marisa.Context.Runs.{process_request_data-Outcome}

-- A search whose expressions are texts, which match what is equal.
abbrev search_equal : Bytes → Bytes → Option (List Bytes)
search_equal url regex = if bytes_eq url regex then some (regex ∷ []) else none

abbrev one_route : Route ℕ
one_route = record (new_route ℕ) { routemethods_mapping = (1, 7 ∷ []) ∷ [] }

abbrev app : App ℕ Bytes
app = record { route_mapping = (codes "/a", one_route) ∷ []; route_global = none }

abbrev config : Config
config = record { max_header_size = 10240; max_requests_per_conn = 65535; timeout_seconds = 60 }

abbrev fresh : Context ℕ Bytes
fresh = record {
  http_parser = init;
  want_read = false;
  not_streamed = false;
  is_keepalive = false;
  keepalive_config = (negsuc 0, pos 0);
  route = none;
  handlers = none;
  url_smatch = [];
  pages = [];
  running = false;
}

abbrev request : List Event
request = on_url (codes "/a") ∷ on_headers_complete 1 ∷ on_message_complete ∷ []

abbrev context_of : Result (Context ℕ Bytes) → Context ℕ Bytes
context_of (ok c) = c
context_of (raise e) = fresh
context_of fault = fresh

abbrev served : Context ℕ Bytes
served =
    context_of
      (process_request_data ℕ Bytes search_equal (λ l. l) 0 app config 30 request 30 30 fresh)

runs : served.running ≡ true
unfolding process_request_data parse_data route_and_run find_route use_route match_routes
    init_handler_data keep_connection parsed parse callbacks callback callback_headers_complete
    parse_url lowercase flush find bytes_eq find_method callback_url explode_zerocopy
    callback_message_complete
runs = refl

process_request_data-Outcome_example : Outcome ℕ Bytes served
unfolding process_request_data parse_data route_and_run find_route use_route match_routes
    init_handler_data keep_connection parsed parse callbacks callback callback_headers_complete
    parse_url lowercase flush find bytes_eq find_method callback_url explode_zerocopy
    callback_message_complete
process_request_data-Outcome_example =
    process_request_data-Outcome ℕ Bytes search_equal (λ l. l) 0 app config 30 30 30 request fresh
      served (inl (refl, refl)) (refl, refl) refl

match_routes-last_example :
    match_routes ℕ Bytes search_equal
      (codes "/a")
      ((codes "/a", new_route ℕ) ∷ (codes "/a", one_route) ∷ [])
      []
      none
    ≡ (codes "/a" ∷ codes "/a" ∷ [], some one_route)
unfolding bytes_eq
match_routes-last_example =
    match_routes-last ℕ Bytes search_equal (codes "/a") ((codes "/a", new_route ℕ) ∷ []) []
      (codes "/a") one_route (codes "/a" ∷ []) refl tt
