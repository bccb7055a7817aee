-- ===== src/Context.antt =====
-- Source/App/Context.cpp: what the context of a request does with the data that the session reads.
-- The bits of `state` are fields. What http_parser makes of the data is an argument, as in Http1. The
-- library of regular expressions is one too: `regex_search` gives the matched groups. `pages` are the
-- statuses whose page was sent; `running` tells that run_handler was called, which runs the chain of
-- `handlers`.
pub mod Matching
pub mod Ready
pub mod Runs
mod Tests
use marisa.Prelude.{
  ℤ, pos, negsuc, ℕ, zero, suc, ◌+◌, ◌-◌, ◌*◌, ◌/◌, ◌%◌, ◌^◌, ◌≤◌, ◌<◌, ◌≡◌, ◌≢◌, ◌↔◌, ◌⊎◌, inl,
  inr, refl, sym, ap, ◌∙◌, Bool, true, false, not, ◌&&◌, ◌||◌, Option, none, some, List, [], ◌∷◌,
  ◌++◌, map, append-nil, append_assoc, Bytes, codes, IsByte, bytes_eq, bytes_eq_iff, bytes_eq_refl,
  to_upper, to_lower, ltb, leb, ◌==◌, ==_iff, ==_refl, if◌then◌else◌, Bool-cases, Option-cases,
  get_or, get_elem?, take, drop, replicate, length, length-append, length-drop, take-all,
  take-append, drop-append, append-take-drop, length-take, digits-print_number, nil_of_length, all,
  All, All-append, All-imp, passes_below, passes_at, Result, ok, raise, fault, Exception,
  invalid_argument, logic_error, system_error, ◌>>=◌, ◌>>◌, at, bind_ok, print_number, read_number,
  read_number-print_number, length-print_number, digit_char, digit_value, find, find-all, insert,
  assign, insert_all, find-insert, find-assign, find-insert_all, or_else, arith,
}
use marisa.Http1.{Headers, Parser, Event, parse}
use marisa.Routes.{Route, App, find_method}

-- `app.config`
pub record Config : Type 0 where
  pub max_header_size : ℕ
  pub max_requests_per_conn : ℕ
  pub timeout_seconds : ℕ

module _ (M Regex : Type 0) where
  pub record Context : Type 0 where
    pub http_parser : Parser
    pub want_read : Bool
    pub not_streamed : Bool
    pub is_keepalive : Bool
    pub keepalive_config : ℤ × ℤ
    pub route : Option (Route M)
    pub handlers : Option (List M)
    pub url_smatch : List Bytes
    pub pages : List ℕ
    pub running : Bool

  abbrev pub determine_hp_state : Context → Bool
  determine_hp_state c =
      if c.not_streamed then c.http_parser.is_finished else c.http_parser.header_finished

  -- A context that has returned, or goes on with the next part of the function.
  pub data Flow : Type 0 where
    returns goes_on : Context → Flow

  abbrev pub then_do : Flow → (Context → Result Context) → Result Context
  then_do (returns c) f = ok c
  then_do (goes_on c) f = f c

  -- An exception of the parser is caught; more data is asked for if it is not done.
  unfoldable pub parsed : Context → Parser × Result ℕ → Flow
  parsed c (p, raise e) = returns (record c { http_parser = p })
  parsed c (p, fault) = returns (record c { http_parser = p })
  parsed c (p, ok n) =
      let d = record c { http_parser = p } in
      if determine_hp_state d then goes_on d else returns (record d { want_read = true })

  abbrev pub use_default_status_page : ℕ → Context → Context
  use_default_status_page status c = record c { pages = c.pages ++ status ∷ [] }

  -- The middlewares for the request's method.
  unfoldable pub init_handler_data : Route M → Context → Result Flow
  init_handler_data r c = elim (find_method M c.http_parser.method r.routemethods_mapping) [
    | some [] ↦ raise logic_error
    | some (m ∷ ms) ↦ ok (goes_on (record c { handlers = some (m ∷ ms) }))
    | none ↦ elim r.routemethods_default [
      | [] ↦ ok (returns (use_default_status_page 404 c))
      | m ∷ ms ↦ ok (goes_on (record c { handlers = some (m ∷ ms) }))
    ]
  ]

  -- `Connection: keep-alive`
  unfoldable pub keep_connection : Config → Context → Context
  keep_connection config c = elim (find (codes "connection") c.http_parser.headers_lowercase) [
    | none ↦ c
    | some value ↦
        if bytes_eq value (codes "keep-alive")
        then record c {
          is_keepalive = true;
          keepalive_config = (pos config.timeout_seconds, pos config.max_requests_per_conn);
        }
        else c
  ]

  abbrev pub run_handler : Context → Context
  run_handler c = record c { running = true }

  module _ (regex_search : Bytes → Regex → Option (List Bytes)) where
    -- The loop over the routes: the groups of every route that matches are added to `smbuf`, and the
    -- route is the one found last.
    unfoldable pub match_routes :
        Bytes
        → List (Regex × Route M)
        → (smbuf : List Bytes) (route : Option (Route M)) → List Bytes × Option (Route M)
    match_routes url [] smbuf route = (smbuf, route)
    match_routes url ((regex, r) ∷ rms) smbuf route = elim (regex_search url regex) [
      | none ↦ match_routes url rms smbuf route
      | some url_smatch ↦ match_routes url rms (smbuf ++ url_smatch) (some r)
    ]

    -- With a route: its handlers, and the whole request if it is not streamed.
    unfoldable pub use_route : Route M → (smbuf : List Bytes) → Context → Result Flow
    use_route r smbuf c = init_handler_data r (record c { route = some r }) >>= λ flow. elim flow [
      | returns d ↦ ok (returns d)
      | goes_on d ↦
          let whole = record d { url_smatch = smbuf; not_streamed = true } in
          if r.mode_streamed
          then ok (goes_on (record d { url_smatch = smbuf }))
          else (if determine_hp_state whole
              then ok (goes_on whole)
              else ok (returns (record whole { want_read = true })))
    ]

    unfoldable pub find_route : App M Regex → Config → Context → Result Flow
    find_route app config c = elim c.route [
      | some r ↦ ok (goes_on c)
      | none ↦
          let kept = keep_connection config c in
          let matched = match_routes c.http_parser.url app.route_mapping [] none in
          elim (or_else matched.1 app.route_global) [
            | none ↦ ok (returns (use_default_status_page 404 kept))
            | some r ↦ use_route r matched.0 kept
          ]
    ]

    -- From the data's state on: the route, and its handler.
    unfoldable pub route_and_run : App M Regex → Config → Flow → Result Context
    route_and_run app config (returns c) = ok c
    route_and_run app config (goes_on c) =
        find_route app config c >>= λ flow. then_do flow (λ d. ok (run_handler d))

    module _ (order : Headers → Headers) (front : ℕ) where
      -- The first part: `http_parser` took `rc` of the `len` bytes and made the calls `events`.
      unfoldable pub parse_data :
          Config → (total_read_size : ℕ) → List Event → (rc len : ℕ) → Context → Result Flow
      parse_data config total_read_size events rc len c =
          let result = parse order front events rc len c.http_parser in
          if determine_hp_state c
          then ok (goes_on c)
          else (if ltb config.max_header_size total_read_size
              then ok (returns c)
              else (result >>= λ r. ok (parsed c r)))

      unfoldable pub process_request_data :
          App M Regex
          → Config
          → (total_read_size : ℕ) → List Event
          → (rc len : ℕ) → Context
          → Result Context
      process_request_data app config total_read_size events rc len c =
          parse_data config total_read_size events rc len c >>= route_and_run app config
