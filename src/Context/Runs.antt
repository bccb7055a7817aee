-- ===== src/Context/Runs.antt =====
-- What a read of data comes to.
use marisa.Prelude.{
  ℕ, ◌≡◌, inl, inr, refl, ap, ◌∙◌, true, false, Option, none, some, List, [], ◌∷◌, ◌++◌, Bytes, ltb,
  Bool-cases, Option-cases, ok, Always, Always-bind, Always-ok, Always-any, or_else,
}
use marisa.Http1.{Headers, Parser, Event, parse}
use marisa.Routes.{Route, App}
use marisa.Context.{
  Config, Context, determine_hp_state, Flow, returns, goes_on, then_do, match_routes,
  keep_connection, use_route, find_route, run_handler, route_and_run, parse_data,
  process_request_data,
}
use marisa.Context.Ready.{
  IsIdle, IsWaiting, IsReady, Outcome, FlowTo, IsParsed, CanRun, parsed-FlowTo, ready_lem,
  use_route-FlowTo, keep_connection-IsIdle,
}

module _ (M Regex : Type 0) where
  module _ (regex_search : Bytes → Regex → Option (List Bytes)) where
    find_route-FlowTo :
        (app : App M Regex) (config : Config) (c : Context M Regex)
        → IsParsed M Regex c
        → Always (FlowTo M Regex (CanRun M Regex)) (find_route M Regex regex_search app config c)
    unfolding find_route
    find_route-FlowTo app config c (w, i, h) = elim (Option-cases c.route) [
      | inr (r, e) ↦ rw (find_route, e) (has_route r e, i)
      | inl e ↦
          let (idle, streamed, same) = keep_connection-IsIdle M Regex config c i in
          rw (find_route, e)
            (routed
              (or_else
                (match_routes M Regex regex_search c.http_parser.url app.route_mapping [] none).1
                app.route_global)
              idle (streamed ∙ unstreamed e)
              (ap (λ (p : Parser). p.header_finished) same ∙ headers e))
    ]
      where
        has_route : (r : Route M) → c.route ≡ some r → IsReady M Regex c
        has_route r e = elim w [
          | inl (n, s) ↦ cc
          | inr (q, m, ms, e', f, g) ↦ ready_lem M Regex c q m ms e' f g h
        ]

        unstreamed : c.route ≡ none → c.not_streamed ≡ false
        unstreamed e = elim w [ inl (n, s) ↦ s | inr (q, m, ms, e', f, g) ↦ cc ]

        headers : c.route ≡ none → c.http_parser.header_finished ≡ true
        headers e = rw (unstreamed e) at h

        routed :
            (o : Option (Route M))
            → (let kept = keep_connection M Regex config c in
                IsIdle M Regex kept
                → kept.not_streamed ≡ false
                → kept.http_parser.header_finished ≡ true
                → Always (FlowTo M Regex (CanRun M Regex)) (elim o [
                  | none ↦ ok (returns (record kept { pages = kept.pages ++ 404 ∷ [] }))
                  | some r ↦
                      use_route M Regex regex_search r
                        (match_routes M Regex regex_search c.http_parser.url app.route_mapping []
                          none).0
                        kept
                ]))
        routed none idle s hf = inl idle
        routed (some r) idle s hf = use_route-FlowTo M Regex regex_search r _ _ idle s hf

    route_and_run-Outcome :
        (app : App M Regex) (config : Config) (flow : Flow M Regex)
        → FlowTo M Regex (IsParsed M Regex) flow
        → Always (Outcome M Regex) (route_and_run M Regex regex_search app config flow)
    unfolding route_and_run
    route_and_run-Outcome app config (returns c) h = h
    route_and_run-Outcome app config (goes_on c) h =
        Always-bind (FlowTo M Regex (CanRun M Regex)) (Outcome M Regex)
          (find_route M Regex regex_search app config c) _ (find_route-FlowTo app config c h) after
      where
        after :
            (flow : Flow M Regex)
            → FlowTo M Regex (CanRun M Regex) flow
            → Always (Outcome M Regex) (then_do M Regex flow (λ d. ok (run_handler M Regex d)))
        after (returns d) o = o
        after (goes_on d) (ready, idle) = inr (inr (refl, idle.1, ready))

    module _ (order : Headers → Headers) (front : ℕ) where
      parse_data-FlowTo :
          (config : Config) (total rc len : ℕ) (events : List Event) (c : Context M Regex)
          → IsWaiting M Regex c
          → IsIdle M Regex c
          → Always
              (FlowTo M Regex (IsParsed M Regex))
              (parse_data M Regex regex_search order front config total events rc len c)
      unfolding parse_data
      parse_data-FlowTo config total rc len events c w i =
          elim (Bool-cases (determine_hp_state M Regex c)) [
            | inl e ↦ rw (parse_data, e) (w, i, e)
            | inr e ↦ elim (Bool-cases (ltb config.max_header_size total)) [
              | inl big ↦ rw (parse_data, e) (rw (parse_data, big) (inl i))
              | inr small ↦
                  rw (parse_data, e)
                    (rw (parse_data, small)
                      (Always-bind (λ r. Unit {0}) (FlowTo M Regex (IsParsed M Regex))
                        (parse order front events rc len c.http_parser) _
                        (Always-any (λ r. Unit {0}) (parse order front events rc len c.http_parser)
                          (λ r. tt))
                        (λ r u. parsed-FlowTo M Regex c r.0 r.1 w i)))
            ]
          ]

      -- From an idle context that waits for data, whatever http_parser makes of the data that was read:
      -- if the function returns, then the request is given up, or more data is asked for and the
      -- context waits again, or the handler is started and no data is asked for, and then the route has
      -- a middleware for it and the request is complete, or its headers are if the route is streamed.
      pub process_request_data-Outcome :
          (app : App M Regex) (config : Config) (total rc len : ℕ) (events : List Event)
          (c d : Context M Regex)
          → IsWaiting M Regex c
          → IsIdle M Regex c
          → process_request_data M Regex regex_search order front app config total events rc len c
            ≡ ok d
          → Outcome M Regex d
      unfolding process_request_data
      process_request_data-Outcome app config total rc len events c d w i e =
          Always-ok (Outcome M Regex) _ d e (
            Always-bind (FlowTo M Regex (IsParsed M Regex)) (Outcome M Regex)
              (parse_data M Regex regex_search order front config total events rc len c) _
              (parse_data-FlowTo config total rc len events c w i)
              (route_and_run-Outcome app config))
