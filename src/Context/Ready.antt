-- ===== src/Context/Ready.antt =====
-- When the handler of a request may run, and what the parts of the function that do not search for a
-- route come to.
use marisa.Prelude.{
  pos, ℕ, ◌≡◌, ◌⊎◌, inl, inr, refl, true, false, not, Option, none, some, List, [], ◌∷◌, ◌++◌,
  Bytes, codes, bytes_eq, if◌then◌else◌, Bool-cases, Result, ok, raise, fault, logic_error, Always,
  Always-bind, find, arith,
}
use marisa.Http1.{Parser}
use marisa.Routes.{Route, find_method}
use marisa.Context.{
  Config, Context, determine_hp_state, Flow, returns, goes_on, parsed, init_handler_data,
  keep_connection, use_route,
}

module _ (M Regex : Type 0) where
  -- No handler was started, and no data is asked for.
  abbrev pub IsIdle : Context M Regex → Type 0
  IsIdle c = (c.running ≡ false) × (c.want_read ≡ false)

  -- A context between reads: it has no route yet, or a route, a handler, and what to wait for.
  abbrev pub IsWaiting : Context M Regex → Type 0
  IsWaiting c =
      ((c.route ≡ none) × (c.not_streamed ≡ false))
      ⊎ ((r : Route M) × (m : M) × (ms : List M) × (c.route ≡ some r)
          × (c.handlers ≡ some (m ∷ ms))
          × (c.not_streamed ≡ not r.mode_streamed))

  -- The route has a middleware for the method, and the request is as complete as the route wants it.
  abbrev pub IsReady : Context M Regex → Type 0
  IsReady c =
      (r : Route M) × (m : M) × (ms : List M) × (c.route ≡ some r)
      × (c.handlers ≡ some (m ∷ ms))
      × ((if r.mode_streamed then c.http_parser.header_finished else c.http_parser.is_finished)
          ≡ true)

  -- A read ends with the request given up, with more data asked for, or with its handler started.
  abbrev pub Outcome : Context M Regex → Type 0
  Outcome c =
      IsIdle c
      ⊎ (((c.running ≡ false) × (c.want_read ≡ true) × IsWaiting c)
          ⊎ ((c.running ≡ true) × (c.want_read ≡ false) × IsReady c))

  -- A flow that has returned has an outcome; one that goes on has `P`.
  abbrev pub FlowTo : (Context M Regex → Type 0) → Flow M Regex → Type 0
  FlowTo P (returns c) = Outcome c
  FlowTo P (goes_on c) = P c

  abbrev pub IsParsed : Context M Regex → Type 0
  IsParsed c = IsWaiting c × IsIdle c × (determine_hp_state M Regex c ≡ true)

  abbrev pub CanRun : Context M Regex → Type 0
  CanRun c = IsReady c × IsIdle c

  pub parsed-FlowTo :
      (c : Context M Regex) (p : Parser) (r : Result ℕ)
      → IsWaiting c
      → IsIdle c
      → FlowTo IsParsed (parsed M Regex c (p, r))
  unfolding parsed
  parsed-FlowTo c p (raise e) w i = inl i
  parsed-FlowTo c p fault w i = inl i
  parsed-FlowTo c p (ok n) w i =
      elim (Bool-cases (determine_hp_state M Regex (record c { http_parser = p }))) [
        | inl e ↦ rw (parsed, e) (w, i, e)
        | inr e ↦ rw (parsed, e) (inr (inl (i.0, refl, w)))
      ]

  pub ready_lem :
      (c : Context M Regex) (r : Route M) (m : M) (ms : List M)
      → c.route ≡ some r
      → c.handlers ≡ some (m ∷ ms)
      → c.not_streamed ≡ not r.mode_streamed
      → determine_hp_state M Regex c ≡ true
      → IsReady c
  ready_lem c r m ms e f g h = (r, m, ms, e, f, ground arith)

  -- A context that has its route and handlers, and the headers.
  abbrev HasHandlers : Route M → Context M Regex → Type 0
  HasHandlers r d =
      (m : M) × (ms : List M) × (d.route ≡ some r)
      × (d.handlers ≡ some (m ∷ ms))
      × IsIdle d
      × (d.not_streamed ≡ false)
      × (d.http_parser.header_finished ≡ true)

  abbrev InitTo : Route M → Flow M Regex → Type 0
  InitTo r (returns d) = IsIdle d
  InitTo r (goes_on d) = HasHandlers r d

  init_handler_data-InitTo :
      (r : Route M) (c : Context M Regex)
      → IsIdle c
      → c.not_streamed ≡ false
      → c.http_parser.header_finished ≡ true
      → Always (InitTo r) (init_handler_data M Regex r (record c { route = some r }))
  unfolding init_handler_data
  init_handler_data-InitTo r c i s h =
      go (find_method M c.http_parser.method r.routemethods_mapping) r.routemethods_default
    where
      go :
          (found : Option (List M)) (others : List M)
          → Always (InitTo r) (elim found [
            | some [] ↦ raise logic_error
            | some (m ∷ ms) ↦ ok (goes_on (record c { route = some r; handlers = some (m ∷ ms) }))
            | none ↦ elim others [
              | [] ↦ ok (returns (record c { route = some r; pages = c.pages ++ 404 ∷ [] }))
              | m ∷ ms ↦ ok (goes_on (record c { route = some r; handlers = some (m ∷ ms) }))
            ]
          ])
      go (some []) others = tt
      go (some (m ∷ ms)) others = (m, ms, refl, refl, i, s, h)
      go none [] = i
      go none (m ∷ ms) = (m, ms, refl, refl, i, s, h)

  pub keep_connection-IsIdle :
      (config : Config) (c : Context M Regex)
      → IsIdle c
      → let d = keep_connection M Regex config c in
        IsIdle d × (d.not_streamed ≡ c.not_streamed) × (d.http_parser ≡ c.http_parser)
  unfolding keep_connection
  keep_connection-IsIdle config c i = go (find (codes "connection") c.http_parser.headers_lowercase)
    where
      kept : Context M Regex
      kept = record c {
        is_keepalive = true;
        keepalive_config = (pos config.timeout_seconds, pos config.max_requests_per_conn);
      }

      Same : Context M Regex → Type 0
      Same d = IsIdle d × (d.not_streamed ≡ c.not_streamed) × (d.http_parser ≡ c.http_parser)

      go :
          (found : Option Bytes)
          → Same (elim found [
            | none ↦ c
            | some value ↦ if bytes_eq value (codes "keep-alive") then kept else c
          ])
      go none = (i, refl, refl)
      go (some value) = elim (Bool-cases (bytes_eq value (codes "keep-alive"))) [
        | inl e ↦ rw e (i, refl, refl)
        | inr e ↦ rw e (i, refl, refl)
      ]

  module _ (regex_search : Bytes → Regex → Option (List Bytes)) where
    pub use_route-FlowTo :
        (r : Route M) (smbuf : List Bytes) (c : Context M Regex)
        → IsIdle c
        → c.not_streamed ≡ false
        → c.http_parser.header_finished ≡ true
        → Always (FlowTo CanRun) (use_route M Regex regex_search r smbuf c)
    unfolding use_route
    use_route-FlowTo r smbuf c i s h =
        Always-bind (InitTo r) (FlowTo CanRun)
          (init_handler_data M Regex r (record c { route = some r })) _
          (init_handler_data-InitTo r c i s h) after
      where
        after :
            (flow : Flow M Regex)
            → InitTo r flow
            → Always (FlowTo CanRun) (elim flow [
              | returns d ↦ ok (returns d)
              | goes_on d ↦
                  let whole = record d { url_smatch = smbuf; not_streamed = true } in
                  if r.mode_streamed
                  then ok (goes_on (record d { url_smatch = smbuf }))
                  else (if determine_hp_state M Regex whole
                      then ok (goes_on whole)
                      else ok (returns (record whole { want_read = true })))
            ])
        after (returns d) idle = inl idle
        after (goes_on d) (m, ms, e, f, idle, streamed, headers) =
            elim (Bool-cases r.mode_streamed) [
              | inl t ↦ rw t ((r, m, ms, e, f, rw t headers), idle)
              | inr t ↦ elim (Bool-cases d.http_parser.is_finished) [
                | inl done ↦ rw (t, done) ((r, m, ms, e, f, rw t refl), idle)
                | inr more ↦
                    rw (t, more) (inr (inl (idle.0, refl, inr (r, m, ms, e, f, rw t refl))))
              ]
            ]
