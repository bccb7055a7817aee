-- ===== src/Connection.antt =====
-- Source/Server/SessionCommon.cpp, SessionTCP.cpp, SessionSSL.cpp and SessionUnix.cpp: the life of a
-- session between the data that it reads, the contexts of its requests, and its timer. asio is not
-- in the repository: an operation that was started calls its handler once, which is a step here.
-- `inline_reads` counts the reads of inline_async_read_impl in flight, `handshake` and `timer` tell
-- whether TLS's handshake and a wait of the timer are. `raw` tells that run_raw_handler was called, and
-- the context's `running` that a handler of the request runs.
pub mod Phases
pub mod Reads
pub mod Live
pub mod Limits
mod Tests
use marisa.Prelude.{
  ℤ, pos, negsuc, ℕ, zero, suc, ◌+◌, ◌-◌, ◌*◌, ◌/◌, ◌%◌, ◌^◌, ◌≤◌, ◌<◌, ◌≡◌, ◌≢◌, ◌↔◌, ◌⊎◌, inl,
  inr, refl, sym, ap, ◌∙◌, Bool, true, false, not, ◌&&◌, ◌||◌, Option, none, some, List, [], ◌∷◌,
  ◌++◌, map, append-nil, append_assoc, Bytes, codes, IsByte, bytes_eq, bytes_eq_iff, bytes_eq_refl,
  to_upper, to_lower, ltb, leb, ◌==◌, ==_iff, ==_refl, if◌then◌else◌, Bool-cases, Option-cases,
  get_or, get_elem?, take, drop, replicate, length, length-append, length-drop, take-all,
  take-append, drop-append, append-take-drop, length-take, digits-print_number, find_text,
  starts_with, find_text-append, nil_of_length, all, All, All-append, All-imp, passes_below,
  passes_at, Result, ok, raise, fault, Exception, invalid_argument, logic_error, system_error,
  ◌>>=◌, ◌>>◌, at, bind_ok, and_then, and_go_on, assert, length-take_below, length-replicate,
  length-positive, Always, Always-bind, Always-ok, Always-any, print_number, read_number,
  read_number-print_number, length-print_number, digit_char, digit_value, find, find-all, insert,
  assign, insert_all, find-insert, find-assign, find-insert_all, or_else, arith,
}
use marisa.Endpoints.{IpEndpoint, Socket, new_socket_tcp, new_socket_unix}
use marisa.Http1.{Headers, Parser, Event, init}
use marisa.Routes.{App}
use marisa.Context.{Config, Context, process_request_data}

module _ (M Regex : Type 0) where
  pub record Connection : Type 0 where
    pub conn_ctx : Option Socket
    pub app_ctx : Context M Regex
    pub last_read_size : ℕ
    pub total_read_size : ℕ
    pub inline_reads : ℕ
    pub handshake : Bool
    pub timer : Bool
    pub close_requested : Bool
    pub raw : Bool

  -- The constructor of a context.
  abbrev pub new_context : Context M Regex
  new_context = record {
    http_parser = init;
    want_read = false;
    not_streamed = false;
    is_keepalive = false;
    keepalive_config = (negsuc 0, pos 0);
    route = none;
    handlers = none;
    url_smatch = [];
    pages = [];
    running = false;
  }

  abbrev pub new_connection : Connection
  new_connection = record {
    conn_ctx = none;
    app_ctx = new_context;
    last_read_size = 0;
    total_read_size = 0;
    inline_reads = 0;
    handshake = false;
    timer = false;
    close_requested = false;
    raw = false;
  }

  -- expires_after cancels the wait before it, if there is one.
  abbrev pub setup_timeout_timer : Connection → Connection
  setup_timeout_timer s = record s { timer = true }

  abbrev pub cancel_timer : Connection → Connection
  cancel_timer s = record s { timer = false }

  abbrev pub close_socket : Connection → Connection
  close_socket s = record s { close_requested = true }

  unfoldable pub inline_async_read_impl : Connection → Connection
  inline_async_read_impl s =
      let t = setup_timeout_timer s in record t { inline_reads = suc t.inline_reads }

  unfoldable pub error_action : Connection → Connection
  error_action s = close_socket (cancel_timer s)

  -- The end of start: the raw handler, or a first read.
  unfoldable pub run_or_read : (raw_mw : Bool) → Connection → Connection
  run_or_read raw_mw s = if raw_mw then record s { raw = true } else inline_async_read_impl s

  -- start of the three classes. TLS shakes hands first.
  unfoldable pub start_tcp :
      (raw_mw : Bool) (remote local : Option IpEndpoint) → Connection → Result Connection
  start_tcp raw_mw remote local s = new_socket_tcp remote local >>= λ socket.
      ok (run_or_read raw_mw (record s { conn_ctx = some socket }))

  unfoldable pub start_unix :
      (raw_mw : Bool) (remote local : Option Bytes) → Connection → Result Connection
  start_unix raw_mw remote local s = new_socket_unix remote local >>= λ socket.
      ok (run_or_read raw_mw (record s { conn_ctx = some socket }))

  unfoldable pub start_ssl : (remote local : Option IpEndpoint) → Connection → Result Connection
  start_ssl remote local s = new_socket_tcp remote local >>= λ socket.
      ok (record s { conn_ctx = some socket; handshake = true })

  unfoldable pub handler_handshake : (raw_mw error : Bool) → Connection → Connection
  handler_handshake raw_mw error s =
      let t = record s { handshake = false } in
      if error then close_socket (cancel_timer t) else run_or_read raw_mw t

  unfoldable pub reload_context : Connection → Connection
  reload_context s =
      if s.app_ctx.is_keepalive
      then inline_async_read_impl (record s { app_ctx = new_context })
      else s

  -- Nothing calls this.
  unfoldable pub decide_io_action_in_write : Connection → Connection
  decide_io_action_in_write s =
      let t = cancel_timer s in
      if not s.app_ctx.running && s.app_ctx.is_keepalive
      then inline_async_read_impl (record t { app_ctx = new_context })
      else t

  -- What stands behind the handler of a request, in each of the three ways to run it.
  unfoldable pub handler_ends : Connection → Connection
  handler_ends s = reload_context (record s { app_ctx = record s.app_ctx { running = false } })

  -- The end of run_raw_handler, in a coroutine or in a thread, when the handler has returned or thrown.
  -- An exception that is not caught leaves the thread that runs it.
  unfoldable pub raw_handler_ends :
      (mode_async catch_unhandled_exception : Bool) (thrown : Option Exception)
      → Connection
      → Result Connection
  raw_handler_ends mode_async catch_unhandled_exception thrown s =
      let t = record s { raw = false } in
      let done = ok (if mode_async then close_socket t else t) in
      elim thrown [ none ↦ done | some e ↦ if catch_unhandled_exception then done else raise e ]

  -- The wait of the timer ends, not cancelled: every bit of the context's state is cleared.
  unfoldable pub timer_fires : Connection → Connection
  timer_fires s = close_socket (record s {
    timer = false;
    app_ctx = record s.app_ctx { want_read = false; not_streamed = false; is_keepalive = false };
  })

  module _ (regex_search : Bytes → Regex → Option (List Bytes)) (order : Headers → Headers)
      (front : ℕ) (app : App M Regex) (config : Config) (raw_mw : Bool) where
    -- http_parser makes the calls `events` of the data, and takes `rc` bytes of it.
    unfoldable pub decide_io_action_in_read :
        (events : List Event) (rc : ℕ) → Connection → Result Connection
    decide_io_action_in_read events rc s =
        let total = s.total_read_size + s.last_read_size in
        process_request_data M Regex regex_search order front app config total events rc
          s.last_read_size (record s.app_ctx { want_read = false })
        >>= λ c.
            let t = record (cancel_timer s) { total_read_size = total; app_ctx = c } in
            ok (if c.want_read then inline_async_read_impl t else t)

    -- The handler of a read.
    unfoldable pub read_handler :
        (error : Bool) (size : ℕ) (events : List Event) (rc : ℕ) → Connection → Result Connection
    read_handler error size events rc s =
        let t = record s { inline_reads = s.inline_reads - 1 } in
        if error
        then ok (error_action t)
        else decide_io_action_in_read events rc (record t { last_read_size = size })

    -- The steps of a session, with the sizes of what they read: a handler is called, or the request's
    -- handler or the raw one ends, or it or the raw handler reads or writes, which starts the timer.
    pub data Step : List ℕ → Connection → Connection → Type 0 where
      shakes :
          {s t : Connection} (error : Bool)
          → s.handshake ≡ true
          → t ≡ handler_handshake raw_mw error s
          → Step [] s t
      reads :
          {s t : Connection} (size : ℕ) (events : List Event) (rc : ℕ)
          → s.inline_reads ≢ 0
          → read_handler false size events rc s ≡ ok t
          → Step (size ∷ []) s t
      read_fails :
          {s t : Connection} (size : ℕ) (events : List Event) (rc : ℕ)
          → s.inline_reads ≢ 0
          → read_handler true size events rc s ≡ ok t
          → Step [] s t
      ends : {s t : Connection} → s.app_ctx.running ≡ true → t ≡ handler_ends s → Step [] s t
      raw_ends :
          {s t : Connection} (mode_async catch_unhandled_exception : Bool)
          (thrown : Option Exception)
          → s.raw ≡ true
          → raw_handler_ends mode_async catch_unhandled_exception thrown s ≡ ok t
          → Step [] s t
      transfers :
          {s t : Connection}
          → (s.app_ctx.running ≡ true) ⊎ (s.raw ≡ true)
          → t ≡ setup_timeout_timer s
          → Step [] s t
      transfer_fails :
          {s t : Connection}
          → (s.app_ctx.running ≡ true) ⊎ (s.raw ≡ true)
          → t ≡ error_action s
          → Step [] s t
      fires : {s t : Connection} → s.timer ≡ true → t ≡ timer_fires s → Step [] s t

    -- Runs of steps from the start of a session, of each class.
    pub data Run : List ℕ → Connection → Type 0 where
      starts_tcp :
          {s : Connection} (remote local : Option IpEndpoint)
          → start_tcp raw_mw remote local new_connection ≡ ok s
          → Run [] s
      starts_unix :
          {s : Connection} (remote local : Option Bytes)
          → start_unix raw_mw remote local new_connection ≡ ok s
          → Run [] s
      starts_ssl :
          {s : Connection} (remote local : Option IpEndpoint)
          → start_ssl remote local new_connection ≡ ok s
          → Run [] s
      step :
          {sizes more : List ℕ} {s t : Connection}
          → Run sizes s
          → Step more s t
          → Run (sizes ++ more) t
