-- ===== src/Connection/Limits.antt =====
-- The bound on a header, on a connection that is kept alive.
use marisa.Prelude.{
  ℕ, ◌+◌, ◌-◌, ◌<◌, ◌≡◌, ◌≢◌, inl, inr, refl, Bool, true, false, Option, List, Bytes, ltb, ok,
  bind_ok, arith,
}
use marisa.Http1.{Headers, Event}
use marisa.Routes.{App}
use marisa.Context.{
  Config, Context, determine_hp_state, process_request_data, parse_data, route_and_run,
}
use marisa.Connection.{
  Connection, inline_async_read_impl, decide_io_action_in_read, read_handler, Run,
}
use marisa.Connection.Live.{Run-IsLive}
use marisa.Connection.Phases.{sum, IsReading, IsOver, IsLive}

module _ (M Regex : Type 0) (regex_search : Bytes → Regex → Option (List Bytes))
    (order : Headers → Headers) (front : ℕ) (app : App M Regex) (config : Config)
    (raw_mw : Bool) where
  IsReading-phase :
      (s : Connection M Regex)
      → s.inline_reads ≢ 0
      → s.close_requested ≡ false
      → IsLive M Regex s
      → IsReading M Regex s
  IsReading-phase s some_read open_still (inl closed) = cc
  IsReading-phase s some_read open_still (inr (inl p)) = absurd (some_read p.1)
  IsReading-phase s some_read open_still (inr (inr (inl p))) = p
  IsReading-phase s some_read open_still (inr (inr (inr (inl p)))) = absurd (some_read p.1)
  IsReading-phase s some_read open_still (inr (inr (inr (inr (inl p))))) = absurd (some_read p.1)
  IsReading-phase s some_read open_still (inr (inr (inr (inr (inr p))))) = absurd (some_read p.1)

  over_limit :
      (total rc len : ℕ) (events : List Event) (c : Context M Regex)
      → determine_hp_state M Regex c ≡ false
      → config.max_header_size < total
      → process_request_data M Regex regex_search order front app config total events rc len c
        ≡ ok c
  unfolding process_request_data parse_data route_and_run
  over_limit total rc len events c partial big =
      let exceeds : ltb config.max_header_size total ≡ true = ground arith in
      rw (parse_data, partial) (rw (parse_data, exceeds) refl)

  -- Once more was read on a connection than a header may have, bodies and earlier requests included,
  -- a read for a request that is not complete ends the connection without an answer, whatever was
  -- read: no handler is started, no status page is sent, and no read is in flight any more.
  pub read-IsOver :
      (sizes : List ℕ) (s : Connection M Regex) (size : ℕ) (events : List Event) (rc : ℕ)
      → Run M Regex regex_search order front app config raw_mw sizes s
      → s.inline_reads ≢ 0
      → s.close_requested ≡ false
      → determine_hp_state M Regex s.app_ctx ≡ false
      → config.max_header_size < sum sizes + size
      → (t : Connection M Regex) × (read_handler M Regex regex_search order front app config raw_mw
            false size events rc s
          ≡ ok t)
        × IsOver M Regex t
        × (t.app_ctx.pages ≡ s.app_ctx.pages)
  unfolding read_handler decide_io_action_in_read inline_async_read_impl
  read-IsOver sizes s size events rc run some_read open_still partial big =
      let (live, total, held) = Run-IsLive M Regex regex_search order front app config raw_mw run in
      let (h, n, r, w, timer, waits) = IsReading-phase s some_read open_still live in
      let c : Context M Regex = record s.app_ctx { want_read = false } in
      (
        record s {
          inline_reads = s.inline_reads - 1;
          last_read_size = size;
          timer = false;
          total_read_size = s.total_read_size + size;
          app_ctx = c;
        },
        bind_ok _ (
            over_limit (s.total_read_size + size) rc size events c partial
              (omega (arith, total, big))),
        (h, omega (arith, n), r, w),
        refl,
      )
