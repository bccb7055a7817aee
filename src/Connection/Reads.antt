-- ===== src/Connection/Reads.antt =====
-- What a read of a session comes to.
use marisa.Prelude.{
  ℕ, ◌+◌, ◌-◌, ◌≡◌, ◌≢◌, inl, inr, refl, sym, ap, ◌∙◌, Bool, false, Option, List, Bytes,
  if◌then◌else◌, Bool-cases, ok, bind-inverse, arith,
}
use mathlib.Core.Path.{subst}
use marisa.Http1.{Headers, Event}
use marisa.Routes.{App}
use marisa.Context.{Config, Context, process_request_data}
use marisa.Context.Ready.{Outcome}
use marisa.Context.Runs.{process_request_data-Outcome}
use marisa.Connection.{Connection, inline_async_read_impl, decide_io_action_in_read, read_handler}
use marisa.Connection.Phases.{IsReading, Phase, IsLive, Kept}

module _ (M Regex : Type 0) where
  module _ (regex_search : Bytes → Regex → Option (List Bytes)) (order : Headers → Headers)
      (front : ℕ) (app : App M Regex) (config : Config) (raw_mw : Bool) where
    -- A session behind a read, whose context is `c` now.
    abbrev after_read : ℕ → Context M Regex → Connection M Regex → Connection M Regex
    after_read size c s =
        let t = record s {
          inline_reads = s.inline_reads - 1;
          last_read_size = size;
          timer = false;
          total_read_size = s.total_read_size + size;
          app_ctx = c;
        } in
        if c.want_read then inline_async_read_impl M Regex t else t

    read_handler-inverse :
        (size : ℕ) (events : List Event) (rc : ℕ) (s t : Connection M Regex)
        → read_handler M Regex regex_search order front app config raw_mw false size events rc s
          ≡ ok t
        → (c : Context M Regex) × (process_request_data M Regex regex_search order front app config
              (s.total_read_size + size)
              events
              rc
              size
              (record s.app_ctx { want_read = false })
            ≡ ok c)
          × (after_read size c s ≡ t)
    unfolding read_handler decide_io_action_in_read
    read_handler-inverse size events rc s t e =
        let (c, run, same) =
          bind-inverse
            (process_request_data M Regex regex_search order front app config
              (s.total_read_size + size) events rc size (record s.app_ctx { want_read = false }))
            (λ c. ok (after_read size c s)) t e in
        (c, run, cc)

    after_read-Kept :
        (size : ℕ) (c : Context M Regex) (s : Connection M Regex)
        → ((after_read size c s).close_requested ≡ s.close_requested)
          × Kept M Regex size s (after_read size c s)
    unfolding inline_async_read_impl
    after_read-Kept size c s = elim (Bool-cases c.want_read) [
      | inl e ↦ rw e (refl, (refl, refl))
      | inr e ↦ rw e (refl, (refl, refl))
    ]

    after_read-Phase :
        (size : ℕ) (c : Context M Regex) (s : Connection M Regex)
        → IsReading M Regex s
        → Outcome M Regex c
        → Phase M Regex (after_read size c s)
    unfolding inline_async_read_impl
    after_read-Phase size c s (h, n, r, w, timer, waits) (inl (running, want_read)) =
        rw want_read (inr (inr (inr (inr (h, omega (arith, n), running, w)))))
    after_read-Phase size c s (h, n, r, w, timer, waits) (inr (inl (running, want_read, waiting))) =
        rw want_read (inr (inl (h, omega (arith, n), running, w, refl, waiting)))
    after_read-Phase size c s (h, n, r, w, timer, waits) (inr (inr (running, want_read, ready))) =
        rw want_read (inr (inr (inl (h, omega (arith, n), running, w, ready))))

    pub read_handler-IsLive :
        (size : ℕ) (events : List Event) (rc : ℕ) (s t : Connection M Regex)
        → s.inline_reads ≢ 0
        → IsLive M Regex s
        → read_handler M Regex regex_search order front app config raw_mw false size events rc s
          ≡ ok t
        → IsLive M Regex t × Kept M Regex size s t
    read_handler-IsLive size events rc s t some_read live e =
        let (c, run, same) = read_handler-inverse size events rc s t e in
        let (closing, total) = after_read-Kept size c s in
        (go c run same closing live, subst (Kept M Regex size s) same total)
      where
        go :
            (c : Context M Regex)
            → process_request_data M Regex regex_search order front app config
                (s.total_read_size + size)
                events
                rc
                size
                (record s.app_ctx { want_read = false })
              ≡ ok c
            → after_read size c s ≡ t
            → (after_read size c s).close_requested ≡ s.close_requested
            → IsLive M Regex s
            → IsLive M Regex t
        go c run same closing (inl closed) =
            inl (ap (λ x. x.close_requested) (sym same) ∙ closing ∙ closed)
        go c run same closing (inr (inl p)) = absurd (some_read p.1)
        go c run same closing (inr (inr (inl (h, n, r, w, timer, waits)))) = inr (
            subst (Phase M Regex) same (
              after_read-Phase size c s (h, n, r, w, timer, waits)
                (process_request_data-Outcome M Regex regex_search order front app config
                  (s.total_read_size + size) rc size events (record s.app_ctx { want_read = false })
                  c waits (r, refl) run)))
        go c run same closing (inr (inr (inr (inl p)))) = absurd (some_read p.1)
        go c run same closing (inr (inr (inr (inr (inl p))))) = absurd (some_read p.1)
        go c run same closing (inr (inr (inr (inr (inr p))))) = absurd (some_read p.1)
