-- ===== src/WriteQueue.antt =====
-- Source/Server/SessionCommon.cpp and SessionTCP.cpp (SessionSSL.cpp and SessionUnix.cpp write the
-- same): the queue of a session's writes. All of it runs on the strand, one step at a time. asio calls
-- the handler of a started write once: `in_flight` counts the handlers still to come. A promise is a
-- number, and `promises` lists those that got a value, with whether it is an error. `started` and
-- `arranged` keep what was given to asio, and to the queue.
pub mod Order
pub mod Stall
mod Tests
use marisa.Prelude.{
  ℤ, pos, negsuc, ℕ, zero, suc, ◌+◌, ◌-◌, ◌*◌, ◌/◌, ◌%◌, ◌^◌, ◌≤◌, ◌<◌, ◌≡◌, ◌≢◌, ◌↔◌, ◌⊎◌, inl,
  inr, refl, sym, ap, ◌∙◌, Bool, true, false, not, ◌&&◌, ◌||◌, Option, none, some, List, [], ◌∷◌,
  ◌++◌, map, append-nil, append_assoc, Bytes, codes, IsByte, bytes_eq, bytes_eq_iff, bytes_eq_refl,
  to_upper, to_lower, ltb, leb, ◌==◌, ==_iff, ==_refl, if◌then◌else◌, Bool-cases, Option-cases,
  get_or, get_elem?, take, drop, replicate, length, length-append, length-drop, take-all,
  take-append, drop-append, append-take-drop, length-take, digits-print_number, nil_of_length, all,
  All, All-append, All-imp, passes_below, passes_at, Result, ok, raise, fault, Exception,
  invalid_argument, logic_error, system_error, ◌>>=◌, ◌>>◌, at, bind_ok, print_number, read_number,
  read_number-print_number, length-print_number, digit_char, digit_value, find, find-all, insert,
  assign, insert_all, find-insert, find-assign, find-insert_all, or_else, arith,
}

pub record Session : Type 0 where
  pub queue_write : List (Bytes × ℕ)
  pub in_flight : ℕ
  pub promises : List (ℕ × Bool)
  pub close_requested : Bool
  pub started : List Bytes
  pub arranged : List Bytes

abbrev pub new_session : Session
new_session = record {
  queue_write = [];
  in_flight = 0;
  promises = [];
  close_requested = false;
  started = [];
  arranged = [];
}

-- `inline_async_write_impl` and `write_async_promised_impl` start to write the front of the queue.
unfoldable pub write_async_promised_impl : Session → Result Session
write_async_promised_impl s = elim s.queue_write [
  | [] ↦ fault
  | p ∷ ps ↦ ok (record s { started = s.started ++ p.0 ∷ []; in_flight = suc s.in_flight })
]

-- `arrange_inline_async_write` and `arrange_async_write`.
unfoldable pub arrange_async_write : Bytes → ℕ → Session → Result Session
arrange_async_write bytes promise s =
    let queue = s.queue_write ++ (bytes, promise) ∷ [] in
    let t = record s { queue_write = queue; arranged = s.arranged ++ bytes ∷ [] } in
    if leb (length queue) 1 then write_async_promised_impl t else ok t

-- error_action: the socket is asked to close.
abbrev pub error_action : Session → Session
error_action s = record s { close_requested = true }

-- The handler of a write.
unfoldable pub write_handler : (error : Bool) → Session → Result Session
write_handler error s = elim s.queue_write [
  | [] ↦ fault
  | p ∷ ps ↦
      let t = record s {
        queue_write = ps;
        promises = s.promises ++ (p.1, error) ∷ [];
        in_flight = s.in_flight - 1;
      } in
      if error
      then ok (error_action t)
      else elim ps [ [] ↦ ok t | next ∷ later ↦ write_async_promised_impl t ]
]

-- The strand's steps: data is arranged, or a write that is in flight ends, with an error or without.
pub data Step : Bool → Session → Session → Type 0 where
  arrange :
      {s t : Session} (bytes : Bytes) (promise : ℕ)
      → arrange_async_write bytes promise s ≡ ok t
      → Step false s t
  handle :
      {s t : Session} (error : Bool)
      → s.in_flight ≢ 0
      → write_handler error s ≡ ok t
      → Step error s t

-- Runs of steps; `failed` tells whether one of them was an error.
pub data Steps : Bool → Session → Session → Type 0 where
  done : {s : Session} → Steps false s s
  step :
      {failed error : Bool} {s t u : Session}
      → Steps failed s t
      → Step error t u
      → Steps (failed || error) s u
