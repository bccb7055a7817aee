-- ===== src/Transfers.antt =====
-- Source/Server/SessionCommon.cpp, SessionTCP.cpp, SessionSSL.cpp and SessionUnix.cpp: the reads and
-- writes of a request's handler that pass by the queue, and Source/App/Request/Request.cpp, which reads
-- a body with them. asio is an argument: an operation tells what its handler gets, and what then is on
-- the wire. An operation that the peer does not bring to an end waits until the timer, which it started
-- itself, has closed the socket: it is `late`. The promise of a read is what its function returns.
pub mod Manual
pub mod Reads
pub mod Streams
pub mod Short
mod TextWire
mod Tests
use marisa.Prelude.{
  ℤ, pos, negsuc, ℕ, zero, suc, ◌+◌, ◌-◌, ◌*◌, ◌/◌, ◌%◌, ◌^◌, ◌≤◌, ◌<◌, ◌≡◌, ◌≢◌, ◌↔◌, ◌⊎◌, inl,
  inr, refl, sym, ap, ◌∙◌, Bool, true, false, not, ◌&&◌, ◌||◌, Option, none, some, List, [], ◌∷◌,
  ◌++◌, map, append-nil, append_assoc, Bytes, codes, IsByte, bytes_eq, bytes_eq_iff, bytes_eq_refl,
  to_upper, to_lower, ltb, leb, ◌==◌, ==_iff, ==_refl, if◌then◌else◌, Bool-cases, Option-cases,
  get_or, get_elem?, take, drop, replicate, length, length-append, length-drop, take-all,
  take-append, drop-append, append-take-drop, length-take, digits-print_number, find_text,
  starts_with, find_text-append, nil_of_length, all, All, All-append, All-imp, passes_below,
  passes_at, Result, ok, raise, fault, Exception, invalid_argument, logic_error, system_error,
  ◌>>=◌, ◌>>◌, at, bind_ok, bind-inverse, and_then, and_go_on, assert, length-take_below,
  length-replicate, length-positive, Always, Always-bind, Always-ok, Always-any, print_number,
  read_number, read_number-print_number, length-print_number, digit_char, digit_value, find,
  find-all, insert, assign, insert_all, find-insert, find-assign, find-insert_all, or_else, arith,
}
use marisa.Connection.{Connection, setup_timeout_timer, timer_fires, error_action}

-- What the handler of a read gets: `bytes` stand at the front of its buffer.
pub record Completion : Type 0 where
  pub error : Bool
  pub late : Bool
  pub bytes : Bytes

-- What the handler of a write gets.
pub record Written : Type 0 where
  pub error : Bool
  pub late : Bool
  pub size_written : ℕ

pub record Asio : Type 1 where
  pub Wire : Type 0
  pub async_read_some : (size : ℕ) → Wire → Completion × Wire
  pub async_read : (size : ℕ) → Wire → Completion × Wire
  pub async_write : Bytes → Wire → Written × Wire

-- vector::resize.
unfoldable pub resize : ℕ → Bytes → Bytes
resize n v = take n v ++ replicate (n - length v) 0

-- What asio leaves of a buffer whose front it wrote.
abbrev pub overwrite : Bytes → Bytes → Bytes
overwrite bytes buffer = bytes ++ drop (length bytes) buffer

module _ (M Regex : Type 0) (asio : Asio) where
  open asio use {Wire, async_read_some, async_read, async_write}

  pub record Io : Type 0 where
    pub session : Connection M Regex
    pub wire : Wire

  -- The session when an operation has ended that started the timer.
  unfoldable pub waited : (late : Bool) → Connection M Regex → Connection M Regex
  waited late session =
      let s = setup_timeout_timer M Regex session in if late then timer_fires M Regex s else s

  -- A read for a promise or for a callback, by one of asio's two functions: its start and its handler.
  -- Both get the error and the buffer; the timer is left waiting.
  unfoldable pub read_into :
      (read_op : ℕ → Wire → Completion × Wire) (size : ℕ) → Io → (Bool × Bytes) × Io
  read_into read_op size io =
      let p = read_op size io.wire in
      let s = waited p.0.late io.session in
      (
        (p.0.error, resize (length p.0.bytes) (overwrite p.0.bytes (replicate size 0))),
        record { session = if p.0.error then error_action M Regex s else s; wire = p.1 },
      )

  -- A read of a coroutine, which throws the error.
  unfoldable pub read_coro :
      (read_op : ℕ → Wire → Completion × Wire) (size : ℕ) → Io → Result Bytes × Io
  read_coro read_op size io =
      let p = read_op size io.wire in
      (
        if p.0.error
            then raise system_error
            else ok (resize (length p.0.bytes) (overwrite p.0.bytes (replicate size 0))),
        record { session = waited p.0.late io.session; wire = p.1 },
      )

  -- A write of a coroutine, and one with a callback, with the number of bytes written.
  unfoldable pub write_coro : Bytes → Io → Result ℕ × Io
  write_coro bytes io =
      let p = async_write bytes io.wire in
      (
        if p.0.error then raise system_error else ok p.0.size_written,
        record { session = waited p.0.late io.session; wire = p.1 },
      )

  unfoldable pub write_with_callback : Bytes → Io → (Bool × ℕ) × Io
  write_with_callback bytes io =
      let p = async_write bytes io.wire in
      let s = waited p.0.late io.session in
      (
        (p.0.error, p.0.size_written),
        record { session = if p.0.error then error_action M Regex s else s; wire = p.1 },
      )

  -- The virtual functions of a class of sessions.
  pub record Transport : Type 0 where
    pub read_async_promised_impl : (size : ℕ) → Io → (Bool × Bytes) × Io
    pub read_async_coro_impl : (size : ℕ) → Io → Result Bytes × Io
    pub read_async_with_callback_impl : (size : ℕ) → Io → (Bool × Bytes) × Io
    pub write_async_coro_impl : Bytes → Io → Result ℕ × Io
    pub write_async_with_callback_impl : Bytes → Io → (Bool × ℕ) × Io

  abbrev pub session_tcp : Transport
  session_tcp = record {
    read_async_promised_impl = read_into async_read_some;
    read_async_coro_impl = read_coro async_read_some;
    read_async_with_callback_impl = read_into async_read_some;
    write_async_coro_impl = write_coro;
    write_async_with_callback_impl = write_with_callback;
  }

  abbrev pub session_ssl : Transport
  session_ssl = record {
    read_async_promised_impl = read_into async_read;
    read_async_coro_impl = read_coro async_read_some;
    read_async_with_callback_impl = read_into async_read_some;
    write_async_coro_impl = write_coro;
    write_async_with_callback_impl = write_with_callback;
  }

  abbrev pub session_unix : Transport
  session_unix = record {
    read_async_promised_impl = read_into async_read;
    read_async_coro_impl = read_coro async_read_some;
    read_async_with_callback_impl = read_into async_read_some;
    write_async_coro_impl = write_coro;
    write_async_with_callback_impl = write_with_callback;
  }

  -- The strand runs the read, and the thread waits for its promise.
  unfoldable pub read_blocking : Transport → (size : ℕ) → Io → Result Bytes × Io
  read_blocking transport size io =
      let p = transport.read_async_promised_impl size io in
      (if p.0.0 then raise system_error else ok p.0.1, p.1)

  -- RequestContext::read, with what the parser still has of the body.
  unfoldable pub read_request :
      (mode_async : Bool) → Transport → (size : ℕ) (body : Bytes) → Io → Result Bytes × (Bytes × Io)
  read_request mode_async transport size (c ∷ body) io = (ok (c ∷ body), ([], io))
  read_request mode_async transport size [] io =
      let p =
        if mode_async
        then transport.read_async_coro_impl size io
        else read_blocking transport size io in
      (p.0, ([], p.1))
