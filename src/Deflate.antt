-- ===== src/Deflate.antt =====
-- Source/App/Middlewares/Compression.cpp: the loops that drive zlib, which compress_once,
-- compress_stream, end and compress_memory share. zlib is an argument: a stream has a state, and one
-- call of deflate takes a part of the input and writes to the room that there is. A buffer is its
-- bytes, and the fields next_out and avail_out of zlib's stream are the place in it and the room.
pub mod Manual
pub mod Buffers
pub mod Emitted
use marisa.Prelude.{
  ℤ, pos, negsuc, ℕ, zero, suc, ◌+◌, ◌-◌, ◌*◌, ◌/◌, ◌%◌, ◌^◌, ◌≤◌, ◌<◌, ◌≡◌, ◌≢◌, ◌↔◌, ◌⊎◌, inl,
  inr, refl, sym, ap, ◌∙◌, Bool, true, false, not, ◌&&◌, ◌||◌, Option, none, some, List, [], ◌∷◌,
  ◌++◌, map, append-nil, append_assoc, Bytes, codes, IsByte, bytes_eq, bytes_eq_iff, bytes_eq_refl,
  to_upper, to_lower, ltb, leb, ◌==◌, ==_iff, ==_refl, if◌then◌else◌, Bool-cases, Option-cases,
  get_or, get_elem?, take, drop, replicate, length, length-append, length-drop, take-all,
  take-append, drop-append, append-take-drop, length-take, digits-print_number, find_text,
  starts_with, find_text-append, nil_of_length, all, All, All-append, All-imp, passes_below,
  passes_at, Result, ok, raise, fault, Exception, invalid_argument, logic_error, system_error,
  ◌>>=◌, ◌>>◌, at, bind_ok, and_then, and_go_on, assert, length-take_below, length-replicate,
  length-positive, Always, Always-bind, Always-ok, Always-any, print_number, read_number,
  read_number-print_number, length-print_number, digit_char, digit_value, find, find-all, insert,
  assign, insert_all, find-insert, find-assign, find-insert_all, or_else, arith,
}

-- The parameter of deflate: Z_NO_FLUSH or Z_FINISH.
pub data Flush : Type 0 where
  no_flush finish : Flush

-- The codes that the callers tell apart.
pub data Code : Type 0 where
  z_ok z_stream_end z_error : Code

-- The test for Z_OK.
abbrev pub is_ok : Code → Bool
is_ok z_ok = true
is_ok z_stream_end = false
is_ok z_error = false

-- What a call of deflate leaves of the input, what it writes, its state and its code.
pub record Turn (State : Type 0) : Type 0 where
  pub left : Bytes
  pub out : Bytes
  pub next : State
  pub code : Code

-- zlib: `deflate_init2` gets the level, the window's bits and the strategy.
pub record Zlib : Type 1 where
  pub State : Type 0
  pub deflate_init2 : (level : ℤ) (window_bits strategy : ℕ) → Code × State
  pub deflate : Flush → State → (next_in : Bytes) (avail_out : ℕ) → Turn State

-- Data is written into a buffer from a place on.
unfoldable pub splice : ℕ → Bytes → Bytes → Bytes
splice n out buf = take n buf ++ (out ++ drop (n + length out) buf)

-- `resize` of a vector: new bytes are zero.
unfoldable pub resize : ℕ → Bytes → Bytes
resize n buf = take n buf ++ replicate (n - length buf) 0

-- avail_in and avail_out are of the type uInt, which has 32 bits: a size_t is cut to it.
unfoldable pub uint : ℕ → ℕ
uint n = n % 2 ^ 32

pub uint-fits : (n : ℕ) → n < 2 ^ 32 → uint n ≡ n
unfolding uint
uint-fits n h = omega arith

-- The part of a text that avail_in reaches.
unfoldable pub read_in : Bytes → Bytes
read_in text = take (uint (length text)) text

pub read_in-fits : (text : Bytes) → length text < 2 ^ 32 → read_in text ≡ text
unfolding read_in
read_in-fits text h = take-all (uint (length text)) text (omega (arith, uint-fits (length text) h))

module _ (z : Zlib) where
  open z use {State, deflate}

  pub record Out : Type 0 where
    pub strm : State
    pub buf : Bytes
    pub next_out : ℕ
    pub avail_out : ℕ

  -- One call of deflate. It may write to all of the room, which has to lie in the buffer.
  unfoldable pub deflate_into : Flush → Bytes → Out → Result (Out × Bytes × Code)
  deflate_into flush input o =
      let turn = deflate flush o.strm input o.avail_out in
      let n = length turn.out in
      if leb (o.next_out + o.avail_out) (length o.buf)
      then ok (
        record o {
          strm = turn.next;
          buf = splice o.next_out turn.out o.buf;
          next_out = o.next_out + n;
          avail_out = o.avail_out - n;
        },
        turn.left,
        turn.code,
      )
      else fault

  -- The callers differ in what they do when the room is used up.
  module _ {Sink : Type 0} (make_room : Sink → Out → Result (Sink × Out)) where
    unfoldable pub room_if_full : Sink → Out → Result (Sink × Out)
    room_if_full sink o = if o.avail_out == 0 then make_room sink o else ok (sink, o)

    unfoldable pub feed_round : Bytes → Sink → Out → Result ((Sink × Out) × Bytes)
    feed_round input sink o = do
      t ← deflate_into no_flush input o
      assert (is_ok t.2)
      p ← room_if_full sink t.0
      ok (p, t.1)

    -- The loop over the input.
    unfoldable pub feed_loop : (fuel : ℕ) → Bytes → Sink → Out → Option (Result (Sink × Out))
    feed_loop fuel [] sink o = some (ok (sink, o))
    feed_loop zero (c ∷ input) sink o = none
    feed_loop (suc fuel) (c ∷ input) sink o =
        and_then (feed_round (c ∷ input) sink o) (λ t. feed_loop fuel t.1 t.0.0 t.0.1)

    unfoldable pub finish_round : Sink → Out → Result ((Sink × Out) × Code)
    finish_round sink o = do
      p ← room_if_full sink o
      t ← deflate_into finish [] p.1
      ok ((p.0, t.0), t.2)

    -- The loop that ends the stream, with the assert behind it.
    unfoldable pub finish_loop : (fuel : ℕ) → Sink → Out → Option (Result (Sink × Out))
    finish_loop zero sink o = none
    finish_loop (suc fuel) sink o = and_then (finish_round sink o) (λ t. elim t.1 [
      | z_ok ↦ finish_loop fuel t.0.0 t.0.1
      | z_stream_end ↦ some (ok t.0)
      | z_error ↦ some fault
    ])
