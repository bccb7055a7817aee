-- ===== src/Buffer.antt =====
-- Source/Server/Buffer.cpp and Buffer.hpp: a tagged holder of bytes. A unique_ptr is an Option, and
-- to look into a null one is a fault. A string_view is the bytes that it shows: how long they live is
-- not modelled.
pub mod Moves
mod Tests
use marisa.Prelude.{
  ℤ, pos, negsuc, ℕ, zero, suc, ◌+◌, ◌-◌, ◌*◌, ◌/◌, ◌%◌, ◌^◌, ◌≤◌, ◌<◌, ◌≡◌, ◌≢◌, ◌↔◌, ◌⊎◌, inl,
  inr, refl, sym, ap, ◌∙◌, Bool, true, false, not, ◌&&◌, ◌||◌, Option, none, some, List, [], ◌∷◌,
  ◌++◌, map, append-nil, append_assoc, Bytes, codes, IsByte, bytes_eq, bytes_eq_iff, bytes_eq_refl,
  to_upper, to_lower, ltb, leb, ◌==◌, ==_iff, ==_refl, if◌then◌else◌, Bool-cases, Option-cases,
  get_or, get_elem?, take, drop, replicate, length, length-append, length-drop, nil_of_length, all,
  All, All-append, All-imp, passes_below, passes_at, Result, ok, raise, fault, Exception,
  invalid_argument, logic_error, system_error, ◌>>=◌, ◌>>◌, at, bind_ok, print_number, read_number,
  read_number-print_number, length-print_number, digit_char, digit_value, find, find-all, insert,
  assign, insert_all, find-insert, find-assign, find-insert_all, or_else, arith,
}

pub record Buffer : Type 0 where
  pub type : ℕ
  pub vec : Option Bytes
  pub str : Option Bytes
  pub sv : Option Bytes

abbrev pub empty_buffer : Buffer
empty_buffer = record { type = 0; vec = none; str = none; sv = none }

abbrev pub deref : Option Bytes → Result Bytes
deref none = fault
deref (some s) = ok s

unfoldable pub get : Buffer → Result Bytes
get b =
    if b.type == 1
    then deref b.str
    else (if b.type == 2 then deref b.vec else (if b.type == 3 then deref b.sv else ok []))

unfoldable pub size : Buffer → Result ℕ
size b =
    if b.type == 1
    then (deref b.str >>= λ s. ok (length s))
    else (if b.type == 2
        then (deref b.vec >>= λ s. ok (length s))
        else (if b.type == 3 then (deref b.sv >>= λ s. ok (length s)) else ok 0))

-- The three kinds of data that `assign` and the writes are overloaded for.
pub data Holder : Type 0 where
  string vector string_view : Holder

unfoldable pub assign_data : Holder → Bytes → Buffer → Buffer
assign_data string s b = record b { type = 1; str = some s }
assign_data vector s b = record b { type = 2; vec = some s }
assign_data string_view s b = record b { type = 3; sv = some s }

-- The source and the target behind a move.
unfoldable pub move_assign : (o this : Buffer) → Buffer × Buffer
move_assign o this =
    if o.type == 1
    then (record o { str = none }, record this { type = o.type; str = o.str })
    else (if o.type == 2
        then (record o { vec = none }, record this { type = o.type; vec = o.vec })
        else (if o.type == 3
            then (record o { sv = none }, record this { type = o.type; sv = o.sv })
            else (o, record this { type = o.type })))

unfoldable pub copy_assign : (o this : Buffer) → Result Buffer
copy_assign o this =
    if o.type == 1
    then (deref o.str >>= λ s. ok (record this { type = o.type; str = some s }))
    else (if o.type == 2
        then (deref o.vec >>= λ s. ok (record this { type = o.type; vec = some s }))
        else (if o.type == 3
            then (deref o.sv >>= λ s. ok (record this { type = o.type; sv = some s }))
            else ok (record this { type = o.type })))
