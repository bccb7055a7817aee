-- ===== src/Chain.antt =====
-- Source/App/Context.cpp, next and run_handler: the chain of a method's middlewares. A middleware is
-- user code: all that matters here is what it does in turn, that is to call next(), to throw, or
-- anything else, which is a number in a trace.
pub mod Order
pub mod Throws
mod Tests
use marisa.Prelude.{
  ℤ, pos, negsuc, ℕ, zero, suc, ◌+◌, ◌-◌, ◌*◌, ◌/◌, ◌%◌, ◌^◌, ◌≤◌, ◌<◌, ◌≡◌, ◌≢◌, ◌↔◌, ◌⊎◌, inl,
  inr, refl, sym, ap, ◌∙◌, Bool, true, false, not, ◌&&◌, ◌||◌, Option, none, some, List, [], ◌∷◌,
  ◌++◌, map, append-nil, append_assoc, Bytes, codes, IsByte, bytes_eq, bytes_eq_iff, bytes_eq_refl,
  to_upper, to_lower, ltb, leb, ◌==◌, ==_iff, ==_refl, if◌then◌else◌, Bool-cases, Option-cases,
  get_or, get_elem?, take, drop, replicate, length, length-append, length-drop, take-all,
  take-append, drop-append, append-take-drop, length-take, digits-print_number, nil_of_length, all,
  All, All-append, All-imp, passes_below, passes_at, Result, ok, raise, fault, Exception,
  invalid_argument, logic_error, system_error, ◌>>=◌, ◌>>◌, at, bind_ok, print_number, read_number,
  read_number-print_number, length-print_number, digit_char, digit_value, find, find-all, insert,
  assign, insert_all, find-insert, find-assign, find-insert_all, or_else, arith,
}

pub data Action : Type 0 where
  act : ℕ → Action
  call_next : Action
  throw_exception : Exception → Action

abbrev pub Middleware : Type 0
Middleware = List Action

-- `pos_cur_handler`, the positions of the middlewares that were entered, and the trace.
pub record Chain : Type 0 where
  pub pos_cur_handler : ℕ
  pub entered : List ℕ
  pub trace : List ℕ

abbrev pub start : Chain
start = record { pos_cur_handler = 0; entered = []; trace = [] }

pub data Ending : Type 0 where
  returned faulted : Ending
  threw : Exception → Ending

-- `middleware_list.size()-1` of a size_t.
unfoldable pub last_position : List Middleware → ℕ
last_position l = if length l == 0 then 2 ^ 64 - 1 else length l - 1

-- What next() enters.
pub data Entry : Type 0 where
  past_end out_of_range : Entry
  enters : Middleware → Entry

unfoldable pub entry : List Middleware → Chain → Entry
entry l c =
    if ltb (last_position l) c.pos_cur_handler
    then past_end
    else elim (get_elem? l c.pos_cur_handler) [ none ↦ out_of_range | some m ↦ enters m ]

abbrev pub enter : Chain → Chain
enter c = record c {
  pos_cur_handler = suc c.pos_cur_handler;
  entered = c.entered ++ c.pos_cur_handler ∷ [];
}

-- Runs what is left of a middleware; `none` if the depth of the calls exceeds the fuel.
unfoldable pub run : (fuel : ℕ) → List Middleware → List Action → Chain → Option (Chain × Ending)
run fuel l [] c = some (c, returned)
run fuel l (act a ∷ todo) c = run fuel l todo (record c { trace = c.trace ++ a ∷ [] })
run fuel l (throw_exception e ∷ todo) c = some (c, threw e)
run zero l (call_next ∷ todo) c = none
run (suc fuel) l (call_next ∷ todo) c = elim (entry l c) [
  | past_end ↦ run (suc fuel) l todo c
  | out_of_range ↦ some (c, faulted)
  | enters m ↦ elim (run fuel l m (enter c)) [
    | none ↦ none
    | some (d, returned) ↦ run (suc fuel) l todo d
    | some (d, faulted) ↦ some (d, faulted)
    | some (d, threw e) ↦ some (d, threw e)
  ]
]

-- next() of the context, as run_handler calls it.
unfoldable pub next : (fuel : ℕ) → List Middleware → Chain → Option (Chain × Ending)
next fuel l c = run fuel l (call_next ∷ []) c

-- The call with its catch, if `catch_unhandled_exception` is set: the handler of an exception reads
-- `middleware_list[pos_cur_handler]`.
unfoldable pub run_caught :
    (catch_unhandled_exception : Bool) (fuel : ℕ) → List Middleware → Option (Result Chain)
run_caught catch_unhandled_exception fuel l = elim (next fuel l start) [
  | none ↦ none
  | some (d, returned) ↦ some (ok d)
  | some (d, faulted) ↦ some fault
  | some (d, threw e) ↦
      if catch_unhandled_exception
      then some (at l d.pos_cur_handler >>= λ m. ok d)
      else some (raise e)
]
