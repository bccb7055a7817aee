-- ===== src/Routes.antt =====
-- Source/App/App.cpp and Route.cpp: the routes of an application, and the middlewares of a route.
-- Regular expressions are those of the C++ library: `Regex`, what compiling a text gives, and what a
-- search finds are arguments. A reference to a route, or to the middlewares of a method, is the place
-- where they stand. `M` is the type of the middlewares.
pub mod Handlers
pub mod Paths
mod Tests
use marisa.Prelude.{
  ℤ, pos, negsuc, ℕ, zero, suc, ◌+◌, ◌-◌, ◌*◌, ◌/◌, ◌%◌, ◌^◌, ◌≤◌, ◌<◌, ◌≡◌, ◌≢◌, ◌↔◌, ◌⊎◌, inl,
  inr, refl, sym, ap, ◌∙◌, Bool, true, false, not, ◌&&◌, ◌||◌, Option, none, some, List, [], ◌∷◌,
  ◌++◌, map, append-nil, append_assoc, Bytes, codes, IsByte, bytes_eq, bytes_eq_iff, bytes_eq_refl,
  to_upper, to_lower, ltb, leb, ◌==◌, ==_iff, ==_refl, if◌then◌else◌, Bool-cases, Option-cases,
  get_or, get_elem?, take, drop, replicate, length, length-append, length-drop, take-all,
  take-append, drop-append, append-take-drop, length-take, digits-print_number, nil_of_length, all,
  All, All-append, All-imp, passes_below, passes_at, Result, ok, raise, fault, Exception,
  invalid_argument, logic_error, system_error, ◌>>=◌, ◌>>◌, at, bind_ok, print_number, read_number,
  read_number-print_number, length-print_number, digit_char, digit_value, find, find-all, insert,
  assign, insert_all, find-insert, find-assign, find-insert_all, or_else, arith,
}
use marisa.Methods.{method_assign}

module _ (M : Type 0) where
  -- `routemethods_mapping` maps method numbers.
  pub record Route : Type 0 where
    pub routemethods_mapping : List (ℕ × List M)
    pub routemethods_default : List M
    pub mode_streamed : Bool
    pub mode_async : Bool
    pub mode_no_yield : Bool

  abbrev pub new_route : Route
  new_route = record {
    routemethods_mapping = [];
    routemethods_default = [];
    mode_streamed = false;
    mode_async = false;
    mode_no_yield = false;
  }

  abbrev pub stream : Route → Route
  stream r = record r { mode_streamed = true }

  abbrev pub async : Route → Route
  async r = record r { mode_async = true }

  abbrev pub no_yield : Route → Route
  no_yield r = record r { mode_no_yield = true }

  unfoldable pub find_method : ℕ → List (ℕ × List M) → Option (List M)
  find_method k [] = none
  find_method k ((j, ms) ∷ l) = if j == k then some ms else find_method k l

  -- Changes the middlewares of a method that is there.
  unfoldable pub update_method : ℕ → (List M → List M) → List (ℕ × List M) → List (ℕ × List M)
  update_method k f [] = []
  update_method k f ((j, ms) ∷ l) = if j == k then (j, f ms) ∷ l else (j, ms) ∷ update_method k f l

-- What `on` refers to.
pub data MethodRef : Type 0 where
  mapped : ℕ → MethodRef
  default : MethodRef

module _ (M : Type 0) where
  unfoldable pub on : Bytes → Route M → Result (Route M × MethodRef)
  on name r = elim (method_assign name) [
    | ok k ↦ elim (find_method M k r.routemethods_mapping) [
      | none ↦
          ok (record r { routemethods_mapping = r.routemethods_mapping ++ (k, []) ∷ [] }, mapped k)
      | some ms ↦ ok (r, mapped k)
    ]
    | raise e ↦
        let sdup = map to_upper name in
        if not (bytes_eq sdup (codes "ALL")) && not (bytes_eq sdup (codes "*"))
        then raise e
        else ok (r, default)
    | fault ↦ fault
  ]

  unfoldable pub use_middleware : MethodRef → M → Route M → Route M
  use_middleware (mapped k) m r = record r {
    routemethods_mapping = update_method M k (λ ms. ms ++ m ∷ []) r.routemethods_mapping;
  }
  use_middleware default m r = record r { routemethods_default = r.routemethods_default ++ m ∷ [] }

module _ (M Regex : Type 0) where
  pub record App : Type 0 where
    pub route_mapping : List (Regex × Route M)
    pub route_global : Option (Route M)

-- What `App::route` refers to.
pub data RouteRef : Type 0 where
  route_at : ℕ → RouteRef
  global_route : RouteRef

-- The text of the regular expression for a path.
unfoldable pub route_pattern : Bytes → Bytes
route_pattern path =
    if get_or path (length path - 1) 0 == b'*'
    then codes "^(" ++ (take (length path - 1) path ++ codes ")(.*)")
    else codes "^" ++ (path ++ codes "$")

module _ (M Regex : Type 0) (compile : Bytes → Result Regex) where
  unfoldable pub add_route : Bytes → App M Regex → Result (App M Regex × RouteRef)
  add_route [] a = raise invalid_argument
  add_route (c ∷ path) a =
      let compiled = compile (route_pattern (c ∷ path)) in
      if c == b'*'
      then ok (record a { route_global = some (new_route M) }, global_route)
      else (if not (c == b'/')
          then raise invalid_argument
          else (compiled >>= λ regex. ok (
            record a { route_mapping = a.route_mapping ++ (regex, new_route M) ∷ [] },
            route_at (length a.route_mapping),
          )))

-- The overload for a regular expression.
unfoldable pub add_regex_route : {M Regex : Type 0} → Regex → App M Regex → App M Regex × RouteRef
add_regex_route {M} regex a = (
  record a { route_mapping = a.route_mapping ++ (regex, new_route M) ∷ [] },
  route_at (length a.route_mapping),
)
