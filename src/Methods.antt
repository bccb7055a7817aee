-- ===== src/Methods.antt =====
-- Source/Protocol/HTTP/Method.cpp and Method.hpp: the names of the request methods and their numbers
-- in http_parser's enumeration.
pub mod Names
mod Tests
use marisa.Prelude.{
  ℕ, zero, suc, ◌+◌, ◌-◌, ◌*◌, ◌/◌, ◌%◌, ◌^◌, ◌≤◌, ◌<◌, ◌≡◌, ◌≢◌, ◌↔◌, ◌⊎◌, inl, inr, refl, sym, ap,
  ◌∙◌, Bool, true, false, not, ◌&&◌, ◌||◌, Option, none, some, List, [], ◌∷◌, ◌++◌, map, append-nil,
  append_assoc, Bytes, codes, IsByte, bytes_eq, bytes_eq_iff, bytes_eq_refl, to_upper, to_lower,
  ltb, leb, ◌==◌, ==_iff, ==_refl, if◌then◌else◌, Bool-cases, Option-cases, get_or, get_elem?, take,
  drop, replicate, length, length-append, all, All, All-append, All-imp, passes_below, passes_at,
  Result, ok, raise, fault, Exception, invalid_argument, logic_error, system_error, ◌>>=◌, ◌>>◌, at,
  print_number, read_number, read_number-print_number, length-print_number, digit_char, digit_value,
  find, insert, assign, insert_all, find-insert, find-assign, find-insert_all, or_else, arith,
}

abbrev pub table_method_enum : List (Bytes × ℕ)
table_method_enum =
    (codes "DELETE", 0)
    ∷ (codes "GET", 1)
    ∷ (codes "HEAD", 2)
    ∷ (codes "POST", 3)
    ∷ (codes "PUT", 4)
    ∷ (codes "CONNECT", 5)
    ∷ (codes "OPTIONS", 6)
    ∷ (codes "TRACE", 7)
    ∷ (codes "COPY", 8)
    ∷ (codes "LOCK", 9)
    ∷ (codes "MKCOL", 10)
    ∷ (codes "MOVE", 11)
    ∷ (codes "PROPFIND", 12)
    ∷ (codes "PROPPATCH", 13)
    ∷ (codes "SEARCH", 14)
    ∷ (codes "UNLOCK", 15)
    ∷ (codes "BIND", 16)
    ∷ (codes "REBIND", 17)
    ∷ (codes "UNBIND", 18)
    ∷ (codes "ACL", 19)
    ∷ (codes "REPORT", 20)
    ∷ (codes "MKACTIVITY", 21)
    ∷ (codes "CHECKOUT", 22)
    ∷ (codes "MERGE", 23)
    ∷ (codes "MSEARCH", 24)
    ∷ (codes "NOTIFY", 25)
    ∷ (codes "SUBSCRIBE", 26)
    ∷ (codes "UNSUBSCRIBE", 27)
    ∷ (codes "PATCH", 28)
    ∷ (codes "PURGE", 29)
    ∷ (codes "MKCALENDAR", 30)
    ∷ (codes "LINK", 31)
    ∷ (codes "UNLINK", 32)
    ∷ (codes "SOURCE", 33)
    ∷ []

-- `assign(std::string)`: the method that a name stands for, in any case.
unfoldable pub method_assign : Bytes → Result ℕ
method_assign name = elim (find (map to_upper name) table_method_enum) [
  | none ↦ raise invalid_argument
  | some method ↦ ok method
]
