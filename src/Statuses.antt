-- ===== src/Statuses.antt =====
-- Source/Protocol/HTTP/Status.cpp and Status.hpp: the names of the response statuses and their codes.
pub mod Phrases
mod Tests
use marisa.Prelude.{
  ℕ, zero, suc, ◌+◌, ◌-◌, ◌*◌, ◌/◌, ◌%◌, ◌^◌, ◌≤◌, ◌<◌, ◌≡◌, ◌≢◌, ◌↔◌, ◌⊎◌, inl, inr, refl, sym, ap,
  ◌∙◌, Bool, true, false, not, ◌&&◌, ◌||◌, Option, none, some, List, [], ◌∷◌, ◌++◌, map, append-nil,
  append_assoc, Bytes, codes, IsByte, bytes_eq, bytes_eq_iff, bytes_eq_refl, to_upper, to_lower,
  ltb, leb, ◌==◌, ==_iff, ==_refl, if◌then◌else◌, Bool-cases, Option-cases, get_or, get_elem?, take,
  drop, replicate, length, length-append, all, All, All-append, All-imp, passes_below, passes_at,
  Result, ok, raise, fault, Exception, invalid_argument, logic_error, system_error, ◌>>=◌, ◌>>◌, at,
  print_number, read_number, read_number-print_number, length-print_number, digit_char, digit_value,
  find, insert, assign, insert_all, find-insert, find-assign, find-insert_all, or_else, arith,
}

abbrev pub table_status_enum : List (Bytes × ℕ)
table_status_enum =
    (codes "CONTINUE", 100)
    ∷ (codes "SWITCHING_PROTOCOLS", 101)
    ∷ (codes "PROCESSING", 102)
    ∷ (codes "OK", 200)
    ∷ (codes "CREATED", 201)
    ∷ (codes "ACCEPTED", 202)
    ∷ (codes "NON_AUTHORITATIVE_INFORMATION", 203)
    ∷ (codes "NO_CONTENT", 204)
    ∷ (codes "RESET_CONTENT", 205)
    ∷ (codes "PARTIAL_CONTENT", 206)
    ∷ (codes "MULTI_STATUS", 207)
    ∷ (codes "ALREADY_REPORTED", 208)
    ∷ (codes "IM_USED", 226)
    ∷ (codes "MULTIPLE_CHOICES", 300)
    ∷ (codes "MOVED_PERMANENTLY", 301)
    ∷ (codes "FOUND", 302)
    ∷ (codes "SEE_OTHER", 303)
    ∷ (codes "NOT_MODIFIED", 304)
    ∷ (codes "USE_PROXY", 305)
    ∷ (codes "TEMPORARY_REDIRECT", 307)
    ∷ (codes "PERMANENT_REDIRECT", 308)
    ∷ (codes "BAD_REQUEST", 400)
    ∷ (codes "UNAUTHORIZED", 401)
    ∷ (codes "PAYMENT_REQUIRED", 402)
    ∷ (codes "FORBIDDEN", 403)
    ∷ (codes "NOT_FOUND", 404)
    ∷ (codes "METHOD_NOT_ALLOWED", 405)
    ∷ (codes "NOT_ACCEPTABLE", 406)
    ∷ (codes "PROXY_AUTHENTICATION_REQUIRED", 407)
    ∷ (codes "REQUEST_TIMEOUT", 408)
    ∷ (codes "CONFLICT", 409)
    ∷ (codes "GONE", 410)
    ∷ (codes "LENGTH_REQUIRED", 411)
    ∷ (codes "PRECONDITION_FAILED", 412)
    ∷ (codes "PAYLOAD_TOO_LARGE", 413)
    ∷ (codes "URI_TOO_LONG", 414)
    ∷ (codes "UNSUPPORTED_MEDIA_TYPE", 415)
    ∷ (codes "RANGE_NOT_SATISFIABLE", 416)
    ∷ (codes "EXPECTATION_FAILED", 417)
    ∷ (codes "MISDIRECTED_REQUEST", 421)
    ∷ (codes "UNPROCESSABLE_ENTITY", 422)
    ∷ (codes "LOCKED", 423)
    ∷ (codes "FAILED_DEPENDENCY", 424)
    ∷ (codes "UPGRADE_REQUIRED", 426)
    ∷ (codes "PRECONDITION_REQUIRED", 428)
    ∷ (codes "TOO_MANY_REQUESTS", 429)
    ∷ (codes "REQUEST_HEADER_FIELDS_TOO_LARGE", 431)
    ∷ (codes "UNAVAILABLE_FOR_LEGAL_REASONS", 451)
    ∷ (codes "INTERNAL_SERVER_ERROR", 500)
    ∷ (codes "NOT_IMPLEMENTED", 501)
    ∷ (codes "BAD_GATEWAY", 502)
    ∷ (codes "SERVICE_UNAVAILABLE", 503)
    ∷ (codes "GATEWAY_TIMEOUT", 504)
    ∷ (codes "HTTP_VERSION_NOT_SUPPORTED", 505)
    ∷ (codes "VARIANT_ALSO_NEGOTIATES", 506)
    ∷ (codes "INSUFFICIENT_STORAGE", 507)
    ∷ (codes "LOOP_DETECTED", 508)
    ∷ (codes "NOT_EXTENDED", 510)
    ∷ (codes "NETWORK_AUTHENTICATION_REQUIRED", 511)
    ∷ []

-- isalpha
abbrev pub is_alpha : ℕ → Bool
is_alpha c = (leb b'a' c && leb c b'z') || (leb b'A' c && leb c b'Z')

-- `assign(std::string)`: the code that a name stands for, in any case, with any bytes for the
-- underscores.
unfoldable pub status_assign : Bytes → Result ℕ
status_assign name =
    elim (find (map (λ c. if is_alpha c then to_upper c else b'_') name) table_status_enum) [
      | none ↦ raise invalid_argument
      | some status ↦ ok status
    ]
