-- ===== src/Request/Tests.antt =====
-- Runs of the request.
use marisa.Prelude.{◌≡◌, refl, [], ◌∷◌, Bytes, codes, bytes_eq, ok, fault, find, assign, arith}
use marisa.Http1.{Headers}
use marisa.Utilities.{explode_zerocopy_sv}
use marisa.Request.{
  find_byte, trim_key, skip_key, skip_value, trim_value, parse_cookie, parse_cookies, cookies,
}
use marisa.Request.Cookies.{cookie, parse_cookie-pair}
use marisa.Request.Faults.{keyless, parse_cookie-keyless}

abbrev header : Bytes → Headers
header value = (codes "cookie", value) ∷ []

two_cookies :
    cookies 0 (header (codes "a=1; b = two ")) []
    ≡ ok ((codes "a", codes "1") ∷ (codes "b", codes "two") ∷ [])
unfolding cookies parse_cookies parse_cookie find_byte trim_key skip_key skip_value trim_value
    explode_zerocopy_sv find assign bytes_eq
two_cookies = refl

empty_key : cookies 0 (header (codes "a=1; =v")) [] ≡ fault
unfolding cookies parse_cookies parse_cookie find_byte trim_key skip_key skip_value trim_value
    explode_zerocopy_sv find assign bytes_eq
empty_key = refl

empty_value : cookies 0 (header (codes "a= ;b=1")) [] ≡ fault
unfolding cookies parse_cookies parse_cookie find_byte trim_key skip_key skip_value trim_value
    explode_zerocopy_sv find assign bytes_eq
empty_value = refl

parse_cookie-pair_example :
    parse_cookie (cookie 1 b';' (codes "ab") (codes "c d") (codes "; x"))
    ≡ ok (codes "ab", codes "c d")
parse_cookie-pair_example =
    parse_cookie-pair 1 b';' (codes "ab") (codes "c d") (codes "; x")
      ((λ e. omega (arith, e)), ((λ e. omega (arith, e)), tt))
      (omega arith, (λ e. omega (arith, e)), (λ e. omega (arith, e)))
      (omega arith, (λ e. omega (arith, e)), (λ e. omega (arith, e)))

parse_cookie-keyless_example : parse_cookie (keyless 0 b';' (codes "v") []) ≡ fault
parse_cookie-keyless_example = parse_cookie-keyless 0 b';' (codes "v") [] (λ e. omega (arith, e))
