-- ===== src/Methods/Tests.antt =====
-- Runs of the method names.
use marisa.Prelude.{◌≡◌, refl, codes, bytes_eq, to_upper, find}
use marisa.Methods.{method_assign}

any_case : method_assign (codes "get") ≡ method_assign (codes "GET")
unfolding method_assign find bytes_eq to_upper
any_case = refl
