-- ===== src/Routes/Tests.antt =====
-- Runs of the routes.
use marisa.Prelude.{ℕ, ◌≡◌, refl, none, [], Bytes, codes, bytes_eq, to_upper, ok, find}
use marisa.Methods.{method_assign}
use marisa.Routes.{Route, new_route, MethodRef, on, use_middleware, App}
use marisa.Routes.Handlers.{Added, on-Added}

on-Added_example :
    (q : Route ℕ) × (ref : MethodRef) × (on ℕ (codes "get") (new_route ℕ) ≡ ok (q, ref))
    × Added ℕ 1 7 (new_route ℕ) (use_middleware ℕ ref 7 q)
unfolding method_assign find bytes_eq to_upper
on-Added_example = on-Added ℕ (codes "get") 1 7 (new_route ℕ) refl

abbrev empty_app : App ℕ Bytes
empty_app = record { route_mapping = []; route_global = none }
