-- ===== src/Routes/Paths.antt =====
-- Which paths a route takes, and how it is added.
use marisa.Prelude.{
  ℕ, ◌-◌, ◌≡◌, ◌≢◌, refl, ap, ◌∙◌, false, some, [], ◌∷◌, ◌++◌, Bytes, codes, ◌==◌, get_or, take,
  length, length-append, take-append, Result, ok, raise, invalid_argument, bind_ok, arith,
}
use marisa.Routes.{new_route, App, route_at, global_route, route_pattern, add_route}

length-last : (path : Bytes) (c : ℕ) → length (path ++ c ∷ []) - 1 ≡ length path
length-last path c = omega (arith, length-append path (c ∷ []))

get_or-append : (path : Bytes) (c : ℕ) → get_or (path ++ c ∷ []) (length path) 0 ≡ c
get_or-append [] c = refl
get_or-append (d ∷ path) c = get_or-append path c

take-last : (path : Bytes) (c : ℕ) → take (length (path ++ c ∷ []) - 1) (path ++ c ∷ []) ≡ path
take-last path c =
    ap (λ n. take n (path ++ c ∷ [])) (length-last path c) ∙ take-append path (c ∷ [])

get_or-last : (path : Bytes) (c : ℕ) → get_or (path ++ c ∷ []) (length (path ++ c ∷ []) - 1) 0 ≡ c
get_or-last path c =
    ap (λ n. get_or (path ++ c ∷ []) n 0) (length-last path c) ∙ get_or-append path c

-- The pattern of a path that ends in an asterisk shows the path's text in front of it as a group, and
-- the rest as another; that of a path that ends otherwise is the path
-- between anchors.
pub route_pattern_lem :
    (path : Bytes) (c : ℕ)
    → c ≢ b'*'
    → (route_pattern (path ++ b'*' ∷ []) ≡ codes "^(" ++ (path ++ codes ")(.*)"))
      × (route_pattern (path ++ c ∷ []) ≡ codes "^" ++ ((path ++ c ∷ []) ++ codes "$"))
unfolding route_pattern
route_pattern_lem path c other =
    let star = get_or-last path b'*' in
    let last = get_or-last path c in
    let no_star : (c == b'*') ≡ false = ground arith in
    (rw (star, take-last path b'*') refl, rw (last, no_star) refl)

module _ (M Regex : Type 0) (compile : Bytes → Result Regex) where
  -- A path that begins with an asterisk replaces the global route and leaves the others; one that
  -- begins with a slash is put behind the others, if its pattern compiles; any other is refused, and
  -- so is an empty one.
  add_route_lem :
      (c : ℕ) (path : Bytes) (regex : Regex) (a : App M Regex)
      → compile (route_pattern (b'/' ∷ path)) ≡ ok regex
      → c ≢ b'*'
      → c ≢ b'/'
      → (add_route M Regex compile [] a ≡ raise invalid_argument)
        × (add_route M Regex compile (b'*' ∷ path) a
            ≡ ok (record a { route_global = some (new_route M) }, global_route))
        × (add_route M Regex compile (b'/' ∷ path) a
            ≡ ok (
              record a { route_mapping = a.route_mapping ++ (regex, new_route M) ∷ [] },
              route_at (length a.route_mapping),
            ))
        × (add_route M Regex compile (c ∷ path) a ≡ raise invalid_argument)
  unfolding add_route
  add_route_lem c path regex a e f g = (
    refl,
    refl,
    bind_ok
        (λ regex. ok (
          record a { route_mapping = a.route_mapping ++ (regex, new_route M) ∷ [] },
          route_at (length a.route_mapping),
        ))
        e,
    ground arith,
  )
