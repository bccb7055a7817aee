-- ===== src/Chain/Tests.antt =====
-- Runs of the chain.
use marisa.Prelude.{
  ◌≤◌, ◌≡◌, ◌≢◌, ◌⊎◌, ◌<◌, ℕ, ok, refl, true, some, List, [], ◌∷◌, fault, logic_error, arith,
}
use marisa.Chain.{
  act, call_next, throw_exception, Middleware, Chain, start, Ending, returned, faulted, run, next,
  run_caught, entry, last_position,
}
use marisa.Chain.Order.{range, next-order}
use marisa.Chain.Throws.{run_caught-cases}

abbrev logged : List Middleware
logged = (act 1 ∷ call_next ∷ act 3 ∷ []) ∷ (act 2 ∷ call_next ∷ []) ∷ []

-- The first middleware goes on when the second returns.
nested :
    next 3 logged start
    ≡ some (record { pos_cur_handler = 2; entered = 0 ∷ 1 ∷ []; trace = 1 ∷ 2 ∷ 3 ∷ [] }, returned)
unfolding next run entry last_position
nested = refl

next-order_example :
    (d : Chain) × (o : Ending) × (next 3 logged start ≡ some (d, o))
    × (o ≢ faulted)
    × (d.pos_cur_handler ≤ 2)
    × (d.entered ≡ range 0 d.pos_cur_handler)
next-order_example = next-order logged (λ e. cc) 3 (omega arith)

abbrev throwing : List Middleware
throwing = (throw_exception logic_error ∷ []) ∷ []

run_caught-cases_example :
    ((run_caught true 2 throwing ≡ some fault) × (0 ∷ [] ≡ range 0 1))
    ⊎ ((run_caught true 2 throwing
          ≡ some (ok (record { pos_cur_handler = 1; entered = 0 ∷ []; trace = [] })))
        × ((n : ℕ) × (n < 1) × (0 ∷ [] ≡ range 0 n)))
unfolding next run entry last_position
run_caught-cases_example =
    run_caught-cases 2 throwing (record { pos_cur_handler = 1; entered = 0 ∷ []; trace = [] })
      logic_error (λ e. cc) (omega arith) refl
