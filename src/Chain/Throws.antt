-- ===== src/Chain/Throws.antt =====
-- What the handler of an exception reads.
use marisa.Prelude.{
  ℕ, ◌≤◌, ◌<◌, ◌≡◌, ◌≢◌, ◌⊎◌, inl, inr, refl, sym, ap, ◌∙◌, true, Option, none, some, List, [], ◌∷◌,
  ltb, Bool-cases, get_elem?, length, ok, fault, Exception, ◌>>=◌, at, arith,
}
use marisa.Chain.{Middleware, Chain, Ending, start, threw, next, run_caught}
use marisa.Chain.Order.{get_elem-inside, range, next-order}

get_elem_end : (l : List Middleware) → get_elem? l (length l) ≡ none
get_elem_end [] = refl
get_elem_end (m ∷ l) = get_elem_end l

threw_inj :
    {c d : Chain} {o : Ending} {x : Exception}
    → ◌≡◌ {A = Option (Chain × Ending)} (some (c, o)) (some (d, threw x))
    → c ≡ d
threw_inj e = cc

module _ (fuel : ℕ) (l : List Middleware) (d : Chain) (x : Exception) (full : l ≢ [])
    (enough : length l < fuel) (e : next fuel l start ≡ some (d, threw x)) where
  caught : run_caught true fuel l ≡ some (at l d.pos_cur_handler >>= λ m. ok d)
  unfolding run_caught
  caught = rw (run_caught, e) refl

  -- The position is the number of the middlewares that were entered.
  thrown-order : (d.pos_cur_handler ≤ length l) × (d.entered ≡ range 0 d.pos_cur_handler)
  thrown-order =
      let (c, o, ends, safe, inside, order) = next-order l full fuel enough in
      let same : c ≡ d = threw_inj (sym ends ∙ e) in (rw (sym same) inside, rw (sym same) order)

  caught_end : d.pos_cur_handler ≡ length l → run_caught true fuel l ≡ some fault
  caught_end f =
      let out : get_elem? l d.pos_cur_handler ≡ none = ap (get_elem? l) f ∙ get_elem_end l in
      caught ∙ rw (at, out) refl

  caught_inside : d.pos_cur_handler < length l → run_caught true fuel l ≡ some (ok d)
  caught_inside h =
      let (m, found) = get_elem-inside l d.pos_cur_handler h in caught ∙ rw (at, found) refl

  -- With more fuel than middlewares, of which there is one at least: when an exception leaves the chain
  -- and is to be caught, its handler reads outside of the list of middlewares exactly if all of them, the
  -- last included, had been entered; if not, those that were are a part of the list from the first
  -- on, and the call returns.
  pub run_caught-cases :
      ((run_caught true fuel l ≡ some fault) × (d.entered ≡ range 0 (length l)))
      ⊎ ((run_caught true fuel l ≡ some (ok d))
          × ((n : ℕ) × (n < length l) × (d.entered ≡ range 0 n)))
  run_caught-cases = elim (Bool-cases (ltb d.pos_cur_handler (length l))) [
    | inl inside ↦
        let below : d.pos_cur_handler < length l = ground arith in
        inr (caught_inside below, (d.pos_cur_handler, below, thrown-order.1))
    | inr past ↦
        let whole : d.pos_cur_handler ≡ length l = ground (arith, thrown-order.0) in
        inl (caught_end whole, thrown-order.1 ∙ ap (range 0) whole)
  ]
