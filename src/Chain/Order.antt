-- ===== src/Chain/Order.antt =====
-- The middlewares run in order, each at most once.
use marisa.Prelude.{
  length-positive, ℕ, zero, suc, ◌+◌, ◌-◌, ◌^◌, ◌≤◌, ◌<◌, ◌≡◌, ◌≢◌, inl, inr, refl, sym, ap, ◌∙◌,
  false, Option, some, List, [], ◌∷◌, ◌++◌, append-nil, append_assoc, ltb, ◌==◌, if◌then◌else◌,
  Bool-cases, get_elem?, length, Exception, arith,
}
use mathlib.Core.Path.{ap₂, subst}
use marisa.Chain.{
  Action, act, call_next, throw_exception, Middleware, Chain, start, Ending, returned, faulted,
  threw, last_position, past_end, enters, entry, enter, run, next,
}

-- The `n` numbers from `a` on.
abbrev pub range : (a n : ℕ) → List ℕ
range a zero = []
range a (suc n) = a ∷ range (suc a) n

range-append : (a k n : ℕ) → range a k ++ range (k + a) n ≡ range a (k + n)
range-append a zero n =
    let same_start : 0 + a ≡ a = omega arith in
    let same_count : n ≡ 0 + n = omega arith in ap₂ range same_start same_count
range-append a (suc k) n =
    let same_start : suc k + a ≡ k + suc a = omega arith in
    let same_count : suc (k + n) ≡ suc k + n = omega arith in
    ap (λ l. a ∷ l) (ap (λ t. range (suc a) k ++ range t n) same_start ∙ range-append (suc a) k n)
    ∙ ap (range a) same_count

-- The second chain is the first after `k` more middlewares were entered, in order.
abbrev pub Enters : ℕ → Chain → Chain → Type 0
Enters k c d =
    (d.pos_cur_handler ≡ k + c.pos_cur_handler)
    × (d.entered ≡ c.entered ++ range c.pos_cur_handler k)

pub get_elem-inside :
    (l : List Middleware) (i : ℕ) → i < length l → (m : Middleware) × (get_elem? l i ≡ some m)
get_elem-inside [] i h = absurd (omega arith)
get_elem-inside (m ∷ l) zero h = (m, refl)
get_elem-inside (m ∷ l) (suc i) h = get_elem-inside l i (omega arith)

Enters-trans : (k n : ℕ) (b c d : Chain) → Enters k b c → Enters n c d → Enters (k + n) b d
Enters-trans k n b c d (p, e) (q, f) = (
  omega (arith, p, q),
  f
      ∙ ap₂ (λ l a. l ++ range a n) e p
      ∙ append_assoc b.entered (range b.pos_cur_handler k) (range (k + b.pos_cur_handler) n)
      ∙ ap (λ l. b.entered ++ l) (range-append b.pos_cur_handler k n),
)

Enters-enter : (c : Chain) → Enters 1 c (enter c)
Enters-enter c = (omega arith, refl)

module _ (l : List Middleware) (full : l ≢ []) where
  entry_end : (c : Chain) → c.pos_cur_handler ≡ length l → entry l c ≡ past_end
  unfolding entry last_position
  entry_end c e = ground (arith, length-positive l full)

  entry_inside :
      (c : Chain) → c.pos_cur_handler < length l → (m : Middleware) × (entry l c ≡ enters m)
  unfolding entry last_position
  entry_inside c h =
      let (m, found) = get_elem-inside l c.pos_cur_handler h in
      let inside : ltb (if length l == 0 then 2 ^ 64 - 1 else length l - 1) c.pos_cur_handler
          ≡ false =
        ground arith in
      (m, rw (inside, found) refl)

  module _ (fuel : ℕ) (todo : List Action) (c : Chain) where
    run-past_end :
        entry l c ≡ past_end → run (suc fuel) l (call_next ∷ todo) c ≡ run (suc fuel) l todo c
    unfolding run
    run-past_end e = rw (run, e) refl

    run-enter :
        (m : Middleware) (d : Chain)
        → entry l c ≡ enters m
        → run fuel l m (enter c) ≡ some (d, returned)
        → run (suc fuel) l (call_next ∷ todo) c ≡ run (suc fuel) l todo d
    unfolding run
    run-enter m d e f = rw (run, e) (rw (run, f) refl)

    run_threw :
        (m : Middleware) (d : Chain) (x : Exception)
        → entry l c ≡ enters m
        → run fuel l m (enter c) ≡ some (d, threw x)
        → run (suc fuel) l (call_next ∷ todo) c ≡ some (d, threw x)
    unfolding run
    run_threw m d x e f = rw (run, e) (rw (run, f) refl)

  run_act :
      (fuel : ℕ) (todo : List Action) (c : Chain) (a : ℕ)
      → run fuel l (act a ∷ todo) c ≡ run fuel l todo (record c { trace = c.trace ++ a ∷ [] })
  run_act zero todo c a = unfold run in refl
  run_act (suc fuel) todo c a = unfold run in refl

  -- What a run comes to, with enough fuel.
  abbrev Ends : Chain → Option (Chain × Ending) → Type 0
  Ends c r =
      (d : Chain) × (o : Ending) × (k : ℕ) × (r ≡ some (d, o))
      × (o ≢ faulted)
      × (d.pos_cur_handler ≤ length l)
      × Enters k c d

  Ends-same : (c : Chain) (r s : Option (Chain × Ending)) → r ≡ s → Ends c s → Ends c r
  Ends-same c r s e ends = subst (Ends c) (sym e) ends

  Ends-later :
      (k : ℕ) (b c : Chain) (r : Option (Chain × Ending)) → Enters k b c → Ends c r → Ends b r
  Ends-later k b c r h (d, o, n, e, safe, inside, entered) =
      (d, o, k + n, e, safe, inside, Enters-trans k n b c d h entered)

  -- A run that enters a middleware, when that and the rest come to an end.
  entered-Ends :
      (fuel : ℕ) (todo : List Action) (c : Chain) (m : Middleware)
      → entry l c ≡ enters m
      → length l < suc fuel + c.pos_cur_handler
      → Ends (enter c) (run fuel l m (enter c))
      → ((d : Chain)
          → d.pos_cur_handler ≤ length l
          → length l < suc fuel + d.pos_cur_handler
          → Ends d (run (suc fuel) l todo d))
      → Ends c (run (suc fuel) l (call_next ∷ todo) c)
  entered-Ends fuel todo c m found k (d, faulted, n, e, safe, inside, entered) rest =
      absurd (safe refl)
  entered-Ends fuel todo c m found k (d, threw x, n, e, safe, inside, entered) rest = (
    d,
    threw x,
    1 + n,
    run_threw fuel todo c m d x found e,
    safe,
    inside,
    Enters-trans 1 n c (enter c) d (Enters-enter c) entered,
  )
  entered-Ends fuel todo c m found k (d, returned, n, e, safe, inside, entered) rest =
      Ends-same c _ _ (run-enter fuel todo c m d found e) (
        Ends-later (1 + n) c d _ (Enters-trans 1 n c (enter c) d (Enters-enter c) entered)
          (rest d inside (omega (arith, entered.0))))

  run-Ends :
      (fuel : ℕ) (todo : List Action) (c : Chain)
      → c.pos_cur_handler ≤ length l
      → length l < fuel + c.pos_cur_handler
      → Ends c (run fuel l todo c)
  run-Ends fuel [] c h k =
      (c, returned, 0, unfold run in refl, (λ e. cc), h, (omega arith, sym (append-nil c.entered)))
  run-Ends fuel (act a ∷ todo) c h k =
      let later = record c { trace = c.trace ++ a ∷ [] } in
      Ends-same c (run fuel l (act a ∷ todo) c) (run fuel l todo later) (run_act fuel todo c a)
        (run-Ends fuel todo later h k)
  run-Ends fuel (throw_exception e ∷ todo) c h k =
      (c, threw e, 0, unfold run in refl, (λ e. cc), h, (omega arith, sym (append-nil c.entered)))
  run-Ends zero (call_next ∷ todo) c h k = absurd (omega arith)
  run-Ends (suc fuel) (call_next ∷ todo) c h k =
      elim (Bool-cases (ltb c.pos_cur_handler (length l))) [
        | inr past ↦
            Ends-same c _ _ (run-past_end fuel todo c (entry_end c (ground arith)))
              (run-Ends (suc fuel) todo c h k)
        | inl inside ↦
            let (m, found) = entry_inside c (ground arith) in
            entered-Ends fuel todo c m found k
              (run-Ends fuel m (enter c) (ground arith) (omega arith))
              (λ d p q. run-Ends (suc fuel) todo d p q)
      ]

  -- next() comes to an end if the fuel exceeds the number of middlewares, of which there is one at
  -- least: it enters them from the
  -- first on, each once and in order, never reads outside of the list, and leaves the position behind the
  -- last one entered.
  pub next-order :
      (fuel : ℕ)
      → length l < fuel
      → (d : Chain) × (o : Ending) × (next fuel l start ≡ some (d, o))
        × (o ≢ faulted)
        × (d.pos_cur_handler ≤ length l)
        × (d.entered ≡ range 0 d.pos_cur_handler)
  unfolding next
  next-order fuel h =
      let (d, o, k, e, safe, inside, (counted, entered)) =
        run-Ends fuel (call_next ∷ []) start (omega arith) (omega arith) in
      let same : k ≡ d.pos_cur_handler = omega arith in
      (d, o, e, safe, inside, entered ∙ ap (range 0) same)
