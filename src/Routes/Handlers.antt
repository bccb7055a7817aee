-- ===== src/Routes/Handlers.antt =====
-- Which middlewares `on` and `use` give to which method.
use marisa.Prelude.{
  ℕ, ◌≡◌, inl, inr, refl, sym, ap, ◌∙◌, Bool, true, false, Option, none, some, List, [], ◌∷◌, ◌++◌,
  Bytes, ◌==◌, ==_refl, if◌then◌else◌, Option-cases, ok, arith,
}
use mathlib.Core.Option
use mathlib.Core.Path.{ap₂}
use marisa.Methods.{method_assign}
use marisa.Routes.{Route, find_method, update_method, MethodRef, mapped, on, use_middleware}

module _ (M : Type 0) where
  find_method-update_method :
      (k j : ℕ) (f : List M → List M) (l : List (ℕ × List M))
      → find_method M j (update_method M k f l)
        ≡ (if k == j then Option.map f (find_method M k l) else find_method M j l)
  unfolding find_method update_method
  find_method-update_method k j f [] = ground arith
  find_method-update_method k j f ((i, ms) ∷ l) = ground (arith, find_method-update_method k j f l)

  find_method-append :
      (k j : ℕ) (ms : List M) (l : List (ℕ × List M))
      → find_method M k l ≡ none
      → find_method M j (l ++ (k, ms) ∷ []) ≡ (if k == j then some ms else find_method M j l)
  unfolding find_method
  find_method-append k j ms [] e = refl
  find_method-append k j ms ((i, ns) ∷ l) e = ground (arith, find_method-append k j ms l)

  abbrev or_nil : Option (List M) → List M
  or_nil none = []
  or_nil (some ms) = ms

  -- The middlewares of a method, none if it is not mapped.
  abbrev pub middlewares : ℕ → Route M → List M
  middlewares k r = or_nil (find_method M k r.routemethods_mapping)

  -- What `use` behind `on` makes of a route, for the method `k` and the middleware `m`.
  abbrev pub Added : ℕ → M → Route M → Route M → Type 0
  Added k m r t =
      ((j : ℕ)
        → find_method M j t.routemethods_mapping ≡ (
            if k == j
            then some (middlewares k r ++ m ∷ [])
            else find_method M j r.routemethods_mapping))
      × (t.routemethods_default ≡ r.routemethods_default)

  same_branch :
      {A : Type 0} (t : Bool) (a b c : A)
      → (if t then a else (if t then b else c)) ≡ (if t then a else c)
  same_branch true a b c = refl
  same_branch false a b c = refl

  mapped-Added :
      (k : ℕ) (m : M) (r : Route M) (ms : List M)
      → find_method M k r.routemethods_mapping ≡ some ms
      → Added k m r (use_middleware M (mapped k) m r)
  unfolding use_middleware
  mapped-Added k m r ms e =
      let add : List M → List M = λ ms. ms ++ m ∷ [] in
      let l = r.routemethods_mapping in
      (
        (λ j.
            find_method-update_method k j add l
            ∙ ap (λ o. if k == j then Option.map add o else find_method M j l) e
            ∙ sym (ap (λ o. if k == j then some (add (or_nil o)) else find_method M j l) e)),
        refl,
      )

  on_new-Added :
      (k : ℕ) (m : M) (r : Route M)
      → find_method M k r.routemethods_mapping ≡ none
      → Added k m r (
          use_middleware M
            (mapped k)
            m
            (record r { routemethods_mapping = r.routemethods_mapping ++ (k, []) ∷ [] }))
  unfolding use_middleware
  on_new-Added k m r e =
      let add : List M → List M = λ ms. ms ++ m ∷ [] in
      let l = r.routemethods_mapping in
      let added : find_method M k (l ++ (k, []) ∷ []) ≡ some [] =
        find_method-append k k [] l e ∙ rw (==_refl k) refl in
      (
        (λ j.
            find_method-update_method k j add (l ++ (k, []) ∷ [])
            ∙ ap₂ (λ o p. if k == j then Option.map add o else p) added
                (find_method-append k j [] l e)
            ∙ (same_branch (k == j) _ _ _
                ∙ sym (ap (λ o. if k == j then some (add (or_nil o)) else find_method M j l) e))),
        refl,
      )

  -- For a name of a method, `use` behind `on` puts the middleware behind those of the method, which
  -- may have none yet, and leaves the other methods and the default alone.
  pub on-Added :
      (name : Bytes) (k : ℕ) (m : M) (r : Route M)
      → method_assign name ≡ ok k
      → (q : Route M) × (ref : MethodRef) × (on M name r ≡ ok (q, ref))
        × Added k m r (use_middleware M ref m q)
  unfolding on
  on-Added name k m r e = elim (Option-cases (find_method M k r.routemethods_mapping)) [
    | inl none_yet ↦ (
      record r { routemethods_mapping = r.routemethods_mapping ++ (k, []) ∷ [] },
      mapped k,
      rw (on, e) (rw (on, none_yet) refl),
      on_new-Added k m r none_yet,
    )
    | inr (ms, found) ↦ (r, mapped k, rw (on, e) (rw (on, found) refl), mapped-Added k m r ms found)
  ]
