-- ===== src/Prelude/Maps.antt =====
-- Maps as lists of pairs, in the order of insertion: std::unordered_map's find, insert and operator[].
use mathlib.Core.Path.{◌≡◌, refl}
use mathlib.Core.Option.{Option, none, some}
use mathlib.Core.List.{List, [], ◌∷◌}
use mathlib.Core.Path.{subst₂}
use mathlib.Core.Bool.{Bool, true, and-eq-true_iff}
use mathlib.Core.Logic.{inl, inr}
use native.Mathlib.Omega.{arith}
use marisa.Prelude.Tests.{Bool-cases}
use marisa.Prelude.Lists.{all}
use marisa.Prelude.Tests.{if◌then◌else◌}
use marisa.Prelude.Texts.{Bytes, bytes_eq, bytes_eq_iff}

module _ {ℓ} {V : Type ℓ} where
  unfoldable pub find : Bytes → List (Bytes × V) → Option V
  find k [] = none
  find k ((j, v) ∷ m) = if bytes_eq j k then some v else find k m

  -- `insert` leaves the value of a key that is there.
  unfoldable pub insert : Bytes → V → List (Bytes × V) → List (Bytes × V)
  insert k v [] = (k, v) ∷ []
  insert k v ((j, w) ∷ m) = if bytes_eq j k then (j, w) ∷ m else (j, w) ∷ insert k v m

  -- `m[k] = v` overwrites it.
  unfoldable pub assign : Bytes → V → List (Bytes × V) → List (Bytes × V)
  assign k v [] = (k, v) ∷ []
  assign k v ((j, w) ∷ m) = if bytes_eq j k then (j, v) ∷ m else (j, w) ∷ assign k v m

  unfoldable pub insert_all : List (Bytes × V) → List (Bytes × V) → List (Bytes × V)
  insert_all [] m = m
  insert_all ((k, v) ∷ l) m = insert_all l (insert k v m)

  abbrev pub or_else : Option V → Option V → Option V
  or_else none o = o
  or_else (some v) o = some v

  pub find-insert :
      (k j : Bytes) (v : V) (m : List (Bytes × V))
      → find j (insert k v m) ≡ or_else (find j m) (if bytes_eq k j then some v else none)
  unfolding find insert
  find-insert k j v [] = refl
  find-insert k j v ((i, w) ∷ m) =
      ground (arith, bytes_eq_iff k j, bytes_eq_iff i k, bytes_eq_iff i j, find-insert k j v m)

  pub find-assign :
      (k j : Bytes) (v : V) (m : List (Bytes × V))
      → find j (assign k v m) ≡ (if bytes_eq k j then some v else find j m)
  unfolding find assign
  find-assign k j v [] = refl
  find-assign k j v ((i, w) ∷ m) =
      ground (arith, bytes_eq_iff k j, bytes_eq_iff i k, bytes_eq_iff i j, find-assign k j v m)

  or_else-none : (o : Option V) → o ≡ or_else o none
  or_else-none none = refl
  or_else-none (some v) = refl

  or_else_assoc : (a b c : Option V) → or_else (or_else a b) c ≡ or_else a (or_else b c)
  or_else_assoc none b c = refl
  or_else_assoc (some a) b c = refl

  find_cons :
      (k j : Bytes) (v : V) (m : List (Bytes × V))
      → find j ((k, v) ∷ m) ≡ or_else (if bytes_eq k j then some v else none) (find j m)
  unfolding find
  find_cons k j v m = ground arith

  -- The first pair with a key wins.
  pub find-insert_all :
      (j : Bytes) (l m : List (Bytes × V)) → find j (insert_all l m) ≡ or_else (find j m) (find j l)
  unfolding insert_all
  find-insert_all j [] m = unfold find in or_else-none (find j m)
  find-insert_all j ((k, v) ∷ l) m = rw (
    find-insert_all j l (insert k v m),
    find-insert k j v m,
    or_else_assoc (find j m) (if bytes_eq k j then some v else none) (find j l),
    find_cons k j v l,
  )

  -- What holds of every pair of a map holds of the pair that is found.
  pub find-all :
      (test : Bytes → V → Bool) (k : Bytes) (v : V) (m : List (Bytes × V))
      → all (λ e. test e.0 e.1) m ≡ true
      → find k m ≡ some v
      → test k v ≡ true
  unfolding find
  find-all test k v [] h e = cc
  find-all test k v ((j, w) ∷ m) h e =
      let (here, later) = (and-eq-true_iff _ _).0 h in
      elim (Bool-cases (bytes_eq j k)) [
        | inl q ↦
            let same : j ≡ k = (bytes_eq_iff j k).0 q in
            let found : w ≡ v = ground arith in subst₂ (λ a b. test a b ≡ true) same found here
        | inr q ↦ find-all test k v m later (rw q at e)
      ]
