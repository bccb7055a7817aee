-- ===== src/Prelude/Results.antt =====
-- The outcome of C++ code that may throw, or whose behaviour may be undefined.
use mathlib.Core.List.{List}
use mathlib.Core.Path.{◌≡◌, refl, ap, subst}
use Prim.Native.Nat.{ℕ}
use mathlib.Core.Option.{Option, none, some}
use mathlib.Core.Bool.{Bool, true, false}
use marisa.Prelude.Lists.{get_elem?}

-- The standard exceptions that the program throws.
pub data Exception : Type 0 where
  invalid_argument logic_error system_error regex_error : Exception

-- `fault` is undefined behaviour, an access outside of an object or through a null pointer, or an
-- assert that fails.
pub data Result {ℓ} (A : Type ℓ) : Type ℓ where
  ok : A → Result A
  raise : Exception → Result A
  fault : Result A

infixl 5 ◌>>=◌ ◌>>◌
abbrev pub ◌>>=◌ {ℓ κ} : {A : Type ℓ} {B : Type κ} → Result A → (A → Result B) → Result B
ok a >>= f = f a
raise e >>= f = raise e
fault >>= f = fault

abbrev pub ◌>>◌ {ℓ κ} : {A : Type ℓ} {B : Type κ} → Result A → Result B → Result B
m >> k = m >>= λ _. k

-- A loop on fuel: `none` if the fuel runs out. The rest of the loop follows what went well.
abbrev pub and_then {ℓ κ} :
    {A : Type ℓ} {B : Type κ} → Result A → (A → Option (Result B)) → Option (Result B)
and_then (ok a) f = f a
and_then (raise e) f = some (raise e)
and_then fault f = some fault

-- What follows a loop.
abbrev pub and_go_on {ℓ κ} :
    {A : Type ℓ} {B : Type κ} → Option (Result A) → (A → Option (Result B)) → Option (Result B)
and_go_on none f = none
and_go_on (some r) f = and_then r f

-- assert
abbrev pub assert : Bool → Result (Unit {0})
assert true = ok tt
assert false = fault

-- operator[] of a vector.
abbrev pub at {ℓ} : {A : Type ℓ} → List A → ℕ → Result A
at xs i = elim (get_elem? xs i) [ none ↦ fault | some x ↦ ok x ]

pub bind_ok {ℓ κ} :
    {A : Type ℓ} {B : Type κ} {m : Result A} {a : A} (f : A → Result B) → m ≡ ok a → (m >>= f) ≡ f a
bind_ok f e = ap (λ m. m >>= f) e

pub bind_assoc {ℓ κ μ} :
    {A : Type ℓ} {B : Type κ} {C : Type μ} (m : Result A) (f : A → Result B) (g : B → Result C)
    → (m >>= f >>= g) ≡ (m >>= λ a. f a >>= g)
bind_assoc (ok a) f g = refl
bind_assoc (raise e) f g = refl
bind_assoc fault f g = refl

-- What a bind that went well is made of.
pub bind-inverse {ℓ κ} :
    {A : Type ℓ} {B : Type κ} (m : Result A) (f : A → Result B) (b : B)
    → (m >>= f) ≡ ok b
    → (a : A) × (m ≡ ok a) × (f a ≡ ok b)
bind-inverse (ok a) f b e = (a, refl, e)
bind-inverse (raise x) f b e = cc
bind-inverse fault f b e = cc

-- What holds of a result, if there is one.
abbrev pub Always {ℓ κ} : {A : Type ℓ} → (A → Type κ) → Result A → Type κ
Always P (ok a) = P a
Always P (raise e) = Unit
Always P fault = Unit

pub Always-bind {ℓ κ μ ν} :
    {A : Type ℓ} {B : Type κ} (P : A → Type μ) (Q : B → Type ν) (m : Result A) (f : A → Result B)
    → Always P m
    → ((a : A) → P a → Always Q (f a))
    → Always Q (m >>= f)
Always-bind P Q (ok a) f h k = k a h
Always-bind P Q (raise e) f h k = tt
Always-bind P Q fault f h k = tt

pub Always-ok {ℓ κ} :
    {A : Type ℓ} (P : A → Type κ) (m : Result A) (a : A) → m ≡ ok a → Always P m → P a
Always-ok P m a e h = subst (Always P) e h

pub Always-any {ℓ κ} : {A : Type ℓ} (P : A → Type κ) (m : Result A) → ((a : A) → P a) → Always P m
Always-any P (ok a) h = h a
Always-any P (raise e) h = tt
Always-any P fault h = tt
