-- ===== src/Statuses/Phrases.antt =====
-- The reason phrases of the status lines against the names of the statuses.
use marisa.Prelude.{
  ℕ, ◌-◌, ◌≡◌, ◌≢◌, inl, inr, refl, ap, Bool, true, false, ◌||◌, some, List, [], ◌∷◌, Bytes,
  bytes_eq, to_upper, ◌==◌, ==_iff, Bool-cases, take, drop, length, all, Result, ok, raise, fault,
  find, arith,
}
use mathlib.Core.Path.{subst₂}
use mathlib.Core.Bool.{and-eq-true_iff}
use marisa.Statuses.{status_assign}
use marisa.Generator.{http1_status_map, find_status}

-- The text between `HTTP/1.1 nnn ` and the end of a status line.
abbrev pub reason : Bytes → Bytes
reason line = take (length line - 15) (drop 13 line)

is_code : Result ℕ → ℕ → Bool
is_code (ok s) code = s == code
is_code (raise e) code = false
is_code fault code = false

is_code-ok : (r : Result ℕ) (code : ℕ) → is_code r code ≡ true → r ≡ ok code
unfolding is_code
is_code-ok (ok s) code e = ap ok ((==_iff s code).0 e)
is_code-ok (raise x) code e = cc
is_code-ok fault code e = cc

names_code : ℕ × Bytes → Bool
names_code (code, line) = code == 451 || is_code (status_assign (reason line)) code

all_named : all names_code http1_status_map ≡ true
unfolding names_code is_code status_assign find bytes_eq to_upper
all_named = refl

find_status-named :
    (code : ℕ) (m : List (ℕ × Bytes)) (line : Bytes)
    → all names_code m ≡ true
    → find_status code m ≡ some line
    → names_code (code, line) ≡ true
unfolding find_status
find_status-named code [] line h e = cc
find_status-named code ((c, l) ∷ m) line h e =
    let (here, later) = (and-eq-true_iff (names_code (c, l)) (all names_code m)).0 h in
    elim (Bool-cases (c == code)) [
      | inl q ↦
          let found : l ≡ line = ground arith in
          subst₂ (λ a b. names_code (a, b) ≡ true) ((==_iff c code).0 q) found here
      | inr q ↦ find_status-named code m line later (rw q at e)
    ]

-- The reason phrase of every status line but that of 451 is a name of the line's code.
status_assign-reason :
    (code : ℕ) (line : Bytes)
    → find_status code http1_status_map ≡ some line
    → code ≢ 451
    → status_assign (reason line) ≡ ok code
unfolding names_code
status_assign-reason code line e other =
    is_code-ok (status_assign (reason line)) code
      (ground (arith, find_status-named code http1_status_map line all_named e))
