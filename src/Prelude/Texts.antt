-- ===== src/Prelude/Texts.antt =====
-- Text as the list of its bytes.
use Prim.Native.Nat.{ℕ, suc, ◌<◌, ◌+◌, ◌-◌}
use Prim.Native.Char.{code}
use Prim.Native.String.{String}
use mathlib.Core.Path.{◌≡◌, refl}
use mathlib.Core.Option
use mathlib.Core.Option.{Option, none, some}
use mathlib.Core.Logic.{◌↔◌, ◌≢◌, inl, inr}
use mathlib.Core.Bool.{Bool, true, false, ◌&&◌}
use mathlib.Core.List.{List, [], ◌∷◌, ◌++◌}
use native.Mathlib.Omega.{arith}
use marisa.Prelude.Tests.{◌==◌, ==_refl, leb, if◌then◌else◌, Bool-cases}

abbrev pub Bytes : Type 0
Bytes = List ℕ

-- The code points of a literal; these are its bytes when the text is ASCII.
abbrev pub codes : String → Bytes
codes String.[] = []
codes (String.◌∷◌ c s) = code c ∷ codes s

abbrev pub IsByte : ℕ → Type 0
IsByte c = c < 256

-- Equality of texts: std::string's operator== and the key test of a map.
unfoldable pub bytes_eq : Bytes → Bytes → Bool
bytes_eq [] [] = true
bytes_eq [] (d ∷ t) = false
bytes_eq (c ∷ s) [] = false
bytes_eq (c ∷ s) (d ∷ t) = (c == d) && bytes_eq s t

pub bytes_eq_iff : (s t : Bytes) → (bytes_eq s t ≡ true) ↔ (s ≡ t)
unfolding bytes_eq
bytes_eq_iff [] [] = (λ _. refl, λ _. refl)
bytes_eq_iff [] (d ∷ t) = (λ h. cc, λ h. cc)
bytes_eq_iff (c ∷ s) [] = (λ h. cc, λ h. cc)
bytes_eq_iff (c ∷ s) (d ∷ t) = ground (arith, bytes_eq_iff s t)

pub bytes_eq_refl : (s : Bytes) → bytes_eq s s ≡ true
bytes_eq_refl s = (bytes_eq_iff s s).1 refl

-- C's toupper and tolower in the C locale.
unfoldable pub to_upper : ℕ → ℕ
to_upper c = if leb b'a' c && leb c b'z' then c - 32 else c

unfoldable pub to_lower : ℕ → ℕ
to_lower c = if leb b'A' c && leb c b'Z' then c + 32 else c

-- std::string::find: whether a text stands in another, and where.
unfoldable pub starts_with : Bytes → Bytes → Bool
starts_with [] s = true
starts_with (c ∷ p) [] = false
starts_with (c ∷ p) (d ∷ s) = c == d && starts_with p s

unfoldable pub find_text : Bytes → Bytes → Option ℕ
find_text p [] = if starts_with p [] then some 0 else none
find_text p (c ∷ s) = if starts_with p (c ∷ s) then some 0 else Option.map suc (find_text p s)

starts_with-append : (p t : Bytes) → starts_with p (p ++ t) ≡ true
unfolding starts_with
starts_with-append [] t = refl
starts_with-append (c ∷ p) t = rw (==_refl c) (starts_with-append p t)

find_text_here : (p t : Bytes) → starts_with p t ≡ true → find_text p t ≡ some 0
unfolding find_text
find_text_here p [] h = rw h refl
find_text_here p (c ∷ t) h = rw h refl

found_behind : (o : Option ℕ) → o ≢ none → Option.map suc o ≢ none
found_behind none h e = h refl
found_behind (some n) h e = cc

-- A text that stands in another is found.
pub find_text-append : (p s t : Bytes) → find_text p (s ++ (p ++ t)) ≢ none
unfolding find_text
find_text-append p [] t e = let found = find_text_here p (p ++ t) (starts_with-append p t) in cc
find_text-append p (c ∷ s) t e = elim (Bool-cases (starts_with p (c ∷ s ++ (p ++ t)))) [
  | inl here ↦ (let found = find_text_here p (c ∷ s ++ (p ++ t)) here in cc)
  | inr later ↦
      let behind : Option.map suc (find_text p (s ++ (p ++ t))) ≡ none =
        rw (find_text, later) at e in
      found_behind (find_text p (s ++ (p ++ t))) (find_text-append p s t) behind
]
