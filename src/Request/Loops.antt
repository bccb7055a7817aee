-- ===== src/Request/Loops.antt =====
-- The loops of the cookie parser, where they stop and where they go on.
use marisa.Prelude.{
  length-replicate, ℕ, zero, suc, ◌+◌, ◌-◌, ◌≤◌, ◌<◌, ◌≡◌, ◌≢◌, refl, sym, ap, ◌∙◌, true, false,
  ◌&&◌, some, [], ◌∷◌, ◌++◌, Bytes, ltb, ◌==◌, ==_refl, get_or, replicate, length, length-append,
  All, ok, arith,
}
use mathlib.Core.Option
use mathlib.Core.Path.{ap₂}
use marisa.Utilities.{View}
use marisa.Request.{find_byte, trim_key, skip_key, skip_value, trim_value}

pub get_or-append : (s t : Bytes) (i : ℕ) → get_or (s ++ t) (length s + i) 0 ≡ get_or t i 0
get_or-append [] t i = ap (λ n. get_or t n 0) (omega arith)
get_or-append (c ∷ s) t i =
    let next : suc (length s) + i ≡ suc (length s + i) = omega arith in
    ap (λ n. get_or (c ∷ s ++ t) n 0) next ∙ get_or-append s t i

pub find_byte-append :
    (c : ℕ) (s t : Bytes) → All (λ d. d ≢ c) s → find_byte c (s ++ c ∷ t) ≡ some (length s)
unfolding find_byte
find_byte-append c [] t h = rw (==_refl c) refl
find_byte-append c (d ∷ s) t (ne, h) =
    let other : (d == c) ≡ false = ground arith in
    rw (find_byte, other) (ap (Option.map suc) (find_byte-append c s t h))

pub get_or-spaces : (n i : ℕ) (t : Bytes) → i < n → get_or (replicate n b' ' ++ t) i 0 ≡ b' '
get_or-spaces zero i t h = absurd (omega arith)
get_or-spaces (suc n) zero t h = refl
get_or-spaces (suc n) (suc i) t h = get_or-spaces n i t (omega arith)

pub length-spaces : (n : ℕ) → length {A = ℕ} (replicate n b' ') ≡ n
length-spaces n = length-replicate {A = ℕ} n b' '

-- A text that is not empty, and neither begins nor ends with a space.
abbrev pub IsTrimmed : Bytes → Type 0
IsTrimmed s = (0 < length s) × (get_or s 0 0 ≢ b' ') × (get_or s (length s - 1) 0 ≢ b' ')

pub trim_key_lem : (v : View) (n : ℕ) → 0 < n → get_or v.text (n - 1) 0 ≢ b' ' → trim_key v n ≡ ok n
unfolding trim_key
trim_key_lem v zero h k = absurd (omega arith)
trim_key_lem v (suc n) h k =
    let same : suc n - 1 ≡ n = omega arith in
    let last : (get_or v.text n 0 == b' ') ≡ false =
      ground (arith, ap (λ i. get_or v.text i 0) same) in
    rw last refl

pub skip_key_stop :
    (fuel : ℕ) (text : Bytes) (offset len : ℕ)
    → get_or text offset 0 ≢ b' '
    → skip_key fuel text offset len ≡ ok (offset, len)
unfolding skip_key
skip_key_stop zero text offset len h = refl
skip_key_stop (suc fuel) text offset zero h =
    let other : (get_or text offset 0 == b' ') ≡ false = ground arith in rw other refl
skip_key_stop (suc fuel) text offset (suc n) h =
    let other : (get_or text offset 0 == b' ') ≡ false = ground arith in rw (skip_key, other) refl

pub skip_key_step :
    (fuel : ℕ) (text : Bytes) (offset n : ℕ)
    → get_or text offset 0 ≡ b' '
    → offset < length text - 1
    → skip_key (suc fuel) text offset (suc n) ≡ skip_key fuel text (suc offset) n
unfolding skip_key
skip_key_step fuel text offset n h k =
    let goes_on : (get_or text offset 0 == b' ' && ltb offset (length text - 1)) ≡ true =
      ground arith in
    rw (skip_key, goes_on) refl

pub get_or-behind :
    (a : ℕ) (t : Bytes) (i : ℕ) → get_or (replicate a b' ' ++ t) (a + i) 0 ≡ get_or t i 0
get_or-behind a t i =
    let same : a + i ≡ length (replicate a b' ') + i = omega (arith, length-spaces a) in
    ap (λ n. get_or (replicate a b' ' ++ t) n 0) same ∙ get_or-append (replicate a b' ') t i

pub get_or-behind0 : (a : ℕ) (t : Bytes) → get_or (replicate a b' ' ++ t) a 0 ≡ get_or t 0 0
get_or-behind0 a t =
    let same : a ≡ a + 0 = omega arith in
    ap (λ n. get_or (replicate a b' ' ++ t) n 0) same ∙ get_or-behind a t 0

pub skip_key-spaces :
    (i fuel : ℕ) (a offset len : ℕ) (t : Bytes)
    → offset + i ≡ a
    → i ≤ fuel
    → 0 < length t
    → get_or t 0 0 ≢ b' '
    → skip_key fuel (replicate a b' ' ++ t) offset (i + len) ≡ ok (a, len)
skip_key-spaces zero fuel a offset len t e h full k =
    let text = replicate a b' ' ++ t in
    let same : offset ≡ a = omega arith in
    let same_len : 0 + len ≡ len = omega arith in
    ap₂ (skip_key fuel text) same same_len
    ∙ skip_key_stop fuel text a len (λ x. k (sym (get_or-behind0 a t) ∙ x))
skip_key-spaces (suc i) zero a offset len t e h full k = absurd (omega arith)
skip_key-spaces (suc i) (suc fuel) a offset len t e h full k =
    let text = replicate a b' ' ++ t in
    let same_len : suc i + len ≡ suc (i + len) = omega arith in
    ap (skip_key (suc fuel) text offset) same_len
    ∙ skip_key_step fuel text offset (i + len) (get_or-spaces a offset t (omega arith))
        (omega (arith, length-append (replicate a b' ') t, length-spaces a))
    ∙ skip_key-spaces i fuel a (suc offset) len t (omega arith) (omega arith) full k

pub skip_value_stop :
    (memory : Bytes) (offset len : ℕ)
    → get_or memory offset 0 ≢ b' '
    → skip_value memory offset len ≡ ok (offset, len)
unfolding skip_value
skip_value_stop memory offset zero h =
    let other : (get_or memory offset 0 == b' ') ≡ false = ground arith in rw other refl
skip_value_stop memory offset (suc n) h =
    let other : (get_or memory offset 0 == b' ') ≡ false = ground arith in
    rw (skip_value, other) refl

pub trim_value_stop :
    (memory : Bytes) (offset len : ℕ)
    → 0 < len
    → get_or memory (offset + (len - 1)) 0 ≢ b' '
    → trim_value memory offset len ≡ ok len
unfolding trim_value
trim_value_stop memory offset zero h k = absurd (omega arith)
trim_value_stop memory offset (suc n) h k =
    let same : offset + (suc n - 1) ≡ offset + n = omega arith in
    let last : (get_or memory (offset + n) 0 == b' ') ≡ false =
      ground (arith, ap (λ i. get_or memory i 0) same) in
    rw (trim_value, last) refl

pub get_or-inside : (s t : Bytes) (i : ℕ) → i < length s → get_or (s ++ t) i 0 ≡ get_or s i 0
get_or-inside [] t i h = absurd (omega arith)
get_or-inside (c ∷ s) t zero h = refl
get_or-inside (c ∷ s) t (suc i) h = get_or-inside s t i (omega arith)

pub All-replicate : (n : ℕ) → All (λ (d : ℕ). d ≢ b'=') (replicate n b' ')
All-replicate zero = tt
All-replicate (suc n) = ((λ e. omega (arith, e)), All-replicate n)
