-- ===== src/Prelude/Numbers.antt =====
-- Numbers in text, as printf and std::to_string print them.
use Prim.Native.Nat.{ℕ, zero, suc, ◌+◌, ◌-◌, ◌*◌, ◌/◌, ◌%◌, ◌^◌, ◌≤◌, ◌<◌}
use mathlib.Core.Path.{◌≡◌, refl, ap}
use mathlib.Core.Logic.{inl, inr}
use mathlib.Core.Bool.{true, false}
use mathlib.Core.List.{[], ◌∷◌, ◌++◌, foldl, foldl-append}
use native.Mathlib.Omega.{arith}
use native.Mathlib.Nat.{div-add-mod', div-lt_self, div-lt_iff_lt-mul, pow-suc, pow-zero}
use marisa.Prelude.Tests.{ltb, if◌then◌else◌, Bool-cases, ltb→lt}
use marisa.Prelude.Lists.{length, length-append, All, All-append}
use marisa.Prelude.Texts.{Bytes}

-- An int; `negsuc n` is -(n + 1).
pub data ℤ : Type 0 where
  pos negsuc : ℕ → ℤ

-- An upper-case digit.
unfoldable pub digit_char : ℕ → ℕ
digit_char n = if ltb n 10 then b'0' + n else 55 + n

-- The fuel is one more than the number, which has fewer digits than that.
print_from : (base fuel n : ℕ) → Bytes
print_from base zero n = []
print_from base (suc fuel) n = elim (ltb n base) [
  | true ↦ digit_char n ∷ []
  | false ↦ print_from base fuel (n / base) ++ digit_char (n % base) ∷ []
]

unfoldable pub print_number : (base n : ℕ) → Bytes
unfolding print_from digit_char
print_number base n = print_from base (suc n) n

-- The value of a digit of a base up to sixteen.
unfoldable pub digit_value : ℕ → ℕ
digit_value c = if ltb c b'A' then c - b'0' else c - 55

-- The number that digits spell behind `n`.
abbrev pub read_number : (base n : ℕ) → Bytes → ℕ
read_number base n s = foldl (λ v c. v * base + digit_value c) n s

digit_value-digit_char : (n : ℕ) → n < 16 → digit_value (digit_char n) ≡ n
unfolding digit_value digit_char
digit_value-digit_char n h = ground arith

digit_char_lower : (n : ℕ) → b'0' ≤ digit_char n
unfolding digit_char
digit_char_lower n = ground arith

module _ (base : ℕ) (two : 2 ≤ base) (small : base ≤ 16) where
  quotient_lt : (n : ℕ) → ltb n base ≡ false → n / base < n
  quotient_lt n e = div-lt_self (ground arith) two

  read_number-print_from : (fuel n : ℕ) → n < fuel → read_number base 0 (print_from base fuel n) ≡ n
  unfolding print_from
  read_number-print_from zero n h = elim h [ ]
  read_number-print_from (suc fuel) n h = elim (Bool-cases (ltb n base)) [
    | inl e ↦
        rw (e, print_from)
          (omega (arith, digit_value-digit_char n (omega (arith, ltb→lt n base e))))
    | inr e ↦
        let less : n / base < fuel = omega (arith, quotient_lt n e) in
        rw (e, print_from)
          (rw
            (
              foldl-append (λ v c. v * base + digit_value c) 0 (print_from base fuel (n / base)),
              read_number-print_from fuel (n / base) less,
              digit_value-digit_char (n % base) (grind arith),
            )
            (div-add-mod' n base))
  ]

  -- A printed number reads back.
  pub read_number-print_number : (n : ℕ) → read_number base 0 (print_number base n) ≡ n
  unfolding print_number
  read_number-print_number n = read_number-print_from (suc n) n (omega arith)

  quotient_less : (n k : ℕ) → n < base ^ suc (suc k) → n / base < base ^ suc k
  quotient_less n k h = (div-lt_iff_lt-mul (omega arith)).1 (rw (pow-suc base (suc k)) at h)

  length-print_from : (fuel n k : ℕ) → n < base ^ suc k → length (print_from base fuel n) ≤ suc k
  unfolding print_from
  length-print_from zero n k h = omega arith
  length-print_from (suc fuel) n zero h =
      let small_n : n < base = omega (arith, pow-suc base 0, ap (λ t. t * base) (pow-zero base)) in
      ground arith
  length-print_from (suc fuel) n (suc k) h = ground (
    arith,
    length-append (print_from base fuel (n / base)) (digit_char (n % base) ∷ []),
    length-print_from fuel (n / base) k (quotient_less n k h),
  )

  digits-print_from : (fuel n : ℕ) → All (λ c. b'0' ≤ c) (print_from base fuel n)
  unfolding print_from
  digits-print_from zero n = tt
  digits-print_from (suc fuel) n = elim (Bool-cases (ltb n base)) [
    | inl e ↦ rw (e, print_from) (digit_char_lower n, tt)
    | inr e ↦
        rw (e, print_from)
          (All-append (λ c. b'0' ≤ c) (print_from base fuel (n / base)) _
            (digits-print_from fuel (n / base)) (digit_char_lower (n % base), tt))
  ]

  -- Every character of a printed number is a digit or a letter.
  pub digits-print_number : (n : ℕ) → All (λ c. b'0' ≤ c) (print_number base n)
  unfolding print_number
  digits-print_number n = digits-print_from (suc n) n

  -- A number below the k-th power of the base has at most k digits.
  pub length-print_number : (n k : ℕ) → n < base ^ suc k → length (print_number base n) ≤ suc k
  unfolding print_number
  length-print_number n = length-print_from (suc n) n

to_decimal_runs : print_number 10 65535 ≡ b'6' ∷ b'5' ∷ b'5' ∷ b'3' ∷ b'5' ∷ []
unfolding print_number
to_decimal_runs = refl
