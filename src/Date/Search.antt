-- ===== src/Date/Search.antt =====
-- The marks in a date's text, and its milliseconds.
use marisa.Prelude.{
  ℤ, pos, negsuc, ℕ, suc, ◌*◌, ◌/◌, ◌<◌, ◌≡◌, ◌≢◌, inl, inr, refl, sym, ap, ◌∙◌, Bool, true, false,
  none, some, [], ◌∷◌, ◌++◌, append_assoc, Bytes, codes, ◌==◌, ==_iff, ==_refl, Bool-cases, take,
  drop, length, drop-append, All, passes_below, passes_at, print_number, arith,
}
use marisa.Date.{
  scale_int, div_int, read_digits, read_signed, strtol, find_first, offset_mark, print_millis,
}

pub find_first_at :
    (c : ℕ) (s t : Bytes) → All (λ x. x ≢ c) s → find_first c (s ++ c ∷ t) ≡ some (length s)
unfolding find_first
find_first_at c [] t h = rw (==_refl c) refl
find_first_at c (d ∷ s) t (other, h) =
    let differs : d == c ≡ false = ground (arith, ==_iff d c) in
    rw (differs, find_first_at c s t h) refl

pub find_first-none : (c : ℕ) (s : Bytes) → All (λ x. x ≢ c) s → find_first c s ≡ none
unfolding find_first
find_first-none c [] h = refl
find_first-none c (d ∷ s) (other, h) =
    let differs : d == c ≡ false = ground (arith, ==_iff d c) in
    rw (differs, find_first-none c s h) refl

-- The milliseconds, as they stand in the text, read back.
abbrev pub millis_text : ℕ → Bytes
millis_text k = take 5 (print_millis (pos k)) ++ codes "Z"

abbrev reads_back : ℕ → Bool
reads_back k = elim (strtol (millis_text k)) [ pos n ↦ n == k | negsuc n ↦ false ]

millis_table : passes_below reads_back 1000 ≡ true
unfolding passes_below strtol read_signed read_digits print_millis print_number
millis_table = refl

pub strtol-millis_text : (k : ℕ) → k < 1000 → strtol (millis_text k) ≡ pos k
strtol-millis_text k h = go (strtol (millis_text k)) (passes_at reads_back 1000 k h millis_table)
  where
    go : (v : ℤ) → elim v as (λ x. Bool) [ pos n ↦ n == k | negsuc n ↦ false ] ≡ true → v ≡ pos k
    go (pos n) e = ap pos ((==_iff n k).0 e)
    go (negsuc n) e = cc

pub scale_pos : (k m : ℕ) → scale_int (pos k) m ≡ pos (k * m)
scale_pos k m = ground arith

pub div_pos : (n m : ℕ) → div_int (pos n) m ≡ pos (n / m)
div_pos n m = ground arith

find_first-found : (c : ℕ) (s t : Bytes) → (n : ℕ) × (find_first c (s ++ c ∷ t) ≡ some n)
unfolding find_first
find_first-found c [] t = (0, rw (==_refl c) refl)
find_first-found c (d ∷ s) t =
    let (n, found) = find_first-found c s t in
    elim (Bool-cases (d == c)) [ inl e ↦ (0, rw e refl) | inr e ↦ (suc n, rw (e, found) refl) ]

-- A `Z` in the text says that there is no offset.
pub offset_mark-zulu : (s t : Bytes) → offset_mark (s ++ b'Z' ∷ t) ≡ (none, true)
unfolding offset_mark
offset_mark-zulu s t = let (n, found) = find_first-found b'Z' s t in rw (offset_mark, found) refl

pub drop_point : (s t : Bytes) → drop (length (s ++ b'.' ∷ [])) (s ++ b'.' ∷ t) ≡ t
drop_point s t =
    ap (drop (length (s ++ b'.' ∷ []))) (sym (append_assoc s (b'.' ∷ []) t))
    ∙ drop-append (s ++ b'.' ∷ []) t
