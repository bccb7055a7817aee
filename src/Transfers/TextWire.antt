-- ===== src/Transfers/TextWire.antt =====
-- A wire that is a text, and whether its peer ends behind it.
use marisa.Prelude.{
  ℕ, zero, suc, ◌≤◌, ◌<◌, ◌≡◌, ◌≢◌, ◌⊎◌, inl, inr, refl, Bool, true, false, not, [], ◌∷◌, ◌++◌,
  append-nil, Bytes, leb, if◌then◌else◌, Bool-cases, take, drop, length, append-take-drop,
  length-take, arith,
}
use marisa.Transfers.{Completion, Asio}
use marisa.Transfers.Manual.{IsAsio}

abbrev pub read_some_text : ℕ → Bytes × Bool → Completion × (Bytes × Bool)
read_some_text size ([], over) = (record { error = true; late = not over; bytes = [] }, ([], over))
read_some_text size (c ∷ s, over) =
    (record { error = false; late = false; bytes = take size (c ∷ s) }, (drop size (c ∷ s), over))

abbrev pub read_text : ℕ → Bytes × Bool → Completion × (Bytes × Bool)
read_text size (s, over) =
    if leb size (length s)
    then (record { error = false; late = false; bytes = take size s }, (drop size s, over))
    else (record { error = true; late = not over; bytes = s }, ([], over))

abbrev pub text_wire : Asio
text_wire = record {
  Wire = Bytes × Bool;
  async_read_some = read_some_text;
  async_read = read_text;
  async_write = λ bytes w. (record { error = w.1; late = false; size_written = length bytes }, w);
}

-- What a read keeps.
abbrev pub Kept : (size : ℕ) (before : Bytes × Bool) → Completion × (Bytes × Bool) → Type 0
Kept size before r =
    (r.0.bytes ++ r.1.0 ≡ before.0)
    × (length r.0.bytes ≤ size)
    × ((r.0.error ≡ true) ⊎ (r.0.late ≡ false))

pub read_some_text-Kept : (size : ℕ) (w : Bytes × Bool) → Kept size w (read_some_text size w)
read_some_text-Kept size ([], over) = (refl, omega arith, inl refl)
read_some_text-Kept size (c ∷ s, over) =
    (append-take-drop size (c ∷ s), length-take size (c ∷ s), inr refl)

pub read_some_text_ready :
    (size : ℕ) (w : Bytes × Bool)
    → 0 < size
    → w.0 ≢ []
    → ((read_some_text size w).0.error ≡ false) × ((read_some_text size w).0.bytes ≢ [])
read_some_text_ready size ([], over) positive full = absurd (full refl)
read_some_text_ready zero (c ∷ s, over) positive full = absurd (omega arith)
read_some_text_ready (suc size) (c ∷ s, over) positive full = (refl, λ e. cc)

pub read_text-Kept : (size : ℕ) (w : Bytes × Bool) → Kept size w (read_text size w)
read_text-Kept size (s, over) = elim (Bool-cases (leb size (length s))) [
  | inl enough ↦ rw enough (append-take-drop size s, length-take size s, inr refl)
  | inr short ↦ let fits : length s ≤ size = ground arith in rw short (append-nil s, fits, inl refl)
]

pub read_text_short :
    (size : ℕ) (w : Bytes × Bool)
    → length w.0 < size
    → ((read_text size w).0.error ≡ true)
      × ((read_text size w).0.bytes ≡ w.0)
      × ((read_text size w).0.late ≡ not w.1)
read_text_short size (s, over) short =
    let few : leb size (length s) ≡ false = ground arith in rw few (refl, refl, refl)

abbrev pub text_wire-IsAsio : IsAsio text_wire
text_wire-IsAsio = record {
  unread = λ w. w.0;
  ended = λ w. w.1;
  some_order = read_some_text-Kept;
  some_ready = read_some_text_ready;
  full_order = read_text-Kept;
  full_short = read_text_short;
}
