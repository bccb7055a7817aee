-- ===== src/Utilities/Borders.antt =====
-- What stands in memory around the parts of a split.
use marisa.Prelude.{
  drop, ◌∙◌, All-imp, ℕ, ◌≡◌, ◌≢◌, ◌⊎◌, inl, inr, refl, List, [], ◌∷◌, ◌++◌, Bytes, ◌==◌, ==_iff,
  Bool-cases, get_or, All, arith,
}
use marisa.Utilities.Explode.{explode_zerocopy-rounds}
use marisa.Utilities.{View, tail_piece, resume, rounds, explode_zerocopy}

-- Behind a part stands the separator, or what stands behind the whole text.
abbrev pub EndsBy : ℕ → Bytes → View → Type 0
EndsBy needle after p = (get_or p.after 0 0 ≡ needle) ⊎ (get_or p.after 0 0 ≡ get_or after 0 0)

ends-tail_piece :
    (last needle : ℕ) (after : Bytes) → All (EndsBy needle after) (tail_piece last needle after)
unfolding tail_piece
ends-tail_piece last needle after = elim (Bool-cases (last == needle)) [
  | inl e ↦ rw e (inr refl, tt)
  | inr e ↦ rw e tt
]

ends-resume :
    (c needle : ℕ) (hay after : Bytes)
    → All (EndsBy needle after) (rounds needle c [] hay after)
    → All
        (EndsBy needle after)
        (resume hay (tail_piece c needle after) (rounds needle c [] hay after))
unfolding resume
ends-resume c needle [] after ih = ends-tail_piece c needle after
ends-resume c needle (d ∷ hay) after ih = ih

ends-rounds :
    (needle before : ℕ) (cur hay after : Bytes)
    → get_or after 0 0 ≢ needle
    → All (EndsBy needle after) (rounds needle before cur hay after)
unfolding rounds
ends-rounds needle before cur [] after h = (inr refl, unfold tail_piece in ground arith)
ends-rounds needle before cur (c ∷ hay) after h = elim (Bool-cases (c == needle)) [
  | inl e ↦
      rw (e, rounds)
        (
          inl ((==_iff c needle).0 e),
          ends-resume c needle hay after (ends-rounds needle c [] hay after h),
        )
  | inr e ↦ rw (e, rounds) (ends-rounds needle before (cur ++ c ∷ []) hay after h)
]

pub ends-explode_zerocopy :
    (v : View) (needle : ℕ)
    → get_or v.after 0 0 ≢ needle
    → All (EndsBy needle v.after) (explode_zerocopy v needle)
unfolding explode_zerocopy
ends-explode_zerocopy v needle h = start v.text
  where
    start :
        (t : Bytes)
        → All
            (EndsBy needle v.after)
            (resume t (tail_piece v.before needle v.after) (rounds needle v.before [] t v.after))
    start [] = ends-tail_piece v.before needle v.after
    start (c ∷ t) = ends-rounds needle v.before [] (c ∷ t) v.after h

-- In front of every part but the first stands the separator.
abbrev pub rest_of {ℓ} : {A : Type ℓ} → List A → List A
rest_of [] = []
rest_of (x ∷ xs) = xs

abbrev pub StartsBehind : ℕ → View → Type 0
StartsBehind needle p = p.before ≡ needle

starts-tail_piece :
    (last needle : ℕ) (after : Bytes) → All (StartsBehind needle) (tail_piece last needle after)
unfolding tail_piece
starts-tail_piece last needle after = elim (Bool-cases (last == needle)) [
  | inl e ↦ rw e ((==_iff last needle).0 e, tt)
  | inr e ↦ rw e tt
]

-- With the byte in front the separator, every part starts behind one.
starts-rounds :
    (needle before : ℕ) (cur hay after : Bytes)
    → get_or after 0 0 ≢ needle
    → All (StartsBehind needle) (rest_of (rounds needle before cur hay after))
      × (before ≡ needle → All (StartsBehind needle) (rounds needle before cur hay after))
unfolding rounds resume
starts-rounds needle before cur [] after h =
    (unfold tail_piece in ground arith, λ e. (e, unfold tail_piece in ground arith))
starts-rounds needle before cur (c ∷ hay) after h = elim (Bool-cases (c == needle)) [
  | inl e ↦
      let same : c ≡ needle = (==_iff c needle).0 e in
      let more : All (StartsBehind needle)
          (resume hay (tail_piece c needle after) (rounds needle c [] hay after)) =
        go hay ((starts-rounds needle c [] hay after h).1 same) in
      rw (e, rounds) (more, λ b. (b, more))
  | inr e ↦ rw (e, rounds) (starts-rounds needle before (cur ++ c ∷ []) hay after h)
]
  where
    go :
        (t : Bytes)
        → All (StartsBehind needle) (rounds needle c [] t after)
        → All
            (StartsBehind needle)
            (resume t (tail_piece c needle after) (rounds needle c [] t after))
    go [] ih = starts-tail_piece c needle after
    go (d ∷ t) ih = ih

pub starts-explode_zerocopy :
    (v : View) (needle : ℕ)
    → v.text ≢ []
    → get_or v.after 0 0 ≢ needle
    → All (StartsBehind needle) (rest_of (explode_zerocopy v needle))
starts-explode_zerocopy v needle h k =
    rw (explode_zerocopy-rounds v needle h) (starts-rounds needle v.before [] v.text v.after k).0

first-rounds :
    (needle before : ℕ) (cur hay after : Bytes)
    → (p : View) × (l : List View) × (rounds needle before cur hay after ≡ p ∷ l)
      × (p.before ≡ before)
unfolding rounds
first-rounds needle before cur [] after = (
  record { before = before; text = cur; after = after },
  tail_piece (get_or after 0 0) needle (drop 1 after),
  refl,
  refl,
)
first-rounds needle before cur (c ∷ hay) after = elim (Bool-cases (c == needle)) [
  | inl e ↦ rw (e, rounds) (_, _, refl, refl)
  | inr e ↦ rw (e, rounds) (first-rounds needle before (cur ++ c ∷ []) hay after)
]

-- In front of every part stands the separator, or what stands in front of the whole text.
abbrev pub StartsBy : ℕ → ℕ → View → Type 0
StartsBy needle before p = (p.before ≡ needle) ⊎ (p.before ≡ before)

StartsBy-cons :
    (needle before : ℕ) (p : View) (l : List View)
    → p.before ≡ before
    → All (StartsBehind needle) l
    → All (StartsBy needle before) (p ∷ l)
StartsBy-cons needle before p l e h =
    (inr e, All-imp (StartsBehind needle) (StartsBy needle before) l (λ v b. inl b) h)

pub StartsBy-explode_zerocopy :
    (v : View) (needle : ℕ)
    → v.text ≢ []
    → get_or v.after 0 0 ≢ needle
    → All (StartsBy needle v.before) (explode_zerocopy v needle)
StartsBy-explode_zerocopy v needle h k =
    let (p, l, e, b) = first-rounds needle v.before [] v.text v.after in
    let whole : explode_zerocopy v needle ≡ p ∷ l = explode_zerocopy-rounds v needle h ∙ e in
    let others : All (StartsBehind needle) l = rw whole at (starts-explode_zerocopy v needle h k) in
    rw whole (StartsBy-cons needle v.before p l b others)
