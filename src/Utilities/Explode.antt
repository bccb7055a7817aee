-- ===== src/Utilities/Explode.antt =====
-- Splitting of text against an independent description.
use marisa.Prelude.{
  ℕ, ◌≡◌, ◌≢◌, inl, inr, refl, sym, ap, ◌∙◌, true, List, [], ◌∷◌, ◌++◌, map, append-nil,
  append_assoc, Bytes, ◌==◌, if◌then◌else◌, Bool-cases, get_or, drop, arith,
}
use marisa.Utilities.{View, tail_piece, resume, rounds, explode_zerocopy, getlines, explode_string}

-- `p` in front of the first part.
abbrev pub prepend : Bytes → List Bytes → List Bytes
prepend p [] = p ∷ []
prepend p (q ∷ qs) = (p ++ q) ∷ qs

-- The parts between the separators: one more than there are separators.
unfoldable pub split : ℕ → Bytes → List Bytes
split sep [] = [] ∷ []
split sep (c ∷ s) = if c == sep then [] ∷ split sep s else prepend (c ∷ []) (split sep s)

abbrev pub texts : List View → List Bytes
texts = map (λ v. v.text)

prepend-prepend : (p q : Bytes) (l : List Bytes) → prepend p (prepend q l) ≡ prepend (p ++ q) l
prepend-prepend p q [] = refl
prepend-prepend p q (r ∷ l) = rw (append_assoc p q r)

prepend_nil-split : (sep : ℕ) (s : Bytes) → prepend [] (split sep s) ≡ split sep s
unfolding split
prepend_nil-split sep [] = refl
prepend_nil-split sep (c ∷ s) = elim (Bool-cases (c == sep)) [
  | inl e ↦ rw e
  | inr e ↦ rw e (prepend-prepend [] (c ∷ []) (split sep s))
]

tail_piece_lem : (last needle : ℕ) (rest : Bytes) → last ≢ needle → tail_piece last needle rest ≡ []
unfolding tail_piece
tail_piece_lem last needle rest h = ground arith

-- Behind a separator the loop goes on, or ends with an empty part.
texts-resume :
    (c needle : ℕ) (hay after : Bytes)
    → (c == needle) ≡ true
    → texts (rounds needle c [] hay after) ≡ prepend [] (split needle hay)
    → texts (resume hay (tail_piece c needle after) (rounds needle c [] hay after))
      ≡ split needle hay
unfolding resume
texts-resume c needle [] after e ih = unfold tail_piece split in rw e
texts-resume c needle (d ∷ hay) after e ih = ih ∙ prepend_nil-split needle (d ∷ hay)

texts-rounds :
    (needle before : ℕ) (cur hay after : Bytes)
    → get_or after 0 0 ≢ needle
    → texts (rounds needle before cur hay after) ≡ prepend cur (split needle hay)
unfolding rounds split
texts-rounds needle before cur [] after h =
    rw (tail_piece_lem (get_or after 0 0) needle (drop 1 after) h, append-nil cur)
texts-rounds needle before cur (c ∷ hay) after h = elim (Bool-cases (c == needle)) [
  | inl e ↦
      rw (e, rounds)
        (rw (
          texts-resume c needle hay after e (texts-rounds needle c [] hay after h),
          append-nil cur,
        ))
  | inr e ↦
      rw (e, rounds)
        (texts-rounds needle before (cur ++ c ∷ []) hay after h
          ∙ sym (prepend-prepend cur (c ∷ []) (split needle hay)))
]

pub explode_zerocopy-rounds :
    (v : View) (needle : ℕ)
    → v.text ≢ []
    → explode_zerocopy v needle ≡ rounds needle v.before [] v.text v.after
unfolding explode_zerocopy
explode_zerocopy-rounds v needle h = ground arith

-- Of a text that is not empty, with another byte than the separator behind it, explode_zerocopy
-- gives the parts between the separators, empty ones included.
pub explode_zerocopy-split :
    (v : View) (needle : ℕ)
    → v.text ≢ []
    → get_or v.after 0 0 ≢ needle
    → texts (explode_zerocopy v needle) ≡ split needle v.text
explode_zerocopy-split v needle h k =
    ap texts (explode_zerocopy-rounds v needle h)
    ∙ texts-rounds needle v.before [] v.text v.after k
    ∙ prepend_nil-split needle v.text

-- Of an empty text it gives no part, unless the byte in front of it is the separator.
pub explode_zerocopy_empty :
    (v : View) (needle : ℕ) → v.text ≡ [] → v.before ≢ needle → explode_zerocopy v needle ≡ []
unfolding explode_zerocopy
explode_zerocopy_empty v needle h k = ground arith

-- All parts but an empty last one.
pub drop_last_empty : List Bytes → List Bytes
drop_last_empty [] = []
drop_last_empty ([] ∷ []) = []
drop_last_empty ((c ∷ p) ∷ []) = (c ∷ p) ∷ []
drop_last_empty (p ∷ q ∷ l) = p ∷ drop_last_empty (q ∷ l)

split_cons : (sep : ℕ) (s : Bytes) → (p : Bytes) × (l : List Bytes) × (split sep s ≡ p ∷ l)
unfolding split
split_cons sep [] = ([], [], refl)
split_cons sep (c ∷ s) = elim (Bool-cases (c == sep)) [
  | inl e ↦ rw e ([], split sep s, refl)
  | inr e ↦ let (p, l, h) = split_cons sep s in rw (e, h) (c ∷ p, l, refl)
]

pub split-ne-nil : (sep : ℕ) (s : Bytes) → split sep s ≢ []
split-ne-nil sep s e = let (p, l, h) = split_cons sep s in cc

drop_last_empty_cons :
    (p : Bytes) (sep : ℕ) (s : Bytes)
    → drop_last_empty (p ∷ split sep s) ≡ p ∷ drop_last_empty (split sep s)
unfolding drop_last_empty
drop_last_empty_cons [] sep s = let (q, l, h) = split_cons sep s in rw h
drop_last_empty_cons (c ∷ p) sep s = let (q, l, h) = split_cons sep s in rw h

getlines-split :
    (delim : ℕ) (item s : Bytes)
    → getlines delim item s ≡ drop_last_empty (prepend item (split delim s))
unfolding getlines split
getlines-split delim [] [] = unfold drop_last_empty in refl
getlines-split delim (d ∷ item) [] = unfold drop_last_empty in rw append-nil
getlines-split delim item (c ∷ s) = elim (Bool-cases (c == delim)) [
  | inl e ↦
      rw (e, getlines)
        (rw (append-nil item) (
          ap (λ l. item ∷ l)
            (getlines-split delim [] s ∙ ap drop_last_empty (prepend_nil-split delim s))
          ∙ sym (drop_last_empty_cons item delim s)))
  | inr e ↦
      rw (e, getlines)
        (getlines-split delim (item ++ c ∷ []) s
          ∙ ap drop_last_empty (sym (prepend-prepend item (c ∷ []) (split delim s))))
]

-- explode_string gives the parts between the separators, but for an empty last one.
pub explode_string-split :
    (s : Bytes) (delim : ℕ) → explode_string s delim ≡ drop_last_empty (split delim s)
unfolding explode_string
explode_string-split s delim =
    getlines-split delim [] s ∙ ap drop_last_empty (prepend_nil-split delim s)
