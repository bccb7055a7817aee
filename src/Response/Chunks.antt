-- ===== src/Response/Chunks.antt =====
-- The chunked body that the writes make, read by a decoder after RFC 7230.
use marisa.Prelude.{
  length-positive, ℕ, zero, suc, ◌^◌, ◌≤◌, ◌<◌, ◌≡◌, ◌≢◌, refl, ap, ◌∙◌, Bool, false, ◌&&◌, Option,
  none, some, List, [], ◌∷◌, ◌++◌, append_assoc, Bytes, bytes_eq, bytes_eq_refl, ◌==◌,
  if◌then◌else◌, take, drop, length, length-append, take-all, take-append, drop-append,
  digits-print_number, All, print_number, read_number, read_number-print_number,
  length-print_number, digit_value, arith,
}
use mathlib.Core.Option
use marisa.Buffer.{Holder}
use marisa.Response.{chunk_end, chunk_all_end, chunk_header}

-- The text in front of the first CRLF, and the text behind it.
unfoldable pub take_line : Bytes → Option (Bytes × Bytes)
take_line [] = none
take_line (c ∷ []) = none
take_line (c ∷ d ∷ s) =
    let rest = take_line (d ∷ s) in
    if c == 13 && d == 10 then some ([], s) else Option.map (λ l. (c ∷ l.0, l.1)) rest

-- A chunk is its size in hexadecimal on a line, the data and CRLF; one of size zero, with no
-- trailers behind it, ends the body.
unfoldable pub decode_chunks : (fuel : ℕ) → Bytes → Option Bytes
decode_chunks zero s = none
decode_chunks (suc fuel) s = elim (take_line s) [
  | none ↦ none
  | some (line, rest) ↦
      let n = read_number 16 0 line in
      let later = decode_chunks fuel (drop 2 (drop n rest)) in
      if n == 0
      then (if bytes_eq rest chunk_end then some [] else none)
      else (if bytes_eq (take 2 (drop n rest)) chunk_end
          then Option.map (λ t. take n rest ++ t) later
          else none)
]

take_line-digits :
    (line rest : Bytes)
    → All (λ c. b'0' ≤ c) line
    → take_line (line ++ 13 ∷ 10 ∷ rest) ≡ some (line, rest)
unfolding take_line
take_line-digits [] rest h = refl
take_line-digits (c ∷ line) rest (h, t) = go line (take_line-digits line rest t)
  where
    no_end : (c == 13) ≡ false
    no_end = ground arith

    go :
        (l : Bytes)
        → take_line (l ++ 13 ∷ 10 ∷ rest) ≡ some (l, rest)
        → take_line (c ∷ l ++ 13 ∷ 10 ∷ rest) ≡ some (c ∷ l, rest)
    go [] e = rw no_end refl
    go (d ∷ l) e = rw no_end (ap (Option.map (λ l. (c ∷ l.0, l.1))) e)

abbrev pub chunk : Bytes → Bytes
chunk s = chunk_header (length s) ++ (s ++ chunk_end)

-- A size below 16 ^ 12 fits the header's 16 bytes.
chunk_header_lem : (n : ℕ) → n < 16 ^ 12 → chunk_header n ≡ print_number 16 n ++ chunk_end
unfolding chunk_header
chunk_header_lem n h = take-all 14 (print_number 16 n ++ chunk_end) (
    omega (
      arith,
      length-append (print_number 16 n) chunk_end,
      length-print_number 16 (omega arith) (omega arith) n 11 h,
    ))

chunk_lem :
    (s rest : Bytes)
    → length s < 16 ^ 12
    → chunk s ++ rest ≡ print_number 16 (length s) ++ 13 ∷ 10 ∷ (s ++ (chunk_end ++ rest))
chunk_lem s rest h = rw (chunk_header_lem (length s) h) (simp append_assoc)

decode_chunks-chunk :
    (s rest : Bytes) (fuel : ℕ)
    → s ≢ []
    → length s < 16 ^ 12
    → decode_chunks (suc fuel) (chunk s ++ rest)
      ≡ Option.map (λ t. s ++ t) (decode_chunks fuel rest)
unfolding decode_chunks
decode_chunks-chunk s rest fuel full h =
    let n = length s in
    let behind = s ++ (chunk_end ++ rest) in
    let nonzero : (n == 0) ≡ false = ground (arith, length-positive s full) in
    ap (decode_chunks (suc fuel)) (chunk_lem s rest h)
    ∙ rw
        (
          decode_chunks,
          take_line-digits (print_number 16 n) behind
              (digits-print_number 16 (omega arith) (omega arith) n),
          read_number-print_number 16 (omega arith) (omega arith) n,
          nonzero,
          drop-append s (chunk_end ++ rest),
          take-append s (chunk_end ++ rest),
        )
        (rw (bytes_eq_refl chunk_end) refl)

decode_chunks-end : (fuel : ℕ) → decode_chunks (suc fuel) chunk_all_end ≡ some []
unfolding decode_chunks take_line bytes_eq digit_value
decode_chunks-end fuel = refl

-- The arguments of a write: the data, and whether to block.
abbrev pub Write : Type 0
Write = Holder × Bytes × Bool

abbrev pub chunks : List Write → Bytes
chunks [] = []
chunks ((h, s, blocking) ∷ ws) = chunk s ++ chunks ws

abbrev pub data_of : List Write → Bytes
data_of [] = []
data_of ((h, s, blocking) ∷ ws) = s ++ data_of ws

-- Data that makes a chunk: at least a byte, and a size whose twelve digits fit the header.
abbrev pub MakesChunk : Write → Type 0
MakesChunk (h, s, blocking) = (s ≢ []) × (length s < 16 ^ 12)

pub decode_chunks-chunks :
    (ws : List Write)
    → All MakesChunk ws
    → decode_chunks (suc (length ws)) (chunks ws ++ chunk_all_end) ≡ some (data_of ws)
decode_chunks-chunks [] h = decode_chunks-end 0
decode_chunks-chunks ((h, s, blocking) ∷ ws) ((full, small), later) =
    ap (decode_chunks (suc (suc (length ws)))) (append_assoc (chunk s) (chunks ws) chunk_all_end)
    ∙ decode_chunks-chunk s (chunks ws ++ chunk_all_end) (suc (length ws)) full small
    ∙ ap (Option.map (λ t. s ++ t)) (decode_chunks-chunks ws later)
