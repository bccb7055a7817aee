-- ===== src/Coding.antt =====
-- Source/App/Middlewares/Compression.cpp and Compression.hpp: the settings of the compression, whose bits
-- are fields, and the coding that they and a request's Accept-Encoding choose.
use marisa.Prelude.{
  ℤ, pos, negsuc, ℕ, Bool, false, ◌&&◌, ◌||◌, Option, none, some, [], ◌∷◌, Bytes, codes, ◌==◌,
  if◌then◌else◌, get_or,
}

pub record Settings : Type 0 where
  pub gzip : Bool
  pub deflate : Bool
  pub level_default : Bool
  pub level_fastest : Bool
  pub level_best : Bool
  pub strategy_filtered : Bool
  pub strategy_huffman_only : Bool
  pub strategy_fixed : Bool
  pub strategy_rle : Bool

-- Z_BEST_SPEED, Z_DEFAULT_COMPRESSION and Z_BEST_COMPRESSION.
unfoldable pub level_of : Settings → ℤ
level_of f = if f.level_fastest then pos 1 else if f.level_default then negsuc 0 else pos 9

-- Z_FIXED, Z_FILTERED, Z_HUFFMAN_ONLY, Z_RLE, and Z_DEFAULT_STRATEGY.
unfoldable pub strategy_of : Settings → ℕ
strategy_of f =
    if f.strategy_fixed
    then 4
    else if f.strategy_filtered
    then 1
    else if f.strategy_huffman_only
    then 2
    else if f.strategy_rle
    then 3
    else 0

pub data Coding : Type 0 where
  gzip_coding deflate_coding : Coding

abbrev pub name_of : Coding → Bytes
name_of gzip_coding = codes "gzip"
name_of deflate_coding = codes "deflate"

-- 15|16 makes zlib write gzip's format.
abbrev pub window_bits : Coding → ℕ
window_bits gzip_coding = 31
window_bits deflate_coding = 15

abbrev pub has_byte : ℕ → Bytes → Bool
has_byte c [] = false
has_byte c (d ∷ s) = c == d || has_byte c s

-- The first byte of Accept-Encoding chooses, and the settings. The byte behind an empty string is 0.
unfoldable pub choose_coding : Settings → Bytes → Option Coding
choose_coding f s =
    let first = get_or s 0 0 in
    if first == b'g'
    then (if f.gzip
        then some gzip_coding
        else (if f.deflate && has_byte b'd' s then some deflate_coding else none))
    else (if first == b'd'
        then (if f.deflate
            then some deflate_coding
            else (if f.gzip && has_byte b'g' s then some gzip_coding else none))
        else none)
