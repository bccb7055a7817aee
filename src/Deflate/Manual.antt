-- ===== src/Deflate/Manual.antt =====
-- What the callers of zlib rely on.
use marisa.Prelude.{ℤ, ℕ, ◌+◌, ◌≤◌, ◌<◌, ◌≡◌, ◌≢◌, ◌⊎◌, Option, none, some, [], ◌++◌, Bytes, length}
use marisa.Deflate.{Flush, no_flush, finish, z_ok, z_stream_end, Zlib}

-- What the manual of zlib says of deflate, for a decoder `inflate` of whole streams. A state that is
-- `Coded` has read the bytes `c` of a stream and written the bytes `e`. A call stops when the input
-- or the room is used up; with Z_FINISH, when the stream has ended or the room is used up. A state
-- that gets so many bytes more writes at most `remaining` bytes. No stream is empty.
pub record IsZlib (z : Zlib) (inflate : Bytes → Option Bytes) : Type 1 where
  pub Coded : z.State → (c e : Bytes) → Type 0
  pub remaining : z.State → ℕ → ℕ
  pub inflate-nil : inflate [] ≡ none
  pub starts :
      (level : ℤ) (window_bits strategy : ℕ)
      → (z.deflate_init2 level window_bits strategy).0 ≡ z_ok
      → Coded (z.deflate_init2 level window_bits strategy).1 [] []
  pub fits :
      (flush : Flush) (s : z.State) (input : Bytes) (room : ℕ)
      → length (z.deflate flush s input room).out ≤ room
  pub bounded :
      (flush : Flush) (s : z.State) (input : Bytes) (room m : ℕ)
      → length (z.deflate flush s input room).out
          + remaining
              (z.deflate flush s input room).next
              (length (z.deflate flush s input room).left + m)
        ≤ remaining s (length input + m)
  pub reads :
      (s : z.State) (c e input : Bytes) (room : ℕ)
      → Coded s c e
      → input ≢ []
      → 0 < room
      → let t = z.deflate no_flush s input room in
        (t.code ≡ z_ok)
        × ((taken : Bytes) × (input ≡ taken ++ t.left) × Coded t.next (c ++ taken) (e ++ t.out))
        × ((t.left ≡ []) ⊎ (length t.out ≡ room))
  pub ends :
      (s : z.State) (c e : Bytes) (room : ℕ)
      → Coded s c e
      → 0 < room
      → let t = z.deflate finish s [] room in
        ((t.code ≡ z_stream_end) × (inflate (e ++ t.out) ≡ some c))
        ⊎ ((t.code ≡ z_ok) × (t.left ≡ []) × (length t.out ≡ room) × Coded t.next c (e ++ t.out))
