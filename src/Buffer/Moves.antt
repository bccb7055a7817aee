-- ===== src/Buffer/Moves.antt =====
-- What assignments, moves and copies leave in a buffer.
use marisa.Prelude.{◌≡◌, refl, Bytes, length, ok, fault, ◌>>=◌, arith}
use marisa.Buffer.{
  Buffer, get, size, Holder, string, vector, string_view, assign_data, move_assign, copy_assign,
}

-- Assigned data comes out, whatever the buffer held.
pub get-assign_data : (h : Holder) (s : Bytes) (b : Buffer) → get (assign_data h s b) ≡ ok s
unfolding get assign_data
get-assign_data string s b = refl
get-assign_data vector s b = refl
get-assign_data string_view s b = refl

pub size-assign_data :
    (h : Holder) (s : Bytes) (b : Buffer) → size (assign_data h s b) ≡ ok (length s)
unfolding size assign_data
size-assign_data string s b = refl
size-assign_data vector s b = refl
size-assign_data string_view s b = refl

-- A move gives the target what the source held.
pub get-move_assign : (o this : Buffer) → get (move_assign o this).1 ≡ get o
unfolding get move_assign
get-move_assign o this = ground arith

-- A copy holds what its source holds, and faults where that does.
pub get-copy_assign : (o this : Buffer) → (copy_assign o this >>= get) ≡ get o
unfolding get copy_assign
get-copy_assign o this = ground arith

-- Data assigned in any of the three ways, and moved or copied into any other buffer, comes out there;
-- what the move leaves behind is a fault to use.
pub get-moved_from :
    (h : Holder) (s : Bytes) (b this : Buffer)
    → (get (move_assign (assign_data h s b) this).0 ≡ fault)
      × (get (move_assign (assign_data h s b) this).1 ≡ ok s)
      × ((copy_assign (assign_data h s b) this >>= get) ≡ ok s)
unfolding get assign_data move_assign copy_assign
get-moved_from string s b this = (refl, refl, refl)
get-moved_from vector s b this = (refl, refl, refl)
get-moved_from string_view s b this = (refl, refl, refl)
