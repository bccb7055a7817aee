-- ===== src/Buffer/Tests.antt =====
-- Runs of the buffers.
use marisa.Prelude.{◌≡◌, codes, ok, fault, ◌>>=◌}
use marisa.Buffer.{empty_buffer, get, vector, assign_data, move_assign, copy_assign}
use marisa.Buffer.Moves.{get-moved_from}

get-moved_from_example :
    (get (move_assign (assign_data vector (codes "ab") empty_buffer) empty_buffer).0 ≡ fault)
    × (get (move_assign (assign_data vector (codes "ab") empty_buffer) empty_buffer).1
        ≡ ok (codes "ab"))
    × ((copy_assign (assign_data vector (codes "ab") empty_buffer) empty_buffer >>= get)
        ≡ ok (codes "ab"))
get-moved_from_example = get-moved_from vector (codes "ab") empty_buffer empty_buffer
