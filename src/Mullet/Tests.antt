-- ===== src/Mullet/Tests.antt =====
-- Runs of the multipart reader.
use marisa.Prelude.{
  find_text, starts_with, ◌≡◌, refl, true, false, List, [], ◌∷◌, map, codes, bytes_eq, ok, find,
  insert,
}
use marisa.Mullet.{
  new_part, Mullet, new_mullet, part_begin, part_end, header_field, header_value, part_data,
  end_part, feed,
}
use marisa.Mullet.Parts.{at_part}
use marisa.Mullet.{set_headers}
use marisa.Mullet.Bodies.{Sent, all_calls, built, feed-built}
use marisa.Mullet.Carried.{feed-carried}

abbrev two_parts : List Sent
two_parts =
    record {
      first_field = codes "A";
      first_value = codes "1";
      other_headers = (codes "B", codes "2") ∷ [];
      first_piece = codes "x";
      other_pieces = codes "y" ∷ [];
    }
    ∷ record {
      first_field = codes "C";
      first_value = codes "3";
      other_headers = [];
      first_piece = codes "z";
      other_pieces = [];
    }
    ∷ []

feed-built_example :
    (m : Mullet) × (feed (λ l. l) (all_calls two_parts) new_mullet ≡ ok m)
    × (m.parts ≡ map (built (λ l. l)) two_parts)
    × (m.all_done ≡ true)
feed-built_example = feed-built (λ l. l) two_parts

feed-carried_example :
    feed
      (λ l. l)
      (part_begin
        ∷ header_field (codes "A")
        ∷ header_value (codes "1")
        ∷ part_end
        ∷ part_begin
        ∷ header_field (codes "B")
        ∷ header_value (codes "2")
        ∷ part_data (codes "x")
        ∷ part_end
        ∷ [])
      new_mullet
    ≡ ok (
        at_part 4 [] []
          (end_part (λ l. l) new_part ∷ [])
          (end_part
            (λ l. l)
            (record new_part {
              headers = insert (codes "B") (codes "2") (insert (codes "A") (codes "1") []);
              body = codes "x";
            }))
          false)
feed-carried_example =
    feed-carried (λ l. l) (codes "A") (codes "1") (codes "B") (codes "2") (codes "x")

-- The boundary is what follows the first equal sign, quotes and later parameters included.
boundary :
    set_headers ((codes "content-type", codes "multipart/form-data; boundary=ab; x") ∷ [])
    ≡ ok (codes "ab; x")
unfolding set_headers find_text starts_with find bytes_eq
boundary = refl
