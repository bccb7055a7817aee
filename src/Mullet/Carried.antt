-- ===== src/Mullet/Carried.antt =====
-- What becomes of the headers of a part for which there is no call with data.
use marisa.Prelude.{◌≡◌, refl, ◌∙◌, false, List, [], ◌∷◌, Bytes, ok, bind_ok, insert, insert_all}
use marisa.Http1.{Headers}
use marisa.Mullet.{
  Part, new_part, new_mullet, part_begin, part_end, header_field, header_value, part_data, end_part,
  handle, feed,
}
use marisa.Mullet.Parts.{
  at_part, header-fresh, header-pending, headers-body, on_back-at_part, stored,
}

module _ (order : Headers → Headers) where
  -- If a part has one header and no call with data, and another follows that begins with a header,
  -- then the first part has no header, and the second has that of the first.
  pub feed-carried :
      (field value next_field next_value text : Bytes)
      → feed order
          (part_begin
            ∷ header_field field
            ∷ header_value value
            ∷ part_end
            ∷ part_begin
            ∷ header_field next_field
            ∷ header_value next_value
            ∷ part_data text
            ∷ part_end
            ∷ [])
          new_mullet
        ≡ ok (
            at_part 4 [] []
              (end_part order new_part ∷ [])
              (end_part order (record new_part {
                headers = insert next_field next_value (insert field value []);
                body = text;
              }))
              false)
  unfolding feed handle insert_all
  feed-carried field value next_field next_value text =
      let second =
        header_field next_field ∷ header_value next_value ∷ part_data text ∷ part_end ∷ [] in
      let first : List Part = end_part order new_part ∷ [] in
      header-fresh order 0 [] [] field value (part_end ∷ part_begin ∷ second) [] new_part false
        (refl, refl)
      ∙ bind_ok (feed order (part_begin ∷ second))
          (on_back-at_part (end_part order) 3 field value [] new_part false)
      ∙ header-pending order field value next_field next_value (part_data text ∷ part_end ∷ [])
          first new_part false
      ∙ headers-body order [] next_field next_value text (part_end ∷ []) first
          (stored field value new_part) false
      ∙ bind_ok (feed order []) (
          on_back-at_part (end_part order) 4 [] [] first
            (record new_part {
              headers = insert next_field next_value (insert field value []);
              body = text;
            })
            false)
