-- ===== src/Mullet/Bodies.antt =====
-- A whole body, part by part.
use marisa.Prelude.{
  ℕ, ◌≡◌, refl, sym, ap, ◌∙◌, Bool, true, false, List, [], ◌∷◌, ◌++◌, map, append-nil, append_assoc,
  Bytes, ok, bind_ok, insert_all,
}
use marisa.Http1.{Headers}
use marisa.Mullet.{
  Part, new_part, Mullet, new_mullet, Call, part_begin, part_end, body_end, header_field,
  header_value, part_data, end_part, handle, feed,
}
use marisa.Mullet.Parts.{
  at_part, IsFresh, header_calls, header-fresh, headers-body, join, more_data, on_back-at_part,
}

-- A part as the client sends it: its headers, of which there is one, and its data in pieces.
pub record Sent : Type 0 where
  pub first_field : Bytes
  pub first_value : Bytes
  pub other_headers : Headers
  pub first_piece : Bytes
  pub other_pieces : List Bytes

abbrev pub calls_of : Sent → List Call
calls_of s =
    part_begin
    ∷ header_field s.first_field
    ∷ header_value s.first_value
    ∷ (header_calls s.other_headers
        ++ part_data s.first_piece ∷ (map part_data s.other_pieces ++ part_end ∷ []))

abbrev pub all_calls : List Sent → List Call
all_calls [] = body_end ∷ []
all_calls (s ∷ ss) = calls_of s ++ all_calls ss

module _ (order : Headers → Headers) where
  -- The part with these headers, the first value of a name kept, and all of the data.
  abbrev pub built : Sent → Part
  built s = end_part order (record {
    headers = insert_all ((s.first_field, s.first_value) ∷ s.other_headers) [];
    headers_lowercase = [];
    body = s.first_piece ++ join s.other_pieces;
    is_done = false;
  })

  -- A state between two parts.
  abbrev between : (k : ℕ) (f v : Bytes) (ps : List Part) (d : Bool) → Mullet
  between k f v ps d = record {
    all_done = d;
    last_handler = k;
    last_field = f;
    last_value = v;
    parts = ps;
  }

  feed-part :
      (s : Sent) (rest : List Call) (k : ℕ) (f v : Bytes) (ps : List Part) (d : Bool)
      → IsFresh k
      → feed order (calls_of s ++ rest) (between k f v ps d)
        ≡ feed order rest (between 4 [] [] (ps ++ built s ∷ []) d)
  unfolding feed handle
  feed-part s rest k f v ps d fresh =
      let tail = map part_data s.other_pieces ++ part_end ∷ [] in
      let later = header_calls s.other_headers ++ part_data s.first_piece ∷ tail in
      let filled : Part = record new_part {
        headers = insert_all ((s.first_field, s.first_value) ∷ s.other_headers) [];
        body = s.first_piece;
      } in
      header-fresh order k f v s.first_field s.first_value (later ++ rest) ps new_part d fresh
      ∙ ap (λ cs. feed order cs (at_part 3 s.first_field s.first_value ps new_part d))
          (append_assoc (header_calls s.other_headers) (part_data s.first_piece ∷ tail) rest
            ∙ ap (λ cs. header_calls s.other_headers ++ part_data s.first_piece ∷ cs)
                (append_assoc (map part_data s.other_pieces) (part_end ∷ []) rest))
      ∙ headers-body order s.other_headers s.first_field s.first_value s.first_piece
          (map part_data s.other_pieces ++ part_end ∷ rest) ps new_part d
      ∙ more_data order s.other_pieces (part_end ∷ rest) ps filled d
      ∙ bind_ok (feed order rest) (
          on_back-at_part (end_part order) 4 [] [] ps
            (record filled { body = s.first_piece ++ join s.other_pieces }) d)

  feed-parts :
      (ss : List Sent) (k : ℕ) (f v : Bytes) (ps : List Part) (d : Bool)
      → IsFresh k
      → (m : Mullet) × (feed order (all_calls ss) (between k f v ps d) ≡ ok m)
        × (m.parts ≡ ps ++ map built ss)
        × (m.all_done ≡ true)
  feed-parts [] k f v ps d fresh =
      (between k f v ps true, unfold feed handle in refl, sym (append-nil ps), refl)
  feed-parts (s ∷ ss) k f v ps d fresh =
      let (m, fed, parts, done) = feed-parts ss 4 [] [] (ps ++ built s ∷ []) d (refl, refl) in
      (
        m,
        feed-part s (all_calls ss) k f v ps d fresh ∙ fed,
        parts ∙ append_assoc ps (built s ∷ []) (map built ss),
        done,
      )

  -- From the calls for a body whose parts each have a header and data, in pieces however cut, the
  -- parts come out in order, each with its headers, the first value of a name kept, and its data.
  pub feed-built :
      (ss : List Sent)
      → (m : Mullet) × (feed order (all_calls ss) new_mullet ≡ ok m)
        × (m.parts ≡ map built ss)
        × (m.all_done ≡ true)
  feed-built ss = feed-parts ss 0 [] [] [] false (refl, refl)
