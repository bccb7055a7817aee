-- ===== src/Mullet/Parts.antt =====
-- The parts that the calls for a body build.
use marisa.Prelude.{
  ℕ, ◌≡◌, refl, sym, ap, ◌∙◌, Bool, false, List, [], ◌∷◌, ◌++◌, map, append-nil, append_assoc,
  Bytes, ◌==◌, Result, ok, bind_ok, insert, insert_all,
}
use marisa.Http1.{Headers}
use marisa.Mullet.{
  Part, Mullet, change_back, on_back, store_header, on_header_field, on_header_value, on_part_data,
  Call, header_field, header_value, part_data, handle, feed,
}

-- A state whose current part is `p`, behind the parts `ps`.
abbrev pub at_part : (handler : ℕ) (field value : Bytes) (ps : List Part) (p : Part) → Bool → Mullet
at_part handler field value ps p d = record {
  all_done = d;
  last_handler = handler;
  last_field = field;
  last_value = value;
  parts = ps ++ p ∷ [];
}

change_back-append :
    (f : Part → Part) (ps : List Part) (p : Part)
    → change_back f (ps ++ p ∷ []) ≡ ok (ps ++ f p ∷ [])
unfolding change_back
change_back-append f [] p = refl
change_back-append f (q ∷ []) p = refl
change_back-append f (q ∷ r ∷ ps) p =
    bind_ok (λ rest. ok (q ∷ rest)) (change_back-append f (r ∷ ps) p)

pub on_back-at_part :
    (f : Part → Part) (h : ℕ) (field value : Bytes) (ps : List Part) (p : Part) (d : Bool)
    → on_back f (at_part h field value ps p d) ≡ ok (at_part h field value ps (f p) d)
on_back-at_part f h field value ps p d =
    bind_ok (λ (parts : List Part). ok (record (at_part h field value ps p d) { parts = parts }))
      (change_back-append f ps p)

-- The part with a header put into it.
abbrev pub stored : (field value : Bytes) → Part → Part
stored field value p = record p { headers = insert field value p.headers }

store_header-pending :
    (field value : Bytes) (ps : List Part) (p : Part) (d : Bool)
    → store_header (at_part 3 field value ps p d) ≡ ok (at_part 3 [] [] ps (stored field value p) d)
unfolding store_header
store_header-pending field value ps p d =
    bind_ok (λ (n : Mullet). ok (record n { last_field = []; last_value = [] }))
      (on_back-at_part (stored field value) 3 field value ps p d)

-- Behind no header: at the beginning, or behind data.
abbrev pub IsFresh : ℕ → Type 0
IsFresh k = ((k == 2) ≡ false) × ((k == 3) ≡ false)

store_header-fresh :
    (k : ℕ) (field value : Bytes) (ps : List Part) (p : Part) (d : Bool)
    → IsFresh k
    → store_header (at_part k field value ps p d) ≡ ok (at_part k field value ps p d)
unfolding store_header
store_header-fresh k field value ps p d (a, b) =
    rw b (on_back-at_part (λ p. p) k field value ps p d)

abbrev pub header_calls : Headers → List Call
header_calls [] = []
header_calls ((field, value) ∷ hs) = header_field field ∷ header_value value ∷ header_calls hs

abbrev pub join : List Bytes → Bytes
join [] = []
join (s ∷ ss) = s ++ join ss

module _ (order : Headers → Headers) where
  value_call :
      (field value : Bytes) (rest : List Call) (old : Bytes) (ps : List Part) (p : Part) (d : Bool)
      → feed order (header_value value ∷ rest) (at_part 2 field old ps p d)
        ≡ feed order rest (at_part 3 field value ps p d)
  unfolding feed handle on_header_value
  value_call field value rest old ps p d =
      bind_ok (feed order rest) (on_back-at_part (λ p. p) 3 field value ps p d)

  pub header-fresh :
      (k : ℕ) (f v field value : Bytes) (rest : List Call) (ps : List Part) (p : Part) (d : Bool)
      → IsFresh k
      → feed order (header_field field ∷ header_value value ∷ rest) (at_part k f v ps p d)
        ≡ feed order rest (at_part 3 field value ps p d)
  unfolding feed handle on_header_field
  header-fresh k f v field value rest ps p d fresh =
      let next : Mullet → Result Mullet = feed order (header_value value ∷ rest) in
      let stay =
        bind_ok (λ (n : Mullet). ok (record n { last_handler = 2; last_field = field }))
          (store_header-fresh k f v ps p d fresh) in
      bind_ok next (rw (fresh.0) stay) ∙ value_call field value rest v ps p d

  pub header-pending :
      (f v field value : Bytes) (rest : List Call) (ps : List Part) (p : Part) (d : Bool)
      → feed order (header_field field ∷ header_value value ∷ rest) (at_part 3 f v ps p d)
        ≡ feed order rest (at_part 3 field value ps (stored f v p) d)
  unfolding feed handle on_header_field
  header-pending f v field value rest ps p d =
      let next : Mullet → Result Mullet = feed order (header_value value ∷ rest) in
      let moved =
        bind_ok (λ (n : Mullet). ok (record n { last_handler = 2; last_field = field }))
          (store_header-pending f v ps p d) in
      bind_ok next moved ∙ value_call field value rest [] ps (stored f v p) d

  -- Data behind the headers puts the last of them into the part.
  pub headers-body :
      (hs : Headers) (f v text : Bytes) (rest : List Call) (ps : List Part) (p : Part) (d : Bool)
      → feed order (header_calls hs ++ part_data text ∷ rest) (at_part 3 f v ps p d)
        ≡ feed order rest (
            at_part 4 [] [] ps
              (record p { headers = insert_all ((f, v) ∷ hs) p.headers; body = text })
              d)
  unfolding feed handle on_part_data insert_all
  headers-body [] f v text rest ps p d =
      let write_body : Mullet → Result Mullet =
        λ n. on_back (λ p. record p { body = text }) (record n { last_handler = 4 }) in
      bind_ok (feed order rest) (
        bind_ok write_body (store_header-pending f v ps p d)
        ∙ on_back-at_part (λ p. record p { body = text }) 4 [] [] ps (stored f v p) d)
  headers-body ((g, w) ∷ hs) f v text rest ps p d =
      header-pending f v g w (header_calls hs ++ part_data text ∷ rest) ps p d
      ∙ headers-body hs g w text rest ps (stored f v p) d

  pub more_data :
      (ss : List Bytes) (rest : List Call) (ps : List Part) (p : Part) (d : Bool)
      → feed order (map part_data ss ++ rest) (at_part 4 [] [] ps p d)
        ≡ feed order rest (at_part 4 [] [] ps (record p { body = p.body ++ join ss }) d)
  unfolding feed handle on_part_data
  more_data [] rest ps p d =
      ap (λ t. feed order rest (at_part 4 [] [] ps (record p { body = t }) d))
        (sym (append-nil p.body))
  more_data (s ∷ ss) rest ps p d =
      bind_ok (feed order (map part_data ss ++ rest))
        (on_back-at_part (λ p. record p { body = p.body ++ s }) 4 [] [] ps p d)
      ∙ more_data ss rest ps (record p { body = p.body ++ s }) d
      ∙ ap (λ t. feed order rest (at_part 4 [] [] ps (record p { body = t }) d))
          (append_assoc p.body s (join ss))
