-- ===== src/StaticFiles/Listing/Rows.antt =====
-- The rows of a directory's page.
use marisa.Prelude.{
  ◌≡◌, ◌⊎◌, inl, inr, refl, sym, ap, ◌∙◌, true, false, Option, none, some, List, [], ◌∷◌, ◌++◌, map,
  append-nil, append_assoc, Bytes, codes, bytes_eq, if◌then◌else◌, Bool-cases, Option-cases, Result,
  ok, fault, ◌>>=◌, bind_ok, or_else,
}
use marisa.Date.{Calendar}
use marisa.StaticFiles.Listing.{
  Dirent, Stat, page_head, page_tail, is_self, row, full_path, stat_into, list_rows,
  generate_file_page,
}

-- The entries that are listed.
abbrev pub visible : List Dirent → List Dirent
visible [] = []
visible (de ∷ later) =
    let rest = visible later in if bytes_eq de.d_name (codes ".") then rest else de ∷ rest

module _ (calendar : Calendar) (stat : Bytes → Option Stat) (base_path : Bytes) where
  abbrev pub all_rows : List (Dirent × Stat) → Bytes
  all_rows [] = []
  all_rows ((de, st) ∷ rows) = row calendar stat base_path de st ++ all_rows rows

  abbrev pub path_of : Dirent → Bytes
  path_of de = full_path calendar stat base_path de

  -- Each row has what stat says of its entry, or, if stat fails, what the row above has.
  abbrev pub Backed : Option Stat → List (Dirent × Stat) → Type 0
  Backed above [] = Unit {0}
  Backed above ((de, st) ∷ rows) =
      ((stat (path_of de) ≡ some st) ⊎ ((stat (path_of de) ≡ none) × (above ≡ some st)))
      × Backed (some st) rows

  abbrev pub FirstUnknown : List Dirent → Type 0
  FirstUnknown entries =
      (de : Dirent) × (later : List Dirent) × (visible entries ≡ de ∷ later)
      × (stat (path_of de) ≡ none)

  abbrev pub Listed :
      Option Stat → (entries : List Dirent) (ss : Bytes) (result : Result Bytes) → Type 0
  Listed above entries ss result =
      (rows : List (Dirent × Stat)) × (result ≡ ok (ss ++ all_rows rows))
      × (map (λ r. r.0) rows ≡ visible entries)
      × Backed above rows

  stat_into-backed :
      (above : Option Stat) (de : Dirent) (st : Stat)
      → stat_into calendar stat base_path above de ≡ some st
      → (stat (path_of de) ≡ some st) ⊎ ((stat (path_of de) ≡ none) × (above ≡ some st))
  stat_into-backed above de st e = elim (Option-cases (stat (path_of de))) [
    | inl unknown ↦ inr (unknown, sym (ap (λ o. or_else o above) unknown) ∙ e)
    | inr (st', known) ↦ inl (known ∙ (sym (ap (λ o. or_else o above) known) ∙ e))
  ]

  stat_into-none :
      (above : Option Stat) (de : Dirent)
      → stat_into calendar stat base_path above de ≡ none
      → (stat (path_of de) ≡ none) × (above ≡ none)
  stat_into-none above de e = elim (Option-cases (stat (path_of de))) [
    | inl unknown ↦ (unknown, sym (ap (λ o. or_else o above) unknown) ∙ e)
    | inr (st, known) ↦ let f = sym (ap (λ o. or_else o above) known) ∙ e in absurd (cc)
  ]

  list_rows_self :
      (de : Dirent) (later : List Dirent) (above : Option Stat) (ss : Bytes)
      → is_self de ≡ true
      → list_rows calendar stat base_path (de ∷ later) above ss
        ≡ list_rows calendar stat base_path later above ss
  unfolding list_rows
  list_rows_self de later above ss self = rw (list_rows, self) refl

  list_rows_unknown :
      (de : Dirent) (later : List Dirent) (above : Option Stat) (ss : Bytes)
      → is_self de ≡ false
      → stat_into calendar stat base_path above de ≡ none
      → list_rows calendar stat base_path (de ∷ later) above ss ≡ fault
  unfolding list_rows
  list_rows_unknown de later above ss other unknown = rw (list_rows, other, unknown) refl

  list_rows_known :
      (de : Dirent) (later : List Dirent) (above : Option Stat) (ss : Bytes) (st : Stat)
      → is_self de ≡ false
      → stat_into calendar stat base_path above de ≡ some st
      → list_rows calendar stat base_path (de ∷ later) above ss
        ≡ list_rows calendar stat base_path later
            (some st)
            (ss ++ row calendar stat base_path de st)
  unfolding list_rows
  list_rows_known de later above ss st other found = rw (list_rows, other, found) refl

  list_rows-cases :
      (entries : List Dirent) (above : Option Stat) (ss : Bytes)
      → ((list_rows calendar stat base_path entries above ss ≡ fault)
          × (above ≡ none)
          × FirstUnknown entries)
        ⊎ Listed above entries ss (list_rows calendar stat base_path entries above ss)
  unfolding list_rows
  list_rows-cases [] above ss = inr ([], ap ok (sym (append-nil ss)), refl, tt)
  list_rows-cases (de ∷ later) above ss = elim (Bool-cases (is_self de)) [
    | inl self ↦ elim (list_rows-cases later above ss) [
      | inl (e, no_above, unknown) ↦
          inl (list_rows_self de later above ss self ∙ e, no_above, rw self unknown)
      | inr (rows, e, same, backed) ↦
          inr (rows, list_rows_self de later above ss self ∙ e, rw self same, backed)
    ]
    | inr other ↦ elim (Option-cases (stat_into calendar stat base_path above de)) [
      | inl unknown ↦
          let (no_stat, no_above) = stat_into-none above de unknown in
          inl (
            list_rows_unknown de later above ss other unknown,
            no_above,
            (de, visible later, rw other refl, no_stat),
          )
      | inr (st, found) ↦
          elim (list_rows-cases later (some st) (ss ++ row calendar stat base_path de st)) [
            | inl (e, no_above, unknown) ↦ absurd (cc)
            | inr (rows, e, same, backed) ↦ inr (
              (de, st) ∷ rows,
              list_rows_known de later above ss st other found
                  ∙ (e
                      ∙ ap ok
                          (append_assoc ss (row calendar stat base_path de st) (all_rows rows))),
              rw other (ap (λ l. de ∷ l) same),
              (stat_into-backed above de st found, backed),
            )
          ]
    ]
  ]

  -- The page of a directory either is a fault, which is so only if stat fails for the first entry that is
  -- listed, in the base path whatever the directory is; or it is the head, a row for each entry but
  -- `.` in the order of readdir, and the tail. A row shows what stat says of the entry's name in the base
  -- path, or, if stat fails, what the row above shows.
  pub generate_file_page-cases :
      (url : Bytes) (entries : List Dirent)
      → ((generate_file_page calendar stat base_path url entries ≡ fault) × FirstUnknown entries)
        ⊎ ((rows : List (Dirent × Stat)) × (generate_file_page calendar stat base_path url entries
              ≡ ok (page_head url ++ all_rows rows ++ page_tail))
            × (map (λ r. r.0) rows ≡ visible entries)
            × Backed none rows)
  unfolding generate_file_page
  generate_file_page-cases url entries = elim (list_rows-cases entries none (page_head url)) [
    | inl (e, above, unknown) ↦ inl (ap (λ r. r >>= λ ss. ok (ss ++ page_tail)) e, unknown)
    | inr (rows, e, same, backed) ↦ inr (rows, bind_ok (λ ss. ok (ss ++ page_tail)) e, same, backed)
  ]
