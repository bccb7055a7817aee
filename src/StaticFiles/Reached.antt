-- ===== src/StaticFiles/Reached.antt =====
-- Which paths the file system is asked for.
use marisa.Prelude.{
  ℕ, ◌≡◌, ◌≢◌, ◌⊎◌, inl, inr, refl, sym, ap, ◌∙◌, Bool, Option, none, some, List, [], ◌∷◌, ◌++◌,
  Bytes, codes, if◌then◌else◌, Bool-cases, Option-cases, get_elem?, find_text, find_text-append,
  bytes_eq, bytes_eq_iff, true, All-append, All-imp, All, ok, at,
}
use mathlib.Core.Path.{subst}
use mathlib.Core.List.{Memᴰ}
use marisa.Uri.{decode_uri_component}
use marisa.StaticFiles.{
  Errno, enoent, eperm, enotdir, other_error, FileSystem, listing, status_page, Visit, serve_file,
  c_str, stat_paths, open_path, visit, handler,
}

-- A path of the request: below the base, with or without a slash at its end, up to its first zero byte.
abbrev pub IsBelow : (base_path path : Bytes) → Bytes → Type 0
IsBelow base_path path p =
    (p ≡ c_str (base_path ++ (codes "/" ++ path)))
    ⊎ (p ≡ c_str ((base_path ++ (codes "/" ++ path)) ++ codes "/"))

-- A name that readdir gave for the directory of the request, in the base path.
abbrev pub IsEntry : FileSystem → (base_path path : Bytes) → Bytes → Type 0
IsEntry fs base_path path p =
    (d_name : Bytes) × Memᴰ d_name
      (fs.readdir (c_str ((base_path ++ (codes "/" ++ path)) ++ codes "/")))
    × (d_name ≢ codes ".")
    × (p ≡ c_str (base_path ++ (codes "/" ++ d_name)))

-- Paths of entries only if directories are listed.
abbrev pub IsReached :
    FileSystem → (base_path : Bytes) (list_files : Bool) (path : Bytes) → Bytes → Type 0
IsReached fs base_path list_files path p =
    IsBelow base_path path p ⊎ ((list_files ≡ true) × IsEntry fs base_path path p)

-- No two dots stand in a row.
abbrev pub NoDots : Bytes → Type 0
NoDots path = (s t : Bytes) → path ≢ s ++ (codes ".." ++ t)

module _ (fs : FileSystem) (base_path : Bytes) (list_files : Bool) where
  abbrev IsIn : List Bytes → Bytes → Type 0
  IsIn names p =
      (d_name : Bytes) × Memᴰ d_name names
      × (d_name ≢ codes ".")
      × (p ≡ c_str (base_path ++ (codes "/" ++ d_name)))

  IsIn-there : (x : Bytes) (names : List Bytes) (p : Bytes) → IsIn names p → IsIn (x ∷ names) p
  IsIn-there x names p (d_name, among, other, same) = (d_name, Memᴰ.tail among, other, same)

  stat_paths-IsIn :
      (names : List Bytes) → All (IsIn names) (stat_paths fs base_path list_files names)
  unfolding stat_paths
  stat_paths-IsIn [] = tt
  stat_paths-IsIn (d_name ∷ later) =
      let rest =
        All-imp (IsIn later) (IsIn (d_name ∷ later)) (stat_paths fs base_path list_files later)
          (IsIn-there d_name later) (stat_paths-IsIn later) in
      elim (Bool-cases (bytes_eq d_name (codes "."))) [
        | inl self ↦ rw self rest
        | inr other ↦ rw other (
          (
            d_name,
            Memᴰ.head refl,
            (λ e. let same = (bytes_eq_iff d_name (codes ".")).1 e in absurd (cc)),
            refl,
          ),
          rest,
        )
      ]

  abbrev Reached : (path : Bytes) → Bytes → Type 0
  Reached path p = IsReached fs base_path list_files path p

  open_path-IsReached :
      (path : Bytes)
      → All
          (Reached path)
          (open_path fs base_path list_files path (base_path ++ (codes "/" ++ path))).reached
  unfolding open_path serve_file
  open_path-IsReached path = go (fs.opendir (c_str (full ++ codes "/")))
    where
      full : Bytes
      full = base_path ++ (codes "/" ++ path)

      two : List Bytes
      two = c_str full ∷ c_str (full ++ codes "/") ∷ []

      names : List Bytes
      names = fs.readdir (c_str (full ++ codes "/"))

      two_reached : All (Reached path) two
      two_reached = (inl (inl refl), (inl (inr refl), tt))

      go :
          (e : Option Errno)
          → All (Reached path) (
              (elim e as (λ x. Visit) [
                | none ↦ record {
                  answer = if list_files then listing else status_page 403;
                  reached =
                      if list_files then two ++ stat_paths fs base_path list_files names else two;
                }
                | some enotdir ↦ serve_file fs base_path list_files path full two
                | some enoent ↦ record { answer = status_page 404; reached = two }
                | some eperm ↦ record { answer = status_page 403; reached = two }
                | some other_error ↦ record { answer = status_page 500; reached = two }
              ]).reached)
      go none = elim (Bool-cases list_files) [
        | inl lists ↦
            subst
              (λ b.
                All (Reached path)
                  (if b then two ++ stat_paths fs base_path list_files names else two))
              (sym lists)
              (All-append (Reached path) two (stat_paths fs base_path list_files names) two_reached
                (All-imp (IsIn names) (Reached path) (stat_paths fs base_path list_files names)
                  (λ p among. inr (lists, among)) (stat_paths-IsIn names)))
        | inr shut ↦
            subst
              (λ b.
                All (Reached path)
                  (if b then two ++ stat_paths fs base_path list_files names else two))
              (sym shut) two_reached
      ]
      go (some enoent) = two_reached
      go (some eperm) = two_reached
      go (some other_error) = two_reached
      go (some enotdir) = elim (Bool-cases (fs.maps (c_str full))) [
        | inl e ↦ rw e (inl (inl refl), (inl (inr refl), (inl (inl refl), tt)))
        | inr e ↦ rw e (inl (inl refl), (inl (inr refl), (inl (inl refl), tt)))
      ]

  visit-IsReached :
      (path : Bytes)
      → All (Reached path) (visit fs base_path list_files path).reached
        × (((visit fs base_path list_files path).reached ≡ []) ⊎ NoDots path)
  unfolding visit
  visit-IsReached path = elim (Option-cases (find_text (codes "..") path)) [
    | inr (n, e) ↦ rw (visit, e) (tt, inl refl)
    | inl e ↦
        let clean : NoDots path = λ s t same.
          find_text-append (codes "..") s t (ap (find_text (codes "..")) (sym same) ∙ e) in
        elim (Option-cases (fs.stat (c_str (base_path ++ (codes "/" ++ path))))) [
          | inl f ↦ rw (visit, e) (rw (visit, f) (open_path-IsReached path, inr clean))
          | inr (x, f) ↦ rw (visit, e) (rw (visit, f) ((inl (inl refl), tt), inr clean))
        ]
  ]

  -- Whatever the file system answers, each path that a request hands to it is the base, a slash and the
  -- decoded group of the URL, with or without a slash behind it, up to the first zero byte; or, only
  -- if directories are listed, the base, a slash and a name other than `.` that readdir gave for the
  -- directory of that path. No two dots stand in a row in the decoded group, unless no path is handed
  -- over.
  pub handler-IsReached :
      (url_smatch : List Bytes) (path_smatch_pos : ℕ) (m : Bytes)
      → get_elem? url_smatch path_smatch_pos ≡ some m
      → (v : Visit) × (handler fs base_path list_files url_smatch path_smatch_pos ≡ ok v)
        × All (IsReached fs base_path list_files (decode_uri_component m [])) v.reached
        × ((v.reached ≡ []) ⊎ NoDots (decode_uri_component m []))
  unfolding handler
  handler-IsReached url_smatch path_smatch_pos m e =
      let path = decode_uri_component m [] in
      let (below, clean) = visit-IsReached path in
      (visit fs base_path list_files path, rw (at, e) refl, below, clean)
