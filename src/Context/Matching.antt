-- ===== src/Context/Matching.antt =====
-- Which of the routes that match a URL a request gets.
use marisa.Prelude.{
  ◌≡◌, inl, inr, refl, sym, ap, ◌∙◌, Option, none, some, List, [], ◌∷◌, ◌++◌, append_assoc, Bytes,
  Option-cases, All,
}
use marisa.Routes.{Route}
use marisa.Context.{match_routes}

module _ (M Regex : Type 0) (regex_search : Bytes → Regex → Option (List Bytes)) (url : Bytes) where
  abbrev groups_of : Option (List Bytes) → List Bytes
  groups_of none = []
  groups_of (some gs) = gs

  -- The groups of every route that matches, in order.
  abbrev pub all_groups : List (Regex × Route M) → List Bytes
  all_groups [] = []
  all_groups ((regex, r) ∷ rms) = groups_of (regex_search url regex) ++ all_groups rms

  abbrev pub NoMatch : Regex × Route M → Type 0
  NoMatch (regex, r) = regex_search url regex ≡ none

  match_routes-unmatched :
      (rms : List (Regex × Route M)) (smbuf : List Bytes) (route : Option (Route M))
      → All NoMatch rms
      → match_routes M Regex regex_search url rms smbuf route ≡ (smbuf, route)
  unfolding match_routes
  match_routes-unmatched [] smbuf route h = refl
  match_routes-unmatched ((regex, r) ∷ rms) smbuf route (e, h) =
      rw (match_routes, e) (match_routes-unmatched rms smbuf route h)

  match_routes_lem :
      (before rest : List (Regex × Route M)) (regex : Regex) (r : Route M)
      (groups smbuf : List Bytes) (route : Option (Route M))
      → regex_search url regex ≡ some groups
      → All NoMatch rest
      → match_routes M Regex regex_search url (before ++ (regex, r) ∷ rest) smbuf route
        ≡ (smbuf ++ (all_groups before ++ groups), some r)
  unfolding match_routes
  match_routes_lem [] rest regex r groups smbuf route e h =
      rw (match_routes, e) (match_routes-unmatched rest (smbuf ++ groups) (some r) h)
  match_routes_lem ((regex0, r0) ∷ before) rest regex r groups smbuf route e h =
      elim (Option-cases (regex_search url regex0)) [
        | inl f ↦ rw (match_routes, f) (match_routes_lem before rest regex r groups smbuf route e h)
        | inr (gs, f) ↦
            rw (match_routes, f)
              (match_routes_lem before rest regex r groups (smbuf ++ gs) (some r0) e h
                ∙ ap (λ l. (l, some r))
                    (append_assoc smbuf gs (all_groups before ++ groups)
                      ∙ ap (λ l. smbuf ++ l) (sym (append_assoc gs (all_groups before) groups))))
      ]

  -- The route of a request is the last one that matches its URL; the groups that the request gets are
  -- not those of this route alone, but begin with those of every route that matches before it.
  pub match_routes-last :
      (before rest : List (Regex × Route M)) (regex : Regex) (r : Route M) (groups : List Bytes)
      → regex_search url regex ≡ some groups
      → All NoMatch rest
      → match_routes M Regex regex_search url (before ++ (regex, r) ∷ rest) [] none
        ≡ (all_groups before ++ groups, some r)
  match_routes-last before rest regex r groups e h =
      match_routes_lem before rest regex r groups [] none e h
