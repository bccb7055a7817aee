-- ===== src/Http1/Url.antt =====
-- What parse_url makes of a URL, described without memory.
use marisa.Prelude.{
  ℕ, ◌≡◌, ◌≢◌, inl, inr, refl, sym, ap, ◌∙◌, false, List, [], ◌∷◌, Bytes, ◌==◌, if◌then◌else◌,
  get_or, length, All, All-imp, Result, ok, fault, ◌>>=◌, at, insert, arith,
}
use marisa.Uri.{decode_uri_component, is_xdigit}
use marisa.Uri.Views.{decode_uri_component_view}
use marisa.Utilities.{View, explode_zerocopy}
use marisa.Utilities.Explode.{
  split, split-ne-nil, texts, explode_zerocopy-split, explode_zerocopy_empty,
}
use marisa.Utilities.Borders.{
  StartsBy, StartsBy-explode_zerocopy, EndsBy, StartsBehind, rest_of, ends-explode_zerocopy,
  starts-explode_zerocopy,
}
use marisa.Http1.{Parser, Headers, decode_view, parse_pair, parse_pairs, with_query, parse_url}

abbrev decode : Bytes → Bytes
decode s = decode_uri_component s []

-- Key and value of a part of the query: a part with two or more equal signs has an empty value.
unfoldable pub query_pair : List Bytes → Bytes × Bytes
query_pair [] = ([], [])
query_pair (key ∷ []) = (decode key, [])
query_pair (key ∷ val ∷ []) = (decode key, decode val)
query_pair (key ∷ _ ∷ _ ∷ _) = (decode key, [])

-- An empty part is a read outside of the vector of its pieces.
unfoldable pub query_pairs : List Bytes → Headers → Result Headers
query_pairs [] m = ok m
query_pairs ([] ∷ parts) m = fault
query_pairs ((c ∷ s) ∷ parts) m =
    let (key, val) = query_pair (split b'=' (c ∷ s)) in query_pairs parts (insert key val m)

-- The same of the query: an empty one has no parts.
unfoldable pub query_string : Bytes → Headers → Result Headers
unfolding query_pairs
query_string [] m = ok m
query_string (c ∷ s) m = query_pairs (split b'&' (c ∷ s)) m

abbrev PlainEnd : View → Type 0
PlainEnd v = is_xdigit (get_or v.after 0 0) ≡ false

decode_view_lem : (v : View) → PlainEnd v → decode_view v ≡ decode v.text
unfolding decode_view
decode_view_lem v h = go v.text
  where
    go :
        (t : Bytes) → (elim t [ [] ↦ [] | c ∷ s ↦ decode_uri_component (c ∷ s) v.after ]) ≡ decode t
    go [] = unfold decode_uri_component in refl
    go (c ∷ s) = decode_uri_component_view (c ∷ s) v.after h

abbrev pieces_pair : List View → Result (Bytes × Bytes)
pieces_pair l = do
  key ← at l 0
  val ← if length l == 2 then at l 1 >>= (λ v. ok (decode_view v)) else ok []
  ok (decode_view key, val)

pieces_pair_lem :
    (l : List View) → l ≢ [] → All PlainEnd l → pieces_pair l ≡ ok (query_pair (texts l))
unfolding query_pair
pieces_pair_lem [] h k = absurd (h refl)
pieces_pair_lem (v ∷ []) h (p, _) = rw (decode_view_lem v p)
pieces_pair_lem (v ∷ w ∷ []) h (p, (q, _)) = rw (decode_view_lem v p, decode_view_lem w q)
pieces_pair_lem (v ∷ w ∷ u ∷ l) h (p, _) = rw (decode_view_lem v p) (ground arith)

-- The bytes that may stand behind a part of the query.
abbrev PartEnd : View → Type 0
PartEnd v = PlainEnd v × (get_or v.after 0 0 ≢ b'=')

PlainEnd-of_ends :
    (needle : ℕ) (after : Bytes) (v : View)
    → is_xdigit needle ≡ false
    → is_xdigit (get_or after 0 0) ≡ false
    → EndsBy needle after v
    → PlainEnd v
PlainEnd-of_ends needle after v h k (inl e) = rw e h
PlainEnd-of_ends needle after v h k (inr e) = rw e k

texts-ne-nil : (l : List View) → texts l ≢ [] → l ≢ []
texts-ne-nil l h e = h (ap texts e)

parse_pair_lem :
    (it : View) → it.text ≢ [] → PartEnd it → parse_pair it ≡ ok (query_pair (split b'=' it.text))
unfolding parse_pair
parse_pair_lem it h (plain, other) =
    let same : texts (explode_zerocopy it b'=') ≡ split b'=' it.text =
      explode_zerocopy-split it b'=' h other in
    pieces_pair_lem (explode_zerocopy it b'=')
      (texts-ne-nil (explode_zerocopy it b'=') (λ e. split-ne-nil b'=' it.text (sym same ∙ e)))
      (All-imp (EndsBy b'=' it.after) PlainEnd (explode_zerocopy it b'=')
        (λ v. PlainEnd-of_ends b'=' it.after v refl plain) (ends-explode_zerocopy it b'=' other))
    ∙ ap (λ l. ok (query_pair l)) same

parse_pair_empty : (it : View) → it.text ≡ [] → it.before ≢ b'=' → parse_pair it ≡ fault
unfolding parse_pair
parse_pair_empty it h k = rw (explode_zerocopy_empty it b'=' h k)

abbrev PartStart : View → Type 0
PartStart v = v.before ≢ b'='

parse_pairs_step :
    (it : View) (its : List View) (m : Headers) (t : Bytes)
    → PartEnd it
    → PartStart it
    → it.text ≡ t
    → ((n : Headers) → parse_pairs its n ≡ query_pairs (texts its) n)
    → parse_pairs (it ∷ its) m ≡ query_pairs (t ∷ texts its) m
unfolding parse_pairs query_pairs
parse_pairs_step it its m [] ends starts e ih = rw (parse_pair_empty it e starts)
parse_pairs_step it its m (c ∷ s) ends starts e ih =
    rw (parse_pair_lem it (λ h. cc (sym e ∙ h)) ends, e)
      (ih (insert (query_pair (split b'=' (c ∷ s))).0 (query_pair (split b'=' (c ∷ s))).1 m))

parse_pairs_lem :
    (its : List View) (m : Headers)
    → All PartEnd its
    → All PartStart its
    → parse_pairs its m ≡ query_pairs (texts its) m
unfolding parse_pairs query_pairs
parse_pairs_lem [] m ends starts = refl
parse_pairs_lem (it ∷ its) m (e, ends) (b, starts) =
    parse_pairs_step it its m it.text e b refl (λ n. parse_pairs_lem its n ends starts)

-- The bytes that may stand behind the query.
abbrev QueryEnd : View → Type 0
QueryEnd v = PlainEnd v × (get_or v.after 0 0 ≢ b'&') × (get_or v.after 0 0 ≢ b'=')

PartEnd-of_ends : (second v : View) → QueryEnd second → EndsBy b'&' second.after v → PartEnd v
PartEnd-of_ends second v (h, k, l) (inl e) = (rw e refl, omega arith)
PartEnd-of_ends second v (h, k, l) (inr e) = (rw e h, λ f. l (sym e ∙ f))

PartStart-of_starts : (before : ℕ) (v : View) → before ≢ b'=' → StartsBy b'&' before v → PartStart v
PartStart-of_starts before v h (inl e) = omega arith
PartStart-of_starts before v h (inr e) = omega arith

parse_query :
    (second : View) (m : Headers) (t : Bytes)
    → QueryEnd second
    → second.before ≡ b'?'
    → second.text ≡ t
    → parse_pairs (explode_zerocopy second b'&') m ≡ query_string t m
unfolding query_string
parse_query second m [] h b e =
    rw (explode_zerocopy_empty second b'&' e (omega arith)) (unfold parse_pairs in refl)
parse_query second m (c ∷ s) h b e =
    let full : second.text ≢ [] = λ f. cc (sym e ∙ f) in
    let l = explode_zerocopy second b'&' in
    parse_pairs_lem l m
      (All-imp (EndsBy b'&' second.after) PartEnd l (λ v. PartEnd-of_ends second v h)
        (ends-explode_zerocopy second b'&' h.1))
      (All-imp (StartsBy b'&' second.before) PartStart l
        (λ v. PartStart-of_starts second.before v (omega arith))
        (StartsBy-explode_zerocopy second b'&' full h.1))
    ∙ ap (λ t. query_pairs t m) (explode_zerocopy-split second b'&' full h.1 ∙ ap (split b'&') e)

-- A query is read only if the URL holds exactly one question mark.
unfoldable pub url_parts : List Bytes → Parser → Result Parser
url_parts [] p = fault
url_parts (path ∷ []) p = ok (record p { url = path })
url_parts (path ∷ query ∷ []) p = do
  pairs ← query_string query p.query_string
  ok (record p { url = path; query_string = pairs })
url_parts (path ∷ _ ∷ _ ∷ _) p = ok (record p { url = path })

abbrev url_body : List View → Parser → Result Parser
url_body l p = do
  first ← at l 0
  if length l == 2 then (at l 1 >>= with_query p first.text) else ok (record p { url = first.text })

url_body_lem :
    (l : List View) (p : Parser)
    → All QueryEnd l
    → All (StartsBehind b'?') (rest_of l)
    → url_body l p ≡ url_parts (texts l) p
unfolding url_parts with_query
url_body_lem [] p h b = refl
url_body_lem (v ∷ []) p h b = refl
url_body_lem (v ∷ w ∷ []) p (_, (h, _)) (b, _) = rw (parse_query w p.query_string w.text h b refl)
url_body_lem (v ∷ w ∷ u ∷ l) p h b = ground arith

QueryEnd-of_ends : (v : View) → EndsBy b'?' [] v → QueryEnd v
QueryEnd-of_ends v (inl e) = (rw e refl, omega arith, omega arith)
QueryEnd-of_ends v (inr e) = (rw e refl, omega arith, omega arith)

-- Of a URL that is not empty parse_url makes what the description says, whatever stands in memory
-- in front of it: the path is the part before the first question mark; the query is read only if
-- there is exactly one, pair by pair, percent-decoded, the first value of a key kept; an empty pair
-- is a read outside of a vector.
pub parse_url-url_parts :
    (front : ℕ) (p : Parser)
    → p.url_raw ≢ []
    → parse_url front p ≡ url_parts (split b'?' p.url_raw) p
unfolding parse_url
parse_url-url_parts front p h =
    let v : View = record { before = front; text = p.url_raw; after = [] } in
    let l = explode_zerocopy v b'?' in
    url_body_lem l p
      (All-imp (EndsBy b'?' []) QueryEnd l QueryEnd-of_ends
        (ends-explode_zerocopy v b'?' (omega arith)))
      (starts-explode_zerocopy v b'?' h (omega arith))
    ∙ ap (λ t. url_parts t p) (explode_zerocopy-split v b'?' h (omega arith))
