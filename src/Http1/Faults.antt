-- ===== src/Http1/Faults.antt =====
-- Which URLs make parse_url read outside of a vector.
use marisa.Prelude.{
  ℕ, ◌≡◌, ◌≢◌, ◌↔◌, refl, sym, ap, ◌∙◌, Bool, true, false, List, [], ◌∷◌, ◌++◌, Bytes, All, Result,
  ok, raise, fault, ◌>>=◌, arith,
}
use marisa.Utilities.Explode.{split}
use marisa.Http1.{Parser, Headers, parse_url}
use marisa.Http1.Url.{query_pairs, query_string, url_parts, parse_url-url_parts}

abbrev pub Lacks : ℕ → Bytes → Type 0
Lacks sep s = All (λ c. c ≢ sep) s

pub split-Lacks : (sep : ℕ) (s : Bytes) → Lacks sep s → split sep s ≡ s ∷ []
unfolding split
split-Lacks sep [] h = refl
split-Lacks sep (c ∷ s) (p, h) = ground (arith, split-Lacks sep s h)

split-append : (sep : ℕ) (s t : Bytes) → Lacks sep s → split sep (s ++ sep ∷ t) ≡ s ∷ split sep t
unfolding split
split-append sep [] t h = ground arith
split-append sep (c ∷ s) t (p, h) = ground (arith, split-append sep s t h)

unfoldable pub has_empty : List Bytes → Bool
has_empty [] = false
has_empty ([] ∷ parts) = true
has_empty ((c ∷ s) ∷ parts) = has_empty parts

query_pairs-fault_iff :
    (parts : List Bytes) (m : Headers) → (query_pairs parts m ≡ fault) ↔ (has_empty parts ≡ true)
unfolding query_pairs has_empty
query_pairs-fault_iff [] m = (λ h. cc, λ h. cc)
query_pairs-fault_iff ([] ∷ parts) m = (λ h. refl, λ h. refl)
query_pairs-fault_iff ((c ∷ s) ∷ parts) m = query_pairs-fault_iff parts _

bind-fault_iff :
    {A B : Type 0} (m : Result A) (f : A → B) → ((m >>= λ a. ok (f a)) ≡ fault) ↔ (m ≡ fault)
bind-fault_iff (ok a) f = (λ h. cc, λ h. cc)
bind-fault_iff (raise e) f = (λ h. cc, λ h. cc)
bind-fault_iff fault f = (λ h. refl, λ h. refl)

append-ne-nil : (s : Bytes) (c : ℕ) (t : Bytes) → s ++ c ∷ t ≢ []
append-ne-nil [] c t e = cc
append-ne-nil (d ∷ s) c t e = cc

parse_url_one_mark :
    (front : ℕ) (p : Parser) (path query : Bytes)
    → p.url_raw ≡ path ++ b'?' ∷ query
    → Lacks b'?' path
    → Lacks b'?' query
    → parse_url front p ≡ url_parts (path ∷ query ∷ []) p
parse_url_one_mark front p path query e h k =
    parse_url-url_parts front p (λ f. append-ne-nil path b'?' query (sym e ∙ f))
    ∙ ap (λ l. url_parts l p)
        (ap (split b'?') e
          ∙ split-append b'?' path query h
          ∙ ap (λ l. path ∷ l) (split-Lacks b'?' query k))

url_parts-fault_iff :
    (p : Parser) (path : Bytes) (c : ℕ) (s : Bytes)
    → (url_parts (path ∷ (c ∷ s) ∷ []) p ≡ fault) ↔ (has_empty (split b'&' (c ∷ s)) ≡ true)
unfolding url_parts query_string
url_parts-fault_iff p path c s =
    let (to, from) = query_pairs-fault_iff (split b'&' (c ∷ s)) p.query_string in
    let (back, out) =
      bind-fault_iff (query_pairs (split b'&' (c ∷ s)) p.query_string)
        (λ pairs. record p { url = path; query_string = pairs }) in
    (λ f. to (back f), λ f. out (from f))

-- A URL with one question mark and a query behind it makes parse_url read outside of a vector
-- exactly if a part of the query between ampersands is empty, as in `/?a=1&`.
pub parse_url-fault_iff :
    (front : ℕ) (p : Parser) (path query : Bytes)
    → p.url_raw ≡ path ++ b'?' ∷ query
    → Lacks b'?' path
    → Lacks b'?' query
    → query ≢ []
    → (parse_url front p ≡ fault) ↔ (has_empty (split b'&' query) ≡ true)
parse_url-fault_iff front p path [] e h k full = absurd (full refl)
parse_url-fault_iff front p path (c ∷ s) e h k full =
    rw (parse_url_one_mark front p path (c ∷ s) e h k) (url_parts-fault_iff p path c s)
