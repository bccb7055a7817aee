-- ===== src/Http1/Fragments.antt =====
-- The parser's state does not depend on how http_parser cuts the data into calls.
use marisa.Prelude.{
  ℕ, ◌≡◌, refl, sym, ap, ◌∙◌, List, [], ◌∷◌, ◌++◌, append_assoc, Bytes, Result, ok, raise, fault,
  ◌>>=◌, arith,
}
use marisa.Http1.{
  Parser, Headers, callback_url, callback_body, callback_header_field, callback_header_value, Event,
  on_url, on_body, on_header_field, on_header_value, callback, callbacks,
}

-- The second list of calls is the first with some calls cut into two.
pub data Cuts : List Event → List Event → Type 0 where
  same : Cuts [] []
  keep : {es fs : List Event} (e : Event) → Cuts es fs → Cuts (e ∷ es) (e ∷ fs)
  cut_url :
      {es fs : List Event} (s t : Bytes)
      → Cuts es fs
      → Cuts (on_url (s ++ t) ∷ es) (on_url s ∷ on_url t ∷ fs)
  cut_body :
      {es fs : List Event} (s t : Bytes)
      → Cuts es fs
      → Cuts (on_body (s ++ t) ∷ es) (on_body s ∷ on_body t ∷ fs)
  cut_field :
      {es fs : List Event} (s t : Bytes)
      → Cuts es fs
      → Cuts (on_header_field (s ++ t) ∷ es) (on_header_field s ∷ on_header_field t ∷ fs)
  cut_value :
      {es fs : List Event} (s t : Bytes)
      → Cuts es fs
      → Cuts (on_header_value (s ++ t) ∷ es) (on_header_value s ∷ on_header_value t ∷ fs)

field_cut :
    (s t : Bytes) (p : Parser)
    → callback_header_field t (callback_header_field s p) ≡ callback_header_field (s ++ t) p
unfolding callback_header_field
field_cut s t p = ground (arith, append_assoc p.last_field s t)

value_cut :
    (s t : Bytes) (p : Parser)
    → callback_header_value t (callback_header_value s p) ≡ callback_header_value (s ++ t) p
unfolding callback_header_value
value_cut s t p = ground (arith, append_assoc p.last_value s t)

url_cut : (s t : Bytes) (p : Parser) → callback_url t (callback_url s p) ≡ callback_url (s ++ t) p
unfolding callback_url
url_cut s t p = ap (λ u. record p { url_raw = u }) (append_assoc p.url_raw s t)

body_cut :
    (s t : Bytes) (p : Parser) → callback_body t (callback_body s p) ≡ callback_body (s ++ t) p
unfolding callback_body
body_cut s t p = ap (λ b. record p { body = b }) (append_assoc p.body s t)

module _ (order : Headers → Headers) (front : ℕ) where
  bind_same :
      (m : Result Parser) (es fs : List Event)
      → ((q : Parser) → callbacks order front es q ≡ callbacks order front fs q)
      → (m >>= callbacks order front es) ≡ (m >>= callbacks order front fs)
  bind_same (ok q) es fs h = h q
  bind_same (raise e) es fs h = refl
  bind_same fault es fs h = refl

  -- However http_parser cuts the URL, the body, a header's field or a header's value into calls, the
  -- callbacks leave the same state, and fault alike.
  pub callbacks-Cuts :
      {es fs : List Event}
      → Cuts es fs
      → (p : Parser) → callbacks order front es p ≡ callbacks order front fs p
  unfolding callbacks callback
  callbacks-Cuts same p = refl
  callbacks-Cuts (keep {es} {fs} e c) p =
      bind_same (callback order front e p) es fs (callbacks-Cuts c)
  callbacks-Cuts (cut_url {es} s t c) p =
      ap (callbacks order front es) (sym (url_cut s t p)) ∙ callbacks-Cuts c _
  callbacks-Cuts (cut_body {es} s t c) p =
      ap (callbacks order front es) (sym (body_cut s t p)) ∙ callbacks-Cuts c _
  callbacks-Cuts (cut_field {es} s t c) p =
      ap (callbacks order front es) (sym (field_cut s t p)) ∙ callbacks-Cuts c _
  callbacks-Cuts (cut_value {es} s t c) p =
      ap (callbacks order front es) (sym (value_cut s t p)) ∙ callbacks-Cuts c _
