-- ===== src/Compression/Codings.antt =====
-- Which coding a response gets.
use marisa.Prelude.{
  ℕ, ◌≡◌, ◌≢◌, ◌⊎◌, inl, inr, refl, sym, ap, ◌∙◌, true, false, Option, none, some, List, [], ◌∷◌,
  Bytes, codes, bytes_eq_refl, ◌==◌, Bool-cases, Option-cases, get_or, replicate, length, ok, raise,
  system_error, length-replicate, find, assign, find-assign, arith,
}
use marisa.Deflate.{uint, Code, z_ok, z_stream_end, z_error, Zlib, Out, is_ok}
use mathlib.Core.Path.{subst}
use marisa.Deflate.Manual.{IsZlib}
use marisa.Response.{Response}
use marisa.Coding.{
  Settings, Coding, gzip_coding, deflate_coding, name_of, window_bits, has_byte, choose_coding,
  level_of, strategy_of,
}
use marisa.Compression.{Overrider, decide_encoding}

-- The settings allow the coding, and the first letter of its name stands in the text.
abbrev pub IsOffered : Settings → Bytes → Coding → Type 0
IsOffered f s gzip_coding = (f.gzip ≡ true) × (has_byte b'g' s ≡ true)
IsOffered f s deflate_coding = (f.deflate ≡ true) × (has_byte b'd' s ≡ true)

has_byte_first : (c : ℕ) (s : Bytes) → c ≢ 0 → get_or s 0 0 == c ≡ true → has_byte c s ≡ true
has_byte_first c [] nonzero e = ground arith
has_byte_first c (d ∷ s) nonzero e = ground arith

choose_coding-IsOffered :
    (f : Settings) (s : Bytes) (coding : Coding)
    → choose_coding f s ≡ some coding
    → IsOffered f s coding
unfolding choose_coding
choose_coding-IsOffered f s gzip_coding e = ground (arith, has_byte_first b'g' s)
choose_coding-IsOffered f s deflate_coding e = ground (arith, has_byte_first b'd' s)

find-assigned :
    (v : Bytes) (m : List (Bytes × Bytes))
    → find (codes "Content-Encoding") (assign (codes "Content-Encoding") v m) ≡ some v
find-assigned v m =
    let k = codes "Content-Encoding" in find-assign k k v m ∙ rw (bytes_eq_refl k) refl

module _ (z : Zlib) (f : Settings) (buf_size : ℕ) (r : Response) where
  -- What deflateInit2 is asked for.
  abbrev pub init_of : Coding → Code × z.State
  init_of coding = z.deflate_init2 (level_of f) (window_bits coding) (strategy_of f)

  abbrev pub started_out : Coding → Out z
  started_out coding = record {
    strm = (init_of coding).1;
    buf = replicate buf_size 0;
    next_out = 0;
    avail_out = uint buf_size;
  }

  -- The response that compresses with a coding.
  abbrev pub begun_with : Coding → Overrider z
  begun_with coding = record {
    response = record r { headers = assign (codes "Content-Encoding") (name_of coding) r.headers };
    zlib_strm = some (started_out coding);
    fed = false;
  }

  abbrev pub plain : Overrider z
  plain = record { response = r; zlib_strm = none; fed = false }

  ok_code : (code : Code) → is_ok code ≡ true → code ≡ z_ok
  ok_code z_ok e = refl
  ok_code z_stream_end e = cc
  ok_code z_error e = cc

  -- A response is left as it is, or compresses with a coding that the settings allow, whose first
  -- letter stands in Accept-Encoding: its name becomes the Content-Encoding, and zlib was started
  -- with that coding's window bits.
  pub decide_encoding-IsOffered :
      (headers_lowercase : List (Bytes × Bytes)) (d : Overrider z)
      → decide_encoding z f buf_size headers_lowercase r ≡ ok d
      → (d ≡ plain)
        ⊎ ((s : Bytes) × (coding : Coding) × (find (codes "accept-encoding") headers_lowercase
              ≡ some s)
            × IsOffered f s coding
            × ((init_of coding).0 ≡ z_ok)
            × (d ≡ begun_with coding))
  unfolding decide_encoding
  decide_encoding-IsOffered headers_lowercase d e =
      elim (Option-cases (find (codes "accept-encoding") headers_lowercase)) [
        | inl absent ↦
            let ran : decide_encoding z f buf_size headers_lowercase r ≡ ok plain =
              rw (decide_encoding, absent) refl in
            inl (cc)
        | inr (s, given) ↦ elim (Option-cases (choose_coding f s)) [
          | inl no_coding ↦
              let ran : decide_encoding z f buf_size headers_lowercase r ≡ ok plain =
                rw (decide_encoding, given) (rw (decide_encoding, no_coding) refl) in
              inl (cc)
          | inr (coding, chosen) ↦ elim (Bool-cases (is_ok (init_of coding).0)) [
            | inl fine ↦
                let ran : decide_encoding z f buf_size headers_lowercase r
                    ≡ ok (begun_with coding) =
                  rw (decide_encoding, given) (rw (decide_encoding, chosen) (rw fine refl)) in
                inr (
                  s,
                  coding,
                  given,
                  choose_coding-IsOffered f s coding chosen,
                  ok_code (init_of coding).0 fine,
                  (cc),
                )
            | inr refused ↦
                let ran : decide_encoding z f buf_size headers_lowercase r ≡ raise system_error =
                  rw (decide_encoding, given) (rw (decide_encoding, chosen) (rw refused refl)) in
                cc
          ]
        ]
      ]

  -- A stream that was just started.
  pub decide_encoding-started :
      {inflate : Bytes → Option Bytes} (laws : IsZlib z inflate)
      (headers_lowercase : List (Bytes × Bytes)) (d : Overrider z) (o : Out z)
      → decide_encoding z f buf_size headers_lowercase r ≡ ok d
      → d.zlib_strm ≡ some o
      → (coding : Coding) × laws.Coded o.strm [] []
        × (length o.buf ≡ buf_size)
        × (d.response.headers_sent ≡ r.headers_sent)
        × (d.response.calls ≡ r.calls)
        × (find (codes "Content-Encoding") d.response.headers ≡ some (name_of coding))
  decide_encoding-started laws headers_lowercase d o decided strm =
      elim (decide_encoding-IsOffered headers_lowercase d decided) [
        | inl same ↦ let none_there : none ≡ some o = sym (ap (λ x. x.zlib_strm) same) ∙ strm in cc
        | inr (s, coding, given, offered, fine, same) ↦
            let there : some (started_out coding) ≡ some o =
              sym (ap (λ x. x.zlib_strm) same) ∙ strm in
            let here : started_out coding ≡ o = cc in
            (
              coding,
              subst (λ (x : Out z). laws.Coded x.strm [] []) here
                  (laws.starts (level_of f) (window_bits coding) (strategy_of f) fine),
              ap (λ x. length x.buf) (sym here) ∙ length-replicate {A = ℕ} buf_size 0,
              ap (λ x. x.response.headers_sent) same,
              ap (λ x. x.response.calls) same,
              ap (λ x. find (codes "Content-Encoding") x.response.headers) same
                  ∙ find-assigned (name_of coding) r.headers,
            )
      ]
