-- ===== src/Compression/Tests.antt =====
-- Runs of the compressing response, with a zlib that puts one byte in front of the data.
use marisa.Prelude.{
  ◌^◌, pos, ℕ, ◌+◌, ◌≤◌, ◌≡◌, ◌⊎◌, inl, inr, refl, sym, ap, ◌∙◌, true, false, Option, none, some,
  List, [], ◌∷◌, ◌++◌, append-nil, append_assoc, Bytes, codes, bytes_eq, leb, if◌then◌else◌,
  Bool-cases, take, drop, length, length-append, take-all, append-take-drop, length-take, ok, fault,
  length-take_below, find, assign, arith,
}
use marisa.Buffer.{vector, empty_buffer}
use marisa.Deflate.{
  Flush, no_flush, finish, Code, z_ok, z_stream_end, Zlib, splice, Out, deflate_into, room_if_full,
  feed_round, feed_loop, finish_round, finish_loop, uint, read_in,
}
use marisa.Deflate.Manual.{IsZlib}
use marisa.Response.{Response}
use marisa.Response.Chunks.{Write}
use marisa.Coding.{Settings, Coding, gzip_coding, level_of, strategy_of, choose_coding}
use marisa.Compression.{Overrider, decide_encoding, end_compressed, compress_memory, take_out}
use marisa.Compression.Codings.{
  IsOffered, init_of, started_out, begun_with, plain, decide_encoding-IsOffered,
}

abbrev stored_code : Flush → (size room : ℕ) → Code
stored_code no_flush size room = z_ok
stored_code finish size room = if leb size room then z_stream_end else z_ok

abbrev stored : Zlib
stored = record {
  State = Bytes;
  deflate_init2 = λ level bits strategy. (z_ok, 120 ∷ []);
  deflate = λ flush s input room. record {
    left = [];
    out = take room (s ++ input);
    next = drop room (s ++ input);
    code = stored_code flush (length (s ++ input)) room;
  };
}

abbrev unstored : Bytes → Option Bytes
unstored [] = none
unstored (c ∷ s) = some s

stored-bounded :
    (s input : Bytes) (room m : ℕ)
    → length (take room (s ++ input)) + (length (drop room (s ++ input)) + (0 + m))
      ≤ length s + (length input + m)
stored-bounded s input room m = omega (
  arith,
  length-append s input,
  ap length (append-take-drop room (s ++ input)),
  length-append (take room (s ++ input)) (drop room (s ++ input)),
)

stored-reads :
    (s c e input : Bytes) (room : ℕ)
    → 120 ∷ c ≡ e ++ s
    → 120 ∷ (c ++ input) ≡ (e ++ take room (s ++ input)) ++ drop room (s ++ input)
stored-reads s c e input room coded =
    ap (λ t. t ++ input) coded
    ∙ append_assoc e s input
    ∙ ap (λ t. e ++ t) (sym (append-take-drop room (s ++ input)))
    ∙ sym (append_assoc e (take room (s ++ input)) (drop room (s ++ input)))

length-take_small : (n : ℕ) (xs : Bytes) → leb (length xs) n ≡ false → length (take n xs) ≡ n
length-take_small n xs h = length-take_below n xs (ground arith)

stored-ends :
    (s c e : Bytes) (room : ℕ)
    → 120 ∷ c ≡ e ++ s
    → ((stored_code finish (length (s ++ [])) room ≡ z_stream_end)
        × (unstored (e ++ take room (s ++ [])) ≡ some c))
      ⊎ ((stored_code finish (length (s ++ [])) room ≡ z_ok)
          × (◌≡◌ {A = Bytes} [] [])
          × (length (take room (s ++ [])) ≡ room)
          × (120 ∷ c ≡ (e ++ take room (s ++ [])) ++ drop room (s ++ [])))
stored-ends s c e room coded = elim (Bool-cases (leb (length (s ++ [])) room)) [
  | inl fits ↦ inl (
    rw fits refl,
    ap unstored
        (ap (λ t. e ++ t) (take-all room (s ++ []) (ground arith) ∙ append-nil s) ∙ sym coded),
  )
  | inr full ↦ inr (
    rw full refl,
    refl,
    length-take_small room (s ++ []) full,
    rw (← append-nil c) (stored-reads s c e [] room coded),
  )
]

abbrev stored_laws : IsZlib stored unstored
stored_laws = record {
  Coded = λ s c e. 120 ∷ c ≡ e ++ s;
  remaining = λ s n. length s + n;
  inflate-nil = refl;
  starts = λ level bits strategy e. refl;
  fits = λ flush s input room. length-take room (s ++ input);
  bounded = λ flush s input room m. stored-bounded s input room m;
  reads = λ s c e input room coded full free.
      (refl, (input, sym (append-nil input), stored-reads s c e input room coded), inl refl);
  ends = λ s c e room coded free. stored-ends s c e room coded;
}

abbrev fresh : Response
fresh = record {
  headers = [];
  status = 200;
  type = codes "text/plain";
  headers_sent = false;
  buf_write = empty_buffer;
  has_yield_context = false;
  calls = [];
}

-- CompFlags::DEFAULT
abbrev default_settings : Settings
default_settings = record {
  gzip = true;
  deflate = true;
  level_default = false;
  level_fastest = false;
  level_best = true;
  strategy_filtered = false;
  strategy_huffman_only = false;
  strategy_fixed = false;
  strategy_rle = false;
}

abbrev accepts : Bytes → List (Bytes × Bytes)
accepts s = (codes "accept-encoding", s) ∷ []

abbrev gzipped : Overrider stored
gzipped = begun_with stored default_settings 4 fresh gzip_coding

decides : decide_encoding stored default_settings 4 (accepts (codes "gzip, br")) fresh ≡ ok gzipped
unfolding decide_encoding choose_coding level_of strategy_of bytes_eq find assign
decides = refl

-- gzip is used although the client refuses it.
decides_refused :
    decide_encoding stored default_settings 4 (accepts (codes "gzip;q=0")) fresh ≡ ok gzipped
unfolding decide_encoding choose_coding level_of strategy_of bytes_eq find assign
decides_refused = refl

-- And not used if another coding stands in front of it.
decides_plain :
    decide_encoding stored default_settings 4 (accepts (codes "br, gzip")) fresh
    ≡ ok (plain stored default_settings 4 fresh)
unfolding decide_encoding choose_coding bytes_eq find
decides_plain = refl

-- With an end and no write, avail_in is read before it was set.
end_unfed : end_compressed stored (pos 0) (pos 0) 4 9 gzipped ≡ some fault
unfolding end_compressed
end_unfed = refl

memory : compress_memory stored 9 3 (codes "abcd") (0 ∷ 0 ∷ 0 ∷ []) ≡ some (ok (120 ∷ codes "abcd"))
unfolding compress_memory uint read_in feed_loop feed_round finish_loop finish_round room_if_full
    deflate_into take_out splice
memory = refl

decide_encoding-IsOffered_example :
    (gzipped ≡ plain stored default_settings 4 fresh)
    ⊎ ((s : Bytes) × (coding : Coding) × (find
            (codes "accept-encoding")
            (accepts (codes "gzip, br"))
          ≡ some s)
        × IsOffered default_settings s coding
        × ((init_of stored default_settings 4 fresh coding).0 ≡ z_ok)
        × (gzipped ≡ begun_with stored default_settings 4 fresh coding))
decide_encoding-IsOffered_example =
    decide_encoding-IsOffered stored default_settings 4 fresh (accepts (codes "gzip, br")) gzipped
      decides

abbrev one_write : List Write
one_write = (vector, codes "fghij", true) ∷ []

abbrev stream : Out stored
stream = started_out stored default_settings 4 fresh gzip_coding

-- A buffer of 4 GiB gives deflate no room.
no_room : uint (2 ^ 32) ≡ 0
unfolding uint
no_room = refl
