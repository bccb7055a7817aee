-- ===== src/Utilities/Tests.antt =====
-- Tests of the text utilities, and their theorems at concrete inputs.
use marisa.Prelude.{◌≡◌, refl, [], ◌∷◌, Bytes, codes, arith}
use marisa.Utilities.{View, explode_zerocopy, explode_string}
use marisa.Utilities.Explode.{split, texts, explode_zerocopy-split}

abbrev view : Bytes → View
view s = record { before = 0; text = s; after = [] }

splits : texts (explode_zerocopy (view (codes "a&&b&")) b'&') ≡ codes "a" ∷ [] ∷ codes "b" ∷ [] ∷ []
unfolding explode_zerocopy
splits = refl

-- The byte behind the view, if it is the separator, adds a part.
reads_behind :
    texts (explode_zerocopy (record { before = 0; text = codes "a"; after = codes "&b" }) b'&')
    ≡ codes "a" ∷ [] ∷ []
unfolding explode_zerocopy
reads_behind = refl

explodes : explode_string (codes "a,,b,") b',' ≡ codes "a" ∷ [] ∷ codes "b" ∷ []
unfolding explode_string
explodes = refl

explode_zerocopy-split_example :
    texts (explode_zerocopy (view (codes "a&b")) b'&') ≡ split b'&' (codes "a&b")
explode_zerocopy-split_example =
    explode_zerocopy-split (view (codes "a&b")) b'&' (λ e. cc) (omega arith)
