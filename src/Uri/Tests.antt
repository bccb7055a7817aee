-- ===== src/Uri/Tests.antt =====
-- Tests of the percent coders, and the theorems at concrete inputs.
use marisa.Prelude.{◌+◌, ◌≤◌, ◌≡◌, refl, [], ◌∷◌, Bytes, codes, length, arith}
use marisa.Uri.{
  encode_uri, encode_uri_component, is_escape, escaped, decode_uri_component, decode_uri,
}
use marisa.Uri.RoundTrip.{decode_uri_component-encode_uri_component}
use marisa.Uri.Bounds.{length-encode}
use marisa.Uri.Charset.{is_unreserved, is_uri_char, percent_encoded, encode-eq-percent_encoded}

encodes : encode_uri_component (codes "a b=1/~") ≡ codes "a%20b%3D1%2F~"
unfolding encode_uri_component
encodes = refl

decodes : decode_uri_component (codes "%41%2f%zz%4") [] ≡ codes "A/%zz%4"
unfolding decode_uri_component is_escape escaped
decodes = refl

keeps_delimiters : decode_uri (codes "a%3db%26%2Bc%20") [] ≡ codes "a%3Db%26%2Bc "
unfolding decode_uri is_escape escaped
keeps_delimiters = refl

-- A view that ends inside an escape is read on past its end.
reads_on : decode_uri_component (codes "%4") (codes "1") ≡ codes "A"
unfolding decode_uri_component is_escape escaped
reads_on = refl

abbrev sample : Bytes
sample = 0 ∷ 255 ∷ codes "x=%41&"

decode_uri_component-encode_uri_component_example :
    decode_uri_component (encode_uri_component sample) (codes "41") ≡ sample
decode_uri_component-encode_uri_component_example =
    decode_uri_component-encode_uri_component sample (codes "41") (omega arith)

length-encode_example :
    (length (encode_uri sample) + 1 ≤ 25) × (length (encode_uri_component sample) + 1 ≤ 25)
length-encode_example = length-encode sample

encode-eq-percent_encoded_example :
    (encode_uri_component sample ≡ percent_encoded is_unreserved sample)
    × (encode_uri sample ≡ percent_encoded is_uri_char sample)
encode-eq-percent_encoded_example = encode-eq-percent_encoded sample (omega arith)
