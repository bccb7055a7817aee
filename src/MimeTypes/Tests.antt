-- ===== src/MimeTypes/Tests.antt =====
-- Runs of the table.
use marisa.Prelude.{◌≡◌, refl, codes, bytes_eq, to_lower, find}
use marisa.MimeTypes.{get_mime_type}

png : get_mime_type (codes "PNG") ≡ codes "image/png"
unfolding get_mime_type find bytes_eq to_lower
png = refl

-- The value for this extension has no subtype.
xml : get_mime_type (codes "xml") ≡ codes "application"
unfolding get_mime_type find bytes_eq to_lower
xml = refl
