-- ===== src/StaticFiles/Tests.antt =====
-- Runs of the static files.
use marisa.Prelude.{
  ◌≡◌, ◌⊎◌, refl, true, false, none, some, [], ◌∷◌, codes, bytes_eq, to_lower, find_text,
  starts_with, All, ok, find,
}
use marisa.Uri.{decode_uri_component, is_escape, escaped}
use marisa.MimeTypes.{get_mime_type}
use marisa.StaticFiles.{
  enotdir, FileSystem, listing, stat_paths, sends_file, teapot, Visit, serve_file, open_path, visit,
  handler, c_str, content_type, extension,
}
use marisa.StaticFiles.Reached.{IsReached, NoDots, handler-IsReached}

-- A file system in which every path is a file.
abbrev files : FileSystem
files = record {
  stat = λ p. none;
  opendir = λ p. some enotdir;
  maps = λ p. true;
  readdir = λ p. [];
}

served :
    handler files (codes "/srv") false (codes "/a.png" ∷ codes "a.png" ∷ []) 1
    ≡ ok (record {
      answer = sends_file (codes "/srv/a.png") (codes "image/png");
      reached = codes "/srv/a.png" ∷ codes "/srv/a.png/" ∷ codes "/srv/a.png" ∷ [];
    })
unfolding handler visit open_path serve_file content_type extension c_str get_mime_type find
    bytes_eq decode_uri_component is_escape find_text starts_with to_lower
served = refl

-- Dots that are encoded are seen too.
encoded_dots :
    handler files (codes "/srv") false (codes "%2E%2e/x" ∷ []) 0
    ≡ ok (record { answer = teapot; reached = [] })
unfolding handler visit decode_uri_component is_escape escaped find_text starts_with
encoded_dots = refl

-- A file system in which every path is a directory.
abbrev directories : FileSystem
directories = record {
  stat = λ p. none;
  opendir = λ p. none;
  maps = λ p. false;
  readdir = λ p. codes "." ∷ codes ".." ∷ codes "b" ∷ [];
}

-- The listing looks up the directory above the base, and the entries of a/ in the base.
listed :
    handler directories (codes "/srv") true (codes "a" ∷ []) 0
    ≡ ok (record {
      answer = listing;
      reached = codes "/srv/a" ∷ codes "/srv/a/" ∷ codes "/srv/.." ∷ codes "/srv/b" ∷ [];
    })
unfolding handler visit open_path stat_paths c_str bytes_eq decode_uri_component is_escape find_text
    starts_with
listed = refl

handler-IsReached_example :
    (v : Visit) × (handler directories (codes "/srv") true (codes "a%2Fb" ∷ []) 0 ≡ ok v)
    × All
        (IsReached directories (codes "/srv") true (decode_uri_component (codes "a%2Fb") []))
        v.reached
    × ((v.reached ≡ []) ⊎ NoDots (decode_uri_component (codes "a%2Fb") []))
handler-IsReached_example =
    handler-IsReached directories (codes "/srv") true (codes "a%2Fb" ∷ []) 0 (codes "a%2Fb") refl
