-- ===== src/Utilities/Pages.antt =====
-- What the status pages hold.
use marisa.Prelude.{ℕ, ◌≡◌, ◌++◌, append_assoc, Bytes, replicate}
use marisa.Utilities.{http_status_page, http_status_page_append, http_status_page_v}

-- The page that a fresh vector gets stands behind 1024 zero bytes, so the vector is not the page; the
-- variant that appends to a given vector and the one that returns a string agree.
http_status_page_v-page :
    (http_status_str : ℕ → Bytes) (v : Bytes) (status : ℕ)
    → (http_status_page_v http_status_str status
        ≡ replicate 1024 0 ++ http_status_page http_status_str status)
      × (http_status_page_append http_status_str v status
          ≡ v ++ http_status_page http_status_str status)
http_status_page_v-page http_status_str v status =
    (unfold http_status_page_v in append_lem (replicate 1024 0), append_lem v)
  where
    append_lem :
        (w : Bytes)
        → http_status_page_append http_status_str w status
          ≡ w ++ http_status_page http_status_str status
    append_lem w = unfold http_status_page_append http_status_page in simp append_assoc
