-- ===== src/Middlewares/Tests.antt =====
-- A redirection of a response that nothing was sent of.
use marisa.Prelude.{
  negsuc, inl, pos, ◌≡◌, refl, true, false, none, some, [], ◌++◌, codes, ok, find, arith,
}
use marisa.Buffer.{empty_buffer}
use marisa.Generator.Head.{status_line, header_lines, keepalive_lines}
use marisa.Response.{Response, push}
use marisa.Middlewares.{Redirection, redirection_handler, redirected, redirection_handler_lem}

abbrev fresh : Response
fresh = record {
  headers = [];
  status = 200;
  type = codes "text/html";
  headers_sent = false;
  buf_write = empty_buffer;
  has_yield_context = false;
  calls = [];
}

abbrev to_login : Redirection
to_login = record { location = codes "/login"; status_code = 302 }

redirection_handler_lem_example :
    (redirection_handler (negsuc 0) (pos 0) to_login fresh
      ≡ ok (
        record { location = []; status_code = 302 },
        push
            (status_line 302
              ++ (header_lines (redirected (negsuc 0) (pos 0) to_login fresh)
                  ++ (keepalive_lines (negsuc 0) (pos 0) ++ codes "\r\n")))
            (record fresh {
              headers = redirected (negsuc 0) (pos 0) to_login fresh;
              status = 302;
              type = [];
              headers_sent = true;
            }),
      ))
    × (find (codes "Location") (redirected (negsuc 0) (pos 0) to_login fresh)
        ≡ some (codes "/login"))
    × (find (codes "Content-Length") (redirected (negsuc 0) (pos 0) to_login fresh) ≡ none)
    × (find (codes "Transfer-Encoding") (redirected (negsuc 0) (pos 0) to_login fresh) ≡ none)
unfolding find
redirection_handler_lem_example =
    redirection_handler_lem (negsuc 0) (pos 0) to_login fresh (inl refl) (omega arith) refl
