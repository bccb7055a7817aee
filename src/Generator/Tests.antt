-- ===== src/Generator/Tests.antt =====
-- Runs of the generator.
use marisa.Prelude.{
  pos, negsuc, ◌≡◌, inr, refl, List, [], ◌∷◌, Bytes, codes, ok, fault, print_number, arith,
}
use marisa.Generator.{find_status, copy_to, resize, generate_headers}
use marisa.Generator.Head.{generate_headers-head}

abbrev two_headers : List (Bytes × Bytes)
two_headers = (codes "Content-Length", codes "12") ∷ (codes "Server", codes "Marisa") ∷ []

generate_headers-head_example :
    generate_headers (pos 20) (pos 200) 404 two_headers
    ≡ ok (
        codes
          "HTTP/1.1 404 Not Found\r\nContent-Length: 12\r\nServer: Marisa\r\nConnection: Keep-Alive\r\nKeep-Alive: timeout=20, max=200\r\n\r\n")
unfolding find_status print_number
generate_headers-head_example =
    generate_headers-head (pos 20) (pos 200) 404 two_headers (inr (omega arith)) (omega arith)

-- A maximum of -1 prints as ten digits: with a timeout of two, the NUL is one byte out of bounds.
out_of_bounds : generate_headers (pos 20) (negsuc 0) 200 [] ≡ fault
unfolding generate_headers find_status print_number copy_to resize
out_of_bounds = refl
