-- ===== src/Methods/Names.antt =====
-- Method names against method numbers.
use marisa.Prelude.{
  ℕ, ◌≡◌, refl, sym, ◌∙◌, Bool, true, Option, none, some, List, [], map, Bytes, bytes_eq,
  bytes_eq_iff, to_upper, get_or, all, Result, ok, raise, invalid_argument, find, find-all,
}
use marisa.Methods.{table_method_enum, method_assign}

abbrev names : List Bytes
names = map (λ e. e.0) table_method_enum

-- The method of a name is the name's place in the table.
abbrev is_place : Bytes → ℕ → Bool
is_place name method = bytes_eq (get_or names method []) name

places : all (λ e. is_place e.0 e.1) table_method_enum ≡ true
unfolding bytes_eq
places = refl

method_assign_found :
    (name : Bytes) (method : ℕ)
    → method_assign name ≡ ok method
    → find (map to_upper name) table_method_enum ≡ some method
unfolding method_assign
method_assign_found name method e = go (find (map to_upper name) table_method_enum) e
  where
    go :
        (o : Option ℕ)
        → ◌≡◌ {A = Result ℕ} (elim o [ none ↦ raise invalid_argument | some m ↦ ok m ]) (ok method)
        → o ≡ some method
    go none h = cc
    go (some m) h = cc

method_assign_name :
    (name : Bytes) (method : ℕ)
    → method_assign name ≡ ok method
    → get_or names method [] ≡ map to_upper name
method_assign_name name method e = (bytes_eq_iff _ _).0 (
    find-all is_place (map to_upper name) method table_method_enum places
      (method_assign_found name method e))

-- Two method names stand for one method only if they are equal but for case.
method_assign-injective :
    (a b : Bytes) (method : ℕ)
    → method_assign a ≡ ok method
    → method_assign b ≡ ok method
    → map to_upper a ≡ map to_upper b
method_assign-injective a b method p q =
    sym (method_assign_name a method p) ∙ method_assign_name b method q
