-- ===== src/Statuses/Tests.antt =====
-- Runs of the status names.
use marisa.Prelude.{◌≡◌, refl, codes, bytes_eq, to_upper, raise, invalid_argument, find}
use marisa.Statuses.{status_assign}

-- The phrase of 451 is not the name in the table.
phrase_451 : status_assign (codes "Unavailable For Illegal Reasons") ≡ raise invalid_argument
unfolding status_assign find bytes_eq to_upper
phrase_451 = refl
