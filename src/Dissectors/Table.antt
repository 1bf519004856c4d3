-- ===== src/Dissectors/Table.antt =====
-- The loop that the tables of dhcp.c, dns.c and http.c are searched with.
use open_sniffer.Base.{ℕ, String, Option, none, some, List, [], ◌∷◌, ◌==◌, if◌then◌else◌}

-- The value of the first entry with the key.
unfoldable pub find_value : ℕ → List (ℕ × String) → Option String
find_value key [] = none
find_value key ((k, v) ∷ table) = if k == key then some v else find_value key table

abbrev pub or_default : Option String → String → String
or_default none d = d
or_default (some v) d = v
