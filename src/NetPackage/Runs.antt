-- ===== src/NetPackage/Runs.antt =====
-- The theorems at concrete messages.
use egg.Base.{ℕ, ◌≡◌, refl, true, List, [], ◌∷◌, ◌++◌, some, map, arith}
use egg.Base.Bytes.{zeros, zeros_size}
use egg.NetPackage.{NetPackage, unit_header, add, fetch}
use egg.NetPackage.Layout.{Holds, add_lem}
use egg.NetPackage.Fetch.{bytes_at, fetch_lem}

abbrev two_units : List (ℕ × List ℕ)
two_units = (1, 7 ∷ 8 ∷ 9 ∷ []) ∷ (2, 5 ∷ []) ∷ []

abbrev message : NetPackage
message = record {
  op = 3;
  e_size = 20;
  a_size = 22;
  bytes =
      1 ∷ 0 ∷ 0 ∷ 0 ∷ 3 ∷ 0 ∷ 0 ∷ 0 ∷ 7 ∷ 8 ∷ 9 ∷ 2 ∷ 0 ∷ 0 ∷ 0 ∷ 1 ∷ 0 ∷ 0 ∷ 0 ∷ 5 ∷ 0 ∷ 0 ∷ [];
}

message-Holds : Holds message two_units
unfolding unit_header
message-Holds = record {
  behind = 0 ∷ 0 ∷ [];
  front = refl;
  used = refl;
  block = refl;
  positive = omega arith;
  small = omega arith;
}

add_lem_example :
    (p : NetPackage) × (add zeros message (some (4 ∷ 4 ∷ [])) 2 6 ≡ some p)
    × Holds p (two_units ++ ((6, 4 ∷ 4 ∷ []) ∷ []))
add_lem_example =
    add_lem zeros zeros_size message two_units (4 ∷ 4 ∷ []) 6 message-Holds (omega arith)

fetch_lem_example :
    (found : List (ℕ × ℕ)) × (fetch message 3 ≡ some (true, found))
    × (map (bytes_at message) found ≡ (7 ∷ 8 ∷ 9 ∷ []) ∷ (5 ∷ []) ∷ [])
fetch_lem_example = fetch_lem message two_units 3 message-Holds (omega arith)
