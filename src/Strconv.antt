-- ===== src/Strconv.antt =====
-- Itoa and ParseUint(_, 10, 32) of Go's strconv, on the bytes of a text.
use pce_testing.Base.{
  ℕ, zero, suc, ◌+◌, ◌-◌, ◌*◌, ◌/◌, ◌%◌, ◌&&◌, List, [], ◌∷◌, ◌++◌, Option, none, some, ltb, leb,
  if◌then◌else◌,
}

-- The decimal digits of a number, with more rounds than it has digits.
unfoldable pub digits : ℕ → ℕ → List ℕ
digits zero n = []
digits (suc fuel) n =
    let front = digits fuel (n / 10) in
    if ltb n 10 then (48 + n) ∷ [] else front ++ (48 + n % 10) ∷ []

-- A number of 64 bits has 20 digits at most.
unfoldable pub itoa : ℕ → List ℕ
unfolding digits
itoa n = digits 20 n

unfoldable pub read_digits : ℕ → List ℕ → Option ℕ
read_digits v [] = some v
read_digits v (c ∷ cs) =
    let rest = read_digits (v * 10 + (c - 48)) cs in if leb 48 c && leb c 57 then rest else none

abbrev below32 : Option ℕ → Option ℕ
below32 none = none
below32 (some v) = if ltb v 4294967296 then some v else none

unfoldable pub parse_uint32 : List ℕ → Option ℕ
unfolding read_digits
parse_uint32 [] = none
parse_uint32 (c ∷ cs) = below32 (read_digits 0 (c ∷ cs))
