-- ===== src/Net/Parse.antt =====
-- ParseAddr of Go's net/netip, on the bytes of a text.
use pce_testing.Base.{
  ℕ, zero, suc, ◌+◌, ◌-◌, ◌*◌, ◌/◌, ◌%◌, Bool, true, false, not, ◌&&◌, ◌||◌, List, [], ◌∷◌, ◌++◌,
  Option, none, some, ltb, leb, ◌==◌, if◌then◌else◌, length, take, drop, replicate,
}
use mathlib.Core.Option
use pce_testing.Net.{Addr, v4, v6}

-- The bytes before the first `c`, and those behind it if there is one.
unfoldable pub split_at_byte : ℕ → List ℕ → List ℕ × Option (List ℕ)
split_at_byte c [] = ([], none)
split_at_byte c (b ∷ bs) =
    let rest = split_at_byte c bs in if b == c then ([], some bs) else (b ∷ rest.0, rest.1)

abbrev is_digit : ℕ → Bool
is_digit c = leb 48 c && leb c 57

-- A field of an IPv4 address: its value so far and the number of its digits.
unfoldable pub ipv4_octet : ℕ → ℕ → List ℕ → Option (ℕ × List ℕ)
ipv4_octet v n [] = if n == 0 then none else some (v, [])
ipv4_octet v n (c ∷ cs) =
    let more = ipv4_octet (v * 10 + (c - 48)) (n + 1) cs in
    if is_digit c
    then (if n == 1 && v == 0 then none else if ltb 255 (v * 10 + (c - 48)) then none else more)
    else if n == 0
    then none
    else some (v, c ∷ cs)

-- A number of further fields, each behind a dot, up to the end.
unfoldable pub ipv4_fields : ℕ → List ℕ → Option (List ℕ)
unfolding ipv4_octet
ipv4_fields zero [] = some []
ipv4_fields zero (c ∷ cs) = none
ipv4_fields (suc k) [] = none
ipv4_fields (suc k) (c ∷ cs) = elim (ipv4_octet 0 0 cs) [
  | none ↦ none
  | some (v, rest) ↦
      (let more = Option.map (λ vs. v ∷ vs) (ipv4_fields k rest) in if c == 46 then more else none)
]

unfoldable pub parse_ipv4_fields : List ℕ → Option (List ℕ)
unfolding ipv4_fields
parse_ipv4_fields s = ipv4_fields 4 (46 ∷ s)

unfoldable pub hex_digit : ℕ → Option ℕ
hex_digit c =
    if is_digit c
    then some (c - 48)
    else if leb 97 c && leb c 102
    then some (c - 87)
    else if leb 65 c && leb c 70
    then some (c - 55)
    else none

-- A group of hexadecimal digits: its value, the number of its digits and the rest.
unfoldable pub hex_group : ℕ → ℕ → List ℕ → ℕ × ℕ × List ℕ
hex_group v n [] = (v, n, [])
hex_group v n (c ∷ cs) = elim (hex_digit c) [
  | none ↦ (v, n, c ∷ cs)
  | some d ↦ hex_group (v * 16 + d) (n + 1) cs
]

-- The end of the loop over the groups: the bytes, and where the `::` stands.
abbrev expanded : List ℕ → Option ℕ → Option (List ℕ)
expanded ip none = if length ip == 16 then some ip else none
expanded ip (some e) =
    if ltb (length ip) 16
    then some (take e ip ++ (replicate (16 - length ip) 0 ++ drop e ip))
    else none

-- The groups, from a text with no zone; `ip` has the bytes so far. Each round reads two of them.
unfoldable pub ipv6_groups : ℕ → List ℕ → Option ℕ → List ℕ → Option (List ℕ)
unfolding hex_group hex_digit parse_ipv4_fields
ipv6_groups zero ip ellipsis s = if length s == 0 then expanded ip ellipsis else none
ipv6_groups (suc fuel) ip ellipsis s =
    let (v, n, rest) = hex_group 0 0 s in
    let ip' = ip ++ (v / 256 ∷ v % 256 ∷ []) in
    if n == 0 || ltb 4 n then none else (elim rest [
      | [] ↦ expanded ip' ellipsis
      | c ∷ cs ↦
          if c == 46
          then (if not (length ip == 12) && no_ellipsis ellipsis || ltb 12 (length ip)
              then none
              else elim (parse_ipv4_fields s) [
                | none ↦ none
                | some q ↦ expanded (ip ++ q) ellipsis
              ])
          else if not (c == 58)
          then none
          else (elim cs [
            | [] ↦ none
            | d ∷ ds ↦
                if d == 58
                then (if no_ellipsis ellipsis
                    then (elim ds [
                      | [] ↦ expanded ip' (some (length ip'))
                      | e ∷ es ↦ ipv6_groups fuel ip' (some (length ip')) (e ∷ es)
                    ])
                    else none)
                else ipv6_groups fuel ip' ellipsis (d ∷ ds)
          ])
    ])
  where
    no_ellipsis : Option ℕ → Bool
    no_ellipsis none = true
    no_ellipsis (some e) = false

abbrev at_ellipsis : List ℕ → Option (List ℕ)
at_ellipsis [] = some (replicate 16 0)
at_ellipsis (c ∷ cs) = ipv6_groups 8 [] (some 0) (c ∷ cs)

-- The bytes of an IPv6 address, from a text with no zone.
unfoldable pub ipv6_bytes : List ℕ → Option (List ℕ)
unfolding ipv6_groups
ipv6_bytes (a ∷ b ∷ s) =
    if a == 58 && b == 58 then at_ellipsis s else ipv6_groups 8 [] none (a ∷ b ∷ s)
ipv6_bytes s = ipv6_groups 8 [] none s

abbrev with_zone : Option (List ℕ) → List ℕ → Option Addr
with_zone none t = Option.map (λ b. v6 b []) (ipv6_bytes t)
with_zone (some []) t = none
with_zone (some (z ∷ zs)) t = Option.map (λ b. v6 b (z ∷ zs)) (ipv6_bytes t)

unfoldable pub parse_ipv6 : List ℕ → Option Addr
unfolding split_at_byte ipv6_bytes
parse_ipv6 s = let (t, zone) = split_at_byte 37 s in with_zone zone t

-- The first dot, colon or percent sign decides.
unfoldable pub parse_form : List ℕ → List ℕ → Option Addr
unfolding parse_ipv4_fields parse_ipv6
parse_form s [] = none
parse_form s (c ∷ cs) =
    let rest = parse_form s cs in
    if c == 46
    then Option.map v4 (parse_ipv4_fields s)
    else if c == 58
    then parse_ipv6 s
    else if c == 37
    then none
    else rest

unfoldable pub parse_addr : List ℕ → Option Addr
unfolding parse_form
parse_addr s = parse_form s s
