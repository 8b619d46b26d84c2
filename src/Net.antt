-- ===== src/Net.antt =====
-- The parts of Go's net/netip and unicode/utf8 that the source uses: an address is the zero value,
-- four bytes, or sixteen bytes with a zone; a Go string is its bytes.
pub mod Equality
pub mod Parse
use pce_testing.Base.{
  ℕ, zero, suc, ◌/◌, ◌*◌, ◌-◌, ◌^◌, Option, none, some, Bool, true, false, ◌&&◌, ◌||◌, List, [],
  ◌∷◌, leb, ltb, ◌==◌, if◌then◌else◌, take, drop,
}

pub data Addr : Type 0 where
  invalid : Addr
  v4 : List ℕ → Addr
  v6 : List ℕ → List ℕ → Addr

abbrev pub is_valid : Addr → Bool
is_valid invalid = false
is_valid _ = true

abbrev pub is4 : Addr → Bool
is4 (v4 b) = true
is4 _ = false

-- Is6 includes the IPv4-mapped addresses.
abbrev pub is6 : Addr → Bool
is6 (v6 b z) = true
is6 _ = false

abbrev pub as_slice : Addr → List ℕ
as_slice invalid = []
as_slice (v4 b) = b
as_slice (v6 b z) = b

-- AddrFromSlice, whose callers drop the second result: the zero Addr for any other length.
unfoldable pub addr_from_slice : List ℕ → Addr
addr_from_slice (a ∷ b ∷ c ∷ d ∷ []) = v4 (a ∷ b ∷ c ∷ d ∷ [])
addr_from_slice (a ∷ b ∷ c ∷ d ∷ e ∷ f ∷ g ∷ h ∷ i ∷ j ∷ k ∷ l ∷ m ∷ n ∷ o ∷ p ∷ []) =
    v6 (a ∷ b ∷ c ∷ d ∷ e ∷ f ∷ g ∷ h ∷ i ∷ j ∷ k ∷ l ∷ m ∷ n ∷ o ∷ p ∷ []) []
addr_from_slice _ = invalid

unfoldable pub bytes_eq : List ℕ → List ℕ → Bool
bytes_eq [] [] = true
bytes_eq (a ∷ x) (b ∷ y) = a == b && bytes_eq x y
bytes_eq _ _ = false

-- Go's == on addresses compares the zone too.
unfoldable pub addr_eq : Addr → Addr → Bool
unfolding bytes_eq
addr_eq invalid invalid = true
addr_eq (v4 a) (v4 b) = bytes_eq a b
addr_eq (v6 a y) (v6 b z) = bytes_eq a b && bytes_eq y z
addr_eq _ _ = false

abbrev mapped_prefix : List ℕ
mapped_prefix = 0 ∷ 0 ∷ 0 ∷ 0 ∷ 0 ∷ 0 ∷ 0 ∷ 0 ∷ 0 ∷ 0 ∷ 255 ∷ 255 ∷ []

unfoldable pub unmap : Addr → Addr
unfolding bytes_eq
unmap (v6 b z) = if bytes_eq (take 12 b) mapped_prefix then v4 (drop 12 b) else v6 b z
unmap a = a

-- The first n bits of some bytes, with zeros after them.
unfoldable pub mask_bits : ℕ → List ℕ → List ℕ
mask_bits n [] = []
mask_bits n (b ∷ bs) =
    let rest = mask_bits (n - 8) bs in
    if leb 8 n then b ∷ rest else (b / 2 ^ (8 - n) * 2 ^ (8 - n)) ∷ rest

-- `Addr.Prefix`: the masked address without its zone, and the number of bits.
unfoldable pub addr_prefix : Addr → ℕ → Option (Addr × ℕ)
unfolding mask_bits
addr_prefix invalid n = none
addr_prefix (v4 b) n = if ltb 32 n then none else some (v4 (mask_bits n b), n)
addr_prefix (v6 b z) n = if ltb 128 n then none else some (v6 (mask_bits n b) [], n)

-- `Prefix.Contains`, of a prefix that is masked.
unfoldable pub prefix_contains : Addr → ℕ → Addr → Bool
unfolding mask_bits bytes_eq
prefix_contains (v4 p) n (v4 b) = bytes_eq (mask_bits n b) p
prefix_contains (v6 p z) n (v6 b []) = bytes_eq (mask_bits n b) p
prefix_contains _ n _ = false

link_local_bytes : List ℕ → Bool
link_local_bytes (a ∷ b ∷ _) = a == 254 && b / 64 == 2
link_local_bytes _ = false

link_local_bytes_v4 : List ℕ → Bool
link_local_bytes_v4 (a ∷ b ∷ _) = a == 169 && b == 254
link_local_bytes_v4 _ = false

unfoldable pub is_link_local_unicast : Addr → Bool
unfolding link_local_bytes link_local_bytes_v4
is_link_local_unicast invalid = false
is_link_local_unicast (v4 b) = link_local_bytes_v4 b
is_link_local_unicast (v6 b z) = link_local_bytes b

-- utf8.Valid: after a first byte, the number of bytes that follow it and the range of the next.
abbrev between : ℕ → ℕ → ℕ → Bool
between lo hi b = leb lo b && leb b hi

utf8_first : ℕ → Bool
utf8_first a = ltb a 0x80 || between 0xc2 0xf4 a

utf8_more : ℕ → ℕ
utf8_more a = if ltb a 0x80 then 0 else if ltb a 0xe0 then 1 else if ltb a 0xf0 then 2 else 3

utf8_low : ℕ → ℕ
utf8_low a = if a == 0xe0 then 0xa0 else if a == 0xf0 then 0x90 else 0x80

utf8_high : ℕ → ℕ
utf8_high a = if a == 0xed then 0x9f else if a == 0xf4 then 0x8f else 0xbf

utf8_from : ℕ → ℕ → ℕ → List ℕ → Bool
utf8_from zero lo hi [] = true
utf8_from (suc k) lo hi [] = false
utf8_from zero lo hi (a ∷ r) = utf8_first a && utf8_from (utf8_more a) (utf8_low a) (utf8_high a) r
utf8_from (suc k) lo hi (b ∷ r) = between lo hi b && utf8_from k 0x80 0xbf r

unfoldable pub utf8_valid : List ℕ → Bool
unfolding utf8_from utf8_first utf8_more utf8_low utf8_high
utf8_valid bytes = utf8_from 0 0 0 bytes
