-- ===== src/Base/Bytes.antt =====
-- Go's byte slices as lists of numbers: indexing and slicing with their run-time faults, and the
-- big-endian accessors of encoding/binary that the packet code calls.
use pce_testing.Base.{
  ℕ, zero, suc, ◌+◌, ◌-◌, ◌*◌, ◌/◌, ◌%◌, ◌^◌, ◌≤◌, ◌<◌, ◌≡◌, refl, ap, ◌&&◌, List, [], ◌∷◌, ◌++◌,
  arith, Result, ok, panic, leb, if◌then◌else◌, length, get_or, take, drop, All, length-take,
  length-drop,
}

abbrev pub IsByte : ℕ → Type 0
IsByte b = b < 256

abbrev pub IsU16 : ℕ → Type 0
IsU16 v = v < 2 ^ 16

abbrev pub IsU32 : ℕ → Type 0
IsU32 v = v < 2 ^ 32

-- Conversions between widths keep the low bits.
abbrev pub u8 : ℕ → ℕ
u8 n = n % 256

abbrev pub u16 : ℕ → ℕ
u16 n = n % 65536

abbrev pub u32 : ℕ → ℕ
u32 n = n % 4294967296

-- `xs[i]`.
unfoldable pub index : {E : Type 0} → List ℕ → ℕ → Result E ℕ
index [] i = panic
index (x ∷ xs) zero = ok x
index (x ∷ xs) (suc i) = index xs i

-- `xs[a:b]`, of a slice whose capacity is its length, or where b was checked against the length. Go
-- compares b with the capacity: `slice_within` has, too, what lies beyond the slice in its array.
unfoldable pub slice : {E : Type 0} → List ℕ → ℕ → ℕ → Result E (List ℕ)
slice xs a b = if leb a b && leb b (length xs) then ok (take (b - a) (drop a xs)) else panic

unfoldable pub slice_within : {E : Type 0} → List ℕ → List ℕ → ℕ → ℕ → Result E (List ℕ)
unfolding slice
slice_within xs beyond a b = slice (xs ++ beyond) a b

-- binary.BigEndian.Uint16, Uint32 and Uint64 read the front of a slice.
abbrev pub be16 : ℕ → ℕ → ℕ
be16 a b = a * 256 + b

abbrev pub be32 : ℕ → ℕ → ℕ → ℕ → ℕ
be32 a b c d = be16 a b * 65536 + be16 c d

unfoldable pub read16 : {E : Type 0} → List ℕ → Result E ℕ
read16 (a ∷ b ∷ _) = ok (be16 a b)
read16 _ = panic

unfoldable pub read32 : {E : Type 0} → List ℕ → Result E ℕ
read32 (a ∷ b ∷ c ∷ d ∷ _) = ok (be32 a b c d)
read32 _ = panic

unfoldable pub read64 : {E : Type 0} → List ℕ → Result E ℕ
read64 (a ∷ b ∷ c ∷ d ∷ e ∷ f ∷ g ∷ h ∷ _) = ok (be32 a b c d * 4294967296 + be32 e f g h)
read64 _ = panic

-- binary.BigEndian.PutUint16, PutUint32 and PutUint64 write all the bytes of a number.
unfoldable pub put16 : ℕ → List ℕ
put16 v = v / 256 % 256 ∷ v % 256 ∷ []

unfoldable pub put32 : ℕ → List ℕ
put32 v = v / 16777216 % 256 ∷ v / 65536 % 256 ∷ v / 256 % 256 ∷ v % 256 ∷ []

unfoldable pub put64 : ℕ → List ℕ
unfolding put32
put64 v = put32 (v / 4294967296) ++ put32 (v % 4294967296)

pub put16_read :
    {E : Type 0} (v : ℕ) (xs : List ℕ) → IsU16 v → read16 {E = E} (put16 v ++ xs) ≡ ok v
unfolding read16 put16
put16_read v xs h = ap ok (omega arith)

pub put32_read :
    {E : Type 0} (v : ℕ) (xs : List ℕ) → IsU32 v → read32 {E = E} (put32 v ++ xs) ≡ ok v
unfolding read32 put32
put32_read v xs h = ap ok (omega arith)

pub put64_read :
    {E : Type 0} (v : ℕ) (xs : List ℕ) → v < 2 ^ 64 → read64 {E = E} (put64 v ++ xs) ≡ ok v
unfolding read64 put64
put64_read v xs h = ap ok (omega arith)

pub put16-IsByte : (v : ℕ) → All IsByte (put16 v)
unfolding put16
put16-IsByte v = omega arith

pub put32-IsByte : (v : ℕ) → All IsByte (put32 v)
unfolding put32
put32-IsByte v = omega arith

-- No fault within the bounds.
pub index_in_range :
    {E : Type 0} (xs : List ℕ) (i : ℕ) → i < length xs → index {E = E} xs i ≡ ok (get_or xs i 0)
unfolding index
index_in_range [] i h = elim h [ ]
index_in_range (x ∷ xs) zero h = refl
index_in_range (x ∷ xs) (suc i) h = index_in_range xs i (omega arith)

pub slice_in_range :
    {E : Type 0} (xs : List ℕ) (a b : ℕ)
    → a ≤ b
    → b ≤ length xs
    → slice {E = E} xs a b ≡ ok (take (b - a) (drop a xs))
unfolding slice
slice_in_range xs a b p q = ground arith

pub length-slice :
    (xs : List ℕ) (a b : ℕ) → a ≤ b → b ≤ length xs → length (take (b - a) (drop a xs)) ≡ b - a
length-slice xs a b p q = omega (arith, length-take (b - a) (drop a xs), length-drop a xs)
