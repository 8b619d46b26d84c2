-- ===== src/Base/Reads.antt =====
-- Reads within the bounds of a slice do not fault.
use pce_testing.Base.{ℕ, ◌+◌, ◌≤◌, ◌<◌, List, [], ◌∷◌, arith, Ends, length, drop, length-drop}
use pce_testing.Base.Bytes.{index, slice, read16, read32, read64, slice_in_range, index_in_range}

module _ (E : Type 0) where
  pub read16-Ends : (xs : List ℕ) → 2 ≤ length xs → Ends (read16 {E = E} xs)
  read16-Ends [] h = absurd (omega arith)
  read16-Ends (a ∷ []) h = absurd (omega arith)
  read16-Ends (a ∷ b ∷ r) h = unfold read16 in tt

  pub read32-Ends : (xs : List ℕ) → 4 ≤ length xs → Ends (read32 {E = E} xs)
  read32-Ends (a ∷ b ∷ c ∷ d ∷ r) h = unfold read32 in tt
  read32-Ends _ h = absurd (omega arith)

  pub read64-Ends : (xs : List ℕ) → 8 ≤ length xs → Ends (read64 {E = E} xs)
  read64-Ends (a ∷ b ∷ c ∷ d ∷ e ∷ f ∷ g ∷ h ∷ r) l = unfold read64 in tt
  read64-Ends _ l = absurd (omega arith)

  pub index-Ends : (xs : List ℕ) (i : ℕ) → i < length xs → Ends (index {E = E} xs i)
  index-Ends xs i h = rw (index_in_range {E = E} xs i h) tt

  pub slice-Ends : (xs : List ℕ) (a b : ℕ) → a ≤ b → b ≤ length xs → Ends (slice {E = E} xs a b)
  slice-Ends xs a b p q = rw (slice_in_range {E = E} xs a b p q) tt

  -- A read at an offset.
  pub read16_at-Ends : (xs : List ℕ) (i : ℕ) → i + 2 ≤ length xs → Ends (read16 {E = E} (drop i xs))
  read16_at-Ends xs i h = read16-Ends (drop i xs) (omega (arith, length-drop i xs))

  pub read32_at-Ends : (xs : List ℕ) (i : ℕ) → i + 4 ≤ length xs → Ends (read32 {E = E} (drop i xs))
  read32_at-Ends xs i h = read32-Ends (drop i xs) (omega (arith, length-drop i xs))
